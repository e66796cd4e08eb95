-- ===== src/Filter/Samples.antt =====
-- Small filters, and what they include.
use clang_uml.Prelude.{
  ℕ, Bool, true, false, not, ◌&&◌, ◌||◌, none, some, List, [], ◌∷◌, String, ◌≡◌, refl, ◌==◌, elem,
  any_of,
}
use clang_uml.Tvl.{Value, is_true, is_false}
use clang_uml.Enums.{RelationshipType, AccessType, ◌is_access◌, ModuleAccess}
use clang_uml.Filter.Members.{
  MethodType, ClassMethod, is_of_type, class_method_match, module_access_match,
  class_method_match-any_of,
}
use clang_uml.Filter.{FilterType, basic, is_inclusive, DiagramFilter, should_include, add_filter}
use clang_uml.Filter.Verdict.{excluded, rejected, should_include-verdict, should_include-add_filter}
use clang_uml.Filter.Groups.{match_anyof, match_allof, groups_reject}
use clang_uml.Filter.Namespaces.{
  NamespaceOrRegex, namespace_pattern, match_namespace, match_namespace-nested,
}
use clang_uml.Filter.Context.{
  ContextConfig, any, is_adjacent, matching, next_context,
  initialize_effective_context_class_diagram,
}
use clang_uml.Filter.Context.Ball.{rounds, initialize_effective_context-rounds}
use clang_uml.ModelPath.{PathType, ModelPath, starts_with, vector_starts_with, search, matches_here}
use clang_uml.ClassDiagram.{Diagram, elements}
use clang_uml.NestedTrait.{no_elements}

abbrev is_three : ℕ → Value
is_three n = some (n == 3)

abbrev no_vote : ℕ → Value
no_vote n = none

-- Includes 3, and what no filter votes on is left.
abbrev threes : DiagramFilter ℕ
threes = record { inclusive = is_three ∷ no_vote ∷ []; exclusive = no_vote ∷ [] }

should_include-verdict_example :
    should_include threes 3
    ≡ (not (excluded threes.exclusive 3) && not (rejected threes.inclusive 3))
should_include-verdict_example = should_include-verdict threes 3

should_include-add_filter_example :
    should_include (add_filter FilterType.k_exclusive is_three threes) 3 ≡ (
      should_include threes 3
      && not (
          (is_inclusive FilterType.k_exclusive && is_false (is_three 3))
          || (not (is_inclusive FilterType.k_exclusive) && is_true (is_three 3))))
should_include-add_filter_example =
    should_include-add_filter FilterType.k_exclusive is_three threes 3

groups_reject_example :
    (is_false (match_anyof FilterType.k_inclusive basic true (is_three ∷ no_vote ∷ []) 4)
      ≡ (not (excluded (is_three ∷ no_vote ∷ []) 4) && rejected (is_three ∷ no_vote ∷ []) 4))
    × (is_false (match_allof (is_three ∷ no_vote ∷ []) 4) ≡ rejected (is_three ∷ no_vote ∷ []) 4)
groups_reject_example = groups_reject FilterType.k_inclusive true (is_three ∷ no_vote ∷ []) 4

abbrev name_space : List String → ModelPath
name_space names = record { path_type = PathType.k_namespace; path = names; is_root = false }

abbrev outer : ModelPath
outer = name_space ("a" ∷ [])

abbrev inner : ModelPath
inner = name_space ("a" ∷ "b" ∷ [])

abbrev patterns : List NamespaceOrRegex
patterns = namespace_pattern inner ∷ []

abbrev no_text : ModelPath → String
no_text ns = ""

inner_in_outer : starts_with inner outer ≡ true
unfolding vector_starts_with search matches_here
inner_in_outer = refl

match_namespace-nested_example :
    (is_true (match_namespace FilterType.k_exclusive patterns no_text outer) ≡ true
      → is_true (match_namespace FilterType.k_exclusive patterns no_text inner) ≡ true)
    × (is_true (match_namespace FilterType.k_inclusive patterns no_text inner) ≡ true
        → is_true (match_namespace FilterType.k_inclusive patterns no_text outer) ≡ true)
match_namespace-nested_example =
    match_namespace-nested patterns no_text inner outer tt refl inner_in_outer

abbrev empty : Diagram
empty = record {
  classes = record { id = 1; full_name = "A"; relationships = [] } ∷ [];
  enums = [];
  concepts = [];
  objc_interfaces = [];
  nested = no_elements;
}

abbrev any_type : RelationshipType → Bool
any_type r = true

abbrev config : ContextConfig
config = record { pattern = λ e. true; radius = 2; direction = any; relationships = [] }

initialize_effective_context_example :
    (initialize_effective_context_class_diagram empty any_type config
      ≡ rounds empty any_type config config.radius (
          matching empty any_type config empty.concepts (
            matching empty any_type config empty.enums
              (matching empty any_type config empty.classes []))))
    × ((ctx : List ℕ) (x : ℕ)
        → elem x (next_context empty any_type config ctx).1 ≡ (
            elem x ctx
            || any_of (λ p. p.id == x && is_adjacent empty any_type config ctx p) (elements empty)))
initialize_effective_context_example = initialize_effective_context-rounds empty any_type config

abbrev copy_assignment : ClassMethod
copy_assignment = record {
  access = AccessType.k_protected;
  is_static = false;
  is_defaulted = true;
  is_deleted = false;
  is_constructor = false;
  is_destructor = false;
  is_move_assignment = false;
  is_copy_assignment = true;
  is_operator = true;
}

class_method_match-any_of_example :
    class_method_match (AccessType.k_public ∷ []) (MethodType.assignment ∷ []) copy_assignment
    ≡ some (
        any_of (λ a. AccessType.k_protected is_access a) (AccessType.k_public ∷ [])
        || any_of (is_of_type copy_assignment) (MethodType.assignment ∷ []))
class_method_match-any_of_example =
    class_method_match-any_of (AccessType.k_public ∷ []) (MethodType.assignment ∷ [])
      copy_assignment

without_module : module_access_match (ModuleAccess.k_public ∷ []) none false ≡ none
unfolding module_access_match
without_module = refl
