-- ===== src/Filter/Ancestry.antt =====
-- `subclass_filter` and `parents_filter` (src/common/model/filters/diagram_filter.cc). A pattern is a test
-- of a name; `escaped` writes `::` for `##` in one (`util::replace_all`).
pub mod Related
mod Samples
use clang_uml.Prelude.{
  ℕ, suc, Bool, true, false, not, ◌||◌, String, Option, none, some, List, [], ◌∷◌, ◌==◌, ◌>>=◌,
  if◌then◌else◌, str_eq, any_of, find_if, length, elem, emplace,
}
use clang_uml.Tvl.{Value}
use clang_uml.ClassDiagram.{DiagramElement, Diagram, get_element_id}
use clang_uml.ClassDiagram.Parents.{get_parents}

-- One more call than there are classes is enough.
abbrev pub all_parents : Diagram → List ℕ → Option (List ℕ)
all_parents d parents = get_parents d (suc (length d.classes)) parents

abbrev pub is_empty {ℓ} : {A : Type ℓ} → List A → Bool
is_empty [] = true
is_empty (_ ∷ _) = false

module _ (escaped : String → String) (d : Diagram) where
  abbrev pub has_name : (String → Bool) → DiagramElement → Bool
  has_name pattern c = pattern c.full_name || pattern (escaped c.full_name)

  -- find<class_>(name)
  unfoldable pub find_class : String → Option DiagramElement
  find_class name = find_if (has_name (str_eq name)) d.classes

  abbrev pub full_name_matches : (String → Bool) → ℕ → Bool
  full_name_matches root id = elim (get_element_id id d.classes) [
    | none ↦ false
    | some c ↦ root c.full_name
  ]

  -- The outer option is none only if the fuel of `get_parents` runs out.
  unfoldable pub subclass_match :
      (is_class complete : Bool) → List (String → Bool) → DiagramElement → Option Value
  subclass_match is_class complete roots e =
      if not is_class
      then some none
      else if is_empty roots
      then some none
      else if not complete
      then some none
      else elim (find_class e.full_name) [
        | none ↦ some (some false)
        | some c ↦ all_parents d (c.id ∷ []) >>= λ parents.
            some (some (any_of (λ root. any_of (full_name_matches root) parents) roots))
      ]

  -- find<class_>(pattern), into the set.
  unfoldable pub emplace_matching : (String → Bool) → List DiagramElement → List ℕ → List ℕ
  emplace_matching pattern [] s = s
  emplace_matching pattern (c ∷ cs) s =
      emplace_matching pattern cs (if has_name pattern c then emplace c.id s else s)

  unfoldable pub matching_children : List (String → Bool) → List ℕ → List ℕ
  unfolding emplace_matching
  matching_children [] s = s
  matching_children (pattern ∷ patterns) s =
      matching_children patterns (emplace_matching pattern d.classes s)

  -- The comparison of elements is one of their names.
  unfoldable pub parents_match :
      (is_class complete : Bool) → List (String → Bool) → DiagramElement → Option Value
  parents_match is_class complete children e =
      if not is_class
      then some none
      else if is_empty children
      then some none
      else if not complete
      then some none
      else all_parents d (matching_children children []) >>= λ parents.
          some (some (any_of (full_name_matches (str_eq e.full_name)) parents))
