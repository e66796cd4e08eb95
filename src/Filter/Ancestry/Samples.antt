-- ===== src/Filter/Ancestry/Samples.antt =====
-- A class that is derived from another, which is derived from a third, and what is found of them.
use clang_uml.Prelude.{
  ℕ, ◌<◌, Bool, true, false, String, Option, none, some, List, [], ◌∷◌, ◌≡◌, refl, ◌↔◌, arith,
  str_eq, any_of, elem, ◌==◌,
}
use clang_uml.Enums.{RelationshipType, AccessType, ◌is_relationship◌}
use clang_uml.NestedTrait.{no_elements}
use clang_uml.ClassDiagram.{Relationship, DiagramElement, Diagram}
use clang_uml.ClassDiagram.Parents.{get_parents}
use clang_uml.ClassDiagram.Parents.Ancestors.{Ancestor, get_parents-Ancestor}
use clang_uml.Filter.Ancestry.{
  matching_children, full_name_matches, subclass_match, parents_match, find_class,
}
use clang_uml.Filter.Ancestry.Related.{
  Reaches, is_child, subclass_match-Reaches, parents_match-Reaches,
}

abbrev extends : ℕ → Relationship
extends destination = record {
  type = RelationshipType.k_extension;
  destination = destination;
  multiplicity_source = "";
  multiplicity_destination = "";
  label = "";
  access = AccessType.k_public;
  is_virtual = false;
}

abbrev derived : DiagramElement
derived = record { id = 3; full_name = "C"; relationships = extends 2 ∷ extends 9 ∷ [] }

abbrev middle : DiagramElement
middle = record { id = 2; full_name = "B"; relationships = extends 1 ∷ [] }

abbrev base : DiagramElement
base = record { id = 1; full_name = "A"; relationships = extends 3 ∷ [] }

abbrev other : DiagramElement
other = record { id = 4; full_name = "D"; relationships = extends 3 ∷ [] }

abbrev diagram : Diagram
diagram = record {
  classes = derived ∷ middle ∷ base ∷ other ∷ [];
  enums = [];
  concepts = [];
  objc_interfaces = [];
  nested = no_elements;
}

abbrev unchanged : String → String
unchanged name = name

abbrev roots : List (String → Bool)
roots = str_eq "A" ∷ []

-- The relationships of the base lead back to the start.
parents_of_derived : get_parents diagram 5 (2 ∷ []) ≡ some (1 ∷ 2 ∷ 3 ∷ [])
unfolding get_parents ◌is_relationship◌ clang_uml.Prelude.emplace
parents_of_derived = refl

is_subclass :
    (subclass_match unchanged diagram true true roots other ≡ some (some true))
    × (subclass_match unchanged diagram true true (str_eq "D" ∷ []) middle ≡ some (some false))
    × (parents_match unchanged diagram true true (str_eq "B" ∷ []) base ≡ some (some true))
    × (parents_match unchanged diagram true true (str_eq "B" ∷ []) other ≡ some (some false))
unfolding subclass_match parents_match find_class get_parents clang_uml.Prelude.emplace
    matching_children
is_subclass = (refl, refl, refl, refl)

get_parents-Ancestor_example :
    (result : List ℕ) × (get_parents diagram 5 (2 ∷ []) ≡ some result)
    × ((x : ℕ)
        → (elem x result ≡ true) ↔ ((p : ℕ) × (elem p (2 ∷ []) ≡ true) × Ancestor diagram p x))
get_parents-Ancestor_example = get_parents-Ancestor diagram 5 (2 ∷ []) (omega arith)

found_other : find_class unchanged diagram "D" ≡ some other
unfolding find_class
found_other = refl

subclass_match-Reaches_example :
    (b : Bool) × (subclass_match unchanged diagram true true roots other ≡ some (some b))
    × ((b ≡ true)
        ↔ Reaches diagram
            (λ p. p == 4)
            (λ x. any_of (λ root. full_name_matches unchanged diagram root x) roots))
subclass_match-Reaches_example =
    subclass_match-Reaches unchanged diagram roots other other refl found_other

parents_match-Reaches_example :
    (b : Bool) × (parents_match unchanged diagram true true roots base ≡ some (some b))
    × ((b ≡ true)
        ↔ Reaches diagram
            (is_child unchanged diagram roots)
            (full_name_matches unchanged diagram (str_eq "A")))
parents_match-Reaches_example = parents_match-Reaches unchanged diagram roots base refl
