-- ===== src/ClassDiagram/Samples.antt =====
-- A small class diagram, and what the operations do with it.
use clang_uml.Prelude.{◌||◌, ℕ, true, false, not, [], ◌∷◌, ◌≡◌, arith, ◌==◌, any_of, All}
use clang_uml.Enums.{RelationshipType, AccessType}
use clang_uml.NestedTrait.{no_elements, element}
use clang_uml.ClassDiagram.{
  Relationship, DiagramElement, Diagram, Filter, get, has_element, has_element_id, is_dependency,
  remove_redundant, apply_filter,
}
use clang_uml.ClassDiagram.Lookup.{is_found, has_element-get}
use clang_uml.ClassDiagram.Redundant.{points_to, is_tied, remove_redundant_lem}
use clang_uml.ClassDiagram.Filtered.{IsFiltered, apply_filter-IsFiltered}

abbrev relates : RelationshipType → ℕ → Relationship
relates type destination = record {
  type = type;
  destination = destination;
  multiplicity_source = "";
  multiplicity_destination = "";
  label = "";
  access = AccessType.k_public;
  is_virtual = false;
}

-- Class 1 depends on class 2, which it has as a member too, and on itself.
abbrev one : DiagramElement
one = record {
  id = 1;
  full_name = "A";
  relationships =
      relates RelationshipType.k_dependency 2
      ∷ relates RelationshipType.k_association 2
      ∷ relates RelationshipType.k_dependency 1
      ∷ [];
}

abbrev two : DiagramElement
two = record { id = 2; full_name = "B"; relationships = [] }

abbrev diagram : Diagram
diagram = record {
  classes = one ∷ two ∷ [];
  enums = [];
  concepts = [];
  objc_interfaces = [];
  nested = element 1 "A" (element 2 "B" no_elements);
}

-- Leaves out class 2 and keeps all relationships.
abbrev filter : Filter
filter = record {
  should_include = λ d el. not (el.id == 2);
  should_include_relationship = λ d r. true;
}

remove_redundant_example :
    ((j : ℕ)
      → (j == one.id) ≡ false
      → any_of (points_to j) one.relationships ≡ true
      → any_of (points_to j) (remove_redundant one).relationships ≡ true)
    × All
        (λ r.
          is_dependency r ≡ true
          → ((r.destination == one.id) ≡ false)
            × (is_tied r.destination (remove_redundant one).relationships ≡ false))
        (remove_redundant one).relationships
remove_redundant_example = remove_redundant_lem one

apply_filter-IsFiltered_example : IsFiltered filter (apply_filter 3 filter diagram)
apply_filter-IsFiltered_example = apply_filter-IsFiltered 3 filter diagram (omega arith)

has_element-get_example :
    is_found (get diagram 2) ≡ (has_element diagram 2 || has_element_id 2 diagram.concepts)
has_element-get_example = has_element-get diagram 2
