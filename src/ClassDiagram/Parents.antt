-- ===== src/ClassDiagram/Parents.antt =====
-- `diagram::get_parents` (src/class_diagram/model/diagram.cc): a set of classes with the classes that they
-- are derived from. A set of references is the list of the ids of its classes, in ascending order. What is
-- added while the loop goes over the set is met in the next call, at the latest. A hash table that grows
-- in a loop over it may become invalid, which the model leaves out.
pub mod Reached
pub mod Growth
pub mod Ancestors
use clang_uml.Prelude.{
  ℕ, zero, suc, Bool, true, false, Option, none, some, List, [], ◌∷◌, if◌then◌else◌, elem, emplace,
}
use clang_uml.Enums.{RelationshipType, ◌is_relationship◌}
use clang_uml.ClassDiagram.{Relationship, DiagramElement, Diagram, get_element_id}

abbrev pub is_extension : Relationship → Bool
is_extension rel = rel.type is_relationship RelationshipType.k_extension

-- `found_new`, and the set.
unfoldable pub emplace_class : Option DiagramElement → Bool × List ℕ → Bool × List ℕ
emplace_class none s = s
emplace_class (some p) (found_new, parents) =
    if elem p.id parents then (found_new, parents) else (true, emplace p.id parents)

module _ (d : Diagram) where
  unfoldable pub emplace_bases : List Relationship → Bool × List ℕ → Bool × List ℕ
  unfolding ◌is_relationship◌ emplace_class
  emplace_bases [] s = s
  emplace_bases (rel ∷ rels) s =
      emplace_bases rels
        (if is_extension rel then emplace_class (get_element_id rel.destination d.classes) s else s)

  abbrev pub relationships_of : ℕ → List Relationship
  relationships_of id = elim (get_element_id id d.classes) [ none ↦ [] | some c ↦ c.relationships ]

  unfoldable pub emplace_parents : List ℕ → Bool × List ℕ → Bool × List ℕ
  unfolding emplace_bases
  emplace_parents [] s = s
  emplace_parents (id ∷ ids) s = emplace_parents ids (emplace_bases (relationships_of id) s)

  -- One call, and the calls that follow while a class is new: the first argument is fuel.
  unfoldable pub get_parents : ℕ → List ℕ → Option (List ℕ)
  unfolding emplace_parents
  get_parents zero parents = none
  get_parents (suc fuel) parents =
      let (found_new, parents') = emplace_parents parents (false, parents) in
      let rest = get_parents fuel parents' in if found_new then rest else some parents'
