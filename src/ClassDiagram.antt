-- ===== src/ClassDiagram.antt =====
-- src/class_diagram/model/diagram.{h,cc}, with the relationships and elements of src/common/model and
-- its views (element_view.h).
pub mod Redundant
pub mod Filtered
pub mod Lookup
pub mod Parents
mod Samples
use clang_uml.Prelude.{
  ℕ, zero, suc, Bool, true, false, not, ◌&&◌, ◌||◌, Option, none, some, List, [], ◌∷◌, ◌++◌, map,
  String, ◌==◌, if◌then◌else◌, str_eq, any_of, find_if, erase_if, elem, emplace, emplace_all,
}
use clang_uml.Enums.{RelationshipType, ◌is_relationship◌, AccessType}
use clang_uml.NestedTrait as Nested
use clang_uml.NestedTrait.{Elements}

pub record Relationship : Type 0 where
  pub type : RelationshipType
  pub destination : ℕ
  pub multiplicity_source : String
  pub multiplicity_destination : String
  pub label : String
  pub access : AccessType
  pub is_virtual : Bool

-- operator==
unfoldable pub relationship_eq : Relationship → Relationship → Bool
unfolding ◌is_relationship◌
relationship_eq l r =
    l.type is_relationship r.type && l.destination == r.destination && str_eq l.label r.label

pub record DiagramElement : Type 0 where
  pub id : ℕ
  pub full_name : String
  pub relationships : List Relationship

-- util::contains
abbrev pub contains_relationship : List Relationship → Relationship → Bool
contains_relationship rs r = any_of (λ s. relationship_eq s r) rs

unfoldable pub add_relationship : Relationship → DiagramElement → DiagramElement
unfolding ◌is_relationship◌ relationship_eq
add_relationship cr el =
    if cr.type is_relationship RelationshipType.k_instantiation && cr.destination == el.id
    then el
    else if contains_relationship el.relationships cr
    then el
    else record el { relationships = el.relationships ++ cr ∷ [] }

abbrev pub unique_relationships : List Relationship → List Relationship → List Relationship
unique_relationships unique [] = unique
unique_relationships unique (r ∷ rs) =
    unique_relationships (if contains_relationship unique r then unique else unique ++ r ∷ []) rs

unfoldable pub remove_duplicate_relationships : DiagramElement → DiagramElement
unfolding relationship_eq
remove_duplicate_relationships el = record el {
  relationships = unique_relationships [] el.relationships;
}

-- The views of a diagram, in the order of its type, and the tree of its elements.
pub record Diagram : Type 0 where
  pub classes : List DiagramElement
  pub enums : List DiagramElement
  pub concepts : List DiagramElement
  pub objc_interfaces : List DiagramElement
  pub nested : Elements

abbrev pub has_element_id : ℕ → List DiagramElement → Bool
has_element_id id view = any_of (λ (c : DiagramElement). c.id == id) view

abbrev pub get_element_id : ℕ → List DiagramElement → Option DiagramElement
get_element_id id view = find_if (λ (c : DiagramElement). c.id == id) view

-- The search for a concept goes over the classes.
unfoldable pub has_element : Diagram → ℕ → Bool
has_element d id =
    if has_element_id id d.classes
    then true
    else if has_element_id id d.classes
    then true
    else if has_element_id id d.enums
    then true
    else has_element_id id d.objc_interfaces

abbrev pub or_else : Option DiagramElement → Option DiagramElement → Option DiagramElement
or_else none r = r
or_else (some e) r = some e

unfoldable pub get : Diagram → ℕ → Option DiagramElement
get d id = or_else (get_element_id id d.classes) (
    or_else (get_element_id id d.enums)
      (or_else (get_element_id id d.concepts) (get_element_id id d.objc_interfaces)))

-- The element whose alias is given; `none` is the exception `uml_alias_missing`.
unfoldable pub to_alias : Diagram → ℕ → Option ℕ
to_alias d id =
    elim (or_else (get_element_id id d.classes) (
      or_else (get_element_id id d.enums)
        (or_else (get_element_id id d.concepts) (get_element_id id d.objc_interfaces)))) [
          | none ↦ none
          | some e ↦ some e.id
        ]

abbrev pub is_dependency : Relationship → Bool
is_dependency r = r.type is_relationship RelationshipType.k_dependency

abbrev pub other_destinations : List Relationship → List ℕ
other_destinations [] = []
other_destinations (r ∷ rs) =
    let rest = other_destinations rs in if is_dependency r then rest else r.destination ∷ rest

abbrev pub is_redundant : ℕ → List ℕ → Relationship → Bool
is_redundant id to_remove r =
    if is_dependency r then elem r.destination to_remove || r.destination == id else false

unfoldable pub remove_redundant : DiagramElement → DiagramElement
unfolding ◌is_relationship◌
remove_redundant el =
    let to_remove = emplace_all (other_destinations el.relationships) [] in
    record el { relationships = erase_if (is_redundant el.id to_remove) el.relationships }

abbrev pub for_all_elements : (DiagramElement → DiagramElement) → Diagram → Diagram
for_all_elements f d = record d {
  classes = map f d.classes;
  enums = map f d.enums;
  concepts = map f d.concepts;
  objc_interfaces = map f d.objc_interfaces;
}

unfoldable pub remove_redundant_dependencies : Diagram → Diagram
unfolding remove_redundant
remove_redundant_dependencies d = for_all_elements remove_redundant d

-- The elements of all views.
abbrev pub elements : Diagram → List DiagramElement
elements d = d.classes ++ d.enums ++ d.concepts ++ d.objc_interfaces

-- element_view::remove
unfoldable pub remove : List ℕ → List DiagramElement → List DiagramElement
remove element_ids view = erase_if (λ (e : DiagramElement). elem e.id element_ids) view

-- What the filter includes depends on the diagram as it stands; `reset` drops what it has stored.
pub record Filter : Type 0 where
  pub should_include : Diagram → DiagramElement → Bool
  pub should_include_relationship : Diagram → Relationship → Bool

abbrev pub rejected : (DiagramElement → Bool) → List DiagramElement → List ℕ → List ℕ
rejected include [] to_remove = to_remove
rejected include (el ∷ els) to_remove =
    rejected include els (if include el then to_remove else emplace el.id to_remove)

unfoldable pub remove_elements : List ℕ → Diagram → Diagram
unfolding remove
remove_elements to_remove d = record {
  classes = remove to_remove d.classes;
  enums = remove to_remove d.enums;
  concepts = remove to_remove d.concepts;
  objc_interfaces = remove to_remove d.objc_interfaces;
  nested = Nested.remove to_remove d.nested;
}

-- The loop, on fuel: `none` is a loop that has not ended.
unfoldable pub remove_rejected : ℕ → Filter → Diagram → Option Diagram
unfolding remove_elements
remove_rejected zero f d = none
remove_rejected (suc fuel) f d =
    let to_remove = rejected (f.should_include d) (elements d) [] in
    let rest = remove_rejected fuel f (remove_elements to_remove d) in
    elim to_remove [ [] ↦ some d | _ ∷ _ ↦ rest ]

-- diagram_element::apply_filter
unfoldable pub filter_relationships :
    (Relationship → Bool) → List ℕ → DiagramElement → DiagramElement
filter_relationships include removed el = record el {
  relationships =
      erase_if (λ (r : Relationship). elem r.destination removed)
        (erase_if (λ r. not (include r)) el.relationships);
}

-- The set of removed ids is empty when the loop has ended.
unfoldable pub apply_filter : ℕ → Filter → Diagram → Option Diagram
unfolding remove_rejected filter_relationships
apply_filter fuel f d = elim (remove_rejected fuel f d) [
  | none ↦ none
  | some d' ↦
      some (for_all_elements (filter_relationships (f.should_include_relationship d') []) d')
]

unfoldable pub is_empty : Diagram → Bool
is_empty d = elim (elements d) [ [] ↦ true | _ ∷ _ ↦ false ]
