-- ===== src/ClassDiagram/Lookup.antt =====
-- Which elements the lookups by id find.
use clang_uml.Prelude.{
  ℕ, Bool, true, false, ◌||◌, Option, none, some, List, [], ◌∷◌, ◌≡◌, refl, arith,
}
use clang_uml.ClassDiagram.{
  DiagramElement, Diagram, has_element_id, get_element_id, has_element, get,
}

abbrev pub is_found : Option DiagramElement → Bool
is_found none = false
is_found (some _) = true

get_element_id-has_element_id :
    (id : ℕ) (view : List DiagramElement)
    → is_found (get_element_id id view) ≡ has_element_id id view
get_element_id-has_element_id id [] = refl
get_element_id-has_element_id id (e ∷ view) = ground (arith, get_element_id-has_element_id id view)

-- `get` finds an element just when `has_element` does or the element is a concept, which
-- `has_element` does not look for.
pub has_element-get :
    (d : Diagram) (id : ℕ)
    → is_found (get d id) ≡ (has_element d id || has_element_id id d.concepts)
unfolding get has_element
has_element-get d id = ground (
  arith,
  get_element_id-has_element_id id d.classes,
  get_element_id-has_element_id id d.enums,
  get_element_id-has_element_id id d.concepts,
  get_element_id-has_element_id id d.objc_interfaces,
)
