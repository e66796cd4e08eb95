-- ===== src/NestedTrait.antt =====
-- src/common/model/nested_trait.h: the tree of packages and elements of a diagram. The two indexes of
-- a level, by id and by name, list its elements in their order, so a lookup in them is a search.
pub mod Contents
pub mod Adding
mod Samples
use clang_uml.Prelude.{
  ℕ, Bool, true, false, ◌&&◌, ◌||◌, Option, none, some, List, [], ◌∷◌, ◌++◌, String, ◌==◌,
  if◌then◌else◌, ◌>>=◌, str_eq,
}

-- The elements of a level in order; a package has a level of its own.
pub data Elements : Type 0 where
  no_elements : Elements
  element : (id : ℕ) (name : String) (next : Elements) → Elements
  package_ : (id : ℕ) (name : String) (is_root : Bool) (inner next : Elements) → Elements

-- An element to add, with a flag and a level of its own if it is a package.
pub record Item : Type 0 where
  pub id : ℕ
  pub name : String
  pub nested : Option (Bool × Elements)

abbrev pub only : Item → Elements
only p = elim p.nested [
  | none ↦ element p.id p.name no_elements
  | some (is_root, inner) ↦ package_ p.id p.name is_root inner no_elements
]

unfoldable pub push_back : Item → Elements → Elements
push_back p no_elements = only p
push_back p (element id name next) = element id name (push_back p next)
push_back p (package_ id name is_root inner next) =
    package_ id name is_root inner (push_back p next)

-- elements_by_id_.count(id) > 0
unfoldable pub has_id : ℕ → Elements → Bool
has_id id no_elements = false
has_id id (element i _ next) = i == id || has_id id next
has_id id (package_ i _ _ _ next) = i == id || has_id id next

-- Adds at this level, and says whether it did.
unfoldable pub add_element : Item → Elements → Bool × Elements
unfolding push_back has_id
add_element p es = if has_id p.id es then (false, es) else (true, push_back p es)

abbrev pub same_root : Bool → Bool → Bool
same_root true r = r
same_root false true = false
same_root false false = true

-- Adds at a path, whose first name is looked up with the flag of the path. `none` is the exception
-- that no parent is there: the first element with the name is no package, or there is none.
unfoldable pub add_element_at : Item → List String → Bool → Elements → Option (Bool × Elements)
unfolding add_element
add_element_at p [] root es = some (add_element p es)
add_element_at p (n ∷ ns) root no_elements = none
add_element_at p (n ∷ ns) root (element id name next) =
    let later = add_element_at p (n ∷ ns) root next in
    if str_eq name n then none else later >>= λ r. some (r.0, element id name r.1)
add_element_at p (n ∷ ns) root (package_ id name is_root inner next) =
    let here = add_element_at p ns false inner in
    let later = add_element_at p (n ∷ ns) root next in
    if str_eq name n && same_root is_root root
    then here >>= (λ r. some (r.0, package_ id name is_root r.1 next))
    else later >>= (λ r. some (r.0, package_ id name is_root inner r.1))

-- Whether there is no element but packages, at any depth.
unfoldable pub is_empty : Elements → Bool
is_empty no_elements = true
is_empty (element _ _ _) = false
is_empty (package_ _ _ _ inner next) = is_empty inner && is_empty next

-- Whether a test holds of all the elements; of a package, it is asked of what it contains.
unfoldable pub all_of : (ℕ → Bool) → Elements → Bool
all_of f no_elements = true
all_of f (element id _ next) = f id && all_of f next
all_of f (package_ _ _ _ inner next) = all_of f inner && all_of f next

-- Takes the element with the id out of this level, with what it contains.
unfoldable pub erase : ℕ → Elements → Elements
erase id no_elements = no_elements
erase id (element i name next) = if i == id then next else element i name (erase id next)
erase id (package_ i name is_root inner next) =
    if i == id then next else package_ i name is_root inner (erase id next)

-- The loop over the packages of a level, which stops at the first that contains the id.
unfoldable pub remove_below : ℕ → Elements → Bool × Elements
unfolding erase has_id
remove_below id no_elements = (false, no_elements)
remove_below id (element i name next) =
    let later = remove_below id next in (later.0, element i name later.1)
remove_below id (package_ i name is_root inner next) =
    let below = remove_below id inner in
    let taken = if has_id id inner then (true, erase id inner) else below in
    let later = remove_below id next in
    if taken.0
    then (true, package_ i name is_root taken.1 next)
    else (later.0, package_ i name is_root inner later.1)

-- Says whether the id was there, and gives the tree without it.
unfoldable pub get_and_remove : ℕ → Elements → Bool × Elements
unfolding remove_below
get_and_remove id es = if has_id id es then (true, erase id es) else remove_below id es

unfoldable pub remove : List ℕ → Elements → Elements
unfolding get_and_remove
remove [] es = es
remove (id ∷ element_ids) es = remove element_ids (get_and_remove id es).1
