-- ===== src/ModelPath.antt =====
-- src/common/model/path.h and the vector functions of src/util/util.h that it uses: the path of an
-- element, which is a namespace, a directory or a module, as a list of names.
pub mod Prefix
pub mod Relative
mod Samples
use clang_uml.Prelude.{
  ℕ, zero, suc, Bool, true, false, ◌&&◌, ◌||◌, Option, none, some, List, [], ◌∷◌, ◌++◌, String,
  ◌==◌, ltb, leb, if◌then◌else◌, length, take, drop, str_eq,
}
use mathlib.Core.List.{reverse}

pub data PathType : Type 0 where
  k_namespace k_filesystem k_module : PathType

abbrev pub is_namespace : PathType → Bool
is_namespace k_namespace = true
is_namespace _ = false

pub record ModelPath : Type 0 where
  pub path_type : PathType
  pub path : List String
  pub is_root : Bool

-- The comparison of two vectors of names.
unfoldable pub tokens_eq : List String → List String → Bool
tokens_eq [] [] = true
tokens_eq (x ∷ xs) (y ∷ ys) = str_eq x y && tokens_eq xs ys
tokens_eq _ _ = false

-- Whether a sequence begins with another, the step of `std::search`.
unfoldable pub matches_here : List String → List String → Bool
matches_here col [] = true
matches_here [] (p ∷ prefix) = false
matches_here (c ∷ col) (p ∷ prefix) = str_eq c p && matches_here col prefix

-- `std::search`: the index of the first match, and the length of the sequence if there is none.
unfoldable pub search : List String → List String → ℕ
unfolding matches_here
search [] prefix = 0
search (c ∷ col) prefix = if matches_here (c ∷ col) prefix then 0 else suc (search col prefix)

unfoldable pub vector_starts_with : List String → List String → Bool
unfolding search
vector_starts_with col prefix =
    if ltb (length col) (length prefix) then false else search col prefix == 0

unfoldable pub vector_ends_with : List String → List String → Bool
unfolding tokens_eq
vector_ends_with col suffix =
    if ltb (length col) (length suffix)
    then false
    else tokens_eq (reverse suffix) (take (length suffix) (reverse col))

unfoldable pub remove_prefix : List String → List String → List String
unfolding vector_starts_with
remove_prefix col prefix = if vector_starts_with col prefix then drop (length prefix) col else col

abbrev pub new_path : PathType → ModelPath
new_path pt = record { path_type = pt; path = []; is_root = false }

-- operator==
abbrev pub path_eq : ModelPath → ModelPath → Bool
path_eq left right =
    (if left.is_root then right.is_root else if right.is_root then false else true)
    && tokens_eq left.path right.path

-- Only a namespace has a root.
unfoldable pub set_is_root : Bool → ModelPath → ModelPath
set_is_root r p = if is_namespace p.path_type then record p { is_root = r } else p

abbrev pub size : ModelPath → ℕ
size p = length p.path

unfoldable pub append_name : String → ModelPath → ModelPath
append_name name p = record p { path = p.path ++ name ∷ [] }

abbrev pub append_names : List String → ModelPath → ModelPath
append_names [] p = p
append_names (n ∷ ns) p = append_names ns (append_name n p)

unfoldable pub append : ModelPath → ModelPath → ModelPath
unfolding append_name
append ns p = append_names ns.path p

-- operator|
unfoldable pub joined : ModelPath → ModelPath → ModelPath
unfolding append
joined p right = append right (record p { path_type = right.path_type })

abbrev pub drop_last : List String → List String
drop_last [] = []
drop_last (x ∷ []) = []
drop_last (x ∷ y ∷ xs) = x ∷ drop_last (y ∷ xs)

unfoldable pub pop_back : ModelPath → ModelPath
pop_back p = record p { path = drop_last p.path }

unfoldable pub parent : ModelPath → Option ModelPath
unfolding pop_back
parent p = if leb (size p) 1 then none else some (pop_back p)

-- `back()` of an empty path is undefined.
unfoldable pub name : ModelPath → Option String
name p = elim (reverse p.path) [ [] ↦ none | n ∷ _ ↦ some n ]

abbrev pub starts_with : ModelPath → ModelPath → Bool
starts_with p prefix = vector_starts_with p.path prefix.path

abbrev pub ends_with : ModelPath → ModelPath → Bool
ends_with p suffix = vector_ends_with p.path suffix.path

unfoldable pub common_names : List String → List String → List String
common_names (x ∷ xs) (y ∷ ys) = if str_eq x y then x ∷ common_names xs ys else []
common_names _ _ = []

-- The loop appends to a new path, which is a namespace whatever the two paths are.
unfoldable pub common_path : ModelPath → ModelPath → ModelPath
unfolding common_names
common_path p right = record {
  path_type = PathType.k_namespace;
  path = common_names p.path right.path;
  is_root = false;
}

unfoldable pub relative_to : ModelPath → ModelPath → ModelPath
unfolding set_is_root remove_prefix
relative_to p right =
    let res = set_is_root true p in
    if starts_with res right
    then set_is_root false (record res { path = remove_prefix res.path right.path })
    else res
