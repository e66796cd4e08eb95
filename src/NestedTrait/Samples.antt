-- ===== src/NestedTrait/Samples.antt =====
-- A small tree of packages.
use clang_uml.Prelude.{ℕ, ◌<◌, ◌≤◌, true, false, none, [], ◌∷◌, ◌≡◌, refl, arith}
use clang_uml.NestedTrait.{
  Elements, no_elements, element, package_, Item, add_element_at, get_and_remove, remove,
}
use clang_uml.NestedTrait.Contents.{ids, count, get_and_remove_lem, remove-count}
use clang_uml.NestedTrait.Adding.{IsAddition, IsAddedAt, add_element_at-IsAddition}

-- Package 1, which holds element 2, and element 3.
abbrev tree : Elements
tree = package_ 1 "p" false (element 2 "a" no_elements) (element 3 "b" no_elements)

abbrev item : Item
item = record { id = 4; name = "c"; nested = none }

get_and_remove_example :
    (0 < count 2 (ids tree)
      → ((get_and_remove 2 tree).0 ≡ true)
        × (count 2 (ids (get_and_remove 2 tree).1) < count 2 (ids tree)))
    × (count 2 (ids tree) ≡ 0 → get_and_remove 2 tree ≡ (false, tree))
    × ((x : ℕ) → count x (ids (get_and_remove 2 tree).1) ≤ count x (ids tree))
get_and_remove_example = get_and_remove_lem 2 tree

tree_unique : (x : ℕ) → count x (ids tree) ≤ 1
unfolding ids
tree_unique x = ground arith

remove-count_example : count 2 (ids (remove (3 ∷ 2 ∷ []) tree)) ≡ 0
remove-count_example = remove-count (3 ∷ 2 ∷ []) tree 2 tree_unique refl

add_element_at-IsAddition_example :
    IsAddition item tree (add_element_at item ("p" ∷ []) false tree)
    × IsAddedAt item ("p" ∷ []) false tree (add_element_at item ("p" ∷ []) false tree)
add_element_at-IsAddition_example = add_element_at-IsAddition item ("p" ∷ []) false tree
