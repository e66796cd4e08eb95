-- ===== src/Sequence/Chains/Search.antt =====
-- The depth first search lists the paths of the reverse call graph.
use clang_uml.Prelude.{
  ℕ, List, [], ◌∷◌, ◌++◌, ◌≡◌, refl, ap, ◌∙◌, if◌then◌else◌, append_assoc, append-nil,
}
use mathlib.Core.List.{reverse, reverse-append}
use clang_uml.Sequence.Chains.{
  Callers, no_callers, caller, is_empty, pop_back, search_each, find_reverse_message_chains,
}

-- The paths from the leaves of a node to `suffix`, which starts with the node above them.
unfoldable pub paths_to : List ℕ → Callers → List (List ℕ)
paths_to suffix no_callers = []
paths_to suffix (caller id callers siblings) =
    let path = id ∷ suffix in
    (if is_empty callers then path ∷ [] else paths_to path callers) ++ paths_to suffix siblings

pop_back-append : (xs : List ℕ) (x : ℕ) → pop_back (xs ++ x ∷ []) ≡ xs
unfolding pop_back
pop_back-append [] x = refl
pop_back-append (y ∷ []) x = refl
pop_back-append (y ∷ z ∷ xs) x = ap (λ l. y ∷ l) (pop_back-append (z ∷ xs) x)

search_each_lem :
    (cs : Callers) (all : List (List ℕ)) (current : List ℕ)
    → search_each cs (all, current) ≡ (all ++ paths_to (reverse current) cs, current)
unfolding search_each paths_to
search_each_lem no_callers all current = rw append-nil refl
search_each_lem (caller id no_callers siblings) all current = rw (pop_back-append current id) (
    search_each_lem siblings (all ++ reverse (current ++ id ∷ []) ∷ []) current
    ∙ rw (reverse-append current (id ∷ [])) (rw append_assoc refl))
search_each_lem (caller id (caller a b c) siblings) all current =
    rw (search_each_lem (caller a b c) all (current ++ id ∷ []), pop_back-append current id)
      (search_each_lem siblings (all ++ paths_to (reverse (current ++ id ∷ [])) (caller a b c))
          current
        ∙ ap (λ l. (l, current))
            (append_assoc all (paths_to (reverse (current ++ id ∷ [])) (caller a b c)) _
              ∙ ap (λ r. all ++ (paths_to r (caller a b c) ++ paths_to (reverse current) siblings))
                  (reverse-append current (id ∷ []))))

one_root :
    (root : ℕ) (callers : Callers)
    → paths_to [] (caller root callers no_callers)
      ≡ (if is_empty callers then (root ∷ []) ∷ [] else paths_to (root ∷ []) callers)
unfolding paths_to
one_root root cs = append-nil _

-- The search finds each path from a leaf of the graph down to the root, once for each leaf.
pub find_reverse_message_chains_lem :
    (root : ℕ) (callers : Callers)
    → find_reverse_message_chains root callers
      ≡ (if is_empty callers then (root ∷ []) ∷ [] else paths_to (root ∷ []) callers)
unfolding find_reverse_message_chains
find_reverse_message_chains_lem root callers =
    ap (λ (s : List (List ℕ) × List ℕ). s.0)
      (search_each_lem (caller root callers no_callers) [] [])
    ∙ one_root root callers
