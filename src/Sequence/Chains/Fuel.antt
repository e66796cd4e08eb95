-- ===== src/Sequence/Chains/Fuel.antt =====
-- The fuel of `build_reverse_call_graph`: the number of activities that are not visited yet.
use clang_uml.Prelude.{
  ℕ, zero, suc, ◌<◌, ◌≤◌, true, false, List, [], ◌∷◌, ◌≡◌, refl, arith, elem, emplace, elem-emplace,
  length, find, contains, Bool-cases, inl, inr,
}
use clang_uml.Sequence.Message.{Activity}
use clang_uml.Sequence.Diagram.{Diagram, has_activity, callers_of}
use clang_uml.Sequence.Chains.{Callers, caller_nodes, build_reverse_call_graph}

unfoldable pub unvisited : List ℕ → List (ℕ × Activity) → ℕ
unvisited visited [] = 0
unvisited visited ((k, a) ∷ rest) = elim (elem k visited) [
  | true ↦ unvisited visited rest
  | false ↦ suc (unvisited visited rest)
]

pub unvisited-le-length :
    (visited : List ℕ) (as_ : List (ℕ × Activity)) → unvisited visited as_ ≤ length as_
unfolding unvisited
unvisited-le-length visited [] = omega arith
unvisited-le-length visited ((k, a) ∷ rest) = ground (arith, unvisited-le-length visited rest)

module _ (id : ℕ) (visited : List ℕ) where
  unvisited-emplace-le :
      (as_ : List (ℕ × Activity)) → unvisited (emplace id visited) as_ ≤ unvisited visited as_
  unfolding unvisited
  unvisited-emplace-le [] = omega arith
  unvisited-emplace-le ((k, a) ∷ rest) =
      ground (arith, unvisited-emplace-le rest, elem-emplace id k visited)

  unvisited-emplace-lt :
      (as_ : List (ℕ × Activity))
      → contains id as_ ≡ true
      → elem id visited ≡ false
      → unvisited (emplace id visited) as_ < unvisited visited as_
  unfolding unvisited find
  unvisited-emplace-lt [] h new = cc
  unvisited-emplace-lt ((k, a) ∷ rest) h new =
      ground
        (arith, unvisited-emplace-lt rest, unvisited-emplace-le rest, elem-emplace id k visited)

-- Two ways to build that agree on every activity not visited build the same nodes.
caller_nodes_agree :
    (f g : ℕ → Callers) (visited : List ℕ) (cs : List ℕ)
    → ((c : ℕ) → elem c visited ≡ false → f c ≡ g c)
    → caller_nodes f visited cs ≡ caller_nodes g visited cs
unfolding caller_nodes
caller_nodes_agree f g visited [] h = refl
caller_nodes_agree f g visited (c ∷ cs) h = elim (Bool-cases (elem c visited)) [
  | inl old ↦ rw (old, caller_nodes) (caller_nodes_agree f g visited cs h)
  | inr new ↦ rw (new, caller_nodes) (cc (h c new, caller_nodes_agree f g visited cs h))
]

-- For an activity that is not visited, fuel above the number of activities that are not visited is
-- enough: more gives the same graph.
pub build_reverse_call_graph_fuel :
    (f g : ℕ) (d : Diagram) (visited : List ℕ) (id : ℕ)
    → elem id visited ≡ false
    → unvisited visited d.activities < f
    → unvisited visited d.activities < g
    → build_reverse_call_graph f d visited id ≡ build_reverse_call_graph g d visited id
unfolding build_reverse_call_graph
build_reverse_call_graph_fuel zero g d visited id new hf hg = elim hf [ ]
build_reverse_call_graph_fuel (suc f) zero d visited id new hf hg = elim hg [ ]
build_reverse_call_graph_fuel (suc f) (suc g) d visited id new hf hg =
    elim (Bool-cases (has_activity d id)) [
      | inr gone ↦ rw (gone, build_reverse_call_graph) refl
      | inl there ↦
          let fewer = unvisited-emplace-lt id visited d.activities there new in
          rw (there, build_reverse_call_graph)
            (caller_nodes_agree _ _ (emplace id visited) (callers_of d id) λ c fresh.
              build_reverse_call_graph_fuel f g d (emplace id visited) c fresh (omega arith)
                (omega arith))
    ]
