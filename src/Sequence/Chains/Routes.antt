-- ===== src/Sequence/Chains/Routes.antt =====
-- The paths of the reverse call graph follow messages of the model.
use clang_uml.Prelude.{
  ℕ, zero, suc, true, some, List, [], ◌∷◌, ◌≡◌, inl, inr, arith, ◌==◌, elem, emplace, find, any_of,
  All, All-append, Bool-cases,
}
use clang_uml.Sequence.Message.{Activity}
use clang_uml.Sequence.Diagram.{Diagram, has_activity, messages_of, callers_of}
use clang_uml.Sequence.Chains.{
  Callers, no_callers, caller, caller_nodes, build_reverse_call_graph, chain_lt, chain_eq,
  emplace_chain, sort_unique,
}
use clang_uml.Sequence.Chains.Search.{paths_to}

module _ (d : Diagram) where
  -- Activity `x` sends a message to `y`.
  abbrev pub Sends : ℕ → ℕ → Type 0
  Sends x y = any_of (λ m. m.to == y) (messages_of d x) ≡ true

  -- Each activity stands under one key, with messages of its own; each caller that is listed sends
  -- a message.
  pub record IsTraced : Type 0 where
    pub unique :
        All (λ (entry : ℕ × Activity). find entry.0 d.activities ≡ some entry.1) d.activities
    pub sent : (k : ℕ) → All (λ m. m.from ≡ k) (messages_of d k)
    pub traced : (k c : ℕ) → elem c (callers_of d k) ≡ true → Sends c k

  abbrev pub IsTree : ℕ → Callers → Type 0
  IsTree y no_callers = Unit
  IsTree y (caller c below siblings) = Sends c y × IsTree c below × IsTree y siblings

  abbrev pub IsPath : ℕ → List ℕ → Type 0
  IsPath t [] = ⊥
  IsPath t (x ∷ []) = x ≡ t
  IsPath t (x ∷ y ∷ rest) = Sends x y × IsPath t (y ∷ rest)

  caller_nodes-IsTree :
      (y : ℕ) (build : ℕ → Callers) (visited cs : List ℕ)
      → ((c : ℕ) → IsTree c (build c))
      → ((c : ℕ) → elem c cs ≡ true → Sends c y)
      → IsTree y (caller_nodes build visited cs)
  unfolding caller_nodes
  caller_nodes-IsTree y build visited [] h s = tt
  caller_nodes-IsTree y build visited (c ∷ cs) h s =
      let later = caller_nodes-IsTree y build visited cs h (λ x e. s x (ground arith)) in
      elim (Bool-cases (elem c visited)) [
        | inl old ↦ rw (old, caller_nodes) later
        | inr new ↦ rw (new, caller_nodes) (s c (ground arith), h c, later)
      ]

  pub build-IsTree :
      (traced : (k c : ℕ) → elem c (callers_of d k) ≡ true → Sends c k) (fuel : ℕ)
      (visited : List ℕ) (id : ℕ)
      → IsTree id (build_reverse_call_graph fuel d visited id)
  unfolding build_reverse_call_graph
  build-IsTree traced zero visited id = tt
  build-IsTree traced (suc fuel) visited id = elim (Bool-cases (has_activity d id)) [
    | inr gone ↦ rw (gone, build_reverse_call_graph) tt
    | inl there ↦
        rw (there, build_reverse_call_graph)
          (caller_nodes-IsTree id _ (emplace id visited) (callers_of d id)
            (λ c. build-IsTree traced fuel (emplace id visited) c) (traced id))
  ]

  pub paths_to-IsPath :
      (t y : ℕ) (rest : List ℕ) (cs : Callers)
      → IsPath t (y ∷ rest)
      → IsTree y cs
      → All (IsPath t) (paths_to (y ∷ rest) cs)
  unfolding paths_to
  paths_to-IsPath t y rest no_callers p h = tt
  paths_to-IsPath t y rest (caller c no_callers siblings) p (s, b, l) =
      ((s, p), paths_to-IsPath t y rest siblings p l)
  paths_to-IsPath t y rest (caller c (caller e f g) siblings) p (s, b, l) =
      All-append (IsPath t) (paths_to (c ∷ y ∷ rest) (caller e f g)) _
        (paths_to-IsPath t c (y ∷ rest) (caller e f g) (s, p) b)
        (paths_to-IsPath t y rest siblings p l)

-- What holds of all chains holds of all that `sort` and `unique` leave.
All-emplace_chain :
    (P : List ℕ → Type 0) (c : List ℕ) (chains : List (List ℕ))
    → P c
    → All P chains
    → All P (emplace_chain c chains)
unfolding emplace_chain
All-emplace_chain P c [] h hs = (h, tt)
All-emplace_chain P c (e ∷ chains) h hs = elim (Bool-cases (chain_eq c e)) [
  | inl same ↦ rw same hs
  | inr other ↦ elim (Bool-cases (chain_lt c e)) [
    | inl less ↦ rw (other, less) (h, hs)
    | inr more ↦ rw (other, more) (hs.0, All-emplace_chain P c chains h hs.1)
  ]
]

pub All-sort_unique :
    (P : List ℕ → Type 0) (chains : List (List ℕ)) → All P chains → All P (sort_unique chains)
unfolding sort_unique
All-sort_unique P [] h = tt
All-sort_unique P (c ∷ chains) h =
    All-emplace_chain P c (sort_unique chains) h.0 (All-sort_unique P chains h.1)
