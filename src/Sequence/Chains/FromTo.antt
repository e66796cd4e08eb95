-- ===== src/Sequence/Chains/FromTo.antt =====
-- The message chains of a `from_to` condition are routes of messages to the target.
use clang_uml.Prelude.{
  ℕ, suc, Bool, true, not, sym, Option-cases, some, List, [], ◌∷◌, map, ◌≡◌, refl, ◌⊎◌, inl, inr,
  arith, ◌==◌, ==_iff, find, find_if, erase_if, any_of, All, Bool-cases, length,
}
use mathlib.Core.Path.{subst}
use clang_uml.Sequence.Message.{Message, Activity}
use clang_uml.Sequence.Diagram.{Diagram, messages_of}
use clang_uml.Sequence.Chains.{
  Callers, no_callers, caller, build_reverse_call_graph, find_reverse_message_chains, is_call_to,
  target_messages, target_callers, target_roots, to_message_chain, starts_at,
  get_all_from_to_message_chains,
}
use clang_uml.Sequence.Chains.Search.{find_reverse_message_chains_lem}
use clang_uml.Sequence.Chains.Routes.{
  Sends, IsTraced, IsTree, IsPath, build-IsTree, paths_to-IsPath, All-sort_unique,
}

-- Messages from one activity to another, each sent by the activity that the one before it goes to.
abbrev pub IsRoute : ℕ → ℕ → List Message → Type 0
IsRoute from to [] = from ≡ to
IsRoute from to (m ∷ mc) = (m.from ≡ from) × IsRoute m.to to mc

-- A route with a first message, from the given activity unless that is 0, to the given activity.
abbrev pub IsChain : ℕ → ℕ → List Message → Type 0
IsChain from to [] = ⊥
IsChain from to (m ∷ mc) = ((from ≡ 0) ⊎ (m.from ≡ from)) × IsRoute m.from to (m ∷ mc)

found :
    (p : Message → Bool) (P : Message → Type 0) (xs : List Message)
    → any_of p xs ≡ true
    → All P xs
    → (m : Message) × (find_if p xs ≡ some m) × (p m ≡ true) × P m
found p P [] h a = cc
found p P (x ∷ xs) h a = elim (Bool-cases (p x)) [
  | inl here ↦ (x, rw here refl, here, a.0)
  | inr later ↦ let (m, e, q, r) = found p P xs (rw later at h) a.1 in (m, rw later e, q, r)
]

abbrev pub Mem : Message → List Message → Type 0
Mem m [] = ⊥
Mem m (x ∷ xs) = (x ≡ m) ⊎ Mem m xs

All-Mem : (P : Message → Type 0) (xs : List Message) (m : Message) → All P xs → Mem m xs → P m
All-Mem P [] m h i = elim i [ ]
All-Mem P (x ∷ xs) m h (inl e) = subst P e h.0
All-Mem P (x ∷ xs) m h (inr i) = All-Mem P xs m h.1 i

-- The messages of a chain are messages of the activities that send them.
abbrev pub IsSent : Diagram → Message → Type 0
IsSent d m = Mem m (messages_of d m.from)

found_Mem :
    (p : Message → Bool) (xs : List Message) (m : Message) → find_if p xs ≡ some m → Mem m xs
found_Mem p [] m h = absurd cc
found_Mem p (x ∷ xs) m h = elim (Bool-cases (p x)) [
  | inl here ↦ (let e : x ≡ m = ground (arith, here, h) in inl e)
  | inr later ↦
      (let rest : find_if p xs ≡ some m = ground (arith, later, h) in inr (found_Mem p xs m rest))
]

route-IsChain :
    (from x to : ℕ) (mc : List Message)
    → IsRoute x to mc
    → starts_at from mc ≡ true
    → IsChain from to mc
route-IsChain from x to [] r s = cc
route-IsChain from x to (m ∷ mc) r s = (ground arith, (refl, r.1))

module _ (d : Diagram) (t : IsTraced d) where
  to_message_chain-IsRoute :
      (to x : ℕ) (rest : List ℕ)
      → IsPath d to (x ∷ rest)
      → IsRoute x to (to_message_chain d (x ∷ rest))
  unfolding to_message_chain
  to_message_chain-IsRoute to x [] p = p
  to_message_chain-IsRoute to x (y ∷ rest) (s, p) =
      let (m, e, q, from) =
        found (λ m. m.to == y) (λ m. m.from ≡ x) (messages_of d x) s (t.sent x) in
      let at : m.to ≡ y = (==_iff m.to y).0 q in
      rw (e, to_message_chain) (from, rw at (to_message_chain-IsRoute to y rest p))

  to_message_chain-IsSent : (chain : List ℕ) → All (IsSent d) (to_message_chain d chain)
  unfolding to_message_chain
  to_message_chain-IsSent [] = tt
  to_message_chain-IsSent (x ∷ []) = tt
  to_message_chain-IsSent (x ∷ y ∷ rest) =
      elim (Option-cases (find_if (λ m. m.to == y) (messages_of d x))) [
        | inl none_found ↦ rw (to_message_chain, none_found) (to_message_chain-IsSent (y ∷ rest))
        | inr (m, e) ↦
            let there = found_Mem (λ m. m.to == y) (messages_of d x) m e in
            let sender : m.from ≡ x =
              All-Mem (λ m. m.from ≡ x) (messages_of d x) m (t.sent x) there in
            rw (to_message_chain, e)
              (
                subst (λ k. Mem m (messages_of d k)) (sym sender) there,
                to_message_chain-IsSent (y ∷ rest),
              )
      ]

  module _ (to : ℕ) where
    target_messages-Sends :
        (k : ℕ) (ms : List Message) (more : List ℕ)
        → All (λ m. m.from ≡ k) ms
        → (any_of (λ m. m.to == to) ms ≡ true → Sends d k to)
        → All (λ c. Sends d c to) more
        → All (λ c. Sends d c to) (target_messages to ms more)
    target_messages-Sends k [] more from s h = h
    target_messages-Sends k (m ∷ ms) more from s h =
        let later = target_messages-Sends k ms more from.1 (λ e. s (ground arith)) h in
        elim (Bool-cases (is_call_to to m)) [
          | inl call ↦ rw call (rw from.0 (s (ground arith)), later)
          | inr other ↦ rw other later
        ]

    target_callers-Sends :
        (as_ : List (ℕ × Activity))
        → All (λ (entry : ℕ × Activity). find entry.0 d.activities ≡ some entry.1) as_
        → All (λ c. Sends d c to) (target_callers to as_)
    unfolding target_callers
    target_callers-Sends [] h = tt
    target_callers-Sends ((k, a) ∷ rest) h =
        let same : messages_of d k ≡ a.messages = ground (arith, h.0) in
        target_messages-Sends k a.messages _ (rw same at (t.sent k)) (λ e. rw (← same) at e)
          (target_callers-Sends rest h.1)

    target_roots-IsTree :
        (build : ℕ → Callers) (cs : List ℕ)
        → ((c : ℕ) → IsTree d c (build c))
        → All (λ c. Sends d c to) cs
        → IsTree d to (target_roots build cs)
    unfolding target_roots
    target_roots-IsTree build [] h s = tt
    target_roots-IsTree build (c ∷ cs) h s = (s.0, h c, target_roots-IsTree build cs h s.1)

    All-map :
        (from : ℕ) (chains : List (List ℕ))
        → All (IsPath d to) chains
        → All
            (λ mc. IsChain from to mc × All (IsSent d) mc)
            (erase_if (λ mc. not (starts_at from mc)) (map (to_message_chain d) chains))
    All-map from [] h = tt
    All-map from ([] ∷ chains) h = elim h.0 [ ]
    All-map from ((x ∷ rest) ∷ chains) h =
        let route = to_message_chain-IsRoute to x rest h.0 in
        elim (Bool-cases (starts_at from (to_message_chain d (x ∷ rest)))) [
          | inl kept ↦ rw kept (
            (route-IsChain from x to _ route kept, to_message_chain-IsSent (x ∷ rest)),
            All-map from chains h.1,
          )
          | inr gone ↦ rw gone (All-map from chains h.1)
        ]

    reverse_chains-IsPath :
        (roots : Callers)
        → IsTree d to roots
        → All (IsPath d to) (find_reverse_message_chains to roots)
    reverse_chains-IsPath no_callers h =
        rw (find_reverse_message_chains_lem to no_callers) (refl, tt)
    reverse_chains-IsPath (caller c b l) h =
        rw (find_reverse_message_chains_lem to (caller c b l))
          (paths_to-IsPath d to to [] (caller c b l) refl h)

-- In a diagram whose activities stand each under one key, with messages of their own, and are each
-- sent a message by every caller that they list: each chain that a `from_to` condition finds is a sequence
-- of messages in which each message is sent by the activity that the one before it goes to, from the `from`
-- activity (any activity if that is 0) to the `to` activity, and each is one of the messages that the
-- diagram holds in the activity that sends it.
pub get_all_from_to_message_chains-IsChain :
    (d : Diagram) (from to : ℕ)
    → IsTraced d
    → All (λ mc. IsChain from to mc × All (IsSent d) mc) (get_all_from_to_message_chains d from to)
unfolding get_all_from_to_message_chains
get_all_from_to_message_chains-IsChain d from to t =
    let fuel = suc (length d.activities) in
    All-map d t to from _ (
      All-sort_unique (IsPath d to) _ (
        reverse_chains-IsPath d t to _ (
          target_roots-IsTree d t to (build_reverse_call_graph fuel d [])
            (target_callers to d.activities) (build-IsTree d t.traced fuel [])
            (target_callers-Sends d t to d.activities t.unique))))
