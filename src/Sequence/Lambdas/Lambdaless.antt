-- ===== src/Sequence/Lambdas/Lambdaless.antt =====
-- After inlining no lambda is left in the diagram, and inlining ends if no lambda reaches itself.
use clang_uml.Prelude.{
  ℕ, zero, suc, ◌<◌, Bool, true, false, not, ◌||◌, Option, none, some, List, [], ◌∷◌, ◌≡◌, sym,
  ◌>>=◌, if◌then◌else◌, arith, inl, inr, contains, erase_if, All, All-append, All-mono,
  All-erase_if, All-unit, Bool-cases, Option-cases,
}
use clang_uml.Enums.{MessageType, ◌is_message◌}
use clang_uml.Sequence.Message.{
  Message, Activity, Participant, new_activity, set_from, add_message as append_message,
}
use clang_uml.Sequence.Diagram.{Diagram, messages_of}
use clang_uml.Sequence.Lambdas.{
  is_lambda_operator, inline_each, inline_lambda_operator_call, inline_messages, inline_activities,
  is_lambda_participant, inline_lambda_operator_calls,
}

module _ (d : Diagram) where
  abbrev pub NoLambda : Message → Type 0
  NoLambda m = is_lambda_operator d m.to ≡ false

  -- What inlining one message gives, whenever it ends.
  abbrev pub Inlined : Message → Option (Bool × Activity) → Type 0
  Inlined m none = ⊥
  Inlined m (some (lambda, a)) = (lambda ≡ is_lambda_operator d m.to) × All NoLambda a.messages

  abbrev pub Done : Option Activity → Type 0
  Done none = ⊥
  Done (some a) = All NoLambda a.messages

  add_message-NoLambda :
      (m : Message) (a : Activity)
      → NoLambda m
      → All NoLambda a.messages
      → All NoLambda (append_message m a).messages
  unfolding append_message
  add_message-NoLambda m a h hs = All-append NoLambda a.messages (m ∷ []) hs (h, tt)

  next :
      (skip : Bool) (m : Message) (lambda : Bool) (a : Activity)
      → Inlined m (some (lambda, a))
      → All NoLambda (if lambda || skip then a else append_message m a).messages
  next skip m true a h = h.1
  next true m false a h = h.1
  next false m false a h = add_message-NoLambda m a (sym h.0) h.1

  next_message :
      (m : Message) (lambda : Bool) (a : Activity)
      → Inlined m (some (lambda, a))
      → All NoLambda (if lambda then a else append_message m a).messages
  next_message m true a h = h.1
  next_message m false a h = add_message-NoLambda m a (sym h.0) h.1

  module _ (call : Message → Activity → Option (Bool × Activity)) (P : Message → Type 0)
      (inlined : (m : Message) (a : Activity)
        → P m
        → All NoLambda a.messages
        → Inlined m (call m a)) where
    ended :
        (m : Message) (a : Activity)
        → P m
        → All NoLambda a.messages
        → (r : Bool × Activity) × (call m a ≡ some r) × Inlined m (some r)
    ended m a p h = ground (arith, inlined m a p h)

    inline_each-Done :
        (id : ℕ) (ms : List Message) (a : Activity)
        → All P ms
        → All NoLambda a.messages
        → Done (inline_each call id ms a)
    unfolding inline_each
    inline_each-Done id [] a p h = h
    inline_each-Done id (m ∷ ms) a p h =
        let (r, e, x) = ended m a p.0 h in
        rw (e, inline_each)
          (inline_each-Done id ms _ p.1
            (next (m.type is_message MessageType.k_return) (set_from id m) r.0 r.1 x))

    inline_messages-Done :
        (ms : List Message) (a : Activity)
        → All P ms
        → All NoLambda a.messages
        → Done (inline_messages call ms a)
    unfolding inline_messages
    inline_messages-Done [] a p h = h
    inline_messages-Done (m ∷ ms) a p h =
        let (r, e, x) = ended m a p.0 h in
        rw (e, inline_messages) (inline_messages-Done ms _ p.1 (next_message m r.0 r.1 x))

  -- The calls between lambdas go down in rank, so no lambda reaches itself.
  abbrev pub IsRanked : (ℕ → ℕ) → Type 0
  IsRanked rank =
      (k : ℕ)
      → is_lambda_operator d k ≡ true
      → All (λ m. is_lambda_operator d m.to ≡ true → rank m.to < rank k) (messages_of d k)

  module _ (rank : ℕ → ℕ) (ranked : IsRanked rank) (id : ℕ) where
    lambda-Inlined :
        (m : Message) (o : Option Activity)
        → is_lambda_operator d m.to ≡ true
        → Done o
        → Inlined m (o >>= λ b. some (true, b))
    lambda-Inlined m none lam h = h
    lambda-Inlined m (some a) lam h = (sym lam, h)

    inline_lambda-Inlined :
        (fuel : ℕ) (m : Message) (a : Activity)
        → is_lambda_operator d m.to ≡ true
        → rank m.to < fuel
        → All NoLambda a.messages
        → Inlined m (
            inline_each (inline_lambda_operator_call fuel d id) id (messages_of d m.to) a >>= λ b.
            some (true, b))
    unfolding inline_lambda_operator_call
    inline_lambda-Inlined zero m a lam r h =
        let impossible : ⊥ = omega (arith, r) in elim impossible [ ]
    inline_lambda-Inlined (suc fuel) m a lam r h = lambda-Inlined m _ lam (
        inline_each-Done (inline_lambda_operator_call (suc fuel) d id)
          (λ mm. is_lambda_operator d mm.to ≡ true → rank mm.to < fuel)
          (λ mm b p hb. elim (Bool-cases (is_lambda_operator d mm.to)) [
            | inr other ↦ rw (other, inline_lambda_operator_call) (sym other, hb)
            | inl y ↦
                rw (y, inline_lambda_operator_call) (inline_lambda-Inlined fuel mm b y (p y) hb)
          ])
          id (messages_of d m.to) a
          (All-mono _ _ (messages_of d m.to) (λ mm l y. omega (arith, l y, r)) (ranked m.to lam)) h)

    inline_lambda_operator_call-Inlined :
        (fuel : ℕ) (m : Message) (a : Activity)
        → (is_lambda_operator d m.to ≡ true → rank m.to < fuel)
        → All NoLambda a.messages
        → Inlined m (inline_lambda_operator_call (suc fuel) d id m a)
    unfolding inline_lambda_operator_call
    inline_lambda_operator_call-Inlined fuel m a r h =
        elim (Bool-cases (is_lambda_operator d m.to)) [
          | inr other ↦ rw (other, inline_lambda_operator_call) (sym other, h)
          | inl lam ↦
              rw (lam, inline_lambda_operator_call) (inline_lambda-Inlined fuel m a lam (r lam) h)
        ]

  -- What stands in the diagram after inlining: no participant is a lambda, and no message goes to one.
  abbrev pub IsLambdaless : Option Diagram → Type 0
  IsLambdaless none = ⊥
  IsLambdaless (some d') =
      All (λ (e : ℕ × Activity). (is_lambda_operator d e.0 ≡ false) × All NoLambda e.1.messages)
        d'.activities
      × All (λ (e : ℕ × Participant). is_lambda_participant d e.1 ≡ false) d'.participants
      × All (λ id. contains id d'.participants ≡ true) d'.active_participants

  abbrev pub AllDone : Option (List (ℕ × Activity)) → Type 0
  AllDone none = ⊥
  AllDone (some as_) =
      All (λ (e : ℕ × Activity). (is_lambda_operator d e.0 ≡ false) × All NoLambda e.1.messages) as_

  consed :
      (id : ℕ) (o : Option Activity) (later : Option (List (ℕ × Activity)))
      → is_lambda_operator d id ≡ false
      → Done o
      → AllDone later
      → AllDone (o >>= λ a. later >>= λ l. some ((id, a) ∷ l))
  consed id none later n h hs = h
  consed id (some a) none n h hs = hs
  consed id (some a) (some l) n h hs = ((n, h), hs)

  inline_activities-AllDone :
      (rank : ℕ → ℕ) (fuel : ℕ) (as_ : List (ℕ × Activity))
      → IsRanked rank
      → ((k : ℕ) → rank k < fuel)
      → AllDone (inline_activities (suc fuel) d as_)
  unfolding inline_activities
  inline_activities-AllDone rank fuel [] ranked f = tt
  inline_activities-AllDone rank fuel ((id, act) ∷ rest) ranked f =
      let later = inline_activities-AllDone rank fuel rest ranked f in
      elim (Bool-cases (is_lambda_operator d id)) [
        | inl lam ↦ rw (lam, inline_activities) later
        | inr other ↦
            rw (other, inline_activities)
              (consed id _ _ other
                (inline_messages-Done (inline_lambda_operator_call (suc fuel) d id) (λ _. Unit {0})
                  (λ m a _ h.
                    inline_lambda_operator_call-Inlined rank ranked id fuel m a (λ _. f m.to) h)
                  act.messages (new_activity id) (All-unit act.messages) tt)
                later)
      ]

-- If the calls between lambdas go down in some rank, inlining ends, with fuel two above every rank,
-- and in the diagram that it gives no activity is that of a lambda, no message goes to a lambda's
-- operator, no participant is a lambda class or its operator, and each active participant is one of
-- the participants.
pub inline_lambda_operator_calls-IsLambdaless :
    (d : Diagram) (rank : ℕ → ℕ) (fuel : ℕ)
    → IsRanked d rank
    → ((k : ℕ) → rank k < fuel)
    → IsLambdaless d (inline_lambda_operator_calls (suc fuel) d)
unfolding inline_lambda_operator_calls
inline_lambda_operator_calls-IsLambdaless d rank fuel ranked f =
    let done = inline_activities-AllDone d rank fuel d.activities ranked f in
    let participants =
      erase_if (λ (e : ℕ × Participant). is_lambda_participant d e.1) d.participants in
    elim (Option-cases (inline_activities (suc fuel) d d.activities)) [
      | inl e ↦ elim (rw e at done) [ ]
      | inr (as_, e) ↦ rw e (
        rw e at done,
        All-erase_if _ d.participants,
        All-mono _ (λ id. contains id participants ≡ true) _ (λ id k. ground (arith, k))
            (All-erase_if (λ id. not (contains id participants)) d.active_participants),
      )
    ]
