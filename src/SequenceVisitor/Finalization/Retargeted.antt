-- ===== src/SequenceVisitor/Finalization/Retargeted.antt =====
-- The messages once the calls of lambdas are given to their operators.
use clang_uml.Prelude.{
  ℕ, true, false, Option, none, some, List, [], ◌∷◌, ◌≡◌, refl, ap, ◌∙◌, inl, inr, arith, ◌==◌,
  ==_iff, ==_refl, find, contains, update, find-insert, find-update, map, IsUnique, IsUnique-insert,
  IsUnique-update, Bool-cases, Option-cases,
}
use clang_uml.Sequence.Message.{Message, Activity, Participant, new_activity}
use clang_uml.Sequence.Diagram.{Diagram, messages_of}
use clang_uml.SequenceVisitor.Messages.{Visitor, ensure_activity_exists, with_diagram}
use clang_uml.SequenceVisitor.Finalization.{
  operator_of, set_target, ensure_target, retarget_messages, ensure_lambda_messages,
  ensure_lambda_messages_have_operator_as_target,
}

-- What the loop over the messages leaves as it is.
abbrev IsKept : Visitor → Visitor → Type 0
IsKept v w =
    (w.diagram.participants ≡ v.diagram.participants)
    × ((k : ℕ) → messages_of w.diagram k ≡ messages_of v.diagram k)
    × ((k : ℕ) → contains k v.diagram.activities ≡ true → contains k w.diagram.activities ≡ true)
    × (IsUnique v.diagram.activities → IsUnique w.diagram.activities)

ensure_target-IsKept : (o : Option ℕ) (m : Message) (v : Visitor) → IsKept v (ensure_target o m v)
unfolding ensure_activity_exists
ensure_target-IsKept none m v = (refl, λ k. refl, λ k h. h, λ u. u)
ensure_target-IsKept (some op) m v = (
  refl,
  λ k. ground (arith, find-insert m.from k (new_activity m.from) v.diagram.activities),
  λ k h. ground (arith, find-insert m.from k (new_activity m.from) v.diagram.activities, h),
  IsUnique-insert m.from (new_activity m.from) v.diagram.activities,
)

abbrev pub retarget : List (ℕ × Participant) → Message → Message
retarget participants m = set_target (operator_of participants m.to) m

retarget_messages_lem :
    (ms : List Message) (v : Visitor)
    → ((retarget_messages ms v).0 ≡ map (retarget v.diagram.participants) ms)
      × IsKept v (retarget_messages ms v).1
unfolding retarget_messages
retarget_messages_lem [] v = (refl, (refl, λ k. refl, λ k h. h, λ u. u))
retarget_messages_lem (m ∷ ms) v =
    let op = operator_of v.diagram.participants m.to in
    let (p, q, r, t) = ensure_target-IsKept op m v in
    let (e, (p', q', r', t')) = retarget_messages_lem ms (ensure_target op m v) in
    (
      ap (λ l. set_target op m ∷ l) (e ∙ ap (λ ps. map (retarget ps) ms) p),
      (p' ∙ p, λ k. q' k ∙ q k, λ k h. r' k (r k h), λ u. t' (t u)),
    )

-- The activities with other messages for one of them.
abbrev replace_messages : ℕ → List Message → Diagram → Diagram
replace_messages id messages d = record d {
  activities = update id (λ b. record b { messages = messages }) d.activities;
}

messages-replace_other :
    (id : ℕ) (ms : List Message) (d : Diagram) (k : ℕ)
    → (k == id) ≡ false
    → messages_of (replace_messages id ms d) k ≡ messages_of d k
messages-replace_other id ms d k h =
    let e = find-update id k (λ (b : Activity). record b { messages = ms }) d.activities in
    elim (Option-cases (find k d.activities)) [
      | inl n ↦ rw (messages_of, e, n) refl
      | inr (a, s) ↦ rw (messages_of, e, s, h) refl
    ]

messages-replace_same :
    (id : ℕ) (ms : List Message) (d : Diagram)
    → contains id d.activities ≡ true
    → messages_of (replace_messages id ms d) id ≡ ms
messages-replace_same id ms d h =
    let e = find-update id id (λ (b : Activity). record b { messages = ms }) d.activities in
    elim (Option-cases (find id d.activities)) [
      | inl n ↦ ground (arith, n, h)
      | inr (a, s) ↦ rw (messages_of, e, s, ==_refl id) refl
    ]

contains-replace :
    (id : ℕ) (ms : List Message) (d : Diagram) (k : ℕ)
    → contains k d.activities ≡ true
    → contains k (replace_messages id ms d).activities ≡ true
contains-replace id ms d k h =
    ground (arith, find-update id k (λ (b : Activity). record b { messages = ms }) d.activities, h)

abbrev messages_or : List (ℕ × Participant) → Option Activity → List Message → List Message
messages_or participants none ms = ms
messages_or participants (some a) ms = map (retarget participants) a.messages

find-fresh : (k : ℕ) (es : List (ℕ × Activity)) → contains k es ≡ false → find k es ≡ none
find-fresh k es h = elim (Option-cases (find k es)) [
  | inl n ↦ n
  | inr (a, s) ↦ ground (arith, s, h)
]

contains-cons :
    (k id : ℕ) (a : Activity) (es : List (ℕ × Activity))
    → contains k es ≡ true
    → contains k ((id, a) ∷ es) ≡ true
unfolding find
contains-cons k id a es h = ground (arith, h)

messages_or_found :
    (ps : List (ℕ × Participant)) (o : Option Activity)
    → messages_or ps o (elim o as (λ _. List Message) [ none ↦ [] | some a ↦ a.messages ])
      ≡ map (retarget ps) (elim o as (λ _. List Message) [ none ↦ [] | some a ↦ a.messages ])
messages_or_found ps none = refl
messages_or_found ps (some a) = refl

ensure_lambda_messages_step :
    (es : List (ℕ × Activity)) (v : Visitor)
    → IsUnique es
    → ((k : ℕ) → contains k es ≡ true → contains k v.diagram.activities ≡ true)
    → (k : ℕ)
    → messages_of (ensure_lambda_messages es v).diagram k
      ≡ messages_or v.diagram.participants (find k es) (messages_of v.diagram k)
unfolding ensure_lambda_messages find
ensure_lambda_messages_step [] v u h k = refl
ensure_lambda_messages_step ((id, a) ∷ rest) v u h k =
    let (e, (p, q, r, _)) = retarget_messages_lem a.messages v in
    let w = (retarget_messages a.messages v).1 in
    let ms = (retarget_messages a.messages v).0 in
    let d = replace_messages id ms w.diagram in
    let there : contains id w.diagram.activities ≡ true =
      r id (h id (rw (contains, ==_refl id) refl)) in
    let kept : (j : ℕ) → contains j rest ≡ true → contains j d.activities ≡ true =
      λ j c. contains-replace id ms w.diagram j (r j (h j (contains-cons j id a rest c))) in
    let later = ensure_lambda_messages_step rest (with_diagram d w) u.1 kept k in
    let later' = later ∙ ap (λ ps. messages_or ps (find k rest) (messages_of d k)) p in
    elim (Bool-cases (k == id)) [
      | inl same ↦
          let at : k ≡ id = (==_iff k id).0 same in
          let gone : find k rest ≡ none = ap (λ i. find i rest) at ∙ find-fresh id rest u.0 in
          let now : messages_of d k ≡ map (retarget v.diagram.participants) a.messages =
            ap (messages_of d) at ∙ messages-replace_same id ms w.diagram there ∙ e in
          later'
          ∙ ap (λ o. messages_or v.diagram.participants o (messages_of d k)) gone
          ∙ now
          ∙ rw same refl
      | inr other ↦
          later'
          ∙ ap (messages_or v.diagram.participants (find k rest))
              (messages-replace_other id ms w.diagram k other ∙ q k)
          ∙ rw other refl
    ]

IsUnique-ensure_lambda_messages_step :
    (es : List (ℕ × Activity)) (v : Visitor)
    → IsUnique v.diagram.activities
    → IsUnique (ensure_lambda_messages es v).diagram.activities
unfolding ensure_lambda_messages
IsUnique-ensure_lambda_messages_step [] v u = u
IsUnique-ensure_lambda_messages_step ((id, a) ∷ rest) v u =
    let w = (retarget_messages a.messages v).1 in
    let ms = (retarget_messages a.messages v).0 in
    IsUnique-ensure_lambda_messages_step rest (with_diagram (replace_messages id ms w.diagram) w) (
      IsUnique-update id (λ (b : Activity). record b { messages = ms }) w.diagram.activities
        ((retarget_messages_lem a.messages v).1.3 u))

pub IsUnique-ensure_lambda_messages :
    (v : Visitor)
    → IsUnique v.diagram.activities
    → IsUnique (ensure_lambda_messages_have_operator_as_target v).diagram.activities
IsUnique-ensure_lambda_messages v u = IsUnique-ensure_lambda_messages_step v.diagram.activities v u

pub messages-ensure_lambda_messages :
    (v : Visitor)
    → IsUnique v.diagram.activities
    → (k : ℕ)
    → messages_of (ensure_lambda_messages_have_operator_as_target v).diagram k
      ≡ map (retarget v.diagram.participants) (messages_of v.diagram k)
messages-ensure_lambda_messages v u k =
    ensure_lambda_messages_step v.diagram.activities v u (λ j c. c) k
    ∙ messages_or_found v.diagram.participants (find k v.diagram.activities)
