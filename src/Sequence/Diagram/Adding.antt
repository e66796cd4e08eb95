-- ===== src/Sequence/Diagram/Adding.antt =====
-- What adding a message does to each activity, and the links that it keeps.
use clang_uml.Prelude.{
  ℕ, true, false, ◌||◌, Option, none, some, List, [], ◌∷◌, ◌++◌, ◌≡◌, refl, sym, ap, ◌∙◌, arith,
  if◌then◌else◌, ◌==◌, find, insert, update, find-insert, find-update, any_of, All, All-append,
  All-mono, ==_iff, ==_refl, append_assoc, append-nil, Bool-cases, inl, inr, emplace, elem,
  elem-emplace, contains,
}
use clang_uml.Enums.{MessageType, is_message_refl}
use clang_uml.Sequence.Message.{
  Message, Activity, new_activity, add_caller, add_message as append_message,
}
use clang_uml.Sequence.Diagram.{
  Diagram, messages_of, callers_of, add_message, add_block_message, end_block_message,
  fold_or_end_block_statement,
}
use clang_uml.Sequence.Diagram.Folding.{stops, fold_or_end_lem}
use clang_uml.Prelude.{Option-cases, ◌≢◌}

module _ (m : Message) (d : Diagram) where
  -- An activity is there for the caller and for the callee, and what was there stays.
  abbrev pub opened : List (ℕ × Activity)
  opened = insert m.to (new_activity m.to) (insert m.from (new_activity m.from) d.activities)

  abbrev pub opened_at : ℕ → Option Activity
  opened_at j =
      if contains j d.activities
      then find j d.activities
      else if j == m.from || j == m.to
      then some (new_activity j)
      else none

  pub find-opened : (j : ℕ) → find j opened ≡ opened_at j
  find-opened j = ground (
    arith,
    find-insert m.from j (new_activity m.from) d.activities,
    find-insert m.from m.to (new_activity m.from) d.activities,
    find-insert m.to j (new_activity m.to) (insert m.from (new_activity m.from) d.activities),
  )

  pub find-add_message :
      (j : ℕ)
      → find j (add_message m d).activities ≡ elim (find j opened) [
        | none ↦ none
        | some a ↦
            let called = if j == m.to then add_caller m.from a else a in
            some (if j == m.from then append_message m called else called)
      ]
  unfolding add_message
  find-add_message j = ground (
    arith,
    find-update m.to j (add_caller m.from) opened,
    find-update m.from j (append_message m) (update m.to (add_caller m.from) opened),
  )

  pub messages_of-add_message :
      (j : ℕ)
      → messages_of (add_message m d) j
        ≡ (if j == m.from then messages_of d j ++ m ∷ [] else messages_of d j)
  unfolding add_caller append_message
  messages_of-add_message j = ground (arith, find-add_message j, find-opened j)

  pub callers_of-add_message :
      (j : ℕ)
      → callers_of (add_message m d) j
        ≡ (if j == m.to then emplace m.from (callers_of d j) else callers_of d j)
  unfolding add_caller append_message
  callers_of-add_message j = ground (arith, find-add_message j, find-opened j)

-- A message stands in the activity of its caller, and its callee lists that caller.
abbrev pub IsLink : Diagram → ℕ → Message → Type 0
IsLink d k m = (m.from ≡ k) × (elem k (callers_of d m.to) ≡ true)

abbrev pub IsLinked : Diagram → Type 0
IsLinked d = (k : ℕ) → All (IsLink d k) (messages_of d k)

module _ (m : Message) (d : Diagram) where
  callers_of_grows :
      (k j : ℕ) → elem k (callers_of d j) ≡ true → elem k (callers_of (add_message m d) j) ≡ true
  callers_of_grows k j h =
      ground (arith, callers_of-add_message m d j, elem-emplace m.from k (callers_of d j))

  caller_is_listed : elem m.from (callers_of (add_message m d) m.to) ≡ true
  caller_is_listed =
      ground
        (arith, callers_of-add_message m d m.to, elem-emplace m.from m.from (callers_of d m.to))

  still_links :
      (k : ℕ) (ms : List Message) → All (IsLink d k) ms → All (IsLink (add_message m d) k) ms
  still_links k ms = All-mono _ _ ms (λ x h. (h.0, callers_of_grows k x.to h.1))

-- Adding a message keeps every message with its caller and every caller listed at its callee.
pub add_message-IsLinked : (m : Message) (d : Diagram) → IsLinked d → IsLinked (add_message m d)
add_message-IsLinked m d linked k = elim (Bool-cases (k == m.from)) [
  | inl same ↦
      let at : k ≡ m.from = (==_iff k m.from).0 same in
      rw (messages_of-add_message m d k, same)
        (All-append (IsLink (add_message m d) k) (messages_of d k) (m ∷ [])
          (still_links m d k _ (linked k)) ((sym at, rw at (caller_is_listed m d)), tt))
  | inr other ↦ rw (messages_of-add_message m d k, other) (still_links m d k _ (linked k))
]

-- The messages that are added one by one.
unfoldable pub add_messages : List Message → Diagram → Diagram
add_messages [] d = d
add_messages (m ∷ ms) d = add_messages ms (add_message m d)

messages_of-add_messages :
    (ms : List Message) (d : Diagram) (j : ℕ)
    → All (λ m. (j == m.from) ≡ true) ms
    → messages_of (add_messages ms d) j ≡ messages_of d j ++ ms
unfolding add_messages
messages_of-add_messages [] d j h = sym (append-nil (messages_of d j))
messages_of-add_messages (m ∷ ms) d j h =
    messages_of-add_messages ms (add_message m d) j h.1
    ∙ ap (λ l. l ++ ms) (messages_of-add_message m d j)
    ∙ rw h.0 (append_assoc (messages_of d j) (m ∷ []) ms)

abbrev pub end_result : Message → List Message → Diagram → Diagram
end_result e kept d = record d {
  activities = update e.from (λ a. record a { messages = kept }) d.activities;
}

-- The end of a statement rewrites the messages of its caller as the fold says, and no others.
pub end_block_message_lem :
    (e : Message) (start : MessageType) (d : Diagram) (a : Activity) (kept : List Message)
    → find e.from d.activities ≡ some a
    → fold_or_end_block_statement e start a.messages ≡ some kept
    → (end_block_message e start d ≡ some (end_result e kept d))
      × ((j : ℕ)
          → messages_of (end_result e kept d) j ≡ (if j == e.from then kept else messages_of d j))
unfolding end_block_message
end_block_message_lem e start d a kept found folded = (
  ground arith,
  λ j. ground (
    arith,
    find-update e.from j (λ (b : Activity). record b { messages = kept }) d.activities,
    ==_iff j e.from,
  ),
)

nil≢middle : (before : List Message) (m : Message) (rest : List Message) → [] ≢ before ++ m ∷ rest
nil≢middle [] m rest h = cc
nil≢middle (x ∷ before) m rest h = cc

pub found_if_nonempty :
    (d : Diagram) (j : ℕ) (before : List Message) (m : Message) (rest : List Message)
    → messages_of d j ≡ before ++ m ∷ rest
    → (a : Activity) × (find j d.activities ≡ some a) × (a.messages ≡ before ++ m ∷ rest)
found_if_nonempty d j before m rest h = elim (Option-cases (find j d.activities)) [
  | inl gone ↦
      absurd (nil≢middle before m rest (let e : messages_of d j ≡ [] = ground arith in sym e ∙ h))
  | inr (a, e) ↦ (a, e, let e' : messages_of d j ≡ a.messages = ground arith in sym e' ∙ h)
]

-- If the messages of a body are of the caller that a statement has, and none is a call, a return or a start
-- of such a statement, and the end message is of that caller, then the end is defined, and the start, the
-- body and the end leave the caller's messages as they were.
pub empty_block_leaves_no_trace :
    (b : Message) (body : List Message) (e : Message) (d : Diagram)
    → All (λ m. (b.from == m.from) ≡ true) body
    → any_of (stops b.type) body ≡ false
    → e.from ≡ b.from
    → (d' : Diagram) × (end_block_message e b.type (add_messages body (add_block_message b d))
        ≡ some d')
      × (messages_of d' b.from ≡ messages_of d b.from)
unfolding add_block_message
empty_block_leaves_no_trace b body e d same none_stops from =
    let before = messages_of d b.from in
    let d₁ = add_messages body (add_message b d) in
    let filled : messages_of d₁ b.from ≡ before ++ b ∷ body =
      messages_of-add_messages body (add_message b d) b.from same
      ∙ ap (λ l. l ++ body) (messages_of-add_message b d b.from)
      ∙ rw (==_refl b.from) (append_assoc before (b ∷ []) body) in
    let (a, found, holds) = found_if_nonempty d₁ b.from before b body filled in
    let folded : fold_or_end_block_statement e b.type a.messages ≡ some before =
      ap (fold_or_end_block_statement e b.type) holds
      ∙ fold_or_end_lem e b.type before b body none_stops (rw (is_message_refl b.type) refl)
      ∙ rw (is_message_refl b.type) refl in
    let (ends, after) =
      end_block_message_lem e b.type d₁ a before (ap (λ k. find k d₁.activities) from ∙ found)
        folded in
    (end_result e before d₁, ends, after b.from ∙ rw (from, ==_refl b.from) refl)
