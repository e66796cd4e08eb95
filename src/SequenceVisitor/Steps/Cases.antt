-- ===== src/SequenceVisitor/Steps/Cases.antt =====
-- The Traverse handlers of `case` and `default` as steps.
use mathlib.Core.List.{reverse, reverse-append}
use clang_uml.Prelude.{
  Bool, true, false, not, ◌&&◌, ◌||◌, String, Option, none, some, List, [], ◌∷◌, ◌≡◌, refl, sym, ap,
  ◌∙◌, arith, if◌then◌else◌, ◌==◌, ◌>>=◌, Bool-cases, Option-cases, inl, inr, find,
}
use clang_uml.Enums.{MessageType, ◌is_message◌}
use clang_uml.Sequence.Message.{Message, Activity, new_message, set_message_name}
use clang_uml.Sequence.Diagram.{Diagram, messages_of, has_activity, add_case_stmt_message}
use clang_uml.Sequence.Blocks.{is_begin_block_message, is_end_block_message}
use clang_uml.Sequence.Blocks.Statements.{IsSingle}
use clang_uml.SequenceVisitor.Context.{caller_id, current_switchstmt, is_there}
use clang_uml.SequenceVisitor.Messages.{with_diagram}
use clang_uml.SequenceVisitor.Handlers.{Handler, traverse_case_stmt, traverse_default_stmt}
use clang_uml.SequenceVisitor.Emits.{Emits, Keeps, Emits-refl}
use clang_uml.SequenceVisitor.Walk.{Place}
use clang_uml.SequenceVisitor.Steps.{
  Step, still-IsReady, Step-trans, Progress-with_diagram, Step-InSwitch, is_nonempty,
  is_nonempty-snoc, Works,
}
use clang_uml.SequenceVisitor.Steps.Pending.{appended, appended-Emits, appended-Keeps}

is_nonempty-reverse : (xs : List Message) → is_nonempty xs ≡ true → is_nonempty (reverse xs) ≡ true
is_nonempty-reverse [] h = cc
is_nonempty-reverse (x ∷ xs) h =
    ap is_nonempty (reverse-append (x ∷ []) xs) ∙ is_nonempty-snoc (reverse xs) x

-- A `case` is added, or another one stands in front of it, if the caller has messages.
module _ (m : Message) (d : Diagram) (i : IsSingle m) where
  abbrev after_last : List Message → Option Diagram
  after_last [] = none
  after_last (last ∷ _) = some (if last.type is_message MessageType.k_case then d else appended m d)

  abbrev case_in : Option Activity → Option Diagram
  case_in none = some d
  case_in (some a) = after_last (reverse a.messages)

  case_behind :
      (rev : List Message)
      → is_nonempty rev ≡ true
      → has_activity d m.from ≡ true
      → (d' : Diagram) × (after_last rev ≡ some d') × Emits d d' × Keeps d d'
  case_behind [] h there = absurd cc
  case_behind (last ∷ _) h there = elim (Bool-cases (last.type is_message MessageType.k_case)) [
    | inl again ↦ (d, rw again refl, Emits-refl d, (λ id k. k, λ u. u))
    | inr first ↦ (appended m d, rw first refl, appended-Emits m d i there, appended-Keeps m d)
  ]

  add_case_stmt_message-Emits :
      is_nonempty (messages_of d m.from) ≡ true
      → (d' : Diagram) × (add_case_stmt_message m d ≡ some d') × Emits d d' × Keeps d d'
  unfolding add_case_stmt_message
  add_case_stmt_message-Emits h = elim (Option-cases (find m.from d.activities)) [
    | inl gone ↦
        let empty : messages_of d m.from ≡ [] = ground arith in
        let clash : false ≡ true = ap is_nonempty (sym empty) ∙ h in absurd cc
    | inr (a, found) ↦
        let full : is_nonempty a.messages ≡ true =
          ap is_nonempty (let same : a.messages ≡ messages_of d m.from = ground arith in same)
          ∙ h in
        let there : has_activity d m.from ≡ true = ground arith in
        let (d', e, emits, keeps) =
          case_behind (reverse a.messages) (is_nonempty-reverse a.messages full) there in
        (d', ap case_in found ∙ e, emits, keeps)
  ]

case_Works :
    {b : Place} (name : String) (base : Handler)
    → b.in_switch ≡ true
    → Works b base
    → Works b (traverse_case_stmt name base)
unfolding traverse_case_stmt is_begin_block_message is_end_block_message
case_Works {b} name base t w v p s =
    let caller = caller_id v.context in
    let m = set_message_name name (new_message MessageType.k_case caller) in
    let shown = not (caller == 0) && is_there (current_switchstmt v.context) in
    elim (Bool-cases shown) [
      | inr not_shown ↦ rw not_shown (w v p s)
      | inl is_shown ↦
          let holds : is_nonempty (messages_of v.diagram caller) ≡ true =
            nonempty_of (caller == 0) (is_there (current_switchstmt v.context)) _ is_shown (s t) in
          let (d, added, emits, keeps) =
            add_case_stmt_message-Emits m v.diagram (refl, refl) holds in
          let st : Step b v (with_diagram d v) = (Progress-with_diagram v d keeps, emits) in
          let (x, made, st') = w (with_diagram d v) (still-IsReady st p) (Step-InSwitch st s) in
          rw is_shown
            (x, ap (λ o. o >>= λ z. base (with_diagram z v)) added ∙ made, Step-trans st st')
    ]
  where
    nonempty_of : (a c x : Bool) → (not a && c) ≡ true → (a || x) ≡ true → x ≡ true
    nonempty_of true c x h k = absurd cc
    nonempty_of false c x h k = k

pub traverse_case_stmt-Works :
    {b : Place} (name : String) (base : Handler)
    → b.in_switch ≡ true
    → Works b base
    → Works b (traverse_case_stmt name base)
traverse_case_stmt-Works name base = case_Works name base

pub traverse_default_stmt-Works :
    {b : Place} (base : Handler)
    → b.in_switch ≡ true
    → Works b base
    → Works b (traverse_default_stmt base)
unfolding traverse_default_stmt
traverse_default_stmt-Works base = case_Works "default" base
