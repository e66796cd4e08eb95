-- ===== src/SequenceVisitor/Steps/Ensured.antt =====
-- A message that is kept at its expression, with an activity for its caller.
use clang_uml.Prelude.{
  ℕ, true, false, ◌&&◌, ◌≡◌, refl, arith, ltb, ==_refl, insert, find-insert, IsUnique-insert,
  Bool-cases, inl, inr,
}
use clang_uml.Enums.{MessageType}
use clang_uml.Sequence.Message.{Message, new_activity}
use clang_uml.Sequence.Diagram.{Diagram, messages_of, has_activity, add_active_participant}
use clang_uml.Sequence.Blocks.{is_begin_block_message, is_end_block_message}
use clang_uml.Sequence.Blocks.Statements.{IsSingle}
use clang_uml.SequenceVisitor.Context.{ExprKind}
use clang_uml.SequenceVisitor.Messages.{Visitor, push_message, ensure_activity_exists}
use clang_uml.SequenceVisitor.Visits.{with_active, keep_call, keep_return}
use clang_uml.SequenceVisitor.Emits.{Keeps, Emits-refl, Added-same}
use clang_uml.SequenceVisitor.Walk.{Place}
use clang_uml.SequenceVisitor.Steps.{
  IsPending, Step, Step-trans, Step-refl, Progress-with_diagram, still-Waits,
}
use clang_uml.SequenceVisitor.Steps.Pending.{push_message-Step}

module _ (m : Message) (d : Diagram) where
  abbrev ensured : Diagram
  ensured = record d { activities = insert m.from (new_activity m.from) d.activities }

  messages_of-ensured : (id : ℕ) → messages_of ensured id ≡ messages_of d id
  messages_of-ensured id = ground (arith, find-insert m.from id (new_activity m.from) d.activities)

  ensured-Keeps : Keeps d ensured
  ensured-Keeps = (
    λ id h. ground (arith, find-insert m.from id (new_activity m.from) d.activities, h),
    IsUnique-insert m.from (new_activity m.from) d.activities,
  )

  ensured_has : has_activity ensured m.from ≡ true
  ensured_has =
      ground (arith, find-insert m.from m.from (new_activity m.from) d.activities, ==_refl m.from)

pub ensure_activity_exists-Step :
    {b : Place} (m : Message) (v : Visitor) → Step b v (ensure_activity_exists m v)
unfolding ensure_activity_exists
ensure_activity_exists-Step m v =
    let d = ensured m v.diagram in
    let k = ensured-Keeps m v.diagram in
    (
      record {
        kept = k;
        pending = λ p. (p.0, λ kind. still-Waits v.diagram d (v.message_maps kind) k (p.1 kind));
        tries = λ h. h;
        switches = λ h. h;
        contexts = λ h. h;
        lambdas = refl;
        caller = λ _. refl;
      },
      λ id.
          Added-same (messages_of v.diagram id) (messages_of d id)
            (messages_of-ensured m v.diagram id),
    )

pub ensure_activity_exists_has :
    (m : Message) (v : Visitor) → has_activity (ensure_activity_exists m v).diagram m.from ≡ true
unfolding ensure_activity_exists
ensure_activity_exists_has m v = ensured_has m v.diagram

pub with_active-Step : {b : Place} (id : ℕ) (v : Visitor) → Step b v (with_active id v)
unfolding add_active_participant
with_active-Step id v = (
  Progress-with_diagram v (add_active_participant id v.diagram) (λ id h. h, λ u. u),
  Emits-refl v.diagram,
)

abbrev pub IsSingleType : MessageType → Type 0
IsSingleType t = (is_begin_block_message t ≡ false) × (is_end_block_message t ≡ false)

-- What a handler does with a message of a type that opens and closes no block.
pub ensured_push-Step :
    {b : Place} (kind : ExprKind) (expr : ℕ) (m : Message) (v w : Visitor)
    → IsPending v
    → IsSingle m
    → Step b (ensure_activity_exists m v) w
    → Step b v (push_message kind expr m w)
ensured_push-Step kind expr m v w p i st =
    let all = Step-trans (ensure_activity_exists-Step m v) st in
    Step-trans all (
      push_message-Step kind expr m w (all.0.pending p) i
        (st.0.kept.0 m.from (ensure_activity_exists_has m v)))

pub keep_return-Step :
    {b : Place} (kind : ExprKind) (expr : ℕ) (m : Message) (v : Visitor)
    → IsPending v
    → IsSingle m
    → Step b v (keep_return kind expr m v)
unfolding keep_return
keep_return-Step kind expr m v p i = elim (Bool-cases (ltb 0 m.from)) [
  | inl pos ↦ rw pos (
      ensured_push-Step kind expr m v (with_active m.from (ensure_activity_exists m v)) p i
        (with_active-Step m.from (ensure_activity_exists m v)))
  | inr zero_caller ↦ rw zero_caller (Step-refl v)
]

pub keep_call-Step :
    {b : Place} (kind : ExprKind) (expr : ℕ) (m : Message) (v : Visitor)
    → IsPending v
    → IsSingle m
    → Step b v (keep_call kind expr m v)
unfolding keep_call
keep_call-Step kind expr m v p i = elim (Bool-cases (ltb 0 m.from && ltb 0 m.to)) [
  | inl pos ↦
      let w = ensure_activity_exists m v in
      rw pos (
        ensured_push-Step kind expr m v (with_active m.to (with_active m.from w)) p i
          (Step-trans (with_active-Step m.from w) (with_active-Step m.to (with_active m.from w))))
  | inr none_kept ↦ rw none_kept (Step-refl v)
]
