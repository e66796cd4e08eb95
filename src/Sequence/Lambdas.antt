-- ===== src/Sequence/Lambdas.antt =====
-- `inline_lambda_operator_calls` (src/sequence_diagram/model/diagram.cc): the calls of a lambda
-- expression are replaced by the calls that it makes. A lambda that reaches itself would recurse
-- without end, so the recursion is on fuel and `none` is a recursion that is deeper.
pub mod Lambdaless
use clang_uml.Prelude.{
  ℕ, zero, suc, Bool, true, false, not, ◌||◌, Option, none, some, List, [], ◌∷◌, ◌>>=◌,
  if◌then◌else◌, find, contains, erase_if,
}
use clang_uml.Enums.{MessageType, ◌is_message◌}
use clang_uml.Sequence.Message.{
  Message, Activity, Participant, ParticipantKind, new_activity, as_method, is_lambda_class,
  set_from, add_message as append_message,
}
use clang_uml.Sequence.Diagram.{Diagram, messages_of}

-- Whether an id is that of a method whose class is a lambda.
abbrev pub is_lambda_class_id : Diagram → ℕ → Bool
is_lambda_class_id d id = elim (find id d.participants) [
  | none ↦ false
  | some p ↦ is_lambda_class p.kind
]

abbrev pub is_lambda_method : Diagram → ParticipantKind → Bool
is_lambda_method d kind = elim (as_method kind) [
  | none ↦ false
  | some class_id ↦ is_lambda_class_id d class_id
]

unfoldable pub is_lambda_operator : Diagram → ℕ → Bool
is_lambda_operator d id = elim (find id d.participants) [
  | none ↦ false
  | some p ↦ is_lambda_method d p.kind
]

-- The loop over the calls of a lambda activity.
unfoldable pub inline_each :
    (Message → Activity → Option (Bool × Activity)) → ℕ → List Message → Activity → Option Activity
unfolding append_message
inline_each call id [] a = some a
inline_each call id (mm ∷ mms) a = call mm a >>= λ r. inline_each call id mms (
    if r.0 || mm.type is_message MessageType.k_return
    then r.1
    else append_message (set_from id mm) r.1)

-- Gives whether the message calls a lambda, and the new activity with what that lambda calls.
unfoldable pub inline_lambda_operator_call :
    ℕ → Diagram → ℕ → Message → Activity → Option (Bool × Activity)
unfolding inline_each is_lambda_operator
inline_lambda_operator_call zero d id m a = none
inline_lambda_operator_call (suc fuel) d id m a = elim (is_lambda_operator d m.to) [
  | false ↦ some (false, a)
  | true ↦ inline_each (inline_lambda_operator_call fuel d id) id (messages_of d m.to) a >>= λ b.
      some (true, b)
]

-- The loop over the messages of an activity.
unfoldable pub inline_messages :
    (Message → Activity → Option (Bool × Activity)) → List Message → Activity → Option Activity
unfolding append_message
inline_messages call [] a = some a
inline_messages call (m ∷ ms) a =
    call m a >>= λ r. inline_messages call ms (if r.0 then r.1 else append_message m r.1)

-- The loop over the activities, whose keys are in ascending order before and after.
unfoldable pub inline_activities : ℕ → Diagram → List (ℕ × Activity) → Option (List (ℕ × Activity))
unfolding inline_messages inline_lambda_operator_call is_lambda_operator
inline_activities fuel d [] = some []
inline_activities fuel d ((id, act) ∷ rest) = elim (is_lambda_operator d id) [
  | true ↦ inline_activities fuel d rest
  | false ↦
      inline_messages (inline_lambda_operator_call fuel d id) act.messages (new_activity id)
      >>= λ a. inline_activities fuel d rest >>= λ later. some ((id, a) ∷ later)
]

abbrev pub is_lambda_participant : Diagram → Participant → Bool
is_lambda_participant d p = is_lambda_class p.kind || is_lambda_method d p.kind

unfoldable pub inline_lambda_operator_calls : ℕ → Diagram → Option Diagram
unfolding inline_activities
inline_lambda_operator_calls fuel d = inline_activities fuel d d.activities >>= λ activities.
    (let participants =
        erase_if (λ (e : ℕ × Participant). is_lambda_participant d e.1) d.participants in
      some record {
        activities = activities;
        participants = participants;
        active_participants = erase_if (λ id. not (contains id participants)) d.active_participants;
      })
