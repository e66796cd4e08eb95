-- ===== src/Sequence/Diagram.antt =====
-- src/sequence_diagram/model/diagram.{h,cc}: the model and the operations by which the visitor of
-- the syntax tree fills it.
pub mod Folding
pub mod Adding
use clang_uml.Prelude.{
  ℕ, Bool, true, false, not, ◌&&◌, String, Option, none, some, List, [], ◌∷◌, ◌++◌, map, ◌>>=◌,
  if◌then◌else◌, find, insert, update, contains, emplace, str_eq,
}
use mathlib.Core.List.{reverse}
use clang_uml.Enums.{MessageType, ◌is_message◌}
use clang_uml.Sequence.Message.{
  Message, Activity, Participant, new_activity, add_caller, is_content,
  add_message as append_message,
}

pub record Diagram : Type 0 where
  pub activities : List (ℕ × Activity)
  pub participants : List (ℕ × Participant)
  pub active_participants : List ℕ

unfoldable pub add_participant : Participant → Diagram → Diagram
add_participant p d = record d { participants = insert p.id p d.participants }

unfoldable pub add_active_participant : ℕ → Diagram → Diagram
add_active_participant id d = record d { active_participants = emplace id d.active_participants }

abbrev pub get_participant : Diagram → ℕ → Option Participant
get_participant d id = find id d.participants

abbrev pub has_activity : Diagram → ℕ → Bool
has_activity d id = contains id d.activities

-- The messages of an activity, none if it is not there.
abbrev pub messages_of : Diagram → ℕ → List Message
messages_of d id = elim (find id d.activities) [ none ↦ [] | some a ↦ a.messages ]

abbrev pub callers_of : Diagram → ℕ → List ℕ
callers_of d id = elim (find id d.activities) [ none ↦ [] | some a ↦ a.callers ]

unfoldable pub add_message : Message → Diagram → Diagram
unfolding add_caller append_message
add_message m d =
    let activities = insert m.from (new_activity m.from) d.activities in
    let activities = insert m.to (new_activity m.to) activities in
    let activities = update m.to (add_caller m.from) activities in
    record d { activities = update m.from (append_message m) activities }

unfoldable pub add_block_message : Message → Diagram → Diagram
unfolding add_message
add_block_message m d = add_message m d

-- The search from the last message back to the start of the statement. `none` is a statement whose
-- start is missing, for which the program erases from before the first message (undefined).
pub data Search : Type 0 where
  missing nonempty : Search
  empty_after : List Message → Search

unfoldable pub search_back : MessageType → List Message → Search
search_back statement_begin [] = missing
search_back statement_begin (m ∷ earlier) =
    if m.type is_message statement_begin
    then empty_after earlier
    else if is_content m.type
    then nonempty
    else search_back statement_begin earlier

abbrev pub fold_or_end : Message → List Message → Search → Option (List Message)
fold_or_end m current_messages missing = none
fold_or_end m current_messages nonempty = some (current_messages ++ m ∷ [])
fold_or_end m current_messages (empty_after earlier) = some (reverse earlier)

unfoldable pub fold_or_end_block_statement :
    Message → MessageType → List Message → Option (List Message)
fold_or_end_block_statement m statement_begin current_messages =
    fold_or_end m current_messages (search_back statement_begin (reverse current_messages))

-- A statement of a caller with no activity is dropped.
unfoldable pub end_block_message : Message → MessageType → Diagram → Option Diagram
unfolding fold_or_end_block_statement
end_block_message m start_type d = elim (find m.from d.activities) [
  | none ↦ some d
  | some a ↦ do
    messages ← fold_or_end_block_statement m start_type a.messages
    some (record d {
      activities = update m.from (λ b. record b { messages = messages }) d.activities;
    })
]

-- `back()` of an activity with no message is undefined.
unfoldable pub add_case_stmt_message : Message → Diagram → Option Diagram
add_case_stmt_message m d = elim (find m.from d.activities) [
  | none ↦ some d
  | some a ↦ elim (reverse a.messages) [
    | [] ↦ none
    | last ∷ _ ↦ some (
        if last.type is_message MessageType.k_case
        then d
        else record d { activities = update m.from (append_message m) d.activities })
  ]
]
