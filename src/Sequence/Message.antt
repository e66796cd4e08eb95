-- ===== src/Sequence/Message.antt =====
-- src/sequence_diagram/model/message.{h,cc}, activity.{h,cc} and participant.h. An id is the value of
-- a global `eid_t`.
use clang_uml.Prelude.{
  ℕ, Bool, true, false, ◌||◌, String, Option, none, some, List, [], ◌∷◌, ◌++◌, if◌then◌else◌,
  str_eq, emplace,
}
use clang_uml.Enums.{MessageType, ◌is_message◌}

pub data MessageScope : Type 0 where
  k_normal k_condition : MessageScope

pub record Message : Type 0 where
  pub type : MessageType
  pub from : ℕ
  pub to : ℕ
  pub scope : MessageScope
  pub message_name : String
  pub return_type : String
  pub condition_text : Option String
  pub comment : Option (ℕ × String)
  pub in_static_declaration_context : Bool

-- message(type, from)
abbrev pub new_message : MessageType → ℕ → Message
new_message type from = record {
  type = type;
  from = from;
  to = 0;
  scope = MessageScope.k_normal;
  message_name = "";
  return_type = "";
  condition_text = none;
  comment = none;
  in_static_declaration_context = false;
}

abbrev pub set_from : ℕ → Message → Message
set_from f m = record m { from = f }

abbrev pub set_to : ℕ → Message → Message
set_to t m = record m { to = t }

abbrev pub set_message_name : String → Message → Message
set_message_name name m = record m { message_name = name }

abbrev pub set_return_type : String → Message → Message
set_return_type t m = record m { return_type = t }

-- An empty comment leaves the one that is there.
unfoldable pub set_comment : ℕ → String → Message → Message
set_comment id comment m =
    if str_eq comment "" then m else record m { comment = some (id, comment) }

unfoldable pub set_condition_text : String → Message → Message
set_condition_text text m =
    if str_eq text ""
    then record m { condition_text = none }
    else record m { condition_text = some text }

pub record Activity : Type 0 where
  pub from : ℕ
  pub messages : List Message
  pub callers : List ℕ

abbrev pub new_activity : ℕ → Activity
new_activity id = record { from = id; messages = []; callers = [] }

unfoldable pub add_message : Message → Activity → Activity
add_message m a = record a { messages = a.messages ++ m ∷ [] }

unfoldable pub add_caller : ℕ → Activity → Activity
add_caller caller a = record a { callers = emplace caller a.callers }

unfoldable pub set_callers : List ℕ → Activity → Activity
set_callers callers a = record a { callers = callers }

-- The classes of participants. A method and a function template are functions too.
pub data ParticipantKind : Type 0 where
  participant function function_template : ParticipantKind
  class_ : (is_lambda : Bool) (lambda_operator_id : ℕ) → ParticipantKind
  method objc_method : (class_id : ℕ) → ParticipantKind

pub record Participant : Type 0 where
  pub id : ℕ
  pub full_name : String
  pub skip : Bool
  pub return_type : String
  pub kind : ParticipantKind

-- The casts of `get_participant<T>`.
abbrev pub is_function : ParticipantKind → Bool
is_function function = true
is_function function_template = true
is_function (method _) = true
is_function (objc_method _) = true
is_function _ = false

abbrev pub as_method : ParticipantKind → Option ℕ
as_method (method class_id) = some class_id
as_method _ = none

abbrev pub is_lambda_class : ParticipantKind → Bool
is_lambda_class (class_ is_lambda _) = is_lambda
is_lambda_class _ = false

-- What a block is kept for, in `fold_or_end_block_statement` and in `finalize`.
unfoldable pub is_content : MessageType → Bool
unfolding ◌is_message◌
is_content t =
    t is_message MessageType.k_call
    || t is_message MessageType.k_return
    || t is_message MessageType.k_co_return
