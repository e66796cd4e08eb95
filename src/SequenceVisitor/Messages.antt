-- ===== src/SequenceVisitor/Messages.antt =====
-- src/sequence_diagram/visitor/translation_unit_visitor.{h,cc}: the state of the visitor, and the messages
-- that it keeps at an expression until the expression has been traversed.
use clang_uml.Prelude.{
  ℕ, Bool, Option, none, some, List, [], ◌∷◌, ◌++◌, if◌then◌else◌, ◌==◌, find, insert, update,
  emplace, erase_key,
}
use clang_uml.Eid.{Eid}
use clang_uml.Sequence.Message.{Message, new_activity, add_message as append_message}
use clang_uml.Sequence.Diagram.{Diagram, has_activity}
use clang_uml.SequenceVisitor.Context.{
  CallExpressionContext, ExprKind, call_expr, construct_expr, objc_message_expr, return_stmt,
  coreturn_stmt, coyield_expr, coawait_expr,
}

-- The maps from an expression to its message, one for each kind but a call, are a family over the kinds.
pub record Visitor : Type 0 where
  pub context : CallExpressionContext
  pub diagram : Diagram
  pub call_expr_message_map : List (ℕ × List Message)
  pub message_maps : ExprKind → List (ℕ × Message)
  pub id_map : List (ℕ × Eid)
  pub activity_callers : List (ℕ × List ℕ)
  pub within_static_variable_declaration : ℕ

abbrev kind_value : ExprKind → ℕ
kind_value call_expr = 0
kind_value construct_expr = 1
kind_value objc_message_expr = 2
kind_value return_stmt = 3
kind_value coreturn_stmt = 4
kind_value coyield_expr = 5
kind_value coawait_expr = 6

infix 50 ◌is_kind◌
unfoldable pub ◌is_kind◌ : ExprKind → ExprKind → Bool
a is_kind b = kind_value a == kind_value b

abbrev pub with_map : ExprKind → (List (ℕ × Message) → List (ℕ × Message)) → Visitor → Visitor
with_map kind f v = record v {
  message_maps = λ k. if k is_kind kind then f (v.message_maps k) else v.message_maps k;
}

-- The messages of a call are a deque, the other maps hold one message, and a second one is dropped.
unfoldable pub push_message : ExprKind → ℕ → Message → Visitor → Visitor
unfolding ◌is_kind◌
push_message kind expr m v =
    if kind is_kind call_expr
    then record v {
      call_expr_message_map =
          update expr (λ ms. ms ++ m ∷ []) (insert expr [] v.call_expr_message_map);
    }
    else with_map kind (insert expr m) v

-- The loop over the messages of a call: the diagram, and the messages that are left when a message of no
-- caller ends it.
unfoldable pub pop_calls : List Message → Diagram → Diagram × List Message
unfolding append_message
pop_calls [] d = (d, [])
pop_calls (m ∷ ms) d =
    let popped = record d { activities = update m.from (append_message m) d.activities } in
    let after = pop_calls ms (if has_activity d m.from then popped else d) in
    if m.from == 0 then (d, m ∷ ms) else after

abbrev pub with_diagram : Diagram → Visitor → Visitor
with_diagram d v = record v { diagram = d }

unfoldable pub pop_call_messages : ℕ → List Message → Visitor → Visitor
unfolding pop_calls erase_key
pop_call_messages expr ms v =
    let (d, left) = pop_calls ms v.diagram in
    let v = with_diagram d v in
    elim left [
      | [] ↦ record v { call_expr_message_map = erase_key expr v.call_expr_message_map }
      | m ∷ rest ↦ record v {
        call_expr_message_map = update expr (λ _. m ∷ rest) v.call_expr_message_map;
      }
    ]

-- `get_activity` throws if the caller has no activity.
unfoldable pub pop_one_message : ExprKind → ℕ → Message → Visitor → Option Visitor
unfolding append_message erase_key
pop_one_message kind expr m v =
    let d = v.diagram in
    if has_activity d m.from
    then some (
        with_map kind (erase_key expr) (
          with_diagram (record d { activities = update m.from (append_message m) d.activities }) v))
    else none

unfoldable pub pop_message_to_diagram : ExprKind → ℕ → Visitor → Option Visitor
unfolding pop_call_messages pop_one_message ◌is_kind◌
pop_message_to_diagram kind expr v =
    if kind is_kind call_expr
    then elim (find expr v.call_expr_message_map) [
      | none ↦ some v
      | some [] ↦ some v
      | some ms ↦ some (pop_call_messages expr ms v)
    ]
    else elim (find expr (v.message_maps kind)) [
      | none ↦ some v
      | some m ↦ pop_one_message kind expr m v
    ]

-- An activity for the caller, and the caller among the callers of the callee.
unfoldable pub ensure_activity_exists : Message → Visitor → Visitor
ensure_activity_exists m v =
    let d = v.diagram in
    let d = record d { activities = insert m.from (new_activity m.from) d.activities } in
    record v {
      diagram = d;
      activity_callers = update m.to (emplace m.from) (insert m.to [] v.activity_callers);
    }
