-- ===== src/SequenceVisitor/Handlers.antt =====
-- src/sequence_diagram/visitor/translation_unit_visitor.cc: the Traverse handlers of statements. The
-- traversal of the parts of a statement, which is Clang's `RecursiveASTVisitor`, is an argument `base`.
use clang_uml.Prelude.{
  ℕ, Bool, false, not, ◌&&◌, ◌||◌, String, Option, none, some, ◌>>=◌, any_of, if◌then◌else◌, ◌==◌,
}
use clang_uml.Enums.{MessageType}
use clang_uml.Sequence.Message.{
  Message, new_message, set_condition_text, set_comment, set_message_name,
}
use clang_uml.Sequence.Diagram.{
  add_message, add_block_message, end_block_message, add_case_stmt_message,
}
use clang_uml.SequenceVisitor.Context.{
  IfStmt, caller_id, current_ifstmt, current_elseifstmt, enter_ifstmt, leave_ifstmt,
  enter_elseifstmt, enter_loopstmt, leave_loopstmt, current_trystmt, enter_trystmt, leave_trystmt,
  current_switchstmt, enter_switchstmt, leave_switchstmt, enter_conditionaloperator,
  leave_conditionaloperator, is_there, has_ast_context,
}
use clang_uml.SequenceVisitor.Messages.{Visitor, with_diagram}
use clang_uml.SequenceVisitor.Declarations.{with_context}

-- The text of the condition, empty if the configuration wants none, and the comment at a statement.
pub record StmtText : Type 0 where
  pub condition_text : String
  pub comment : Option (ℕ × String)

abbrev pub LoopKind : Type 0
LoopKind = MessageType × MessageType

abbrev pub Handler : Type 0
Handler = Visitor → Option Visitor

-- A message at the start of a block, and the end of the block.
abbrev pub stmt_message : MessageType → ℕ → StmtText → Message
unfolding set_condition_text set_comment
stmt_message type caller text =
    let m = set_condition_text text.condition_text (new_message type caller) in
    elim text.comment [ none ↦ m | some (id, comment) ↦ set_comment id comment m ]

unfoldable pub begin_block : MessageType → ℕ → StmtText → Visitor → Visitor
unfolding set_condition_text set_comment add_block_message
begin_block type caller text v =
    with_diagram (add_block_message (stmt_message type caller text) v.diagram) v

unfoldable pub end_block : MessageType → MessageType → ℕ → Visitor → Option Visitor
unfolding end_block_message
end_block end start caller v = do
  d ← end_block_message (new_message end caller) start v.diagram
  some (with_diagram d v)

unfoldable pub add_plain : Message → Visitor → Visitor
unfolding add_message
add_plain m v = with_diagram (add_message m v.diagram) v

-- Runs on behind `*get_ast_context()`, which is undefined for a null pointer.
abbrev pub with_ast_context : Visitor → Option Visitor → Option Visitor
with_ast_context v rest = if has_ast_context v.context then rest else none

-- The final `else` of the `if` that the visitor is in.
abbrev pub is_else_of : ℕ → Option IfStmt → Bool
is_else_of stmt none = false
is_else_of stmt (some i) = i.else_ == stmt

unfoldable pub traverse_compound_stmt : ℕ → Handler → Handler
unfolding caller_id current_elseifstmt add_plain
traverse_compound_stmt stmt base v =
    let c = v.context in
    let caller = caller_id c in
    let current : Option IfStmt = elim (current_elseifstmt c) [
      | none ↦ current_ifstmt c
      | some i ↦ some i
    ] in
    base (
      if is_else_of stmt current && not (caller == 0)
      then add_plain (new_message MessageType.k_else caller) v
      else v)

abbrev pub is_child_of : ℕ → Option IfStmt → Bool
is_child_of stmt none = false
is_child_of stmt (some i) = any_of (λ child. child == stmt) i.children

unfoldable pub is_elseif_block : IfStmt → Visitor → Bool
unfolding current_elseifstmt
is_elseif_block stmt v =
    is_child_of stmt.address (current_ifstmt v.context)
    || is_child_of stmt.address (current_elseifstmt v.context)

unfoldable pub traverse_if_stmt : IfStmt → StmtText → Handler → Handler
unfolding caller_id has_ast_context is_elseif_block enter_elseifstmt leave_ifstmt begin_block
    end_block
traverse_if_stmt stmt text base v =
    let caller = caller_id v.context in
    let elseif_block = is_elseif_block stmt v in
    if caller == 0 || stmt.is_constexpr
    then base v
    else with_ast_context v (
        if elseif_block
        then base (
            begin_block MessageType.k_else_if caller text
              (with_context (enter_elseifstmt stmt v.context) v))
        else do
          v' ← base (
              begin_block MessageType.k_if caller text
                (with_context (enter_ifstmt stmt v.context) v))
          v' ← end_block MessageType.k_if_end MessageType.k_if caller v'
          some (with_context (leave_ifstmt v'.context) v'))

-- The bodies of the handlers of `while`, `do`, `for` and range `for`.
unfoldable pub traverse_loop : MessageType → MessageType → ℕ → StmtText → Handler → Handler
unfolding caller_id has_ast_context begin_block end_block
traverse_loop start end stmt text base v =
    let caller = caller_id v.context in
    if caller == 0
    then base v
    else with_ast_context v (do
      v' ← base (begin_block start caller text (with_context (enter_loopstmt stmt v.context) v))
      v' ← end_block end start caller v'
      some (with_context (leave_loopstmt v'.context) v'))

unfoldable pub traverse_while_stmt : ℕ → StmtText → Handler → Handler
unfolding traverse_loop
traverse_while_stmt = traverse_loop MessageType.k_while MessageType.k_while_end

unfoldable pub traverse_do_stmt : ℕ → StmtText → Handler → Handler
unfolding traverse_loop
traverse_do_stmt = traverse_loop MessageType.k_do MessageType.k_do_end

unfoldable pub traverse_for_stmt : ℕ → StmtText → Handler → Handler
unfolding traverse_loop
traverse_for_stmt = traverse_loop MessageType.k_for MessageType.k_for_end

unfoldable pub traverse_cxx_for_range_stmt : ℕ → StmtText → Handler → Handler
unfolding traverse_loop
traverse_cxx_for_range_stmt = traverse_loop MessageType.k_for MessageType.k_for_end

unfoldable pub traverse_cxx_try_stmt : ℕ → StmtText → Handler → Handler
unfolding caller_id has_ast_context begin_block end_block leave_trystmt
traverse_cxx_try_stmt stmt text base v =
    let caller = caller_id v.context in
    if caller == 0
    then base v
    else with_ast_context v (do
      v' ← base (
          begin_block MessageType.k_try caller text (with_context (enter_trystmt stmt v.context) v))
      v' ← end_block MessageType.k_try_end MessageType.k_try caller v'
      c ← leave_trystmt v'.context
      some (with_context c v'))

-- The type that a `catch` names, or none for `...`, which asks for no context.
abbrev pub caught_name : Option String → String
caught_name none = "..."
caught_name (some name) = name

abbrev pub with_caught_type : Option String → Visitor → Option Visitor → Option Visitor
with_caught_type none v rest = rest
with_caught_type (some name) v rest = with_ast_context v rest

unfoldable pub traverse_cxx_catch_stmt : Option String → Handler → Handler
unfolding caller_id has_ast_context add_plain
traverse_cxx_catch_stmt caught_type base v =
    let caller = caller_id v.context in
    let m = set_message_name (caught_name caught_type) (new_message MessageType.k_catch caller) in
    if not (caller == 0) && is_there (current_trystmt v.context)
    then with_caught_type caught_type v (base (add_plain m v))
    else base v

unfoldable pub traverse_switch_stmt : ℕ → StmtText → Handler → Handler
unfolding caller_id has_ast_context begin_block end_block leave_switchstmt
traverse_switch_stmt stmt text base v =
    let caller = caller_id v.context in
    if caller == 0
    then base v
    else with_ast_context v (do
      v' ← base (
          begin_block MessageType.k_switch caller text
            (with_context (enter_switchstmt stmt v.context) v))
      c ← leave_switchstmt v'.context
      end_block MessageType.k_switch_end MessageType.k_switch caller (with_context c v'))

-- The handlers of `case`, with the text of its value, and of `default`.
unfoldable pub traverse_case_stmt : String → Handler → Handler
unfolding caller_id add_case_stmt_message
traverse_case_stmt name base v =
    let caller = caller_id v.context in
    let m = set_message_name name (new_message MessageType.k_case caller) in
    if not (caller == 0) && is_there (current_switchstmt v.context)
    then add_case_stmt_message m v.diagram >>= (λ d. base (with_diagram d v))
    else base v

unfoldable pub traverse_default_stmt : Handler → Handler
unfolding traverse_case_stmt
traverse_default_stmt = traverse_case_stmt "default"

unfoldable pub traverse_conditional_operator :
    ℕ → StmtText → (cond true_expr false_expr : Handler) → Handler
unfolding caller_id has_ast_context begin_block end_block add_plain
traverse_conditional_operator stmt text cond true_expr false_expr v =
    let caller = caller_id v.context in
    if caller == 0
    then cond v >>= true_expr >>= false_expr
    else with_ast_context v (do
      v' ← cond (
          begin_block MessageType.k_conditional caller text
            (with_context (enter_conditionaloperator stmt v.context) v))
      v' ← true_expr v'
      v' ← false_expr (add_plain (new_message MessageType.k_conditional_else caller) v')
      end_block MessageType.k_conditional_end MessageType.k_conditional caller
          (with_context (leave_conditionaloperator v'.context) v'))
