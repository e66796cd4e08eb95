-- ===== src/SequenceVisitor/Steps/TrySwitch.antt =====
-- The Traverse handlers of `try` and `switch` as steps.
use clang_uml.Prelude.{ℕ, true, some, ◌≡◌, refl, ap, ◌∙◌, arith, ◌==◌, ◌>>=◌, Bool-cases, inl, inr}
use clang_uml.Enums.{MessageType}
use clang_uml.Sequence.Blocks.{is_begin_block_message, is_end_block_message}
use clang_uml.SequenceVisitor.Context.{
  CallExpressionContext, caller_id, is_local_class, enter_trystmt, leave_trystmt, enter_switchstmt,
  leave_switchstmt, is_there, top, has_ast_context,
}
use clang_uml.SequenceVisitor.Messages.{Visitor}
use clang_uml.SequenceVisitor.Declarations.{with_context}
use clang_uml.SequenceVisitor.Handlers.{
  Handler, StmtText, end_block, traverse_cxx_try_stmt, traverse_switch_stmt,
}
use clang_uml.SequenceVisitor.Walk.{Place, within_switch}
use clang_uml.SequenceVisitor.Steps.{
  HasContext-caller, IsReady, Step, Step-weaken, Step-with_context, Works,
}
use clang_uml.SequenceVisitor.Steps.Blocks.{begun, end_block-Step, context-begun}
use clang_uml.SequenceVisitor.Steps.Handlers.{with_caller, within_block}

-- `leave_trystmt` and `leave_switchstmt` leave a stack that is not empty.
leave_trystmt_stays :
    (c : CallExpressionContext) → is_there (top c.try_stmt_stack) ≡ true → leave_trystmt c ≡ some c
unfolding leave_trystmt
leave_trystmt_stays c h = ground (arith, h)

leave_switchstmt_stays :
    (c : CallExpressionContext)
    → is_there (top c.switch_stmt_stack) ≡ true
    → leave_switchstmt c ≡ some c
unfolding leave_switchstmt
leave_switchstmt_stays c h = ground (arith, h)

module _ {b : Place} (stmt : ℕ) (text : StmtText) (base : Handler) where
  try_block :
      Works b base
      → (v : Visitor) → IsReady b v
      → (v' : Visitor) × ((do
        x ← base (begun MessageType.k_try text v (enter_trystmt stmt v.context))
        y ← end_block MessageType.k_try_end MessageType.k_try (caller_id v.context) x
        c ← leave_trystmt y.context
        some (with_context c y))
          ≡ some v')
        × Step b v v'
  unfolding caller_id is_local_class has_ast_context is_begin_block_message is_end_block_message
  try_block w v p =
      let start = MessageType.k_try in
      let end = MessageType.k_try_end in
      let c = enter_trystmt stmt v.context in
      let st = Step-with_context {b = b} v c (λ h. refl) (λ h. h) (λ h. h) refl (λ h. refl) in
      let (x, e, inner) = within_block start text {b = b} base v c w st refl p in
      let (y, e', same, all) = end_block-Step start text v end c x refl refl st inner in
      let stays : leave_trystmt y.context ≡ some y.context = leave_trystmt_stays y.context (
        rw same (
          inner.0.tries (
            ap (λ (k : CallExpressionContext). is_there (top k.try_stmt_stack))
              (context-begun start text v c)))) in
      (
        y,
        ap
              (λ o. o >>= λ z. end_block end start (caller_id v.context) z >>= λ z'.
                leave_trystmt z'.context >>= λ c'. some (with_context c' z'))
              e
            ∙ ap (λ o. o >>= λ z'. leave_trystmt z'.context >>= λ c'. some (with_context c' z')) e'
            ∙ ap (λ o. o >>= λ c'. some (with_context c' y)) stays,
        all,
      )

  pub traverse_cxx_try_stmt-Works : Works b base → Works b (traverse_cxx_try_stmt stmt text base)
  unfolding traverse_cxx_try_stmt
  traverse_cxx_try_stmt-Works w v p s = with_caller v p (w v p s) (try_block w v p)

module _ {b : Place} (stmt : ℕ) (text : StmtText) (base : Handler) where
  switch_block :
      Works (within_switch b) base
      → (v : Visitor) → IsReady b v
      → (v' : Visitor) × ((do
        x ← base (begun MessageType.k_switch text v (enter_switchstmt stmt v.context))
        c ← leave_switchstmt x.context
        end_block MessageType.k_switch_end MessageType.k_switch
            (caller_id v.context)
            (with_context c x))
          ≡ some v')
        × Step b v v'
  unfolding caller_id is_local_class has_ast_context is_begin_block_message is_end_block_message
  switch_block w v p =
      let start = MessageType.k_switch in
      let end = MessageType.k_switch_end in
      let c = enter_switchstmt stmt v.context in
      let st =
        Step-with_context {b = within_switch b} v c (λ h. h) (λ h. refl) (λ h. h) refl
          (λ h. refl) in
      let (x, e, parts) = within_block start text {b = within_switch b} base v c w st refl p in
      let inner = Step-weaken {b = b} parts in
      let (y, e', same, all) =
        end_block-Step start text v end c x refl refl (Step-weaken {b = b} st) inner in
      let stays : leave_switchstmt x.context ≡ some x.context = leave_switchstmt_stays x.context (
        inner.0.switches (
          ap (λ (k : CallExpressionContext). is_there (top k.switch_stmt_stack))
            (context-begun start text v c))) in
      (
        y,
        ap
              (λ o. o >>= λ z. leave_switchstmt z.context >>= λ c'.
                end_block end start (caller_id v.context) (with_context c' z))
              e
            ∙ ap (λ o. o >>= λ c'. end_block end start (caller_id v.context) (with_context c' x))
                stays
            ∙ e',
        all,
      )

  pub traverse_switch_stmt-Works :
      Works (within_switch b) base → Works b (traverse_switch_stmt stmt text base)
  unfolding traverse_switch_stmt
  traverse_switch_stmt-Works w v p s = elim (Bool-cases (caller_id v.context == 0)) [
    | inl zero_caller ↦
        let (v', e, st) = w v p (λ _. rw zero_caller refl) in rw zero_caller (v', e, Step-weaken st)
    | inr caller ↦ rw (caller, HasContext-caller b.inside v.context p.1 caller) (switch_block w v p)
  ]
