-- ===== src/SequenceVisitor/Steps/Ifs.antt =====
-- The Traverse handlers of `if` and of the conditional operator as steps.
use clang_uml.Prelude.{
  ℕ, Option, none, some, List, ◌≡◌, refl, sym, ap, ◌∙◌, arith, ◌==◌, ◌>>=◌, Bool-cases, inl, inr,
}
use clang_uml.Enums.{MessageType}
use clang_uml.Sequence.Message.{new_message}
use clang_uml.Sequence.Blocks.{is_begin_block_message, is_end_block_message}
use clang_uml.SequenceVisitor.Context.{
  CallExpressionContext, IfStmt, caller_id, is_local_class, enter_ifstmt, leave_ifstmt,
  enter_elseifstmt, enter_conditionaloperator, leave_conditionaloperator, has_ast_context,
}
use clang_uml.SequenceVisitor.Messages.{Visitor}
use clang_uml.SequenceVisitor.Declarations.{with_context}
use clang_uml.SequenceVisitor.Handlers.{
  Handler, StmtText, begin_block, end_block, add_plain, traverse_if_stmt, is_elseif_block,
  traverse_conditional_operator,
}
use clang_uml.SequenceVisitor.Walk.{Place}
use clang_uml.SequenceVisitor.Steps.{
  HasContext-caller, IsReady, still-IsReady, Step, Step-trans, Step-with_context, InSwitch,
  Step-InSwitch, Works, Works-seq,
}
use clang_uml.SequenceVisitor.Steps.Blocks.{
  begun, begun-Progress, begun-InSwitch, end_block-Step, begin_single-Step,
}
use clang_uml.SequenceVisitor.Steps.Handlers.{add_plain-Step, with_caller, with_test, within_block}

>>=_assoc {ℓ κ ι} :
    {A : Type ℓ} {B : Type κ} {C : Type ι} (o : Option A) (f : A → Option B) (g : B → Option C)
    → (o >>= f >>= g) ≡ (o >>= λ x. f x >>= g)
>>=_assoc none f g = refl
>>=_assoc (some x) f g = refl

abbrev IsSameContext : CallExpressionContext → CallExpressionContext → Type 0
IsSameContext c c' =
    (c.current_lambda_caller_id ≡ c'.current_lambda_caller_id)
    × (c.current_caller_id ≡ c'.current_caller_id)
    × (has_ast_context c ≡ has_ast_context c')

-- Leaving an `if` changes the stacks of the `if` statements alone.
leave_ifstmt_keeps :
    (c : CallExpressionContext)
    → ((leave_ifstmt c).try_stmt_stack ≡ c.try_stmt_stack)
      × ((leave_ifstmt c).switch_stmt_stack ≡ c.switch_stmt_stack)
      × (caller_id (leave_ifstmt c) ≡ caller_id c)
      × IsSameContext (leave_ifstmt c) c
unfolding leave_ifstmt caller_id is_local_class has_ast_context
leave_ifstmt_keeps c = go c.if_stmt_stack refl
  where
    go :
        (stack : List IfStmt)
        → c.if_stmt_stack ≡ stack
        → ((leave_ifstmt c).try_stmt_stack ≡ c.try_stmt_stack)
          × ((leave_ifstmt c).switch_stmt_stack ≡ c.switch_stmt_stack)
          × (caller_id (leave_ifstmt c) ≡ caller_id c)
          × IsSameContext (leave_ifstmt c) c
    go stack e = ground arith

enter_elseifstmt_keeps :
    (stmt : IfStmt) (c : CallExpressionContext)
    → ((enter_elseifstmt stmt c).try_stmt_stack ≡ c.try_stmt_stack)
      × ((enter_elseifstmt stmt c).switch_stmt_stack ≡ c.switch_stmt_stack)
      × (caller_id (enter_elseifstmt stmt c) ≡ caller_id c)
      × IsSameContext (enter_elseifstmt stmt c) c
unfolding enter_elseifstmt caller_id is_local_class has_ast_context
enter_elseifstmt_keeps stmt c = ground arith

keeps-Step :
    {b : Place} (v : Visitor) (c : CallExpressionContext)
    → (c.try_stmt_stack ≡ v.context.try_stmt_stack)
      × (c.switch_stmt_stack ≡ v.context.switch_stmt_stack)
      × (caller_id c ≡ caller_id v.context)
      × IsSameContext c v.context
    → Step b v (with_context c v)
unfolding has_ast_context
keeps-Step v c (t, s, k, (l, i, a)) =
    Step-with_context v c (λ h. rw t h) (λ h. rw s h) (λ h. rw (l, i, a) h) l (λ _. k)

module _ {b : Place} (stmt : IfStmt) (text : StmtText) (base : Handler) (w : Works b base) where
  elseif_block :
      (v : Visitor)
      → IsReady b v
      → InSwitch b v
      → (v' : Visitor) × (base (
            begin_block MessageType.k_else_if
              (caller_id v.context)
              text
              (with_context (enter_elseifstmt stmt v.context) v))
          ≡ some v')
        × Step b v v'
  unfolding is_begin_block_message is_end_block_message
  elseif_block v p s =
      let entered = with_context (enter_elseifstmt stmt v.context) v in
      let caller = caller_id v.context in
      let st =
        Step-trans
          (keeps-Step v (enter_elseifstmt stmt v.context) (enter_elseifstmt_keeps stmt v.context))
          (begin_single-Step MessageType.k_else_if caller text entered (refl, refl)) in
      let (v', e, inner) =
        w (begin_block MessageType.k_else_if caller text entered) (still-IsReady st p)
          (Step-InSwitch st s) in
      (v', e, Step-trans st inner)

  if_block :
      (v : Visitor)
      → IsReady b v
      → (v' : Visitor) × ((do
        x ← base (begun MessageType.k_if text v (enter_ifstmt stmt v.context))
        y ← end_block MessageType.k_if_end MessageType.k_if (caller_id v.context) x
        some (with_context (leave_ifstmt y.context) y))
          ≡ some v')
        × Step b v v'
  unfolding caller_id is_local_class has_ast_context is_begin_block_message is_end_block_message
  if_block v p =
      let start = MessageType.k_if in
      let end = MessageType.k_if_end in
      let c = enter_ifstmt stmt v.context in
      let st = Step-with_context {b = b} v c (λ h. h) (λ h. h) (λ h. h) refl (λ h. refl) in
      let (x, e, inner) = within_block start text {b = b} base v c w st refl p in
      let (y, e', same, all) = end_block-Step start text v end c x refl refl st inner in
      (
        with_context (leave_ifstmt y.context) y,
        ap
              (λ o. o >>= λ z. end_block end start (caller_id v.context) z >>= λ z'.
                some (with_context (leave_ifstmt z'.context) z'))
              e
            ∙ ap (λ o. o >>= λ z'. some (with_context (leave_ifstmt z'.context) z')) e',
        Step-trans all (keeps-Step y (leave_ifstmt y.context) (leave_ifstmt_keeps y.context)),
      )

  pub traverse_if_stmt-Works : Works b (traverse_if_stmt stmt text base)
  unfolding traverse_if_stmt
  traverse_if_stmt-Works v p s = elim (Bool-cases (caller_id v.context == 0)) [
    | inl zero_caller ↦ rw zero_caller (w v p s)
    | inr caller ↦
        rw (caller, HasContext-caller b.inside v.context p.1 caller)
          (with_test v stmt.is_constexpr (w v p s)
            (with_test v (is_elseif_block stmt v) (elseif_block v p s) (if_block v p)))
  ]

module _ {b : Place} (stmt : ℕ) (text : StmtText) (cond true_expr false_expr : Handler)
    (w : Works b cond) (w₁ : Works b true_expr) (w₂ : Works b false_expr) where
  -- The two branches with the message between them.
  branches :
      (caller : ℕ) (v : Visitor)
      → IsReady b v
      → InSwitch b v
      → (v' : Visitor) × ((true_expr v >>= λ x.
            false_expr (add_plain (new_message MessageType.k_conditional_else caller) x))
          ≡ some v')
        × Step b v v'
  unfolding is_begin_block_message is_end_block_message
  branches caller v p s =
      let m = new_message MessageType.k_conditional_else caller in
      let (x, e, st) = w₁ v p s in
      let st' = Step-trans st (add_plain-Step m x (refl, refl)) in
      let (y, e', st'') = w₂ (add_plain m x) (still-IsReady st' p) (Step-InSwitch st' s) in
      (y, ap (λ o. o >>= λ z. false_expr (add_plain m z)) e ∙ e', Step-trans st' st'')

  conditional_block :
      (v : Visitor)
      → IsReady b v
      → (v' : Visitor) × ((do
        x ← cond (begun MessageType.k_conditional text v (enter_conditionaloperator stmt v.context))
        y ← true_expr x
        z ←
            false_expr
              (add_plain (new_message MessageType.k_conditional_else (caller_id v.context)) y)
        end_block MessageType.k_conditional_end MessageType.k_conditional
            (caller_id v.context)
            (with_context (leave_conditionaloperator z.context) z))
          ≡ some v')
        × Step b v v'
  unfolding caller_id is_local_class has_ast_context is_begin_block_message is_end_block_message
  conditional_block v p =
      let start = MessageType.k_conditional in
      let end = MessageType.k_conditional_end in
      let caller = caller_id v.context in
      let c = enter_conditionaloperator stmt v.context in
      let st = Step-with_context {b = b} v c (λ h. h) (λ h. h) (λ h. h) refl (λ h. refl) in
      let (x, e, inner) = within_block start text {b = b} cond v c w st refl p in
      let v₁ = begun start text v c in
      let (z, e', inner') =
        let ready = begun-Progress start text v c st in
        branches caller x (still-IsReady inner (ready.pending p.0, ready.contexts p.1))
          (Step-InSwitch inner (begun-InSwitch start text v b c refl)) in
      let left = with_context (leave_conditionaloperator z.context) z in
      let st' = Step-trans (Step-trans inner inner') (
        Step-with_context z (leave_conditionaloperator z.context) (λ h. h) (λ h. h) (λ h. h) refl
          (λ h. refl)) in
      let (y, e'', same, all) = end_block-Step start text v end c left refl refl st st' in
      let finish = λ (t : Visitor).
        end_block end start caller (with_context (leave_conditionaloperator t.context) t) in
      let last = λ (t : Visitor).
        false_expr (add_plain (new_message MessageType.k_conditional_else caller) t) in
      (
        y,
        ap (λ o. o >>= λ t. true_expr t >>= λ t'. last t' >>= finish) e
            ∙ sym (>>=_assoc (true_expr x) last finish)
            ∙ ap (λ o. o >>= finish) e'
            ∙ e'',
        all,
      )

  pub traverse_conditional_operator-Works :
      Works b (traverse_conditional_operator stmt text cond true_expr false_expr)
  unfolding traverse_conditional_operator
  traverse_conditional_operator-Works v p s =
      with_caller v p
        (Works-seq (λ x. cond x >>= true_expr) false_expr (Works-seq cond true_expr w w₁) w₂ v p s)
        (conditional_block v p)
