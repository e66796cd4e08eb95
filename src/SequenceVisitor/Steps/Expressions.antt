-- ===== src/SequenceVisitor/Steps/Expressions.antt =====
-- The Traverse handlers of expressions, declarations and `case` as steps.
use clang_uml.Prelude.{
  ℕ, ◌+◌, ◌-◌, Bool, true, false, Option, none, some, ◌≡◌, refl, sym, ap, ◌∙◌, ◌>>=◌,
}
use mathlib.Core.Path.{subst}
use clang_uml.SequenceVisitor.Context.{
  ExprKind, caller_id, is_local_class, enter_callexpr, leave_callexpr, has_ast_context, is_there,
}
use clang_uml.SequenceVisitor.Messages.{Visitor, pop_message_to_diagram}
use clang_uml.SequenceVisitor.Declarations.{LambdaModel, with_context, visit_lambda_expr}
use clang_uml.SequenceVisitor.Handlers.{Handler}
use clang_uml.SequenceVisitor.Walk.{
  traverse_expr, traverse_decl, traverse_lambda_expr, traverse_var_decl,
}
use clang_uml.SequenceVisitor.Emits.{Emits-refl}
use clang_uml.SequenceVisitor.Walk.{Place, out_of_switch}
use clang_uml.SequenceVisitor.Steps.{
  Step, Step-trans, Step-with_context, Step-InSwitch, Works, Kept, Kept-trans, Step-Kept,
  HasContext, still-IsReady,
}
use clang_uml.SequenceVisitor.Steps.Pending.{pop_message_to_diagram-Step}
use clang_uml.SequenceVisitor.Steps.Declarations.{
  visit_lambda_expr-Kept, HasContext-visit_lambda_expr,
}

pub traverse_expr-Works :
    {b : Place} (kind : ExprKind) (e : ℕ) (base : Handler)
    → Works b base
    → Works b (traverse_expr kind e base)
unfolding traverse_expr caller_id is_local_class has_ast_context
traverse_expr-Works {b} kind e base w v p s =
    let c = enter_callexpr kind e v.context in
    let st = Step-with_context {b = b} v c (λ h. h) (λ h. h) (λ h. h) refl (λ h. refl) in
    let (x, made, st') = w (with_context c v) (still-IsReady st p) (Step-InSwitch st s) in
    let all = Step-trans (Step-trans st st') (
      Step-with_context x (leave_callexpr x.context) (λ h. h) (λ h. h) (λ h. h) refl (λ h. refl)) in
    let left = with_context (leave_callexpr x.context) x in
    let (y, popped, st'') = pop_message_to_diagram-Step kind e left (all.0.pending p.0) in
    (
      y,
      ap (λ o. o >>= λ z. pop_message_to_diagram kind e (with_context (leave_callexpr z.context) z))
            made
          ∙ popped,
      Step-trans all st'',
    )

-- Behind a declaration the context is what it was.
restored-Step : {b : Place} (v v' : Visitor) → Kept v v' → Step b v (with_context v.context v')
restored-Step v v' k = (
  record {
    kept = k.kept;
    pending = k.pending;
    tries = λ h. h;
    switches = λ h. h;
    contexts = λ h. h;
    lambdas = refl;
    caller = λ _. refl;
  },
  k.emits,
)

pub traverse_decl-Works :
    {b : Place} (base : Handler) → Works (out_of_switch b) base → Works b (traverse_decl base)
unfolding traverse_decl
traverse_decl-Works {b} base w v p s =
    let (x, made, st) = w v p (λ h. absurd cc) in
    (
      with_context v.context x,
      ap (λ o. o >>= λ z. some (with_context v.context z)) made,
      restored-Step v x (Step-Kept {b = out_of_switch b} st),
    )

pub traverse_lambda_expr-Works :
    {b : Place} (model : Option LambdaModel) (base : Handler)
    → (is_there model ≡ true → b.inside ≡ true)
    → Works (out_of_switch b) base
    → Works b (traverse_lambda_expr model base)
unfolding traverse_lambda_expr
traverse_lambda_expr-Works {b} none base inside w v p s =
    let (x, made, st) = w v p (λ h. absurd cc) in
    (
      with_context v.context x,
      ap (λ o. o >>= λ z. some (with_context v.context z)) made,
      restored-Step v x (Step-Kept {b = out_of_switch b} st),
    )
traverse_lambda_expr-Works {b} (some lambda) base inside w v p s =
    let k = visit_lambda_expr-Kept lambda v p.0 in
    let there : HasContext true v.context = subst (λ i. HasContext i v.context) (inside refl) p.1 in
    let context : HasContext b.inside (visit_lambda_expr lambda v).context =
      subst (λ i. HasContext i (visit_lambda_expr lambda v).context) (sym (inside refl))
        (HasContext-visit_lambda_expr lambda v there) in
    let (x, made, st') = w (visit_lambda_expr lambda v) (k.pending p.0, context) (λ h. absurd cc) in
    (
      with_context v.context x,
      ap (λ o. o >>= λ z. some (with_context v.context z)) made,
      restored-Step v x (Kept-trans k (Step-Kept {b = out_of_switch b} st')),
    )

counted-Step :
    {b : Place} (v : Visitor) (n : ℕ)
    → Step b v (record v { within_static_variable_declaration = n })
counted-Step v n = (
  record {
    kept = (λ id h. h, λ u. u);
    pending = λ h. h;
    tries = λ h. h;
    switches = λ h. h;
    contexts = λ h. h;
    lambdas = refl;
    caller = λ _. refl;
  },
  Emits-refl v.diagram,
)

pub traverse_var_decl-Works :
    {b : Place} (is_static_local : Bool) (base : Handler)
    → Works b base
    → Works b (traverse_var_decl is_static_local base)
unfolding traverse_var_decl
traverse_var_decl-Works false base w v p s = w v p s
traverse_var_decl-Works true base w v p s =
    let st = counted-Step v (v.within_static_variable_declaration + 1) in
    let (x, made, st') =
      w (record v { within_static_variable_declaration = v.within_static_variable_declaration + 1 })
        (still-IsReady st p) (Step-InSwitch st s) in
    (
      record x { within_static_variable_declaration = x.within_static_variable_declaration - 1 },
      ap
          (λ (o : Option Visitor). o >>= λ z. some (record z {
            within_static_variable_declaration = z.within_static_variable_declaration - 1;
          }))
          made,
      Step-trans (Step-trans st st') (counted-Step x (x.within_static_variable_declaration - 1)),
    )
