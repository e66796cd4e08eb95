-- ===== src/SequenceVisitor/Steps/Declarations.antt =====
-- The Visit handlers of declarations and lambdas change the caller and the participants, and no message.
use clang_uml.Prelude.{
  ℕ, Bool, true, false, not, ◌&&◌, ◌||◌, sym, ◌∙◌, Option, none, some, List, [], ◌∷◌, ◌≡◌, refl,
  arith, Bool-cases, inl, inr,
}
use clang_uml.Eid
use clang_uml.Enums.{MessageType}
use clang_uml.Sequence.Message.{new_message, set_to}
use clang_uml.Sequence.Diagram.{add_participant, add_active_participant}
use clang_uml.Sequence.Blocks.{is_begin_block_message, is_end_block_message}
use clang_uml.SequenceVisitor.Context.{
  CallExpressionContext, call_expr, reset, update_function, update_function_template, caller_id,
  lambda_caller_id, current_callexpr, is_there, has_ast_context, FunctionDecl, ExprKind,
}
use clang_uml.SequenceVisitor.Messages.{Visitor, push_message, ◌is_kind◌, ensure_activity_exists}
use clang_uml.SequenceVisitor.Visits.{with_active}
use clang_uml.SequenceVisitor.Declarations.{
  Declaration, DeclarationKind, visit_kind, cxx_record, objc_interface, objc_protocol,
  class_template, class_template_specialization, cxx_method, objc_method, function,
  function_template, visit_declaration, LambdaModel, add_lambda_class, add_lambda_call,
  add_call_within, visit_lambda_expr, set_unique_ids,
}
use clang_uml.SequenceVisitor.Emits.{Emits-refl}
use clang_uml.SequenceVisitor.Walk.{Place, keeps_context, gives_context}
use clang_uml.SequenceVisitor.Steps.{
  IsPending, Kept, Kept-refl, Kept-trans, Step-Kept, HasContext, Step, Step-trans, Step-refl,
}
use clang_uml.SequenceVisitor.Steps.Ensured.{with_active-Step, ensured_push-Step}
use clang_uml.SequenceVisitor.Steps.Contexts.{
  lambdas-visit_kind, visit_kind-gives, HasContext-visit_kind, into, same,
}

-- A change that leaves the activities, what waits and the stacks of the statements.
abbrev IsOutside : Visitor → Visitor → Type 0
IsOutside v w =
    (w.diagram.activities ≡ v.diagram.activities)
    × (w.call_expr_message_map ≡ v.call_expr_message_map)
    × (w.message_maps ≡ v.message_maps)
    × (w.context.try_stmt_stack ≡ v.context.try_stmt_stack)
    × (w.context.switch_stmt_stack ≡ v.context.switch_stmt_stack)

IsOutside-Kept : (v w : Visitor) → IsOutside v w → Kept v w
IsOutside-Kept v w (a, c, m, t, s) = record {
  kept = (λ id h. rw a h, λ u. rw a u);
  pending = λ p. rw (a, c, m) p;
  emits = λ id. rw a (Emits-refl v.diagram id);
}

-- The caller may be another one, but what the traversal relies on in its place stays.
IsOutside-Step :
    {b : Place} (v w : Visitor)
    → IsOutside v w
    → b.in_switch ≡ false
    → (HasContext b.inside v.context → HasContext b.inside w.context)
    → w.context.current_lambda_caller_id ≡ v.context.current_lambda_caller_id
    → Step b v w
IsOutside-Step v w (a, c, m, t, s) outside x l = (
  record {
    kept = (λ id h. rw a h, λ u. rw a u);
    pending = λ p. rw (a, c, m) p;
    tries = λ h. rw t h;
    switches = λ h. rw s h;
    contexts = x;
    lambdas = l;
    caller = λ h. (let clash : true ≡ false = sym h ∙ outside in absurd cc);
  },
  λ id. rw a (Emits-refl v.diagram id),
)

update_function_keeps :
    (decl : FunctionDecl) (c : CallExpressionContext)
    → ((update_function decl c).try_stmt_stack ≡ c.try_stmt_stack)
      × ((update_function decl c).switch_stmt_stack ≡ c.switch_stmt_stack)
unfolding update_function reset
update_function_keeps decl c = ground arith

update_function_template_keeps :
    (decl : FunctionDecl) (c : CallExpressionContext)
    → ((update_function_template decl c).try_stmt_stack ≡ c.try_stmt_stack)
      × ((update_function_template decl c).switch_stmt_stack ≡ c.switch_stmt_stack)
unfolding update_function_template
update_function_template_keeps decl c = ground arith

visit_kind-IsOutside : (k : DeclarationKind) (v : Visitor) → IsOutside v (visit_kind k v)
unfolding visit_kind reset add_participant
visit_kind-IsOutside (cxx_record decl none) v = (refl, refl, refl, refl, refl)
visit_kind-IsOutside (cxx_record decl (some p)) v = (refl, refl, refl, refl, refl)
visit_kind-IsOutside (objc_interface none) v = (refl, refl, refl, refl, refl)
visit_kind-IsOutside (objc_interface (some p)) v = (refl, refl, refl, refl, refl)
visit_kind-IsOutside (objc_protocol none) v = (refl, refl, refl, refl, refl)
visit_kind-IsOutside (objc_protocol (some p)) v = (refl, refl, refl, refl, refl)
visit_kind-IsOutside (class_template none) v = (refl, refl, refl, refl, refl)
visit_kind-IsOutside (class_template (some p)) v = (refl, refl, refl, refl, refl)
visit_kind-IsOutside (class_template_specialization none) v = (refl, refl, refl, refl, refl)
visit_kind-IsOutside (class_template_specialization (some p)) v = (refl, refl, refl, refl, refl)
visit_kind-IsOutside (cxx_method decl none) v = (refl, refl, refl, refl, refl)
visit_kind-IsOutside (cxx_method decl (some p)) v = (refl, refl, refl, refl, refl)
visit_kind-IsOutside (objc_method decl none) v = (refl, refl, refl, refl, refl)
visit_kind-IsOutside (objc_method decl (some p)) v = (refl, refl, refl, refl, refl)
visit_kind-IsOutside (function decl p) v = (
  refl,
  refl,
  refl,
  (update_function_keeps decl v.context).0,
  (update_function_keeps decl v.context).1,
)
visit_kind-IsOutside (function_template decl p) v = (
  refl,
  refl,
  refl,
  (update_function_template_keeps decl v.context).0,
  (update_function_template_keeps decl v.context).1,
)

set_unique_ids-Step :
    {b : Place} (ids : List ℕ) (id : ℕ) (v : Visitor)
    → b.in_switch ≡ false
    → Step b v (set_unique_ids ids id v)
unfolding set_unique_ids
set_unique_ids-Step [] id v outside = Step-refl v
set_unique_ids-Step (local_id ∷ ids) id v outside =
    let w = record v {
      id_map = Eid.add local_id (record { value = id; is_global = true }) v.id_map;
    } in
    Step-trans (IsOutside-Step v w (refl, refl, refl, refl, refl) outside (λ h. h) refl)
      (set_unique_ids-Step ids id w outside)

pub visit_declaration-Step :
    {b : Place} (d : Declaration) (v : Visitor)
    → b.in_switch ≡ false
    → (b.inside ≡ true → keeps_context d.kind ≡ true)
    → Step b v (visit_declaration d v)
unfolding visit_declaration
visit_declaration-Step {b} d v outside keeps =
    let w = set_unique_ids d.local_ids d.id v in
    Step-trans (set_unique_ids-Step d.local_ids d.id v outside) (
      IsOutside-Step w (visit_kind d.kind w) (visit_kind-IsOutside d.kind w) outside
        (HasContext-visit_kind b.inside d.kind w keeps) (lambdas-visit_kind d.kind w))

-- Behind a declaration that gives a context the traversal is inside.
pub HasContext-visit_declaration :
    (inside : Bool) (d : Declaration) (v : Visitor)
    → HasContext inside (visit_declaration d v).context
    → HasContext (inside || gives_context d.kind) (visit_declaration d v).context
unfolding visit_declaration
HasContext-visit_declaration inside d v h = elim (Bool-cases (gives_context d.kind)) [
  | inl gives ↦
      rw gives (into inside _ (visit_kind-gives d.kind (set_unique_ids d.local_ids d.id v) gives))
  | inr none_given ↦ rw none_given (same inside _ h)
]

add_lambda_class-Kept : (lambda : LambdaModel) (v : Visitor) → Kept v (add_lambda_class lambda v)
unfolding add_lambda_class add_participant set_unique_ids
add_lambda_class-Kept lambda v = IsOutside-Kept v _ (refl, refl, refl, refl, refl)

add_call_within-Kept :
    (lambda : LambdaModel) (call : Option (ExprKind × ℕ)) (v : Visitor)
    → IsPending v
    → Kept v (add_call_within lambda call v)
unfolding add_call_within is_begin_block_message is_end_block_message
add_call_within-Kept lambda none v p = Kept-refl v
add_call_within-Kept lambda (some (kind, expr)) v p =
    let shown =
      kind is_kind call_expr
      && not (is_there (lambda_caller_id v.context))
      && not lambda.is_lambda_call in
    let from = caller_id v.context in
    let to = lambda.operator_model.id in
    let m = set_to to (new_message MessageType.k_call from) in
    let w = ensure_activity_exists m v in
    let b : Place = record { in_switch = false; inside = true } in
    elim (Bool-cases shown) [
      | inl is_shown ↦ rw is_shown (
          Step-Kept {b = b} (
            ensured_push-Step call_expr expr m v (with_active to (with_active from w)) p
              (refl, refl)
              (Step-trans (with_active-Step from w) (with_active-Step to (with_active from w)))))
      | inr not_shown ↦ rw not_shown (Kept-refl v)
    ]

add_lambda_call-Kept :
    (lambda : LambdaModel) (v : Visitor) → IsPending v → Kept v (add_lambda_call lambda v)
unfolding add_lambda_call
add_lambda_call-Kept lambda v p = add_call_within-Kept lambda (current_callexpr v.context) v p

pub visit_lambda_expr-Kept :
    (lambda : LambdaModel) (v : Visitor) → IsPending v → Kept v (visit_lambda_expr lambda v)
unfolding visit_lambda_expr add_participant set_unique_ids
visit_lambda_expr-Kept lambda v p =
    let k = add_lambda_class-Kept lambda v in
    let w = add_lambda_call lambda (add_lambda_class lambda v) in
    Kept-trans k (
      Kept-trans (add_lambda_call-Kept lambda (add_lambda_class lambda v) (k.pending p))
        (IsOutside-Kept w _ (refl, refl, refl, refl, refl)))

context-add_call_within :
    (lambda : LambdaModel) (call : Option (ExprKind × ℕ)) (v : Visitor)
    → (add_call_within lambda call v).context ≡ v.context
unfolding add_call_within push_message ensure_activity_exists ◌is_kind◌ add_active_participant
context-add_call_within lambda none v = refl
context-add_call_within lambda (some (kind, expr)) v = ground arith

-- Inside, a lambda has the context that stands around it.
pub HasContext-visit_lambda_expr :
    (lambda : LambdaModel) (v : Visitor)
    → HasContext true v.context
    → HasContext true (visit_lambda_expr lambda v).context
unfolding visit_lambda_expr add_participant set_unique_ids add_lambda_call add_lambda_class
    has_ast_context
HasContext-visit_lambda_expr lambda v (e, h) =
    let w = add_lambda_class lambda v in
    (refl, rw (context-add_call_within lambda (current_callexpr w.context) w) h)
