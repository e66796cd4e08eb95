-- ===== src/SequenceVisitor/Steps/Visits.antt =====
-- The Visit handlers add no message to an activity: they keep messages that open and close no block.
use clang_uml.Prelude.{
  Bool, true, false, not, ◌||◌, Option, none, some, [], ◌∷◌, ◌≡◌, refl, if◌then◌else◌,
}
use mathlib.Core.Option
use clang_uml.Enums.{MessageType}
use clang_uml.Sequence.Message.{Message, new_message}
use clang_uml.Sequence.Blocks.{is_begin_block_message, is_end_block_message}
use clang_uml.SequenceVisitor.Context.{
  ExprKind, call_expr, construct_expr, objc_message_expr, return_stmt, coreturn_stmt, coyield_expr,
  coawait_expr, valid, caller_id, is_there,
}
use clang_uml.SequenceVisitor.Messages.{Visitor}
use clang_uml.SequenceVisitor.Visits.{
  CallSite, keep_call, keep_return, with_comment, with_scope, with_name, with_callee, in_static,
  with_found, keep_if_some, processed, declared_return_type, with_context_return_type,
  visit_call_expr, visit_objc_message_expr, visit_coawait_expr, visit_return_stmt,
  visit_coyield_expr, visit_coreturn_stmt, visit_construct_expr,
}
use clang_uml.SequenceVisitor.Walk.{visit_expr}
use clang_uml.SequenceVisitor.Walk.{Place}
use clang_uml.SequenceVisitor.Steps.{IsPending, Step, Step-refl}
use clang_uml.SequenceVisitor.Steps.Ensured.{IsSingleType, keep_return-Step, keep_call-Step}
use clang_uml.SequenceVisitor.Steps.MessageTypes.{
  IsOf, IsSingle-of, with_comment-IsOf, with_scope-IsOf, with_name-IsOf, declared_return_type-IsOf,
  with_context_return_type-IsOf, processed-IsOf, with_found-IsOf, found-IsOf,
}

-- The handlers: a guard that fails leaves the visitor as it is.
guarded-Step :
    {b : Place} (skip : Bool) (v w : Visitor) → Step b v w → Step b v (if skip then v else w)
guarded-Step true v w st = Step-refl v
guarded-Step false v w st = st

keep_if_some-Step :
    {b : Place} (keep : Message → Visitor → Visitor) (o : Option Message) (v : Visitor)
    → ((m : Message) → o ≡ some m → Step b v (keep m v))
    → Step b v (keep_if_some keep o v)
keep_if_some-Step keep none v h = Step-refl v
keep_if_some-Step keep (some m) v h = h m refl

module _ {b : Place} (site : CallSite) (v : Visitor) (p : IsPending v) where
  keep_return-IsOf :
      (kind : ExprKind) (t : MessageType) (m : Message)
      → IsSingleType t
      → IsOf t m
      → Step b v (keep_return kind site.expr (with_comment site m) v)
  keep_return-IsOf kind t m i e =
      keep_return-Step kind site.expr (with_comment site m) v p
        (IsSingle-of t (with_comment site m) i (with_comment-IsOf t site m e))

  keep_call-IsOf :
      (kind : ExprKind) (t : MessageType) (m : Message)
      → IsSingleType t
      → IsOf t m
      → Step b v (keep_call kind site.expr (with_comment site m) v)
  keep_call-IsOf kind t m i e =
      keep_call-Step kind site.expr (with_comment site m) v p
        (IsSingle-of t (with_comment site m) i (with_comment-IsOf t site m e))

  visit_call_expr-Step : Step b v (visit_call_expr site v)
  unfolding visit_call_expr keep_call is_begin_block_message is_end_block_message
  visit_call_expr-Step =
      let t = MessageType.k_call in
      let m = in_static v (new_message t (caller_id v.context)) in
      guarded-Step (not (valid v.context) || site.skip) v _ (
        keep_if_some-Step _ (processed site m) v
          (λ n k. keep_call-IsOf call_expr t n (refl, refl) (processed-IsOf t site m n refl k)))

  visit_objc_message_expr-Step : Step b v (visit_objc_message_expr site v)
  unfolding visit_objc_message_expr keep_call is_begin_block_message is_end_block_message
  visit_objc_message_expr-Step =
      let t = MessageType.k_call in
      let m = with_scope site (new_message t (caller_id v.context)) in
      guarded-Step
        (not (valid v.context) || site.skip || is_there site.comment_callee || not site.included) v
        _
        (keep_call-IsOf objc_message_expr t (with_found site.callee m) (refl, refl)
          (with_found-IsOf t site.callee m
            (with_scope-IsOf t site (new_message t (caller_id v.context)) refl)))

  visit_coawait_expr-Step : Step b v (visit_coawait_expr site v)
  unfolding visit_coawait_expr keep_return is_begin_block_message is_end_block_message
  visit_coawait_expr-Step =
      let t = MessageType.k_co_await in
      let m = with_name site (new_message t (caller_id v.context)) in
      guarded-Step (not (valid v.context) || site.skip) v _ (
        keep_if_some-Step _ (processed site m) v (λ n k.
          keep_return-IsOf coawait_expr t n (refl, refl)
            (processed-IsOf t site m n
              (with_name-IsOf t site (new_message t (caller_id v.context)) refl) k)))

  visit_return_stmt-Step : Step b v (visit_return_stmt site v)
  unfolding visit_return_stmt keep_return is_begin_block_message is_end_block_message
  visit_return_stmt-Step =
      let t = MessageType.k_return in
      let m = with_name site (new_message t (caller_id v.context)) in
      guarded-Step (not (valid v.context) || site.skip) v _ (
        keep_return-IsOf return_stmt t (with_context_return_type v m) (refl, refl)
          (with_context_return_type-IsOf t v m
            (with_name-IsOf t site (new_message t (caller_id v.context)) refl)))

  visit_coyield_expr-Step : Step b v (visit_coyield_expr site v)
  unfolding visit_coyield_expr keep_return is_begin_block_message is_end_block_message
  visit_coyield_expr-Step =
      let c = v.context in
      let t = MessageType.k_co_yield in
      let m = with_name site (new_message t (caller_id c)) in
      let decls = c.function_decl ∷ c.function_template_decl ∷ c.method_decl ∷ [] in
      guarded-Step (not (valid c) || site.skip) v _ (
        keep_return-IsOf coyield_expr t (declared_return_type decls m) (refl, refl)
          (declared_return_type-IsOf t decls m
            (with_name-IsOf t site (new_message t (caller_id c)) refl)))

  visit_coreturn_stmt-Step : Step b v (visit_coreturn_stmt site v)
  unfolding visit_coreturn_stmt keep_return is_begin_block_message is_end_block_message
  visit_coreturn_stmt-Step =
      let c = v.context in
      let t = MessageType.k_co_return in
      let m = with_name site (new_message t (caller_id c)) in
      let decls =
        c.function_decl ∷ c.function_template_decl ∷ c.method_decl ∷ c.objc_method_decl ∷ [] in
      guarded-Step (not (valid c) || site.skip) v _ (
        keep_return-IsOf coreturn_stmt t (declared_return_type decls m) (refl, refl)
          (declared_return_type-IsOf t decls m
            (with_name-IsOf t site (new_message t (caller_id c)) refl)))

  visit_construct_expr-Step : Step b v (visit_construct_expr site v)
  unfolding visit_construct_expr keep_call is_begin_block_message is_end_block_message
  visit_construct_expr-Step =
      let t = MessageType.k_call in
      let m = with_scope site (in_static v (new_message t (caller_id v.context))) in
      guarded-Step (not site.included) v _ (
        keep_if_some-Step _ (Option.map (λ callee. with_callee callee m) site.callee) v (λ n k.
          keep_call-Step construct_expr site.expr n v p (
            IsSingle-of t n (refl, refl)
              (found-IsOf t site.callee m n
                (with_scope-IsOf t site (in_static v (new_message t (caller_id v.context))) refl)
                k))))

pub visit_expr-Step :
    {b : Place} (kind : ExprKind) (site : CallSite) (v : Visitor)
    → IsPending v
    → Step b v (visit_expr kind site v)
unfolding visit_expr
visit_expr-Step call_expr = visit_call_expr-Step
visit_expr-Step construct_expr = visit_construct_expr-Step
visit_expr-Step objc_message_expr = visit_objc_message_expr-Step
visit_expr-Step return_stmt = visit_return_stmt-Step
visit_expr-Step coreturn_stmt = visit_coreturn_stmt-Step
visit_expr-Step coyield_expr = visit_coyield_expr-Step
visit_expr-Step coawait_expr = visit_coawait_expr-Step
