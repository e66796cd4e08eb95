-- ===== src/SequenceVisitor/Visits.antt =====
-- src/sequence_diagram/visitor/translation_unit_visitor.cc: the Visit handlers. What Clang, the comments,
-- the filter and the builders of the models say of an expression or a declaration is their input.
use clang_uml.Prelude.{
  ℕ, Bool, not, ◌&&◌, ◌||◌, String, Option, none, some, List, [], ◌∷◌, ltb, if◌then◌else◌,
}
use mathlib.Core.Option
use clang_uml.Enums.{MessageType}
use clang_uml.Sequence.Message.{
  Message, new_message, MessageScope, set_to, set_message_name, set_return_type, set_comment,
  method,
}
use clang_uml.Sequence.Diagram.{add_active_participant, get_participant}
use clang_uml.SequenceVisitor.Context.{
  FunctionDecl, ExprKind, call_expr, construct_expr, objc_message_expr, return_stmt, coreturn_stmt,
  coyield_expr, coawait_expr, valid, is_local_class, caller_id, lambda_caller_id, is_there,
}
use clang_uml.SequenceVisitor.Messages.{Visitor, push_message, with_diagram, ensure_activity_exists}

-- Source locations, and the record of the comments that were read, are left out.
-- `skip` and `comment_callee` come from the comment at the expression, `included` from the filter,
-- `in_condition` from `is_expr_in_current_control_statement_condition`; `callee` is the target, the name
-- and the return type that `process_callee` and its like find, and `name` the text of the operand.
pub record CallSite : Type 0 where
  pub expr : ℕ
  pub skip : Bool
  pub comment_callee : Option ℕ
  pub included : Bool
  pub in_condition : Bool
  pub callee : Option (ℕ × String × String)
  pub name : Option String
  pub comment : Option (ℕ × String)

abbrev pub in_static : Visitor → Message → Message
in_static v m = record m {
  in_static_declaration_context = ltb 0 v.within_static_variable_declaration;
}

abbrev pub with_scope : CallSite → Message → Message
with_scope site m = if site.in_condition then record m { scope = MessageScope.k_condition } else m

abbrev pub with_name : CallSite → Message → Message
with_name site m = elim site.name [ none ↦ m | some name ↦ set_message_name name m ]

abbrev pub with_comment : CallSite → Message → Message
with_comment site m = elim site.comment [ none ↦ m | some (id, text) ↦ set_comment id text m ]

abbrev pub with_callee : ℕ × String × String → Message → Message
with_callee (id, name, type) m = set_return_type type (set_message_name name (set_to id m))

abbrev pub with_found : Option (ℕ × String × String) → Message → Message
with_found none m = m
with_found (some callee) m = with_callee callee m

abbrev pub with_active : ℕ → Visitor → Visitor
unfolding add_active_participant
with_active id v = with_diagram (add_active_participant id v.diagram) v

-- The end of a handler: a call needs a caller and a callee, a return only a caller.
unfoldable pub keep_call : ExprKind → ℕ → Message → Visitor → Visitor
unfolding ensure_activity_exists push_message add_active_participant
keep_call kind expr m v =
    if ltb 0 m.from && ltb 0 m.to
    then push_message kind expr m
        (with_active m.to (with_active m.from (ensure_activity_exists m v)))
    else v

unfoldable pub keep_return : ExprKind → ℕ → Message → Visitor → Visitor
unfolding ensure_activity_exists push_message add_active_participant
keep_return kind expr m v =
    if ltb 0 m.from
    then push_message kind expr m (with_active m.from (ensure_activity_exists m v))
    else v

-- A callee in the comment (`generate_message_from_comment`) needs no look at the expression.
abbrev pub processed : CallSite → Message → Option Message
processed site m = elim site.comment_callee [
  | some id ↦ some (with_scope site (set_to id m))
  | none ↦
      if site.included
      then elim site.callee [
        | none ↦ none
        | some callee ↦ some (with_callee callee (with_scope site m))
      ]
      else none
]

abbrev pub keep_if_some : (Message → Visitor → Visitor) → Option Message → Visitor → Visitor
keep_if_some keep none v = v
keep_if_some keep (some m) v = keep m v

unfoldable pub visit_call_expr : CallSite → Visitor → Visitor
unfolding valid caller_id keep_call set_comment
visit_call_expr site v =
    let m = in_static v (new_message MessageType.k_call (caller_id v.context)) in
    if not (valid v.context) || site.skip
    then v
    else keep_if_some (λ m. keep_call call_expr site.expr (with_comment site m)) (processed site m)
        v

-- A message whose callee is taken from a comment is not kept.
unfoldable pub visit_objc_message_expr : CallSite → Visitor → Visitor
unfolding valid caller_id keep_call set_comment
visit_objc_message_expr site v =
    let m = with_scope site (new_message MessageType.k_call (caller_id v.context)) in
    if not (valid v.context) || site.skip || is_there site.comment_callee || not site.included
    then v
    else keep_call objc_message_expr site.expr (with_comment site (with_found site.callee m)) v

unfoldable pub visit_coawait_expr : CallSite → Visitor → Visitor
unfolding valid caller_id keep_return set_comment
visit_coawait_expr site v =
    let m = with_name site (new_message MessageType.k_co_await (caller_id v.context)) in
    if not (valid v.context) || site.skip
    then v
    else keep_if_some (λ m. keep_return coawait_expr site.expr (with_comment site m))
        (processed site m) v

abbrev pub declared_return_type : List (Option FunctionDecl) → Message → Message
declared_return_type [] m = m
declared_return_type (none ∷ decls) m = declared_return_type decls m
declared_return_type (some decl ∷ _) m = set_return_type decl.return_type m

-- In a lambda, the return type of its operator, if that is a method among the participants.
unfoldable pub with_context_return_type : Visitor → Message → Message
unfolding is_local_class
with_context_return_type v m =
    let c = v.context in
    let decls =
      c.function_decl ∷ c.function_template_decl ∷ c.method_decl ∷ c.objc_method_decl ∷ [] in
    elim (lambda_caller_id c) [
      | none ↦ declared_return_type decls m
      | some id ↦
          if is_local_class c
          then declared_return_type decls m
          else elim (get_participant v.diagram id) [
            | none ↦ m
            | some p ↦ elim p.kind [ method _ ↦ set_return_type p.return_type m | _ ↦ m ]
          ]
    ]

unfoldable pub visit_return_stmt : CallSite → Visitor → Visitor
unfolding valid caller_id keep_return set_comment with_context_return_type
visit_return_stmt site v =
    let m = with_name site (new_message MessageType.k_return (caller_id v.context)) in
    if not (valid v.context) || site.skip
    then v
    else keep_return return_stmt site.expr (with_comment site (with_context_return_type v m)) v

unfoldable pub visit_coyield_expr : CallSite → Visitor → Visitor
unfolding valid caller_id keep_return set_comment
visit_coyield_expr site v =
    let c = v.context in
    let m = with_name site (new_message MessageType.k_co_yield (caller_id c)) in
    let decls = c.function_decl ∷ c.function_template_decl ∷ c.method_decl ∷ [] in
    if not (valid c) || site.skip
    then v
    else keep_return coyield_expr site.expr (with_comment site (declared_return_type decls m)) v

unfoldable pub visit_coreturn_stmt : CallSite → Visitor → Visitor
unfolding valid caller_id keep_return set_comment
visit_coreturn_stmt site v =
    let c = v.context in
    let m = with_name site (new_message MessageType.k_co_return (caller_id c)) in
    let decls =
      c.function_decl ∷ c.function_template_decl ∷ c.method_decl ∷ c.objc_method_decl ∷ [] in
    if not (valid c) || site.skip
    then v
    else keep_return coreturn_stmt site.expr (with_comment site (declared_return_type decls m)) v

unfoldable pub visit_construct_expr : CallSite → Visitor → Visitor
unfolding caller_id keep_call
visit_construct_expr site v =
    let m = with_scope site (in_static v (new_message MessageType.k_call (caller_id v.context))) in
    if not site.included
    then v
    else keep_if_some (keep_call construct_expr site.expr)
        (Option.map (λ callee. with_callee callee m) site.callee) v
