-- ===== src/SequenceVisitor/Declarations.antt =====
-- src/sequence_diagram/visitor/translation_unit_visitor.cc: the Visit handlers of declarations and of
-- lambda expressions, which change the caller and add the participants. Their input is what the builders
-- of the models make of a declaration; one that the filter leaves out, or has no model, is not visited.
use clang_uml.Prelude.{
  ℕ, Bool, true, not, ◌&&◌, Option, none, some, List, [], ◌∷◌, if◌then◌else◌, update,
}
use clang_uml.Eid
use clang_uml.Enums.{MessageType}
use clang_uml.Sequence.Message.{new_message, set_to, Participant, class_}
use clang_uml.Sequence.Diagram.{add_participant, add_active_participant}
use clang_uml.SequenceVisitor.Context.{
  CallExpressionContext, ClassDecl, FunctionDecl, ExprKind, call_expr, reset, update_function,
  update_function_template, caller_id, lambda_caller_id, set_caller_id, enter_lambda_expression,
  current_callexpr, is_there,
}
use clang_uml.SequenceVisitor.Messages.{
  Visitor, push_message, with_diagram, ensure_activity_exists, ◌is_kind◌,
}
use clang_uml.SequenceVisitor.Visits.{with_active}

abbrev pub with_context : CallExpressionContext → Visitor → Visitor
with_context c v = record v { context = c }

-- set_unique_id of each id that a declaration has in the syntax tree.
unfoldable pub set_unique_ids : List ℕ → ℕ → Visitor → Visitor
unfolding Eid.add
set_unique_ids [] id v = v
set_unique_ids (local_id ∷ ids) id v =
    set_unique_ids ids id
      (record v { id_map = Eid.add local_id (record { value = id; is_global = true }) v.id_map })

-- The participant is none for a class that is only declared or is not included, and for a method
-- that has no model.
pub data DeclarationKind : Type 0 where
  cxx_record : ClassDecl → Option Participant → DeclarationKind
  objc_interface objc_protocol : Option Participant → DeclarationKind
  class_template class_template_specialization : Option Participant → DeclarationKind
  cxx_method objc_method : FunctionDecl → Option Participant → DeclarationKind
  function function_template : FunctionDecl → Participant → DeclarationKind

-- `id` is that of the element, and `local_ids` are the ids that are mapped to it.
pub record Declaration : Type 0 where
  pub local_ids : List ℕ
  pub id : ℕ
  pub kind : DeclarationKind

-- The id of the participant becomes that of the caller, and the participant stands in the diagram.
abbrev pub as_caller : Participant → CallExpressionContext → Visitor → Visitor
unfolding add_participant
as_caller p c v = with_diagram (add_participant p v.diagram) (with_context (set_caller_id p.id c) v)

abbrev pub as_caller_if :
    Option Participant
    → CallExpressionContext
    → (CallExpressionContext → CallExpressionContext)
    → Visitor
    → Visitor
as_caller_if none c then_update v = with_context c v
as_caller_if (some p) c then_update v = as_caller p (then_update c) v

abbrev pub visit_cxx_record_decl : ClassDecl → Option Participant → Visitor → Visitor
unfolding reset add_participant
visit_cxx_record_decl decl model v =
    as_caller_if model (reset v.context) (λ c. record c { class_decl = some decl }) v

abbrev pub visit_objc_interface_decl : Option Participant → Visitor → Visitor
unfolding reset add_participant
visit_objc_interface_decl model v =
    as_caller_if model (reset v.context) (λ c. record c { objc_interface_decl = true }) v

abbrev pub visit_objc_protocol_decl : Option Participant → Visitor → Visitor
unfolding reset add_participant
visit_objc_protocol_decl model v =
    as_caller_if model (reset v.context) (λ c. record c { objc_protocol_decl = true }) v

abbrev pub visit_class_template_decl : Option Participant → Visitor → Visitor
unfolding add_participant
visit_class_template_decl none v = v
visit_class_template_decl (some p) v =
    as_caller p (record (v.context) { class_template_decl = true }) v

abbrev pub visit_class_template_specialization_decl : Option Participant → Visitor → Visitor
unfolding add_participant
visit_class_template_specialization_decl none v = v
visit_class_template_specialization_decl (some p) v =
    as_caller p (record (v.context) { class_template_specialization_decl = true }) v

abbrev pub visit_cxx_method_decl : FunctionDecl → Option Participant → Visitor → Visitor
unfolding add_participant
visit_cxx_method_decl decl model v =
    as_caller_if model (record (v.context) { method_decl = some decl }) (λ c. c) v

abbrev pub visit_objc_method_decl : FunctionDecl → Option Participant → Visitor → Visitor
unfolding add_participant
visit_objc_method_decl decl model v =
    as_caller_if model (record (v.context) { objc_method_decl = some decl }) (λ c. c) v

abbrev pub visit_function_decl : FunctionDecl → Participant → Visitor → Visitor
unfolding update_function add_participant
visit_function_decl decl p v = as_caller p (update_function decl v.context) v

abbrev pub visit_function_template_decl : FunctionDecl → Participant → Visitor → Visitor
unfolding update_function_template add_participant
visit_function_template_decl decl p v = as_caller p (update_function_template decl v.context) v

unfoldable pub visit_kind : DeclarationKind → Visitor → Visitor
unfolding reset update_function update_function_template add_participant
visit_kind (cxx_record decl model) = visit_cxx_record_decl decl model
visit_kind (objc_interface model) = visit_objc_interface_decl model
visit_kind (objc_protocol model) = visit_objc_protocol_decl model
visit_kind (class_template model) = visit_class_template_decl model
visit_kind (class_template_specialization model) = visit_class_template_specialization_decl model
visit_kind (cxx_method decl model) = visit_cxx_method_decl decl model
visit_kind (objc_method decl model) = visit_objc_method_decl decl model
visit_kind (function decl p) = visit_function_decl decl p
visit_kind (function_template decl p) = visit_function_template_decl decl p

unfoldable pub visit_declaration : Declaration → Visitor → Visitor
unfolding visit_kind set_unique_ids
visit_declaration d v = visit_kind d.kind (set_unique_ids d.local_ids d.id v)

-- `is_lambda_call` is asked of the call in whose arguments the lambda stands.
pub record LambdaModel : Type 0 where
  pub class_model : Participant
  pub class_local_id : ℕ
  pub operator_model : Participant
  pub operator_local_id : ℕ
  pub is_lambda_call : Bool

unfoldable pub add_lambda_class : LambdaModel → Visitor → Visitor
unfolding add_participant set_unique_ids
add_lambda_class lambda v =
    let v = set_unique_ids (lambda.class_local_id ∷ []) lambda.class_model.id v in
    let d = add_participant lambda.class_model v.diagram in
    with_diagram
      (record d {
        participants =
            update lambda.class_model.id
              (λ p. record p { kind = class_ true lambda.operator_model.id }) d.participants;
      })
      v

-- A call with a lambda in its arguments, outside of lambdas, is shown as a call of the lambda as well.
unfoldable pub add_call_within : LambdaModel → Option (ExprKind × ℕ) → Visitor → Visitor
unfolding ◌is_kind◌ caller_id ensure_activity_exists push_message add_active_participant
add_call_within lambda none v = v
add_call_within lambda (some (kind, expr)) v =
    let m =
      set_to lambda.operator_model.id (new_message MessageType.k_call (caller_id v.context)) in
    if kind is_kind call_expr
      && not (is_there (lambda_caller_id v.context))
      && not lambda.is_lambda_call
    then push_message call_expr expr m
        (with_active m.to (with_active m.from (ensure_activity_exists m v)))
    else v

unfoldable pub add_lambda_call : LambdaModel → Visitor → Visitor
unfolding add_call_within
add_lambda_call lambda v = add_call_within lambda (current_callexpr v.context) v

unfoldable pub visit_lambda_expr : LambdaModel → Visitor → Visitor
unfolding add_lambda_class add_lambda_call add_participant set_unique_ids
visit_lambda_expr lambda v =
    let v = add_lambda_call lambda (add_lambda_class lambda v) in
    let v = with_context (enter_lambda_expression lambda.operator_model.id v.context) v in
    let v = set_unique_ids (lambda.operator_local_id ∷ []) lambda.operator_model.id v in
    with_diagram (add_participant lambda.operator_model v.diagram) v
