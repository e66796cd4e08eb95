-- ===== src/SequenceVisitor/Steps/Contexts.antt =====
-- What a declaration makes of the context: it gives one of the syntax tree, takes it away or leaves it.
use clang_uml.Prelude.{Bool, true, false, ◌||◌, none, some, ◌≡◌, refl, arith}
use clang_uml.Sequence.Diagram.{add_participant}
use clang_uml.SequenceVisitor.Context.{
  CallExpressionContext, reset, update_function, update_function_template, has_ast_context,
}
use clang_uml.SequenceVisitor.Messages.{Visitor}
use clang_uml.SequenceVisitor.Declarations.{
  DeclarationKind, visit_kind, cxx_record, objc_interface, objc_protocol, class_template,
  class_template_specialization, cxx_method, objc_method, function, function_template,
}
use clang_uml.SequenceVisitor.Walk.{keeps_context, gives_context}
use clang_uml.SequenceVisitor.Steps.{HasContext}

-- A declaration changes the context as its place allows.
pub lambdas-visit_kind :
    (k : DeclarationKind) (v : Visitor)
    → (visit_kind k v).context.current_lambda_caller_id ≡ v.context.current_lambda_caller_id
unfolding visit_kind reset add_participant update_function update_function_template
lambdas-visit_kind (cxx_record _ none) v = refl
lambdas-visit_kind (cxx_record _ (some p)) v = refl
lambdas-visit_kind (objc_interface none) v = refl
lambdas-visit_kind (objc_interface (some p)) v = refl
lambdas-visit_kind (objc_protocol none) v = refl
lambdas-visit_kind (objc_protocol (some p)) v = refl
lambdas-visit_kind (class_template none) v = refl
lambdas-visit_kind (class_template (some p)) v = refl
lambdas-visit_kind (class_template_specialization none) v = refl
lambdas-visit_kind (class_template_specialization (some p)) v = refl
lambdas-visit_kind (cxx_method _ none) v = refl
lambdas-visit_kind (cxx_method _ (some p)) v = refl
lambdas-visit_kind (objc_method _ none) v = refl
lambdas-visit_kind (objc_method _ (some p)) v = refl
lambdas-visit_kind (function d p) v = ground arith
lambdas-visit_kind (function_template d p) v = ground arith

pub visit_kind-gives :
    (k : DeclarationKind) (v : Visitor)
    → gives_context k ≡ true
    → has_ast_context (visit_kind k v).context ≡ true
unfolding visit_kind reset add_participant update_function update_function_template has_ast_context
visit_kind-gives (cxx_record _ none) v h = absurd cc
visit_kind-gives (cxx_record _ (some p)) v h = ground arith
visit_kind-gives (objc_interface none) v h = absurd cc
visit_kind-gives (objc_interface (some p)) v h = ground arith
visit_kind-gives (objc_protocol none) v h = absurd cc
visit_kind-gives (objc_protocol (some p)) v h = ground arith
visit_kind-gives (class_template none) v h = absurd cc
visit_kind-gives (class_template (some p)) v h = ground arith
visit_kind-gives (class_template_specialization none) v h = absurd cc
visit_kind-gives (class_template_specialization (some p)) v h = ground arith
visit_kind-gives (cxx_method _ none) v h = ground arith
visit_kind-gives (cxx_method _ (some p)) v h = ground arith
visit_kind-gives (objc_method _ none) v h = ground arith
visit_kind-gives (objc_method _ (some p)) v h = ground arith
visit_kind-gives (function d p) v h = ground arith
visit_kind-gives (function_template d p) v h = ground arith

HasContext-given :
    (inside : Bool) (c c' : CallExpressionContext)
    → c'.current_lambda_caller_id ≡ c.current_lambda_caller_id
    → has_ast_context c' ≡ true
    → HasContext inside c
    → HasContext inside c'
HasContext-given inside c c' l g (e, h) = (rw l e, rw g refl)

-- A class that is not included has no caller, and is not visited inside.
HasContext-taken :
    (inside : Bool) (c : CallExpressionContext)
    → (inside ≡ true → false ≡ true)
    → HasContext inside c
    → HasContext inside (reset c)
unfolding reset has_ast_context
HasContext-taken true c out h = (let clash : false ≡ true = out refl in absurd cc)
HasContext-taken false c out (e, h) = (e, ground arith)

given :
    (inside : Bool) (k : DeclarationKind) (v : Visitor)
    → gives_context k ≡ true
    → HasContext inside v.context
    → HasContext inside (visit_kind k v).context
given inside k v g =
    HasContext-given inside v.context (visit_kind k v).context (lambdas-visit_kind k v)
      (visit_kind-gives k v g)

pub HasContext-visit_kind :
    (inside : Bool) (k : DeclarationKind) (v : Visitor)
    → (inside ≡ true → keeps_context k ≡ true)
    → HasContext inside v.context
    → HasContext inside (visit_kind k v).context
unfolding visit_kind
HasContext-visit_kind inside (cxx_record _ none) v out = HasContext-taken inside v.context out
HasContext-visit_kind inside (objc_interface none) v out = HasContext-taken inside v.context out
HasContext-visit_kind inside (objc_protocol none) v out = HasContext-taken inside v.context out
HasContext-visit_kind inside (class_template none) v out = λ h. h
HasContext-visit_kind inside (class_template_specialization none) v out = λ h. h
HasContext-visit_kind inside (cxx_record d (some p)) v out =
    given inside (cxx_record d (some p)) v refl
HasContext-visit_kind inside (objc_interface (some p)) v out =
    given inside (objc_interface (some p)) v refl
HasContext-visit_kind inside (objc_protocol (some p)) v out =
    given inside (objc_protocol (some p)) v refl
HasContext-visit_kind inside (class_template (some p)) v out =
    given inside (class_template (some p)) v refl
HasContext-visit_kind inside (class_template_specialization (some p)) v out =
    given inside (class_template_specialization (some p)) v refl
HasContext-visit_kind inside (cxx_method d none) v out = given inside (cxx_method d none) v refl
HasContext-visit_kind inside (cxx_method d (some p)) v out =
    given inside (cxx_method d (some p)) v refl
HasContext-visit_kind inside (objc_method d none) v out = given inside (objc_method d none) v refl
HasContext-visit_kind inside (objc_method d (some p)) v out =
    given inside (objc_method d (some p)) v refl
HasContext-visit_kind inside (function d p) v out = given inside (function d p) v refl
HasContext-visit_kind inside (function_template d p) v out =
    given inside (function_template d p) v refl

pub into :
    (inside : Bool) (c : CallExpressionContext)
    → has_ast_context c ≡ true
    → HasContext (inside || true) c
into true c h = (refl, rw h refl)
into false c h = (refl, rw h refl)

pub same :
    (inside : Bool) (c : CallExpressionContext)
    → HasContext inside c
    → HasContext (inside || false) c
same true c h = h
same false c h = h
