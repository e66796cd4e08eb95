-- ===== src/SequenceVisitor/Walk.antt =====
-- src/sequence_diagram/visitor/translation_unit_visitor.cc: the Traverse handlers of expressions and
-- declarations, and the visitor as a whole. A walk is any list of calls that Clang's `RecursiveASTVisitor`
-- may make of the handlers, each with the walk of its parts: the model assumes no order of them.
use clang_uml.Prelude.{
  ℕ, ◌+◌, ◌-◌, Bool, true, false, ◌||◌, String, Option, none, some, ◌≡◌, ◌⊎◌, ◌>>=◌, if◌then◌else◌,
}
use clang_uml.SequenceVisitor.Context.{
  ExprKind, call_expr, construct_expr, objc_message_expr, return_stmt, coreturn_stmt, coyield_expr,
  coawait_expr, IfStmt, enter_callexpr, leave_callexpr, leave_lambda_expression, is_there,
}
use clang_uml.SequenceVisitor.Messages.{Visitor, pop_message_to_diagram}
use clang_uml.SequenceVisitor.Visits.{
  CallSite, visit_call_expr, visit_objc_message_expr, visit_coawait_expr, visit_return_stmt,
  visit_coyield_expr, visit_coreturn_stmt, visit_construct_expr,
}
use clang_uml.SequenceVisitor.Declarations.{
  Declaration, DeclarationKind, cxx_record, objc_interface, objc_protocol, class_template,
  class_template_specialization, LambdaModel, visit_declaration, visit_lambda_expr, with_context,
}
use clang_uml.SequenceVisitor.Handlers.{
  Handler, StmtText, traverse_compound_stmt, traverse_if_stmt, traverse_while_stmt,
  traverse_do_stmt, traverse_for_stmt, traverse_cxx_for_range_stmt, traverse_cxx_try_stmt,
  traverse_cxx_catch_stmt, traverse_switch_stmt, traverse_case_stmt, traverse_default_stmt,
  traverse_conditional_operator,
}

-- The handlers of calls, returns and coroutine statements have one body. An expression in a system
-- header that is left out is not part of a walk.
unfoldable pub traverse_expr : ExprKind → ℕ → Handler → Handler
unfolding pop_message_to_diagram
traverse_expr kind expr base v = do
  v' ← base (with_context (enter_callexpr kind expr v.context) v)
  pop_message_to_diagram kind expr (with_context (leave_callexpr v'.context) v')

unfoldable pub visit_expr : ExprKind → CallSite → Visitor → Visitor
unfolding visit_call_expr visit_objc_message_expr visit_coawait_expr visit_return_stmt
    visit_coyield_expr visit_coreturn_stmt visit_construct_expr
visit_expr call_expr = visit_call_expr
visit_expr construct_expr = visit_construct_expr
visit_expr objc_message_expr = visit_objc_message_expr
visit_expr return_stmt = visit_return_stmt
visit_expr coreturn_stmt = visit_coreturn_stmt
visit_expr coyield_expr = visit_coyield_expr
visit_expr coawait_expr = visit_coawait_expr

-- The context is restored behind a function, a method, a class and a lambda.
unfoldable pub traverse_decl : Handler → Handler
traverse_decl base v = do v' ← base v; some (with_context v.context v')

unfoldable pub traverse_lambda_expr : Option LambdaModel → Handler → Handler
unfolding visit_lambda_expr
traverse_lambda_expr model base v = do
  v' ← base (elim model [ none ↦ v | some lambda ↦ visit_lambda_expr lambda v ])
  let v' = with_context (leave_lambda_expression v'.context) v'
  some (with_context v.context v')

unfoldable pub traverse_var_decl : (is_static_local : Bool) → Handler → Handler
traverse_var_decl is_static_local base v =
    let count = v.within_static_variable_declaration in
    if is_static_local
    then (do
      v' ← base (record v { within_static_variable_declaration = count + 1 })
      some (record v' {
        within_static_variable_declaration = v'.within_static_variable_declaration - 1;
      }))
    else base v

pub data LoopStmt : Type 0 where
  while_stmt do_stmt for_stmt cxx_for_range_stmt : LoopStmt

pub data Walk : Type 0 where
  done : Walk
  visit_decl : Declaration → (rest : Walk) → Walk
  visit_site : ExprKind → CallSite → (rest : Walk) → Walk
  decl : (parts rest : Walk) → Walk
  lambda_expr : Option LambdaModel → (parts rest : Walk) → Walk
  var_decl : (is_static_local : Bool) → (parts rest : Walk) → Walk
  expr : ExprKind → ℕ → (parts rest : Walk) → Walk
  compound_stmt : ℕ → (parts rest : Walk) → Walk
  if_stmt : IfStmt → StmtText → (parts rest : Walk) → Walk
  loop_stmt : LoopStmt → ℕ → StmtText → (parts rest : Walk) → Walk
  cxx_try_stmt : ℕ → StmtText → (parts rest : Walk) → Walk
  cxx_catch_stmt : Option String → (parts rest : Walk) → Walk
  switch_stmt : ℕ → StmtText → (parts rest : Walk) → Walk
  case_stmt : String → (parts rest : Walk) → Walk
  default_stmt : (parts rest : Walk) → Walk
  conditional_operator : ℕ → StmtText → (cond true_expr false_expr rest : Walk) → Walk

unfoldable pub traverse_loop_stmt : LoopStmt → ℕ → StmtText → Handler → Handler
unfolding traverse_while_stmt traverse_do_stmt traverse_for_stmt traverse_cxx_for_range_stmt
traverse_loop_stmt while_stmt = traverse_while_stmt
traverse_loop_stmt do_stmt = traverse_do_stmt
traverse_loop_stmt for_stmt = traverse_for_stmt
traverse_loop_stmt cxx_for_range_stmt = traverse_cxx_for_range_stmt

unfoldable pub traverse : Walk → Handler
unfolding visit_declaration visit_expr traverse_decl traverse_lambda_expr traverse_var_decl
    traverse_expr traverse_compound_stmt traverse_if_stmt traverse_loop_stmt traverse_cxx_try_stmt
    traverse_cxx_catch_stmt traverse_switch_stmt traverse_case_stmt traverse_default_stmt
    traverse_conditional_operator
traverse done v = some v
traverse (visit_decl d rest) v = traverse rest (visit_declaration d v)
traverse (visit_site kind site rest) v = traverse rest (visit_expr kind site v)
traverse (decl parts rest) v = traverse_decl (traverse parts) v >>= traverse rest
traverse (lambda_expr model parts rest) v =
    traverse_lambda_expr model (traverse parts) v >>= traverse rest
traverse (var_decl is_static_local parts rest) v =
    traverse_var_decl is_static_local (traverse parts) v >>= traverse rest
traverse (expr kind e parts rest) v = traverse_expr kind e (traverse parts) v >>= traverse rest
traverse (compound_stmt s parts rest) v =
    traverse_compound_stmt s (traverse parts) v >>= traverse rest
traverse (if_stmt s text parts rest) v =
    traverse_if_stmt s text (traverse parts) v >>= traverse rest
traverse (loop_stmt kind s text parts rest) v =
    traverse_loop_stmt kind s text (traverse parts) v >>= traverse rest
traverse (cxx_try_stmt s text parts rest) v =
    traverse_cxx_try_stmt s text (traverse parts) v >>= traverse rest
traverse (cxx_catch_stmt caught parts rest) v =
    traverse_cxx_catch_stmt caught (traverse parts) v >>= traverse rest
traverse (switch_stmt s text parts rest) v =
    traverse_switch_stmt s text (traverse parts) v >>= traverse rest
traverse (case_stmt name parts rest) v =
    traverse_case_stmt name (traverse parts) v >>= traverse rest
traverse (default_stmt parts rest) v = traverse_default_stmt (traverse parts) v >>= traverse rest
traverse (conditional_operator s text cond true_expr false_expr rest) v =
    traverse_conditional_operator s text (traverse cond) (traverse true_expr) (traverse false_expr)
      v
    >>= traverse rest

-- Where a part of the walk stands: directly in a `switch`, and where there is a context of the syntax tree.
pub record Place : Type 0 where
  pub in_switch : Bool
  pub inside : Bool

abbrev pub at_top : Place
at_top = record { in_switch = false; inside = false }

abbrev pub out_of_switch : Place → Place
out_of_switch b = record b { in_switch = false }

abbrev pub within_switch : Place → Place
within_switch b = record b { in_switch = true }

abbrev pub from_inside : Bool → Place → Place
from_inside i b = record b { inside = b.inside || i }

-- A class that is not included, or only declared, takes the context away.
abbrev pub keeps_context : DeclarationKind → Bool
keeps_context (cxx_record _ none) = false
keeps_context (objc_interface none) = false
keeps_context (objc_protocol none) = false
keeps_context _ = true

abbrev pub gives_context : DeclarationKind → Bool
gives_context (cxx_record _ none) = false
gives_context (objc_interface none) = false
gives_context (objc_protocol none) = false
gives_context (class_template none) = false
gives_context (class_template_specialization none) = false
gives_context _ = true

-- A `case` stands in a `switch`, whose parts hold no class and no function but in a declaration or a
-- lambda of their own. A lambda that is shown stands inside of a declaration that gives a context of the
-- syntax tree, and no class that takes the context away is visited between them or in the lambda; what
-- follows a declaration may count as outside of it, where there are no such lambdas.
abbrev pub IsScoped : Place → Walk → Type 0
IsScoped b done = Unit
IsScoped b (visit_decl d rest) =
    (b.in_switch ≡ false)
    × (b.inside ≡ true → keeps_context d.kind ≡ true)
    × (IsScoped b rest ⊎ IsScoped (from_inside (gives_context d.kind) b) rest)
IsScoped b (visit_site kind site rest) = IsScoped b rest
IsScoped b (decl parts rest) = IsScoped (out_of_switch b) parts × IsScoped b rest
IsScoped b (lambda_expr model parts rest) =
    (is_there model ≡ true → b.inside ≡ true) × IsScoped (out_of_switch b) parts × IsScoped b rest
IsScoped b (switch_stmt s text parts rest) = IsScoped (within_switch b) parts × IsScoped b rest
IsScoped b (case_stmt name parts rest) = (b.in_switch ≡ true) × IsScoped b parts × IsScoped b rest
IsScoped b (default_stmt parts rest) = (b.in_switch ≡ true) × IsScoped b parts × IsScoped b rest
IsScoped b (conditional_operator s text cond true_expr false_expr rest) =
    IsScoped b cond × IsScoped b true_expr × IsScoped b false_expr × IsScoped b rest
IsScoped b (var_decl is_static_local parts rest) = IsScoped b parts × IsScoped b rest
IsScoped b (expr kind e parts rest) = IsScoped b parts × IsScoped b rest
IsScoped b (compound_stmt s parts rest) = IsScoped b parts × IsScoped b rest
IsScoped b (if_stmt s text parts rest) = IsScoped b parts × IsScoped b rest
IsScoped b (loop_stmt kind s text parts rest) = IsScoped b parts × IsScoped b rest
IsScoped b (cxx_try_stmt s text parts rest) = IsScoped b parts × IsScoped b rest
IsScoped b (cxx_catch_stmt caught parts rest) = IsScoped b parts × IsScoped b rest
