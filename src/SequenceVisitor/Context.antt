-- ===== src/SequenceVisitor/Context.antt =====
-- src/sequence_diagram/visitor/call_expression_context.{h,cc}: where in the syntax tree the visitor is.
-- Declarations and statements are records of what the program asks Clang for; a statement is known by
-- its address, which is not 0. The top of a stack is its first item.
use clang_uml.Prelude.{
  ℕ, Bool, true, false, ◌||◌, String, Option, none, some, List, [], ◌∷◌, if◌then◌else◌, find,
  insert, update, erase_key, str_eq,
}

pub record ClassDecl : Type 0 where
  pub is_local_class : Bool

pub record FunctionDecl : Type 0 where
  pub is_cxx_class_member : Bool
  pub qualified_name : String
  pub return_type : String

pub record IfStmt : Type 0 where
  pub address : ℕ
  pub children : List ℕ
  pub else_ : ℕ
  pub is_constexpr : Bool

-- The alternatives of `callexpr_stack_t`, each with the address of its expression or statement.
pub data ExprKind : Type 0 where
  call_expr construct_expr objc_message_expr return_stmt coreturn_stmt : ExprKind
  coyield_expr coawait_expr : ExprKind

pub record CallExpressionContext : Type 0 where
  pub class_decl : Option ClassDecl
  pub class_template_decl : Bool
  pub class_template_specialization_decl : Bool
  pub method_decl : Option FunctionDecl
  pub objc_method_decl : Option FunctionDecl
  pub function_decl : Option FunctionDecl
  pub function_template_decl : Option FunctionDecl
  pub objc_interface_decl : Bool
  pub objc_protocol_decl : Bool
  pub current_caller_id : ℕ
  pub current_lambda_caller_id : List ℕ
  pub call_expr_stack : List (ExprKind × ℕ)
  pub if_stmt_stack : List IfStmt
  pub elseif_stmt_stacks : List (ℕ × List IfStmt)
  pub loop_stmt_stack : List ℕ
  pub try_stmt_stack : List ℕ
  pub switch_stmt_stack : List ℕ
  pub conditional_operator_stack : List ℕ

abbrev pub new_context : CallExpressionContext
new_context = record {
  class_decl = none;
  class_template_decl = false;
  class_template_specialization_decl = false;
  method_decl = none;
  objc_method_decl = none;
  function_decl = none;
  function_template_decl = none;
  objc_interface_decl = false;
  objc_protocol_decl = false;
  current_caller_id = 0;
  current_lambda_caller_id = [];
  call_expr_stack = [];
  if_stmt_stack = [];
  elseif_stmt_stacks = [];
  loop_stmt_stack = [];
  try_stmt_stack = [];
  switch_stmt_stack = [];
  conditional_operator_stack = [];
}

abbrev pub is_there {ℓ} : {A : Type ℓ} → Option A → Bool
is_there none = false
is_there (some _) = true

-- The declaration of an Objective-C method stays.
unfoldable pub reset : CallExpressionContext → CallExpressionContext
reset c = record c {
  current_caller_id = 0;
  class_decl = none;
  class_template_decl = false;
  class_template_specialization_decl = false;
  method_decl = none;
  function_decl = none;
  function_template_decl = none;
  objc_interface_decl = false;
  objc_protocol_decl = false;
}

unfoldable pub valid : CallExpressionContext → Bool
valid c =
    is_there c.class_decl
    || c.class_template_decl
    || c.class_template_specialization_decl
    || is_there c.method_decl
    || is_there c.function_decl
    || is_there c.function_template_decl
    || c.objc_interface_decl
    || is_there c.objc_method_decl
    || c.objc_protocol_decl

-- Whether `get_ast_context` gives the context of Clang's syntax tree and no null pointer.
unfoldable pub has_ast_context : CallExpressionContext → Bool
has_ast_context c =
    c.class_template_specialization_decl
    || c.class_template_decl
    || is_there c.class_decl
    || is_there c.function_template_decl
    || is_there c.function_decl
    || is_there c.method_decl
    || c.objc_interface_decl
    || c.objc_protocol_decl
    || is_there c.objc_method_decl

unfoldable pub update_function : FunctionDecl → CallExpressionContext → CallExpressionContext
unfolding reset
update_function function c =
    let c = if function.is_cxx_class_member then c else reset c in
    let c = record c { function_decl = some function } in
    elim c.function_template_decl [
      | none ↦ c
      | some template ↦
          if str_eq template.qualified_name function.qualified_name
          then c
          else record c { function_template_decl = none }
    ]

unfoldable pub update_function_template :
    FunctionDecl → CallExpressionContext → CallExpressionContext
update_function_template template c =
    let c = record c { function_template_decl = some template } in
    if template.is_cxx_class_member then c else record c { class_decl = none }

unfoldable pub is_local_class : CallExpressionContext → Bool
is_local_class c = elim c.class_decl [ none ↦ false | some decl ↦ decl.is_local_class ]

abbrev pub top {ℓ} : {A : Type ℓ} → List A → Option A
top [] = none
top (x ∷ xs) = some x

abbrev pub pop {ℓ} : {A : Type ℓ} → List A → List A
pop [] = []
pop (x ∷ xs) = xs

abbrev pub lambda_caller_id : CallExpressionContext → Option ℕ
lambda_caller_id c = top c.current_lambda_caller_id

unfoldable pub caller_id : CallExpressionContext → ℕ
unfolding is_local_class
caller_id c = elim (lambda_caller_id c) [
  | none ↦ c.current_caller_id
  | some id ↦ if is_local_class c then c.current_caller_id else id
]

abbrev pub set_caller_id : ℕ → CallExpressionContext → CallExpressionContext
set_caller_id id c = record c { current_caller_id = id }

abbrev pub enter_lambda_expression : ℕ → CallExpressionContext → CallExpressionContext
enter_lambda_expression id c = record c {
  current_lambda_caller_id = id ∷ c.current_lambda_caller_id;
}

abbrev pub leave_lambda_expression : CallExpressionContext → CallExpressionContext
leave_lambda_expression c = record c { current_lambda_caller_id = pop c.current_lambda_caller_id }

abbrev pub current_ifstmt : CallExpressionContext → Option IfStmt
current_ifstmt c = top c.if_stmt_stack

abbrev pub enter_ifstmt : IfStmt → CallExpressionContext → CallExpressionContext
enter_ifstmt stmt c = record c { if_stmt_stack = stmt ∷ c.if_stmt_stack }

unfoldable pub leave_ifstmt : CallExpressionContext → CallExpressionContext
unfolding erase_key
leave_ifstmt c = elim c.if_stmt_stack [
  | [] ↦ c
  | stmt ∷ stack ↦ record c {
    elseif_stmt_stacks = erase_key stmt.address c.elseif_stmt_stacks;
    if_stmt_stack = stack;
  }
]

-- `operator[]` makes a stack for an `if` that has none. Without a current `if` the program asserts.
unfoldable pub enter_elseifstmt : IfStmt → CallExpressionContext → CallExpressionContext
enter_elseifstmt stmt c = elim (current_ifstmt c) [
  | none ↦ c
  | some current ↦ record c {
    elseif_stmt_stacks =
        update current.address (λ stack. stmt ∷ stack)
          (insert current.address [] c.elseif_stmt_stacks);
  }
]

unfoldable pub current_elseifstmt : CallExpressionContext → Option IfStmt
current_elseifstmt c = elim (current_ifstmt c) [
  | none ↦ none
  | some current ↦ elim (find current.address c.elseif_stmt_stacks) [
    | none ↦ none
    | some stack ↦ top stack
  ]
]

abbrev pub enter_loopstmt : ℕ → CallExpressionContext → CallExpressionContext
enter_loopstmt stmt c = record c { loop_stmt_stack = stmt ∷ c.loop_stmt_stack }

abbrev pub leave_loopstmt : CallExpressionContext → CallExpressionContext
leave_loopstmt c = record c { loop_stmt_stack = pop c.loop_stmt_stack }

abbrev pub current_callexpr : CallExpressionContext → Option (ExprKind × ℕ)
current_callexpr c = top c.call_expr_stack

abbrev pub enter_callexpr : ExprKind → ℕ → CallExpressionContext → CallExpressionContext
enter_callexpr kind expr c = record c { call_expr_stack = (kind, expr) ∷ c.call_expr_stack }

abbrev pub leave_callexpr : CallExpressionContext → CallExpressionContext
leave_callexpr c = record c { call_expr_stack = pop c.call_expr_stack }

abbrev pub current_trystmt : CallExpressionContext → Option ℕ
current_trystmt c = top c.try_stmt_stack

abbrev pub enter_trystmt : ℕ → CallExpressionContext → CallExpressionContext
enter_trystmt stmt c = record c { try_stmt_stack = stmt ∷ c.try_stmt_stack }

-- Pops only a stack that is empty, which is undefined: a stack that is not empty stays.
unfoldable pub leave_trystmt : CallExpressionContext → Option CallExpressionContext
leave_trystmt c = elim c.try_stmt_stack [ [] ↦ none | _ ∷ _ ↦ some c ]

abbrev pub current_switchstmt : CallExpressionContext → Option ℕ
current_switchstmt c = top c.switch_stmt_stack

abbrev pub enter_switchstmt : ℕ → CallExpressionContext → CallExpressionContext
enter_switchstmt stmt c = record c { switch_stmt_stack = stmt ∷ c.switch_stmt_stack }

-- As `leave_trystmt`.
unfoldable pub leave_switchstmt : CallExpressionContext → Option CallExpressionContext
leave_switchstmt c = elim c.switch_stmt_stack [ [] ↦ none | _ ∷ _ ↦ some c ]

abbrev pub enter_conditionaloperator : ℕ → CallExpressionContext → CallExpressionContext
enter_conditionaloperator stmt c = record c {
  conditional_operator_stack = stmt ∷ c.conditional_operator_stack;
}

abbrev pub leave_conditionaloperator : CallExpressionContext → CallExpressionContext
leave_conditionaloperator c = record c {
  conditional_operator_stack = pop c.conditional_operator_stack;
}
