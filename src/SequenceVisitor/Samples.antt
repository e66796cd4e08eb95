-- ===== src/SequenceVisitor/Samples.antt =====
-- A function with a loop that calls, a loop that does nothing and a `switch`, and what becomes of it.
use clang_uml.Prelude.{
  inl, inr, ℕ, ◌+◌, Bool, true, false, Option, none, some, List, [], ◌∷◌, ◌≡◌, refl, map, All, find,
  update, insert,
}
use clang_uml.Enums.{MessageType, ◌is_message◌}
use clang_uml.Sequence.Message.{Message, Participant, ParticipantKind, is_content}
use clang_uml.Sequence.Diagram.{Diagram, messages_of, search_back}
use clang_uml.Sequence.Blocks.{finalize}
use clang_uml.Sequence.Blocks.Included.{GoesToIncluded}
use clang_uml.SequenceVisitor.Context.{FunctionDecl, call_expr, IfStmt, has_ast_context}
use clang_uml.SequenceVisitor.Messages.{Visitor}
use clang_uml.SequenceVisitor.Visits.{CallSite}
use clang_uml.SequenceVisitor.Declarations.{Declaration, DeclarationKind}
use clang_uml.SequenceVisitor.Handlers.{StmtText}
use clang_uml.SequenceVisitor.Walk.{
  Walk, done, visit_decl, visit_site, decl, expr, lambda_expr, var_decl, loop_stmt, while_stmt,
  switch_stmt, case_stmt, default_stmt, if_stmt, compound_stmt, IsScoped, at_top, traverse,
}
use clang_uml.SequenceVisitor.Emits.{Emits}
use clang_uml.SequenceVisitor.Finalization
use clang_uml.SequenceVisitor.Composition.{new_visitor, traverse-Emits, traverse-finalize}

abbrev function_participant : ℕ → Participant
function_participant id = record {
  id = id;
  full_name = "f";
  skip = false;
  return_type = "void";
  kind = ParticipantKind.function;
}

abbrev declared : FunctionDecl
declared = record { is_cxx_class_member = false; qualified_name = "f"; return_type = "void" }

abbrev declaration : ℕ → Declaration
declaration id = record {
  local_ids = (id + 100) ∷ [];
  id = id;
  kind = DeclarationKind.function declared (function_participant id);
}

abbrev site : ℕ → ℕ → CallSite
site e callee = record {
  expr = e;
  skip = false;
  comment_callee = none;
  included = true;
  in_condition = false;
  callee = some (callee, "g", "int");
  name = none;
  comment = none;
}

abbrev call : ℕ → ℕ → Walk → Walk
call e callee rest = expr call_expr e (visit_site call_expr (site e callee) done) rest

abbrev no_text : StmtText
no_text = record { condition_text = ""; comment = none }

abbrev an_if : IfStmt
an_if = record { address = 40; children = 41 ∷ 42 ∷ []; else_ = 42; is_constexpr = false }

abbrev body : Walk
body = loop_stmt while_stmt 10 no_text done (
    loop_stmt while_stmt 11 no_text (call 20 2 done) (
      switch_stmt 12 no_text (case_stmt "1" (call 21 2 done) (default_stmt done done)) (
        if_stmt an_if no_text (compound_stmt 41 (call 22 2 done) (compound_stmt 42 done done))
          done)))

-- A lambda with a loop.
abbrev lambda_class : ℕ → Participant
lambda_class id = record (function_participant id) { kind = ParticipantKind.class_ true (id + 1) }

abbrev lambda_with_loop : Walk
lambda_with_loop =
    lambda_expr
      (some record {
        class_model = lambda_class 5;
        class_local_id = 105;
        operator_model = function_participant 6;
        operator_local_id = 106;
        is_lambda_call = false;
      })
      (loop_stmt while_stmt 10 no_text done done) done

abbrev program : Walk
program = decl (visit_decl (declaration 2) done) (
    decl (visit_decl (declaration 1) body)
      (decl (visit_decl (declaration 3) lambda_with_loop) done))

abbrev types_of : Option Visitor → List MessageType
types_of none = []
types_of (some v) = map (λ (m : Message). m.type) (messages_of v.diagram 1)

-- The empty loop is gone, and the other statements are closed.
program_messages :
    types_of (traverse program new_visitor)
    ≡ MessageType.k_while ∷ MessageType.k_call ∷ MessageType.k_while_end ∷ MessageType.k_switch
      ∷ MessageType.k_case ∷ MessageType.k_call ∷ MessageType.k_case ∷ MessageType.k_switch_end
      ∷ MessageType.k_if ∷ MessageType.k_call ∷ MessageType.k_else ∷ MessageType.k_if_end ∷ []
unfolding traverse find update insert clang_uml.Prelude.place search_back ◌is_message◌ is_content
program_messages = refl

program-IsScoped : IsScoped at_top program
program-IsScoped = (
  (refl, (λ _. refl), inl tt),
  (
    (
      refl,
      (λ _. refl),
      inl (tt, ((tt, tt), ((refl, (tt, tt), (refl, tt, tt)), (((tt, tt), (tt, tt)), tt)))),
    ),
    ((refl, (λ _. refl), inr ((λ _. refl), (tt, tt), tt)), tt),
  ),
)

traverse-Emits_example :
    (v' : Visitor) × (traverse program new_visitor ≡ some v') × Emits new_visitor.diagram v'.diagram
unfolding has_ast_context
traverse-Emits_example =
    traverse-Emits program new_visitor program-IsScoped (tt, λ _. tt) (refl, refl)

abbrev all_included : Participant → Bool
all_included _ = true

abbrev all_global : ℕ → Bool
all_global _ = true

traverse-finalize_example :
    (v : Visitor) × (traverse program new_visitor ≡ some v)
    × (v' : Visitor) × (Finalization.finalize all_global false 0 v ≡ some v')
    × (d : Diagram) × (finalize all_included v'.diagram ≡ some d)
    × All (λ entry. All (GoesToIncluded all_included v'.diagram) entry.1.messages) d.activities
traverse-finalize_example = traverse-finalize program all_included all_global 0 program-IsScoped

-- At namespace scope there is no context of the syntax tree for the loop of a lambda.
lambda_outside : traverse (var_decl false lambda_with_loop done) new_visitor ≡ none
unfolding traverse find update insert clang_uml.Prelude.place
lambda_outside = refl

is_defined : Option Visitor → Bool
is_defined none = false
is_defined (some _) = true

lambda_inside :
    is_defined (traverse (decl (visit_decl (declaration 1) lambda_with_loop) done) new_visitor)
    ≡ true
unfolding is_defined traverse find update insert clang_uml.Prelude.place search_back ◌is_message◌
    is_content
lambda_inside = refl
