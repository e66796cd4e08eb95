-- ===== src/SequenceVisitor/Steps/MessageTypes.antt =====
-- What is done to a message in the Visit handlers leaves its type.
use clang_uml.Prelude.{
  ℕ, Bool, true, false, String, Option, none, some, List, [], ◌∷◌, ◌≡◌, arith, if◌then◌else◌,
}
use mathlib.Core.Option
use clang_uml.Enums.{MessageType}
use clang_uml.Sequence.Message.{Message, set_comment, method, Participant, set_return_type}
use clang_uml.Sequence.Diagram.{get_participant}
use clang_uml.Sequence.Blocks.Statements.{IsSingle}
use clang_uml.SequenceVisitor.Context.{is_local_class, lambda_caller_id, FunctionDecl}
use clang_uml.SequenceVisitor.Messages.{Visitor}
use clang_uml.SequenceVisitor.Visits.{
  CallSite, with_comment, with_scope, with_name, with_callee, with_found, processed,
  declared_return_type, with_context_return_type,
}
use clang_uml.SequenceVisitor.Steps.Ensured.{IsSingleType}

-- A message of a single type stays one.
abbrev pub IsOf : MessageType → Message → Type 0
IsOf t m = m.type ≡ t

pub IsSingle-of : (t : MessageType) (m : Message) → IsSingleType t → IsOf t m → IsSingle m
IsSingle-of t m i e = rw e i

pub with_comment-IsOf :
    (t : MessageType) (site : CallSite) (m : Message) → IsOf t m → IsOf t (with_comment site m)
unfolding set_comment
with_comment-IsOf t site m e = ground (arith, e)

pub with_scope-IsOf :
    (t : MessageType) (site : CallSite) (m : Message) → IsOf t m → IsOf t (with_scope site m)
with_scope-IsOf t site m e = ground (arith, e)

pub with_name-IsOf :
    (t : MessageType) (site : CallSite) (m : Message) → IsOf t m → IsOf t (with_name site m)
with_name-IsOf t site m e = ground (arith, e)

pub declared_return_type-IsOf :
    (t : MessageType) (decls : List (Option FunctionDecl)) (m : Message)
    → IsOf t m
    → IsOf t (declared_return_type decls m)
declared_return_type-IsOf t [] m e = e
declared_return_type-IsOf t (none ∷ decls) m e = declared_return_type-IsOf t decls m e
declared_return_type-IsOf t (some decl ∷ _) m e = e

pub with_context_return_type-IsOf :
    (t : MessageType) (v : Visitor) (m : Message) → IsOf t m → IsOf t (with_context_return_type v m)
unfolding with_context_return_type
with_context_return_type-IsOf t v m e =
    let c = v.context in
    let decls =
      c.function_decl ∷ c.function_template_decl ∷ c.method_decl ∷ c.objc_method_decl ∷ [] in
    by_lambda (lambda_caller_id c) (is_local_class c) (declared_return_type decls m)
      (declared_return_type-IsOf t decls m e)
  where
    of_model :
        (o : Option Participant)
        → IsOf t (elim o [
          | none ↦ m
          | some p ↦ elim p.kind [ method _ ↦ set_return_type p.return_type m | _ ↦ m ]
        ])
    of_model o = ground (arith, e)

    by_lambda :
        (o : Option ℕ) (local : Bool) (n : Message)
        → IsOf t n
        → IsOf t (elim o [
          | none ↦ n
          | some id ↦ if local then n else elim (get_participant v.diagram id) [
            | none ↦ m
            | some p ↦ elim p.kind [ method _ ↦ set_return_type p.return_type m | _ ↦ m ]
          ]
        ])
    by_lambda none local n k = k
    by_lambda (some id) true n k = k
    by_lambda (some id) false n k = of_model (get_participant v.diagram id)

pub processed-IsOf :
    (t : MessageType) (site : CallSite) (m n : Message)
    → IsOf t m
    → processed site m ≡ some n
    → IsOf t n
processed-IsOf t site m n e h = ground (arith, e, h, with_scope-IsOf t site m e)

pub with_found-IsOf :
    (t : MessageType) (o : Option (ℕ × String × String)) (m : Message)
    → IsOf t m
    → IsOf t (with_found o m)
with_found-IsOf t none m e = e
with_found-IsOf t (some callee) m e = e

pub found-IsOf :
    (t : MessageType) (o : Option (ℕ × String × String)) (m n : Message)
    → IsOf t m
    → Option.map (λ callee. with_callee callee m) o ≡ some n
    → IsOf t n
found-IsOf t o m n e h = ground (arith, e, h)
