-- ===== src/SequenceVisitor/Steps/Handlers.antt =====
-- Each Traverse handler of a statement is defined and makes a step, if the traversal of its parts does.
use clang_uml.Prelude.{
  ℕ, Bool, true, false, not, ◌&&◌, String, Option, none, some, ◌≡◌, refl, ap, ◌∙◌, if◌then◌else◌,
  ◌==◌, ◌>>=◌, Bool-cases, inl, inr,
}
use clang_uml.Enums.{MessageType}
use clang_uml.Sequence.Message.{Message, new_message, set_message_name}
use clang_uml.Sequence.Diagram.{add_message}
use clang_uml.Sequence.Blocks.{is_begin_block_message, is_end_block_message}
use clang_uml.Sequence.Blocks.Statements.{IsSingle}
use clang_uml.SequenceVisitor.Context.{
  CallExpressionContext, IfStmt, caller_id, is_local_class, current_ifstmt, current_elseifstmt,
  enter_loopstmt, leave_loopstmt, current_trystmt, is_there, has_ast_context,
}
use clang_uml.SequenceVisitor.Messages.{Visitor}
use clang_uml.SequenceVisitor.Declarations.{with_context}
use clang_uml.SequenceVisitor.Handlers.{
  Handler, StmtText, caught_name, with_caught_type, with_ast_context, end_block, add_plain,
  is_else_of, traverse_compound_stmt, traverse_loop, traverse_cxx_catch_stmt,
}
use clang_uml.SequenceVisitor.Emits.{add_message-Emits, add_message-Keeps}
use clang_uml.SequenceVisitor.Walk.{Place}
use clang_uml.SequenceVisitor.Steps.{
  HasContext-caller, IsReady, still-IsReady, Step, Step-trans, Step-with_context,
  Progress-with_diagram, Step-InSwitch, Works,
}
use clang_uml.SequenceVisitor.Steps.Blocks.{begun, begun-Progress, begun-InSwitch, end_block-Step}

pub add_plain-Step : {b : Place} (m : Message) (v : Visitor) → IsSingle m → Step b v (add_plain m v)
unfolding add_plain
add_plain-Step m v i = (
  Progress-with_diagram v (add_message m v.diagram) (add_message-Keeps m v.diagram),
  add_message-Emits m v.diagram i,
)

-- A message in front of the parts, if a condition holds.
pub after_plain-Works :
    {b : Place} (test : Visitor → Bool) (m : Visitor → Message) (base : Handler)
    → ((v : Visitor) → IsSingle (m v))
    → Works b base
    → Works b (λ v. base (if test v then add_plain (m v) v else v))
after_plain-Works {b} test m base i w v p s = go (test v)
  where
    go :
        (t : Bool)
        → (v' : Visitor) × (base (if t then add_plain (m v) v else v) ≡ some v') × Step b v v'
    go false = w v p s
    go true =
        let st = add_plain-Step (m v) v (i v) in
        let (v', e, st') = w (add_plain (m v) v) (still-IsReady st p) (Step-InSwitch st s) in
        (v', e, Step-trans st st')

pub traverse_compound_stmt-Works :
    {b : Place} (stmt : ℕ) (base : Handler)
    → Works b base
    → Works b (traverse_compound_stmt stmt base)
unfolding traverse_compound_stmt is_begin_block_message is_end_block_message
traverse_compound_stmt-Works stmt base =
    after_plain-Works
      (λ v.
        let c = v.context in
        let current : Option IfStmt = elim (current_elseifstmt c) [
          | none ↦ current_ifstmt c
          | some i ↦ some i
        ] in
        is_else_of stmt current && not (caller_id c == 0))
      (λ v. new_message MessageType.k_else (caller_id v.context)) base (λ v. (refl, refl))

with_caught_type_lem :
    (caught : Option String) (v : Visitor) (rest : Option Visitor)
    → has_ast_context v.context ≡ true
    → with_caught_type caught v rest ≡ rest
with_caught_type_lem none v rest h = refl
with_caught_type_lem (some name) v rest h = rw h refl

pub traverse_cxx_catch_stmt-Works :
    {b : Place} (caught : Option String) (base : Handler)
    → Works b base
    → Works b (traverse_cxx_catch_stmt caught base)
unfolding traverse_cxx_catch_stmt is_begin_block_message is_end_block_message
traverse_cxx_catch_stmt-Works {b} caught base w v p s =
    let caller = caller_id v.context in
    let m = set_message_name (caught_name caught) (new_message MessageType.k_catch caller) in
    let shown = not (caller == 0) && is_there (current_trystmt v.context) in
    elim (Bool-cases shown) [
      | inr not_shown ↦ rw not_shown (w v p s)
      | inl is_shown ↦
          let some_caller : (caller == 0) ≡ false =
            left_of (caller == 0) (is_there (current_trystmt v.context)) is_shown in
          let st = add_plain-Step {b = b} m v (refl, refl) in
          let (v', e, st') = w (add_plain m v) (still-IsReady st p) (Step-InSwitch st s) in
          let context = HasContext-caller b.inside v.context p.1 some_caller in
          rw (is_shown, with_caught_type_lem caught v (base (add_plain m v)) context)
            (v', e, Step-trans st st')
    ]
  where
    left_of : (a c : Bool) → (not a && c) ≡ true → a ≡ false
    left_of true c h = absurd cc
    left_of false c h = refl

pub with_test :
    {b : Place} {x y : Option Visitor} (v : Visitor) (test : Bool)
    → ((v' : Visitor) × (x ≡ some v') × Step b v v')
    → ((v' : Visitor) × (y ≡ some v') × Step b v v')
    → (v' : Visitor) × ((if test then x else y) ≡ some v') × Step b v v'
with_test v true hx hy = hx
with_test v false hx hy = hy

-- The parts of a block statement, between its start and its end.
module _ (type : MessageType) (text : StmtText) where
  pub within_block :
      {b : Place} (base : Handler) (v : Visitor) (c : CallExpressionContext)
      → Works b base
      → Step b v (with_context c v)
      → caller_id c ≡ caller_id v.context
      → IsReady b v
      → (v' : Visitor) × (base (begun type text v c) ≡ some v') × Step b (begun type text v c) v'
  within_block {b} base v c w st same p =
      let v₁ = begun type text v c in
      let ready = (begun-Progress type text v c st) in
      w v₁ (ready.pending p.0, ready.contexts p.1) (begun-InSwitch type text v b c same)

-- A handler that forms a reference to the context of the syntax tree for a caller with an id.
pub with_caller :
    {b : Place} {x y : Option Visitor} (v : Visitor)
    → IsReady b v
    → ((v' : Visitor) × (x ≡ some v') × Step b v v')
    → ((v' : Visitor) × (y ≡ some v') × Step b v v')
    → (v' : Visitor) × ((if caller_id v.context == 0 then x else with_ast_context v y) ≡ some v')
      × Step b v v'
with_caller {b} v p hx hy = elim (Bool-cases (caller_id v.context == 0)) [
  | inl zero_caller ↦ rw zero_caller hx
  | inr caller ↦ rw (caller, HasContext-caller b.inside v.context p.1 caller) hy
]

module _ {b : Place} (start end : MessageType) (stmt : ℕ) (text : StmtText) (base : Handler)
    (is_begin : is_begin_block_message start ≡ true) (is_end : is_end_block_message end ≡ true)
    (w : Works b base) where
  loop_block :
      (v : Visitor)
      → IsReady b v
      → (v' : Visitor) × ((do
        x ← base (begun start text v (enter_loopstmt stmt v.context))
        y ← end_block end start (caller_id v.context) x
        some (with_context (leave_loopstmt y.context) y))
          ≡ some v')
        × Step b v v'
  unfolding caller_id is_local_class has_ast_context
  loop_block v p =
      let c = enter_loopstmt stmt v.context in
      let st = Step-with_context {b = b} v c (λ h. h) (λ h. h) (λ h. h) refl (λ h. refl) in
      let (x, e, inner) = within_block start text {b = b} base v c w st refl p in
      let (y, e', same, all) = end_block-Step start text v end c x is_begin is_end st inner in
      (
        with_context (leave_loopstmt y.context) y,
        ap
              (λ o. o >>= λ z. end_block end start (caller_id v.context) z >>= λ z'.
                some (with_context (leave_loopstmt z'.context) z'))
              e
            ∙ ap (λ o. o >>= λ z'. some (with_context (leave_loopstmt z'.context) z')) e',
        Step-trans all (
            Step-with_context y (leave_loopstmt y.context) (λ h. h) (λ h. h) (λ h. h) refl
              (λ h. refl)),
      )

  pub traverse_loop-Works : Works b (traverse_loop start end stmt text base)
  unfolding traverse_loop
  traverse_loop-Works v p s = with_caller v p (w v p s) (loop_block v p)
