-- ===== src/SequenceVisitor/Steps/Blocks.antt =====
-- The start of a block statement and its end, behind the traversal of its parts, as one step.
use clang_uml.Prelude.{
  ℕ, Bool, true, false, some, ◌≡◌, refl, sym, ap, ◌∙◌, arith, ◌||◌, ◌==◌, ==_refl, ◌>>=◌,
}
use clang_uml.Enums.{MessageType}
use clang_uml.Sequence.Message.{new_message, set_comment, set_condition_text}
use clang_uml.Sequence.Diagram.{messages_of, add_block_message}
use clang_uml.Sequence.Diagram.Adding.{messages_of-add_message}
use clang_uml.Sequence.Blocks.{is_begin_block_message, is_end_block_message}
use clang_uml.SequenceVisitor.Context.{CallExpressionContext, caller_id}
use clang_uml.SequenceVisitor.Messages.{Visitor, with_diagram}
use clang_uml.SequenceVisitor.Declarations.{with_context}
use clang_uml.SequenceVisitor.Handlers.{StmtText, stmt_message, begin_block, end_block}
use clang_uml.SequenceVisitor.Emits.{add_message-Emits, add_message-Keeps}
use clang_uml.SequenceVisitor.Steps.Ensured.{IsSingleType}
use clang_uml.SequenceVisitor.Emits.Closing.{end_block_message-Emits}
use clang_uml.SequenceVisitor.Walk.{Place}
use clang_uml.SequenceVisitor.Steps.{
  Progress, Step, Progress-trans, Progress-with_diagram, InSwitch, is_nonempty-snoc,
}

or_right : (a : Bool) {x : Bool} → x ≡ true → (a || x) ≡ true
or_right true h = refl
or_right false h = h

module _ (type : MessageType) (caller : ℕ) (text : StmtText) where
  type-stmt_message : (stmt_message type caller text).type ≡ type
  unfolding set_comment set_condition_text
  type-stmt_message = ground arith

  from-stmt_message : (stmt_message type caller text).from ≡ caller
  unfolding set_comment set_condition_text
  from-stmt_message = ground arith

  -- A start that opens no block: `else if`.
  pub begin_single-Step :
      {b : Place} (w : Visitor) → IsSingleType type → Step b w (begin_block type caller text w)
  unfolding begin_block add_block_message
  begin_single-Step w i =
      let m = stmt_message type caller text in
      (
        Progress-with_diagram w _ (add_message-Keeps m w.diagram),
        add_message-Emits m w.diagram (rw type-stmt_message i),
      )

-- The start of a block, and its end behind the traversal of its parts.
module _ (type : MessageType) (text : StmtText) (v : Visitor) where
  abbrev pub begun : CallExpressionContext → Visitor
  begun c = begin_block type (caller_id v.context) text (with_context c v)

  pub context-begun : (c : CallExpressionContext) → (begun c).context ≡ c
  unfolding begin_block
  context-begun c = refl

  pub begun-Progress :
      {b : Place} (c : CallExpressionContext) → Step b v (with_context c v) → Progress b v (begun c)
  unfolding begin_block add_block_message
  begun-Progress c st = Progress-trans st.0 (
      Progress-with_diagram (with_context c v) _
        (add_message-Keeps (stmt_message type (caller_id v.context) text) v.diagram))

  pub begun-InSwitch :
      (b : Place) (c : CallExpressionContext)
      → caller_id c ≡ caller_id v.context
      → InSwitch b (begun c)
  unfolding begin_block add_block_message
  begun-InSwitch b c same _ =
      let caller = caller_id v.context in
      let m = stmt_message type caller text in
      let test : (caller == m.from) ≡ true =
        rw (from-stmt_message type caller text) (==_refl caller) in
      rw (same, messages_of-add_message m v.diagram caller, test)
        (or_right (caller == 0) (is_nonempty-snoc (messages_of v.diagram caller) m))

  pub end_block-Step :
      {b : Place} (end : MessageType) (c : CallExpressionContext) (v' : Visitor)
      → is_begin_block_message type ≡ true
      → is_end_block_message end ≡ true
      → Step b v (with_context c v)
      → Step b (begun c) v'
      → (v'' : Visitor) × (end_block end type (caller_id v.context) v' ≡ some v'')
        × (v''.context ≡ v'.context)
        × Step b v v''
  unfolding begin_block end_block
  end_block-Step end c v' b e st inner =
      let caller = caller_id v.context in
      let m = stmt_message type caller text in
      let (d, ends, emits, keeps) =
        end_block_message-Emits m (new_message end caller) v.diagram v'.diagram
          (rw (type-stmt_message type caller text) b) e (sym (from-stmt_message type caller text))
          inner.1 in
      (
        with_diagram d v',
        ap (λ t. end_block end t caller v') (sym (type-stmt_message type caller text))
            ∙ ap (λ o. o >>= λ x. some (with_diagram x v')) ends,
        refl,
        (
          Progress-trans (begun-Progress c st)
              (Progress-trans inner.0 (Progress-with_diagram v' d keeps)),
          emits,
        ),
      )
