-- ===== src/SequenceVisitor/Traversal.antt =====
-- The traversal of any walk whose `case` statements stand in a `switch`.
use clang_uml.Prelude.{ℕ, true, false, some, ◌≡◌, refl, sym, ◌∙◌, inl, inr}
use clang_uml.SequenceVisitor.Messages.{Visitor}
use clang_uml.SequenceVisitor.Handlers.{Handler}
use clang_uml.SequenceVisitor.Walk.{
  Walk, done, visit_decl, visit_site, decl, lambda_expr, var_decl, expr, compound_stmt, if_stmt,
  loop_stmt, while_stmt, do_stmt, for_stmt, cxx_for_range_stmt, cxx_try_stmt, cxx_catch_stmt,
  switch_stmt, case_stmt, default_stmt, conditional_operator, LoopStmt, traverse_loop_stmt,
  traverse, IsScoped, Place, out_of_switch, within_switch, from_inside, keeps_context,
  gives_context, visit_expr, traverse_decl, traverse_lambda_expr, traverse_var_decl, traverse_expr,
}
use clang_uml.SequenceVisitor.Handlers.{
  StmtText, traverse_compound_stmt, traverse_if_stmt, traverse_while_stmt, traverse_do_stmt,
  traverse_for_stmt, traverse_cxx_for_range_stmt, traverse_cxx_try_stmt, traverse_cxx_catch_stmt,
  traverse_switch_stmt, traverse_case_stmt, traverse_default_stmt, traverse_conditional_operator,
}
use clang_uml.SequenceVisitor.Declarations.{Declaration, visit_declaration}
use clang_uml.SequenceVisitor.Steps.{
  IsReady, still-IsReady, upgraded-Step, Step, Step-trans, Step-refl, InSwitch, Step-InSwitch,
  Works, Works-seq,
}
use clang_uml.SequenceVisitor.Steps.Visits.{visit_expr-Step}
use clang_uml.SequenceVisitor.Steps.Declarations.{
  visit_declaration-Step, HasContext-visit_declaration,
}
use clang_uml.SequenceVisitor.Steps.Handlers.{
  traverse_compound_stmt-Works, traverse_cxx_catch_stmt-Works, traverse_loop-Works,
}
use clang_uml.SequenceVisitor.Steps.TrySwitch.{
  traverse_cxx_try_stmt-Works, traverse_switch_stmt-Works,
}
use clang_uml.SequenceVisitor.Steps.Ifs.{
  traverse_if_stmt-Works, traverse_conditional_operator-Works,
}
use clang_uml.SequenceVisitor.Steps.Expressions.{
  traverse_expr-Works, traverse_decl-Works, traverse_lambda_expr-Works, traverse_var_decl-Works,
}
use clang_uml.SequenceVisitor.Steps.Cases.{traverse_case_stmt-Works, traverse_default_stmt-Works}
use clang_uml.Sequence.Blocks.{is_begin_block_message, is_end_block_message}

traverse_loop_stmt-Works :
    {b : Place} (kind : LoopStmt) (stmt : ℕ) (text : StmtText) (base : Handler)
    → Works b base
    → Works b (traverse_loop_stmt kind stmt text base)
unfolding traverse_loop_stmt traverse_while_stmt traverse_do_stmt traverse_for_stmt
    traverse_cxx_for_range_stmt is_begin_block_message is_end_block_message
traverse_loop_stmt-Works while_stmt stmt text base =
    traverse_loop-Works _ _ stmt text base refl refl
traverse_loop_stmt-Works do_stmt stmt text base = traverse_loop-Works _ _ stmt text base refl refl
traverse_loop_stmt-Works for_stmt stmt text base = traverse_loop-Works _ _ stmt text base refl refl
traverse_loop_stmt-Works cxx_for_range_stmt stmt text base =
    traverse_loop-Works _ _ stmt text base refl refl

-- A step in front of a handler.
after-Step :
    {b : Place} (h : Handler) (v w : Visitor)
    → Step b v w
    → IsReady b v
    → InSwitch b v
    → Works b h
    → (v' : Visitor) × (h w ≡ some v') × Step b v v'
after-Step h v w st p s works =
    let (v', e, st') = works w (still-IsReady st p) (Step-InSwitch st s) in
    (v', e, Step-trans st st')

-- A declaration that gives a context in front of a handler.
after_visit_decl :
    {b : Place} (d : Declaration) (h : Handler) (v : Visitor)
    → b.in_switch ≡ false
    → (b.inside ≡ true → keeps_context d.kind ≡ true)
    → IsReady b v
    → Works (from_inside (gives_context d.kind) b) h
    → (v' : Visitor) × (h (visit_declaration d v) ≡ some v') × Step b v v'
after_visit_decl {b} d h v outside keeps p works =
    let st = visit_declaration-Step {b = b} d v outside keeps in
    let ready = still-IsReady st p in
    let given = HasContext-visit_declaration b.inside d v ready.1 in
    let (v', e, st') =
      works (visit_declaration d v) (ready.0, given)
        (λ t. (let clash : true ≡ false = sym t ∙ outside in absurd cc)) in
    (v', e, Step-trans st (upgraded-Step (gives_context d.kind) st' ready.1 given))

pub traverse-Works : (b : Place) (w : Walk) → IsScoped b w → Works b (traverse w)
unfolding traverse
traverse-Works b done h = λ v p s. (v, refl, Step-refl v)
traverse-Works b (visit_decl d rest) (outside, keeps, inl h) = λ v p s.
    after-Step (traverse rest) v (visit_declaration d v) (visit_declaration-Step d v outside keeps)
      p s (traverse-Works b rest h)
traverse-Works b (visit_decl d rest) (outside, keeps, inr h) = λ v p s.
    after_visit_decl d (traverse rest) v outside keeps p
      (traverse-Works (from_inside (gives_context d.kind) b) rest h)
traverse-Works b (visit_site kind site rest) h = λ v p s.
    after-Step (traverse rest) v (visit_expr kind site v) (visit_expr-Step kind site v p.0) p s
      (traverse-Works b rest h)
traverse-Works b (decl parts rest) (i, h) =
    Works-seq (traverse_decl (traverse parts)) (traverse rest)
      (traverse_decl-Works (traverse parts) (traverse-Works (out_of_switch b) parts i))
      (traverse-Works b rest h)
traverse-Works b (lambda_expr model parts rest) (inside, i, h) =
    Works-seq (traverse_lambda_expr model (traverse parts)) (traverse rest)
      (traverse_lambda_expr-Works model (traverse parts) inside
        (traverse-Works (out_of_switch b) parts i))
      (traverse-Works b rest h)
traverse-Works b (var_decl static parts rest) (i, h) =
    Works-seq (traverse_var_decl static (traverse parts)) (traverse rest)
      (traverse_var_decl-Works static (traverse parts) (traverse-Works b parts i))
      (traverse-Works b rest h)
traverse-Works b (expr kind e parts rest) (i, h) =
    Works-seq (traverse_expr kind e (traverse parts)) (traverse rest)
      (traverse_expr-Works kind e (traverse parts) (traverse-Works b parts i))
      (traverse-Works b rest h)
traverse-Works b (compound_stmt stmt parts rest) (i, h) =
    Works-seq (traverse_compound_stmt stmt (traverse parts)) (traverse rest)
      (traverse_compound_stmt-Works stmt (traverse parts) (traverse-Works b parts i))
      (traverse-Works b rest h)
traverse-Works b (if_stmt stmt text parts rest) (i, h) =
    Works-seq (traverse_if_stmt stmt text (traverse parts)) (traverse rest)
      (traverse_if_stmt-Works stmt text (traverse parts) (traverse-Works b parts i))
      (traverse-Works b rest h)
traverse-Works b (loop_stmt kind stmt text parts rest) (i, h) =
    Works-seq (traverse_loop_stmt kind stmt text (traverse parts)) (traverse rest)
      (traverse_loop_stmt-Works kind stmt text (traverse parts) (traverse-Works b parts i))
      (traverse-Works b rest h)
traverse-Works b (cxx_try_stmt stmt text parts rest) (i, h) =
    Works-seq (traverse_cxx_try_stmt stmt text (traverse parts)) (traverse rest)
      (traverse_cxx_try_stmt-Works stmt text (traverse parts) (traverse-Works b parts i))
      (traverse-Works b rest h)
traverse-Works b (cxx_catch_stmt caught parts rest) (i, h) =
    Works-seq (traverse_cxx_catch_stmt caught (traverse parts)) (traverse rest)
      (traverse_cxx_catch_stmt-Works caught (traverse parts) (traverse-Works b parts i))
      (traverse-Works b rest h)
traverse-Works b (switch_stmt stmt text parts rest) (i, h) =
    Works-seq (traverse_switch_stmt stmt text (traverse parts)) (traverse rest)
      (traverse_switch_stmt-Works stmt text (traverse parts)
        (traverse-Works (within_switch b) parts i))
      (traverse-Works b rest h)
traverse-Works b (case_stmt name parts rest) (t, i, h) =
    Works-seq (traverse_case_stmt name (traverse parts)) (traverse rest)
      (traverse_case_stmt-Works name (traverse parts) t (traverse-Works b parts i))
      (traverse-Works b rest h)
traverse-Works b (default_stmt parts rest) (t, i, h) =
    Works-seq (traverse_default_stmt (traverse parts)) (traverse rest)
      (traverse_default_stmt-Works (traverse parts) t (traverse-Works b parts i))
      (traverse-Works b rest h)
traverse-Works b (conditional_operator stmt text cond true_expr false_expr rest) (i, j, k, h) =
    Works-seq
      (traverse_conditional_operator stmt text (traverse cond) (traverse true_expr)
        (traverse false_expr))
      (traverse rest)
      (traverse_conditional_operator-Works stmt text (traverse cond) (traverse true_expr)
        (traverse false_expr) (traverse-Works b cond i) (traverse-Works b true_expr j)
        (traverse-Works b false_expr k))
      (traverse-Works b rest h)
