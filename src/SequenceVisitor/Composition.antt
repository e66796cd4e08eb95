-- ===== src/SequenceVisitor/Composition.antt =====
-- The diagram that the visitor fills, given to `finalize`.
use clang_uml.Prelude.{
  ℕ, suc, ◌+◌, Bool, true, false, ◌&&◌, ◌||◌, some, List, [], ◌∷◌, ◌++◌, ◌≡◌, refl, sym, ap, ◌∙◌,
  arith, erase_if, erase_if-append, Bool-cases, inl, inr, All, All_found, append_assoc, append-nil,
  find, map,
}
use clang_uml.Enums.{MessageType, ◌is_message◌}
use clang_uml.Sequence.Message.{Message, Activity, Participant}
use clang_uml.Sequence.Diagram.{Diagram, messages_of}
use clang_uml.Sequence.Blocks.{
  is_begin_block_message, is_end_block_message, is_excluded_call, finalize,
}
use clang_uml.Sequence.Blocks.Statements.{
  Statements, nil, single, block, flatten, IsBlocks, end_is_not_begin,
}
use clang_uml.Sequence.Blocks.Finalized.{balanced, balanced_cases, balanced_nil}
use clang_uml.Sequence.Blocks.Included.{GoesToIncluded, finalize_lem}
use clang_uml.SequenceVisitor.Context.{new_context, has_ast_context}
use clang_uml.SequenceVisitor.Messages.{Visitor}
use clang_uml.SequenceVisitor.Walk.{Walk, IsScoped, at_top, traverse}
use clang_uml.SequenceVisitor.Emits.{Emits}
use clang_uml.SequenceVisitor.Steps.{IsPending, HasContext}
use clang_uml.SequenceVisitor.Renamed.{
  map_statements, flatten-map_statements, IsBlocks-map_statements, type-resolve_to, type-retarget,
}
use clang_uml.SequenceVisitor.Finalization
use clang_uml.SequenceVisitor.Finalization.{resolve_to, operator_of}
use clang_uml.SequenceVisitor.Finalization.Retargeted.{retarget}
use clang_uml.SequenceVisitor.Finalization.Composed.{finalize-retarget}
use clang_uml.SequenceVisitor.Traversal.{traverse-Works}

-- Whatever calls the traversal of the syntax tree makes of the handlers, if each `case` among them is
-- directly in a `switch`, no declaration is visited directly in a `switch`, each lambda that is shown
-- stands inside of a declaration that gives a context of the syntax tree, no class that takes that context
-- away, being only declared or not included, is visited between the two or in the lambda, the visitor is in
-- no lambda and has no caller without such a context at the start, and the messages that wait at their
-- expressions are calls, returns or other messages that delimit no block, of callers with an activity, then
-- the handlers are defined, and each activity has its old messages followed by block statements that are
-- closed, nested, and hold a call or a return each.
pub traverse-Emits :
    (w : Walk) (v : Visitor)
    → IsScoped at_top w
    → IsPending v
    → HasContext false v.context
    → (v' : Visitor) × (traverse w v ≡ some v') × Emits v.diagram v'.diagram
traverse-Emits w v h p c =
    let (v', e, st) = traverse-Works at_top w h v (p, c) (λ t. absurd cc) in (v', e, st.1)

-- A visitor at the start of a diagram.
abbrev pub new_diagram : Diagram
new_diagram = record { activities = []; participants = []; active_participants = [] }

abbrev pub new_visitor : Visitor
new_visitor = record {
  context = new_context;
  diagram = new_diagram;
  call_expr_message_map = [];
  message_maps = λ _. [];
  id_map = [];
  activity_callers = [];
  within_static_variable_declaration = 0;
}

delimiter_is_no_call :
    (t : MessageType)
    → ((is_begin_block_message t || is_end_block_message t) && t is_message MessageType.k_call)
      ≡ false
unfolding is_begin_block_message is_end_block_message ◌is_message◌
delimiter_is_no_call MessageType.k_call = refl
delimiter_is_no_call _ = refl

module _ (included : Participant → Bool) (d : Diagram) where
  abbrev excluded : Message → Bool
  excluded = is_excluded_call included d

  delimiter_stays :
      (m : Message)
      → (is_begin_block_message m.type || is_end_block_message m.type) ≡ true
      → excluded m ≡ false
  unfolding is_excluded_call
  delimiter_stays m h =
      let no_call : (m.type is_message MessageType.k_call) ≡ false =
        ground (arith, delimiter_is_no_call m.type, h) in
      rw no_call refl

  balanced_single :
      (n : ℕ) (m : Message) (ms : List Message)
      → is_begin_block_message m.type ≡ false
      → is_end_block_message m.type ≡ false
      → balanced n (m ∷ ms) ≡ balanced n ms
  balanced_single n m ms b e = balanced_cases n m ms ∙ rw (b, e) refl

  balanced_end :
      (n : ℕ) (m : Message) (ms : List Message)
      → is_end_block_message m.type ≡ true
      → balanced (suc n) (m ∷ ms) ≡ balanced n ms
  balanced_end n m ms e = balanced_cases (suc n) m ms ∙ rw (end_is_not_begin m.type e, e) refl

  balanced_begin :
      (n : ℕ) (m : Message) (ms : List Message)
      → is_begin_block_message m.type ≡ true
      → balanced n (m ∷ ms) ≡ balanced (suc n) ms
  balanced_begin n m ms b =
      balanced_cases n m ms
      ∙ rw b (ap (λ k. balanced k ms) (let e : n + 1 ≡ suc n = omega arith in e))

  -- Closed block statements stay closed without the calls that are excluded.
  balanced-flatten :
      (s : Statements) (n : ℕ) (more : List Message)
      → IsBlocks s
      → balanced n (erase_if excluded (flatten s) ++ more) ≡ balanced n more
  unfolding flatten
  balanced-flatten nil n more h = refl
  balanced-flatten (single m rest) n more (i, h) = elim (Bool-cases (excluded m)) [
    | inl out ↦ rw out (balanced-flatten rest n more h)
    | inr stays ↦ rw stays (
        balanced_single n m (erase_if excluded (flatten rest) ++ more) i.0 i.1
        ∙ balanced-flatten rest n more h)
  ]
  balanced-flatten (block begin body end rest) n more (b, i, e, h) =
      let stays₁ = delimiter_stays begin (rw b refl) in
      let stays₂ = delimiter_stays end (rw (e, end_is_not_begin end.type e) refl) in
      let inner = erase_if excluded (flatten body) in
      let after = erase_if excluded (flatten rest) in
      rw stays₁ (
        balanced_begin n begin (erase_if excluded (flatten body ++ end ∷ flatten rest) ++ more) b
        ∙ ap (λ l. balanced (suc n) (l ++ more))
            (erase_if-append excluded (flatten body) (end ∷ flatten rest))
        ∙ rw stays₂ (
            ap (balanced (suc n)) (append_assoc inner (end ∷ after) more)
            ∙ balanced-flatten body (suc n) (end ∷ (after ++ more)) i
            ∙ balanced_end n end (after ++ more) e
            ∙ balanced-flatten rest n more h))

  IsBalanced-found :
      (k : ℕ) (a : Activity) (s : Statements)
      → find k d.activities ≡ some a
      → messages_of d k ≡ flatten s
      → IsBlocks s
      → balanced 0 (erase_if excluded a.messages) ≡ true
  IsBalanced-found k a s found e i =
      let same : a.messages ≡ messages_of d k = ground arith in
      ap (λ ms. balanced 0 (erase_if excluded ms)) (same ∙ e)
      ∙ ap (balanced 0) (sym (append-nil (erase_if excluded (flatten s))))
      ∙ balanced-flatten s 0 [] i
      ∙ balanced_nil 0

-- Whatever calls the traversal makes of the handlers of a new visitor, if each `case` among them is
-- directly in a `switch`, no declaration is visited directly in a `switch`, each lambda that is shown
-- stands inside of a declaration that gives a context of the syntax tree, and no class that takes that
-- context away, being only declared or not included, is visited between the two or in the lambda, then the
-- visitor comes to an end, so do its own `finalize`, without inlining, and the `finalize` of the diagram
-- behind it, and every call in the diagram goes to a participant that is there, is not skipped and is
-- included by the filter.
pub traverse-finalize :
    (w : Walk) (included : Participant → Bool) (is_global : ℕ → Bool) (fuel : ℕ)
    → IsScoped at_top w
    → (v : Visitor) × (traverse w new_visitor ≡ some v)
      × (v' : Visitor) × (Finalization.finalize is_global false fuel v ≡ some v')
      × (d : Diagram) × (finalize included v'.diagram ≡ some d)
      × All (λ entry. All (GoesToIncluded included v'.diagram) entry.1.messages) d.activities
unfolding flatten find has_ast_context
traverse-finalize w included is_global fuel h =
    let (v, e, (p, emits)) =
      traverse-Works at_top w h new_visitor ((tt, λ _. tt), (refl, refl)) (λ t. absurd cc) in
    let (v', finished, unique, messages) = finalize-retarget is_global fuel v (p.kept.1 tt) in
    let resolve = resolve_to is_global v.id_map in
    let typed = type-resolve_to is_global v.id_map in
    let to_operator = retarget v.diagram.participants in
    let typed' = type-retarget v.diagram.participants in
    let (d, finalized, goes) = finalize_lem included v'.diagram (
      All_found
        (λ a. balanced 0 (erase_if (is_excluded_call included v'.diagram) a.messages) ≡ true)
        v'.diagram.activities unique
        (λ k a found.
          (let (s, shown, blocks, _) = emits k in
            IsBalanced-found included v'.diagram k a
              (map_statements to_operator typed' (map_statements resolve typed s)) found
              (messages k
                ∙ ap (λ ms. map to_operator (map resolve ms)) shown
                ∙ ap (map to_operator) (flatten-map_statements resolve typed s)
                ∙ flatten-map_statements to_operator typed' (map_statements resolve typed s))
              (IsBlocks-map_statements to_operator typed' (map_statements resolve typed s)
                (IsBlocks-map_statements resolve typed s blocks))))) in
    (v, e, v', finished, d, finalized, goes)
