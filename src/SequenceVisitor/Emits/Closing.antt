-- ===== src/SequenceVisitor/Emits/Closing.antt =====
-- The end of a block statement, behind what the traversal of its parts has added.
use mathlib.Core.List.{reverse, reverse-append, reverse-reverse}
use clang_uml.Prelude.{
  true, some, List, [], ◌∷◌, ◌++◌, ◌≡◌, refl, sym, ap, ◌∙◌, arith, if◌then◌else◌, ◌==◌, ==_iff,
  ==_refl, Bool-cases, inl, inr, find, find-update, append_assoc, IsUnique-update,
}
use clang_uml.Enums.{is_message_refl}
use clang_uml.Sequence.Message.{Message, Activity}
use clang_uml.Sequence.Diagram.{
  Diagram, messages_of, add_block_message, end_block_message, fold_or_end_block_statement,
  fold_or_end, search_back, empty_after,
}
use clang_uml.Sequence.Diagram.Adding.{
  messages_of-add_message, end_block_message_lem, end_result, found_if_nonempty,
}
use clang_uml.Sequence.Blocks.{is_begin_block_message, is_end_block_message}
use clang_uml.Sequence.Blocks.Statements.{Statements, nil, block, flatten, IsBlocks, has_content}
use clang_uml.SequenceVisitor.Emits.{
  IsFull, Added, Emits, Keeps, Added-same, Added-trans, search_back-flatten,
}

abbrev closed : Message → List Message → Message → Statements → List Message
closed end before m s = if has_content s then (before ++ m ∷ flatten s) ++ end ∷ [] else before

search_back-start :
    (m : Message) (earlier : List Message) → search_back m.type (m ∷ earlier) ≡ empty_after earlier
unfolding search_back
search_back-start m earlier = rw (is_message_refl m.type) refl

fold_or_end-closed :
    (end m : Message) (before : List Message) (s : Statements)
    → is_begin_block_message m.type ≡ true
    → IsBlocks s
    → IsFull s
    → fold_or_end_block_statement end m.type (before ++ m ∷ flatten s)
      ≡ some (closed end before m s)
unfolding fold_or_end_block_statement
fold_or_end-closed end m before s b i f =
    let ms = before ++ m ∷ flatten s in
    ap (λ l. fold_or_end end ms (search_back m.type l))
      (reverse-append before (m ∷ flatten s)
        ∙ ap (λ l. l ++ reverse before) (reverse-append (m ∷ []) (flatten s))
        ∙ append_assoc (reverse (flatten s)) (m ∷ []) (reverse before))
    ∙ ap (fold_or_end end ms) (search_back-flatten m.type s (m ∷ reverse before) b i f)
    ∙ ground (arith, search_back-start m (reverse before), reverse-reverse before)

Added-closed :
    (end m : Message) (before : List Message) (s : Statements)
    → is_begin_block_message m.type ≡ true
    → is_end_block_message end.type ≡ true
    → IsBlocks s
    → IsFull s
    → Added before (closed end before m s)
unfolding flatten
Added-closed end m before s b e i f = elim (Bool-cases (has_content s)) [
  | inl full ↦ rw full (
    block m s end nil,
    append_assoc before (m ∷ flatten s) (end ∷ []),
    (b, i, e, tt),
    (full, f, tt),
  )
  | inr empty ↦ rw empty (Added-same before before refl)
]

-- What is done between the start and the end of a block.
pub end_block_message-Emits :
    (m end : Message) (d d' : Diagram)
    → is_begin_block_message m.type ≡ true
    → is_end_block_message end.type ≡ true
    → end.from ≡ m.from
    → Emits (add_block_message m d) d'
    → (d'' : Diagram) × (end_block_message end m.type d' ≡ some d'') × Emits d d'' × Keeps d' d''
unfolding add_block_message
end_block_message-Emits m end d d' b e from emits =
    let before = messages_of d m.from in
    let (s, added, i, f) = emits m.from in
    let holds : messages_of d' m.from ≡ before ++ m ∷ flatten s =
      added
      ∙ ap (λ l. l ++ flatten s) (messages_of-add_message m d m.from)
      ∙ rw (==_refl m.from) (append_assoc before (m ∷ []) (flatten s)) in
    let (a, found, same) = found_if_nonempty d' m.from before m (flatten s) holds in
    let kept = closed end before m s in
    let folded : fold_or_end_block_statement end m.type a.messages ≡ some kept =
      ap (fold_or_end_block_statement end m.type) same ∙ fold_or_end-closed end m before s b i f in
    let (ends, after) =
      end_block_message_lem end m.type d' a kept (ap (λ k. find k d'.activities) from ∙ found)
        folded in
    (
      end_result end kept d',
      ends,
      λ id. elim (Bool-cases (id == m.from)) [
        | inl at ↦
            let test : (id == end.from) ≡ true = ap (λ k. id == k) from ∙ at in
            let here : messages_of d id ≡ before = ap (messages_of d) ((==_iff id m.from).0 at) in
            let result = messages_of (end_result end kept d') id in
            let there : result ≡ kept = after id ∙ rw test refl in
            Added-trans _ before _ (Added-same _ before (sym here)) (
              Added-trans before kept _ (Added-closed end m before s b e i f)
                (Added-same kept result there))
        | inr other ↦
            let (t, added', j, g) = emits id in
            rw (after id, ap (λ k. id == k) from, other)
              (
                t,
                added' ∙ ap (λ l. l ++ flatten t) (messages_of-add_message m d id) ∙ rw other refl,
                j,
                g,
              )
      ],
      (
        λ id h. ground (
          arith,
          find-update end.from id (λ (x : Activity). record x { messages = kept }) d'.activities,
          h,
        ),
        IsUnique-update end.from (λ (x : Activity). record x { messages = kept }) d'.activities,
      ),
    )
