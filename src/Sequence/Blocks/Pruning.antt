-- ===== src/Sequence/Blocks/Pruning.antt =====
-- The loop of `finalize` over the messages prunes their tree of block statements.
use clang_uml.Prelude.{
  ℕ, zero, suc, ◌+◌, ◌-◌, true, none, some, List, [], ◌∷◌, ◌++◌, ◌≡◌, refl, ap, sym, ◌∙◌, arith,
  if◌then◌else◌, any_of-append, append_assoc, append-nil, Bool-cases, inl, inr, length, ltb, ◌>>=◌,
}
use clang_uml.Sequence.Message.{Message, is_content}
use clang_uml.Sequence.Diagram.{Diagram}
use clang_uml.Sequence.Blocks.{
  is_begin_block_message, is_end_block_message, with_return_type, BlockState, append_at, end_block,
  block_step, block_steps, no_blocks, remove_empty_blocks, bottom,
}
use clang_uml.Sequence.Blocks.Statements.{
  Statements, nil, single, block, flatten, IsSingle, IsBlocks, has_content, prune, contents,
  begin_is_empty, end_is_empty, end_is_not_begin, contents-flatten, has_content-prune,
  IsBlocks-prune,
}

abbrev pub at_level : ℕ → List Message → List (List Message) → BlockState
at_level level back below = record { nest_level = level; stack = back ∷ below }

module _ (d : Diagram) where
  pub step_begin :
      (s : BlockState) (m : Message)
      → is_begin_block_message m.type ≡ true
      → block_step d s m
        ≡ some (record { nest_level = s.nest_level + 1; stack = (m ∷ []) ∷ s.stack })
  unfolding block_step
  step_begin s m h = rw h

  pub step_single :
      (level : ℕ) (back : List Message) (below : List (List Message)) (m : Message)
      → IsSingle m
      → block_step d (record { nest_level = level; stack = back ∷ below }) m
        ≡ some (record { nest_level = level; stack = (back ++ with_return_type d m ∷ []) ∷ below })
  unfolding block_step
  step_single level back below m h = rw (h.0, h.1)

append_at_below :
    (level : ℕ) (more inner back : List Message) (below : List (List Message))
    → length below ≡ level
    → append_at level more (inner ∷ back ∷ below) ≡ some (inner ∷ (back ++ more) ∷ below)
unfolding append_at
append_at_below level more inner back below h =
    let one : suc (suc (length below)) - 1 - level ≡ 1 = omega arith in
    let room : ltb level (suc (suc (length below))) ≡ true = ground arith in rw (room, one) refl

end_block_lem :
    (n level : ℕ) (inner back : List Message) (below : List (List Message))
    → n ≡ suc level
    → length below ≡ level
    → end_block n inner (back ∷ below)
      ≡ some (record {
        nest_level = level;
        stack = (if contents inner then back ++ inner else back) ∷ below;
      })
unfolding end_block
end_block_lem zero level inner back below e h = absurd (omega arith)
end_block_lem (suc k) level inner back below e h =
    let same : k ≡ level = omega arith in
    rw same (elim (Bool-cases (contents inner)) [
      | inl full ↦ rw full (rw (append_at_below level inner inner back below h) refl)
      | inr empty ↦ rw empty refl
    ])

module _ (d : Diagram) where
  pub step_end :
      (n level : ℕ) (inner back : List Message) (below : List (List Message)) (m : Message)
      → n ≡ suc level
      → length below ≡ level
      → is_end_block_message m.type ≡ true
      → block_step d (record { nest_level = n; stack = inner ∷ back ∷ below }) m
        ≡ some (record {
          nest_level = level;
          stack = (if contents (inner ++ m ∷ []) then back ++ (inner ++ m ∷ []) else back) ∷ below;
        })
  unfolding block_step
  step_end n level inner back below m e h is_end =
      rw (end_is_not_begin m.type is_end, is_end)
        (end_block_lem n level (inner ++ m ∷ []) back below e h)

  pub steps_after :
      (s s' : BlockState) (m : Message) (ms : List Message)
      → block_step d s m ≡ some s'
      → block_steps d s (m ∷ ms) ≡ block_steps d s' ms
  unfolding block_steps
  steps_after s s' m ms h = rw h refl

  -- A closed block holds content exactly if its body does.
  contents_of_block :
      (begin : Message) (body : Statements) (end : Message)
      → is_begin_block_message begin.type ≡ true
      → IsBlocks body
      → is_end_block_message end.type ≡ true
      → contents ((begin ∷ flatten (prune d body)) ++ end ∷ []) ≡ has_content body
  contents_of_block begin body end b i e = ground (
    arith,
    begin_is_empty begin.type b,
    end_is_empty end.type e,
    any_of-append (λ (m : Message). is_content m.type) (flatten (prune d body)) (end ∷ []),
    contents-flatten (prune d body) (IsBlocks-prune d body i),
    has_content-prune d body,
  )

  after_block :
      (back : List Message) (begin : Message) (body : Statements) (end : Message)
      (rest : Statements)
      → is_begin_block_message begin.type ≡ true
      → IsBlocks body
      → is_end_block_message end.type ≡ true
      → (if contents ((begin ∷ flatten (prune d body)) ++ end ∷ [])
            then back ++ ((begin ∷ flatten (prune d body)) ++ end ∷ [])
            else back)
          ++ flatten (prune d rest)
        ≡ back ++ flatten (prune d (block begin body end rest))
  unfolding flatten prune
  after_block back begin body end rest b i e = elim (Bool-cases (has_content body)) [
    | inl full ↦
        rw (contents_of_block begin body end b i e, full)
          (append_assoc back ((begin ∷ flatten (prune d body)) ++ end ∷ []) (flatten (prune d rest))
            ∙ ap (λ l. back ++ begin ∷ l)
                (append_assoc (flatten (prune d body)) (end ∷ []) (flatten (prune d rest))))
    | inr empty ↦ rw (contents_of_block begin body end b i e, empty) refl
  ]

  -- The messages of a tree of statements leave, on the block that is open, those of the pruned tree.
  block_steps-flatten :
      (s : Statements) (level : ℕ) (back : List Message) (below : List (List Message))
      (ms : List Message)
      → IsBlocks s
      → length below ≡ level
      → block_steps d (at_level level back below) (flatten s ++ ms)
        ≡ block_steps d (at_level level (back ++ flatten (prune d s)) below) ms
  unfolding flatten prune
  block_steps-flatten nil level back below ms i h = rw (append-nil back) refl
  block_steps-flatten (single m rest) level back below ms i h =
      steps_after _ _ m (flatten rest ++ ms) (step_single d level back below m i.0)
      ∙ block_steps-flatten rest level (back ++ with_return_type d m ∷ []) below ms i.1 h
      ∙ ap (λ l. block_steps d (at_level level l below) ms)
          (append_assoc back (with_return_type d m ∷ []) (flatten (prune d rest)))
  block_steps-flatten (block begin body end rest) level back below ms (b, i, e, r) h =
      ap (λ l. block_steps d (at_level level back below) (begin ∷ l))
        (append_assoc (flatten body) (end ∷ flatten rest) ms)
      ∙ steps_after _ _ begin _ (step_begin d (at_level level back below) begin b)
      ∙ block_steps-flatten body (level + 1) (begin ∷ []) (back ∷ below) (end ∷ flatten rest ++ ms)
          i (omega arith)
      ∙ steps_after _ _ end _ (
          step_end (level + 1) level (begin ∷ flatten (prune d body)) back below end (omega arith) h
            e)
      ∙ block_steps-flatten rest level _ below ms r h
      ∙ ap (λ l. block_steps d (at_level level l below) ms)
          (after_block back begin body end rest b i e)

pub steps_nil : (d : Diagram) (s : BlockState) → block_steps d s [] ≡ some s
unfolding block_steps
steps_nil d s = refl

-- The whole activity: a tree of statements comes out pruned.
pub remove_empty_blocks-flatten :
    (d : Diagram) (s : Statements)
    → IsBlocks s
    → remove_empty_blocks d (flatten s) ≡ some (flatten (prune d s))
unfolding remove_empty_blocks
remove_empty_blocks-flatten d s i =
    ap (λ l. block_steps d no_blocks l >>= λ t. bottom t.stack) (sym (append-nil (flatten s)))
    ∙ ap (λ o. o >>= λ t. bottom t.stack) (block_steps-flatten d s 0 [] [] [] i refl)
    ∙ ap (λ o. o >>= λ t. bottom t.stack) (steps_nil d (at_level 0 (flatten (prune d s)) []))

-- Messages of a block that is never ended are lost: only those in front of it come out.
pub remove_empty_blocks_open :
    (d : Diagram) (s t : Statements) (begin : Message)
    → IsBlocks s
    → IsBlocks t
    → is_begin_block_message begin.type ≡ true
    → remove_empty_blocks d (flatten s ++ begin ∷ flatten t) ≡ some (flatten (prune d s))
unfolding remove_empty_blocks
remove_empty_blocks_open d s t begin i j b =
    ap (λ o. o >>= λ t. bottom t.stack)
      (block_steps-flatten d s 0 [] [] (begin ∷ flatten t) i refl
        ∙ steps_after d (at_level 0 (flatten (prune d s)) []) _ begin (flatten t)
            (step_begin d (at_level 0 (flatten (prune d s)) []) begin b)
        ∙ ap (block_steps d _) (sym (append-nil (flatten t)))
        ∙ block_steps-flatten d t 1 (begin ∷ []) (flatten (prune d s) ∷ []) [] j refl
        ∙ steps_nil d _)

pub step_end_below :
    (d : Diagram) (back : List Message) (m : Message)
    → is_end_block_message m.type ≡ true
    → block_step d (record { nest_level = 0; stack = back ∷ [] }) m ≡ none
unfolding block_step end_block
step_end_below d back m e = rw (end_is_not_begin m.type e, e) refl

pub steps_fault :
    (d : Diagram) (s : BlockState) (m : Message) (ms : List Message)
    → block_step d s m ≡ none
    → block_steps d s (m ∷ ms) ≡ none
unfolding block_steps
steps_fault d s m ms h = rw h refl

-- An end message with no block open is a fault, whatever follows it.
pub remove_empty_blocks_unopened :
    (d : Diagram) (s : Statements) (end : Message) (ms : List Message)
    → IsBlocks s
    → is_end_block_message end.type ≡ true
    → remove_empty_blocks d (flatten s ++ end ∷ ms) ≡ none
unfolding remove_empty_blocks
remove_empty_blocks_unopened d s end ms i e =
    ap (λ o. o >>= λ t. bottom t.stack)
      (block_steps-flatten d s 0 [] [] (end ∷ ms) i refl
        ∙ steps_fault d (at_level 0 (flatten (prune d s)) []) end ms
            (step_end_below d (flatten (prune d s)) end e))
