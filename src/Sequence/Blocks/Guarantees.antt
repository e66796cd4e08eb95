-- ===== src/Sequence/Blocks/Guarantees.antt =====
-- What the removal of empty blocks guarantees.
use clang_uml.Prelude.{
  Bool, true, false, not, Option, none, some, List, [], ◌∷◌, ◌++◌, ◌≡◌, refl, ap, sym, ◌∙◌, arith,
  Bool-cases, inl, inr, ◌>>=◌, All-unit, erase_if, map, erase_if-append,
}
use mathlib.Core.List.{map-append}
use mathlib.Core.Option
use clang_uml.Sequence.Message.{Message, is_content}
use clang_uml.Sequence.Diagram.{Diagram}
use clang_uml.Sequence.Blocks.{is_begin_block_message, with_return_type, remove_empty_blocks}
use clang_uml.Sequence.Blocks.Statements.{
  Statements, nil, single, block, flatten, IsBlocks, has_content, prune, contents, begin_is_empty,
  end_is_empty, contents-flatten, type-with_return_type, prune_idem, IsBlocks-prune,
}
use clang_uml.Sequence.Blocks.Pruning.{remove_empty_blocks-flatten, remove_empty_blocks_open}
use clang_uml.Sequence.Blocks.Finalized.{balanced, outcome}

abbrev pub is_defined {ℓ} : {A : Type ℓ} → Option A → Bool
is_defined none = false
is_defined (some _) = true

-- The removal of empty blocks is defined on exactly the messages in which no block is ended that
-- was not begun; a block may be left open.
pub remove_empty_blocks-is_defined :
    (d : Diagram) (ms : List Message) → is_defined (remove_empty_blocks d ms) ≡ balanced 0 ms
unfolding remove_empty_blocks
remove_empty_blocks-is_defined d ms =
    ground (arith, outcome d (λ _. Unit {0}) (λ m h. h) ms 0 [] [] refl tt tt (All-unit ms))

-- Messages that form a tree of block statements come out as that tree without the blocks that hold
-- no call and no return. If a block is left open behind them, it and what follows is lost.
pub remove_empty_blocks_prunes :
    (d : Diagram) (s t : Statements) (begin : Message)
    → IsBlocks s
    → IsBlocks t
    → is_begin_block_message begin.type ≡ true
    → (remove_empty_blocks d (flatten s) ≡ some (flatten (prune d s)))
      × (remove_empty_blocks d (flatten s ++ begin ∷ flatten t) ≡ some (flatten (prune d s)))
remove_empty_blocks_prunes d s t begin i j b =
    (remove_empty_blocks-flatten d s i, remove_empty_blocks_open d s t begin i j b)

-- On messages that form a tree of block statements a second removal of empty blocks changes nothing.
pub remove_empty_blocks_idem :
    (d : Diagram) (s : Statements)
    → IsBlocks s
    → (remove_empty_blocks d (flatten s) >>= remove_empty_blocks d)
      ≡ remove_empty_blocks d (flatten s)
remove_empty_blocks_idem d s i =
    ap (λ o. o >>= remove_empty_blocks d) (remove_empty_blocks-flatten d s i)
    ∙ remove_empty_blocks-flatten d (prune d s) (IsBlocks-prune d s i)
    ∙ ap (λ t. some (flatten t)) (prune_idem d s)
    ∙ sym (remove_empty_blocks-flatten d s i)

-- The calls and returns among messages, in order.
abbrev pub contents_of : List Message → List Message
contents_of ms = erase_if (λ m. not (is_content m.type)) ms

contents_of-append :
    (xs ys : List Message) → contents_of (xs ++ ys) ≡ contents_of xs ++ contents_of ys
contents_of-append = erase_if-append (λ m. not (is_content m.type))

contents_of_empty : (ms : List Message) → contents ms ≡ false → contents_of ms ≡ []
contents_of_empty [] h = refl
contents_of_empty (m ∷ ms) h = ground (arith, contents_of_empty ms)

contents_of_delimited :
    (begin : Message) (inner : List Message) (end : Message) (after : List Message)
    → is_content begin.type ≡ false
    → is_content end.type ≡ false
    → contents_of (begin ∷ (inner ++ end ∷ after)) ≡ contents_of inner ++ contents_of after
contents_of_delimited begin inner end after b e =
    rw b (contents_of-append inner (end ∷ after) ∙ rw e refl)

module _ (d : Diagram) where
  abbrev typed : List Message → List Message
  typed ms = map (with_return_type d) ms

  contents_of_single :
      (m : Message) (xs ys : List Message)
      → contents_of xs ≡ typed (contents_of ys)
      → contents_of (with_return_type d m ∷ xs) ≡ typed (contents_of (m ∷ ys))
  contents_of_single m xs ys h = ground (arith, ap is_content (type-with_return_type d m))

  contents_of_kept :
      (begin : Message) (body body' : List Message) (end : Message) (rest rest' : List Message)
      → is_content begin.type ≡ false
      → is_content end.type ≡ false
      → contents_of body' ≡ typed (contents_of body)
      → contents_of rest' ≡ typed (contents_of rest)
      → contents_of (begin ∷ (body' ++ end ∷ rest'))
        ≡ typed (contents_of (begin ∷ (body ++ end ∷ rest)))
  contents_of_kept begin body body' end rest rest' b e hb hr =
      contents_of_delimited begin body' end rest' b e
      ∙ rw (hb, hr) (sym (map-append (with_return_type d) (contents_of body) (contents_of rest)))
      ∙ ap typed (sym (contents_of_delimited begin body end rest b e))

  contents_of_dropped :
      (begin : Message) (body : List Message) (end : Message) (rest rest' : List Message)
      → is_content begin.type ≡ false
      → is_content end.type ≡ false
      → contents body ≡ false
      → contents_of rest' ≡ typed (contents_of rest)
      → contents_of rest' ≡ typed (contents_of (begin ∷ (body ++ end ∷ rest)))
  contents_of_dropped begin body end rest rest' b e none_in h =
      h
      ∙ ap (λ l. typed (l ++ contents_of rest)) (sym (contents_of_empty body none_in))
      ∙ ap typed (sym (contents_of_delimited begin body end rest b e))

  contents_of-prune :
      (s : Statements)
      → IsBlocks s
      → contents_of (flatten (prune d s)) ≡ typed (contents_of (flatten s))
  unfolding prune flatten
  contents_of-prune nil h = refl
  contents_of-prune (single m rest) h =
      contents_of_single m _ (flatten rest) (contents_of-prune rest h.1)
  contents_of-prune (block begin body end rest) (b, i, e, r) =
      let eb = begin_is_empty begin.type b in
      let ee = end_is_empty end.type e in
      let in_body = contents_of-prune body i in
      let in_rest = contents_of-prune rest r in
      elim (Bool-cases (has_content body)) [
        | inl full ↦
            rw full
              (contents_of_kept begin (flatten body) _ end (flatten rest) _ eb ee in_body in_rest)
        | inr empty ↦ rw empty (
            contents_of_dropped begin (flatten body) end (flatten rest) _ eb ee
              (contents-flatten body i ∙ empty) in_rest)
      ]

-- Of messages that form a tree of block statements no call and no return is lost, added or moved by
-- the removal of empty blocks; only the return types of calls are filled in.
pub remove_empty_blocks_keeps_contents :
    (d : Diagram) (s : Statements)
    → IsBlocks s
    → Option.map contents_of (remove_empty_blocks d (flatten s))
      ≡ some (map (with_return_type d) (contents_of (flatten s)))
remove_empty_blocks_keeps_contents d s i =
    ap (Option.map contents_of) (remove_empty_blocks-flatten d s i)
    ∙ ap some (contents_of-prune d s i)
