-- ===== src/SequenceVisitor/Renamed.antt =====
-- The messages of block statements with other targets and names.
use clang_uml.Prelude.{
  ℕ, Bool, List, [], ◌∷◌, ◌++◌, ◌≡◌, refl, ap, ◌∙◌, arith, inl, inr, map, Option-cases,
}
use clang_uml.Sequence.Message.{Message, Participant}
use clang_uml.Sequence.Blocks.{is_begin_block_message, is_end_block_message}
use clang_uml.Sequence.Blocks.Statements.{Statements, nil, single, block, flatten, IsBlocks}
use clang_uml.Eid.{Eid}
use clang_uml.SequenceVisitor.Finalization.{resolve_to, operator_of}
use clang_uml.SequenceVisitor.Finalization.Retargeted.{retarget}

-- Messages that are changed in their targets and names alone stay block statements.
module _ (f : Message → Message) (typed : (m : Message) → (f m).type ≡ m.type) where
  abbrev pub map_statements : Statements → Statements
  map_statements nil = nil
  map_statements (single m rest) = single (f m) (map_statements rest)
  map_statements (block begin body end rest) =
      block (f begin) (map_statements body) (f end) (map_statements rest)

  map-append : (xs ys : List Message) → map f (xs ++ ys) ≡ map f xs ++ map f ys
  map-append [] ys = refl
  map-append (x ∷ xs) ys = ap (λ l. f x ∷ l) (map-append xs ys)

  pub flatten-map_statements : (s : Statements) → map f (flatten s) ≡ flatten (map_statements s)
  unfolding flatten
  flatten-map_statements nil = refl
  flatten-map_statements (single m rest) = ap (λ l. f m ∷ l) (flatten-map_statements rest)
  flatten-map_statements (block begin body end rest) =
      ap (λ l. f begin ∷ l)
        (map-append (flatten body) (end ∷ flatten rest)
          ∙ ap (λ l. l ++ f end ∷ map f (flatten rest)) (flatten-map_statements body)
          ∙ ap (λ l. flatten (map_statements body) ++ f end ∷ l) (flatten-map_statements rest))

  pub IsBlocks-map_statements : (s : Statements) → IsBlocks s → IsBlocks (map_statements s)
  IsBlocks-map_statements nil h = tt
  IsBlocks-map_statements (single m rest) (i, h) = (
    (ap is_begin_block_message (typed m) ∙ i.0, ap is_end_block_message (typed m) ∙ i.1),
    IsBlocks-map_statements rest h,
  )
  IsBlocks-map_statements (block begin body end rest) (b, i, e, h) = (
    ap is_begin_block_message (typed begin) ∙ b,
    IsBlocks-map_statements body i,
    ap is_end_block_message (typed end) ∙ e,
    IsBlocks-map_statements rest h,
  )

pub type-resolve_to :
    (is_global : ℕ → Bool) (id_map : List (ℕ × Eid)) (m : Message)
    → (resolve_to is_global id_map m).type ≡ m.type
unfolding resolve_to
type-resolve_to is_global id_map m = ground arith

pub type-retarget : (ps : List (ℕ × Participant)) (m : Message) → (retarget ps m).type ≡ m.type
type-retarget ps m = elim (Option-cases (operator_of ps m.to)) [
  | inl e ↦ rw (retarget, e) refl
  | inr (op, e) ↦ rw (retarget, e) refl
]
