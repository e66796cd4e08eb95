-- ===== src/Sequence/Blocks/Statements.antt =====
-- The specification of `finalize`: a sequence of messages as a tree of block statements.
use clang_uml.Prelude.{
  Bool, true, false, ◌&&◌, ◌||◌, List, [], ◌∷◌, ◌++◌, ◌≡◌, refl, arith, if◌then◌else◌, any_of,
  any_of-append, Bool-cases, inl, inr,
}
use clang_uml.Enums.{MessageType}
use clang_uml.Sequence.Message.{Message, is_content}
use clang_uml.Sequence.Diagram.{Diagram}
use clang_uml.Sequence.Blocks.{is_begin_block_message, is_end_block_message, with_return_type}

pub data Statements : Type 0 where
  nil : Statements
  single : Message → Statements → Statements
  block : (begin : Message) (body : Statements) (end : Message) → Statements → Statements

unfoldable pub flatten : Statements → List Message
flatten nil = []
flatten (single m rest) = m ∷ flatten rest
flatten (block begin body end rest) = begin ∷ (flatten body ++ end ∷ flatten rest)

abbrev pub IsSingle : Message → Type 0
IsSingle m = (is_begin_block_message m.type ≡ false) × (is_end_block_message m.type ≡ false)

-- Blocks are delimited by begin and end messages, and nothing else is one.
abbrev pub IsBlocks : Statements → Type 0
IsBlocks nil = Unit
IsBlocks (single m rest) = IsSingle m × IsBlocks rest
IsBlocks (block begin body end rest) =
    (is_begin_block_message begin.type ≡ true)
    × IsBlocks body
    × (is_end_block_message end.type ≡ true)
    × IsBlocks rest

-- A call or a return stands in the statements, at any depth.
unfoldable pub has_content : Statements → Bool
has_content nil = false
has_content (single m rest) = is_content m.type || has_content rest
has_content (block begin body end rest) = has_content body || has_content rest

-- What is left when all blocks with no content are taken out.
unfoldable pub prune : Diagram → Statements → Statements
unfolding has_content
prune d nil = nil
prune d (single m rest) = single (with_return_type d m) (prune d rest)
prune d (block begin body end rest) =
    let body' = prune d body in
    let rest' = prune d rest in if has_content body then block begin body' end rest' else rest'

abbrev pub contents : List Message → Bool
contents ms = any_of (λ m. is_content m.type) ms

-- The delimiters of blocks are no content.
delimiter_is_empty :
    (t : MessageType)
    → ((is_begin_block_message t || is_end_block_message t) && is_content t) ≡ false
unfolding is_begin_block_message is_end_block_message is_content
delimiter_is_empty MessageType.k_call = refl
delimiter_is_empty _ = refl

end_is_no_begin : (t : MessageType) → (is_begin_block_message t && is_end_block_message t) ≡ false
unfolding is_begin_block_message is_end_block_message
end_is_no_begin MessageType.k_call = refl
end_is_no_begin _ = refl

pub begin_is_empty : (t : MessageType) → is_begin_block_message t ≡ true → is_content t ≡ false
begin_is_empty t h = ground (arith, delimiter_is_empty t)

pub end_is_empty : (t : MessageType) → is_end_block_message t ≡ true → is_content t ≡ false
end_is_empty t h = ground (arith, delimiter_is_empty t)

pub end_is_not_begin :
    (t : MessageType) → is_end_block_message t ≡ true → is_begin_block_message t ≡ false
end_is_not_begin t h = ground (arith, end_is_no_begin t)

pub type-with_return_type : (d : Diagram) (m : Message) → (with_return_type d m).type ≡ m.type
unfolding with_return_type
type-with_return_type d m = ground arith

pub to-with_return_type : (d : Diagram) (m : Message) → (with_return_type d m).to ≡ m.to
unfolding with_return_type
to-with_return_type d m = ground arith

with_return_type_idem :
    (d : Diagram) (m : Message) → with_return_type d (with_return_type d m) ≡ with_return_type d m
unfolding with_return_type
with_return_type_idem d m = ground arith

-- The messages hold a call or a return exactly if the statements do.
pub contents-flatten : (s : Statements) → IsBlocks s → contents (flatten s) ≡ has_content s
unfolding flatten has_content
contents-flatten nil h = refl
contents-flatten (single m rest) h = ground (arith, contents-flatten rest h.1)
contents-flatten (block begin body end rest) (b, i, e, r) = ground (
  arith,
  begin_is_empty begin.type b,
  end_is_empty end.type e,
  any_of-append (λ (m : Message). is_content m.type) (flatten body) (end ∷ flatten rest),
  contents-flatten body i,
  contents-flatten rest r,
)

pub has_content-prune : (d : Diagram) (s : Statements) → has_content (prune d s) ≡ has_content s
unfolding prune
has_content-prune d nil = refl
has_content-prune d (single m rest) =
    ground (arith, type-with_return_type d m, has_content-prune d rest)
has_content-prune d (block begin body end rest) =
    ground (arith, has_content-prune d body, has_content-prune d rest)

pub IsBlocks-prune : (d : Diagram) (s : Statements) → IsBlocks s → IsBlocks (prune d s)
unfolding prune
IsBlocks-prune d nil h = tt
IsBlocks-prune d (single m rest) h = (
  (rw (type-with_return_type d m) h.0.0, rw (type-with_return_type d m) h.0.1),
  IsBlocks-prune d rest h.1,
)
IsBlocks-prune d (block begin body end rest) (b, i, e, r) = elim (Bool-cases (has_content body)) [
  | inl full ↦ rw full (b, IsBlocks-prune d body i, e, IsBlocks-prune d rest r)
  | inr empty ↦ rw empty (IsBlocks-prune d rest r)
]

pub prune_idem : (d : Diagram) (s : Statements) → prune d (prune d s) ≡ prune d s
unfolding prune
prune_idem d nil = refl
prune_idem d (single m rest) = ground (arith, with_return_type_idem d m, prune_idem d rest)
prune_idem d (block begin body end rest) = elim (Bool-cases (has_content body)) [
  | inl full ↦
      rw full
        (rw (has_content-prune d body, full) (ground (arith, prune_idem d body, prune_idem d rest)))
  | inr empty ↦ rw empty (prune_idem d rest)
]
