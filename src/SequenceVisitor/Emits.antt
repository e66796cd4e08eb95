-- ===== src/SequenceVisitor/Emits.antt =====
-- What a part of the traversal adds to the activities: block statements that are closed and not empty.
pub mod Closing
use mathlib.Core.List.{reverse, reverse-append}
use clang_uml.Prelude.{
  ℕ, Bool, true, false, not, ◌&&◌, ◌||◌, Option, none, some, List, [], ◌∷◌, ◌++◌, ◌≡◌, refl, sym,
  ap, ◌∙◌, arith, if◌then◌else◌, ◌==◌, ==_iff, ==_refl, Bool-cases, inl, inr, find, find-insert,
  append_assoc, append-nil, contains, insert, update, IsUnique, IsUnique-insert, IsUnique-update,
}
use clang_uml.Enums.{MessageType, message_value, ◌is_message◌, is_message_refl}
use clang_uml.Sequence.Message.{
  Message, is_content, new_activity, add_caller, add_message as append_message,
}
use clang_uml.Sequence.Diagram.{
  Diagram, messages_of, has_activity, add_message, add_block_message, end_block_message,
  fold_or_end_block_statement, fold_or_end, search_back, empty_after, nonempty, Search,
}
use clang_uml.Sequence.Diagram.Adding.{
  messages_of-add_message, find-add_message, find-opened, end_block_message_lem, end_result,
  found_if_nonempty,
}
use clang_uml.Sequence.Blocks.{is_begin_block_message, is_end_block_message}
use clang_uml.Sequence.Blocks.Statements.{
  Statements, nil, single, block, flatten, IsBlocks, IsSingle, has_content, begin_is_empty,
  end_is_empty, end_is_not_begin,
}

-- Every block holds a call or a return.
abbrev pub IsFull : Statements → Type 0
IsFull nil = Unit
IsFull (single m rest) = IsFull rest
IsFull (block begin body end rest) = (has_content body ≡ true) × IsFull body × IsFull rest

abbrev pub Added : List Message → List Message → Type 0
Added before after = (s : Statements) × (after ≡ before ++ flatten s) × IsBlocks s × IsFull s

-- Each activity gets closed block statements that are not empty; none is lost, and none stands twice.
abbrev pub Emits : Diagram → Diagram → Type 0
Emits d d' = (id : ℕ) → Added (messages_of d id) (messages_of d' id)

abbrev pub Keeps : Diagram → Diagram → Type 0
Keeps d d' =
    ((id : ℕ) → has_activity d id ≡ true → has_activity d' id ≡ true)
    × (IsUnique d.activities → IsUnique d'.activities)

unfoldable join : Statements → Statements → Statements
join nil t = t
join (single m rest) t = single m (join rest t)
join (block begin body end rest) t = block begin body end (join rest t)

flatten-join : (s t : Statements) → flatten (join s t) ≡ flatten s ++ flatten t
unfolding flatten join
flatten-join nil t = refl
flatten-join (single m rest) t = ap (λ l. m ∷ l) (flatten-join rest t)
flatten-join (block begin body end rest) t =
    ap (λ l. begin ∷ (flatten body ++ end ∷ l)) (flatten-join rest t)
    ∙ ap (λ l. begin ∷ l) (sym (append_assoc (flatten body) (end ∷ flatten rest) (flatten t)))

join-IsBlocks : (s t : Statements) → IsBlocks s → IsBlocks t → IsBlocks (join s t)
unfolding join
join-IsBlocks nil t i j = j
join-IsBlocks (single m rest) t i j = (i.0, join-IsBlocks rest t i.1 j)
join-IsBlocks (block begin body end rest) t (b, i, e, r) j = (b, i, e, join-IsBlocks rest t r j)

join-IsFull : (s t : Statements) → IsFull s → IsFull t → IsFull (join s t)
unfolding join
join-IsFull nil t i j = j
join-IsFull (single m rest) t i j = join-IsFull rest t i j
join-IsFull (block begin body end rest) t (c, i, r) j = (c, i, join-IsFull rest t r j)

pub Added-same : (ms ns : List Message) → ns ≡ ms → Added ms ns
unfolding flatten
Added-same ms ns e = (nil, e ∙ sym (append-nil ms), tt, tt)

pub Added-single : (ms : List Message) (m : Message) → IsSingle m → Added ms (ms ++ m ∷ [])
unfolding flatten
Added-single ms m i = (single m nil, refl, (i, tt), tt)

pub Added-trans : (a b c : List Message) → Added a b → Added b c → Added a c
Added-trans a b c (s, e, i, f) (t, e', j, g) = (
  join s t,
  e'
      ∙ ap (λ l. l ++ flatten t) e
      ∙ append_assoc a (flatten s) (flatten t)
      ∙ ap (λ l. a ++ l) (sym (flatten-join s t)),
  join-IsBlocks s t i j,
  join-IsFull s t f g,
)

pub Emits-refl : (d : Diagram) → Emits d d
Emits-refl d id = Added-same (messages_of d id) (messages_of d id) refl

pub Emits-trans : (d d' d'' : Diagram) → Emits d d' → Emits d' d'' → Emits d d''
Emits-trans d d' d'' e e' id =
    Added-trans (messages_of d id) (messages_of d' id) (messages_of d'' id) (e id) (e' id)

pub add_message-Emits : (m : Message) (d : Diagram) → IsSingle m → Emits d (add_message m d)
add_message-Emits m d i id = elim (Bool-cases (id == m.from)) [
  | inl same ↦ rw (messages_of-add_message m d id, same) (Added-single (messages_of d id) m i)
  | inr other ↦
      rw (messages_of-add_message m d id, other)
        (Added-same (messages_of d id) (messages_of d id) refl)
]

pub add_message-Keeps : (m : Message) (d : Diagram) → Keeps d (add_message m d)
unfolding add_message
add_message-Keeps m d = (
  λ id h. ground (arith, find-add_message m d id, find-opened m d id, h),
  λ u.
      let opened₁ = insert m.from (new_activity m.from) d.activities in
      let opened₂ = insert m.to (new_activity m.to) opened₁ in
      IsUnique-update m.from (append_message m) (update m.to (add_caller m.from) opened₂) (
        IsUnique-update m.to (add_caller m.from) opened₂ (
          IsUnique-insert m.to (new_activity m.to) opened₁
            (IsUnique-insert m.from (new_activity m.from) d.activities u))),
)

-- A message of the type of a block's start is a block's start.
abbrev is_begin_value : ℕ → Bool
is_begin_value n = n == 2 || n == 6 || n == 8 || n == 10 || n == 12 || n == 15 || n == 18

begin_by_value : (t : MessageType) → is_begin_block_message t ≡ is_begin_value (message_value t)
unfolding is_begin_block_message message_value
begin_by_value MessageType.k_call = refl
begin_by_value _ = refl

is_message-begin :
    (start t : MessageType)
    → (t is_message start) ≡ true
    → is_begin_block_message start ≡ is_begin_block_message t
unfolding ◌is_message◌
is_message-begin start t h =
    begin_by_value start
    ∙ ap is_begin_value (sym ((==_iff (message_value t) (message_value start)).0 h))
    ∙ sym (begin_by_value t)

not_start :
    (start t : MessageType)
    → is_begin_block_message start ≡ true
    → is_begin_block_message t ≡ false
    → (t is_message start) ≡ false
not_start start t b n = elim (Bool-cases (t is_message start)) [
  | inl same ↦
      let impossible : true ≡ false = sym b ∙ is_message-begin start t same ∙ n in absurd cc
  | inr other ↦ other
]

-- The search for a start goes back over closed block statements that hold no call and no return, and
-- stops at a call or a return in those that hold one.
search_back-skip_single :
    (start : MessageType) (m : Message) (rest : List Message)
    → is_begin_block_message start ≡ true
    → is_begin_block_message m.type ≡ false
    → search_back start (m ∷ rest)
      ≡ (if is_content m.type then nonempty else search_back start rest)
unfolding search_back
search_back-skip_single start m rest b n = ground (arith, not_start start m.type b n)

abbrev back_over : MessageType → Statements → List Message → Search
back_over start s rest = if has_content s then nonempty else search_back start rest

reverse-parts :
    (x : Message) (xs rest : List Message) → reverse (x ∷ xs) ++ rest ≡ reverse xs ++ x ∷ rest
reverse-parts x xs rest =
    ap (λ l. l ++ rest) (reverse-append (x ∷ []) xs) ∙ append_assoc (reverse xs) (x ∷ []) rest

pub search_back-flatten :
    (start : MessageType) (s : Statements) (rest : List Message)
    → is_begin_block_message start ≡ true
    → IsBlocks s
    → IsFull s
    → search_back start (reverse (flatten s) ++ rest) ≡ back_over start s rest
unfolding flatten has_content
search_back-flatten start nil rest b i f = refl
search_back-flatten start (single m s) rest b i f =
    ap (search_back start) (reverse-parts m (flatten s) rest)
    ∙ search_back-flatten start s (m ∷ rest) b i.1 f
    ∙ ground (arith, search_back-skip_single start m rest b i.0.0)
search_back-flatten start (block begin body end s) rest b (_, i, e, r) (c, f, g) =
    let inside = flatten body in
    let before = begin ∷ rest in
    ap (search_back start) (
      reverse-parts begin (inside ++ end ∷ flatten s) rest
      ∙ ap (λ l. l ++ before) (reverse-append inside (end ∷ flatten s))
      ∙ append_assoc (reverse (end ∷ flatten s)) (reverse inside) before
      ∙ reverse-parts end (flatten s) (reverse inside ++ before))
    ∙ search_back-flatten start s (end ∷ (reverse inside ++ before)) b r g
    ∙ ground (
      arith,
      search_back-skip_single start end (reverse inside ++ before) b (end_is_not_begin end.type e),
      end_is_empty end.type e,
      search_back-flatten start body before b i f,
      c,
    )
