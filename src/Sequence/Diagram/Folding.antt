-- ===== src/Sequence/Diagram/Folding.antt =====
-- Messages that are added, and statements that are ended: an empty one leaves no trace.
use mathlib.Core.List.{reverse, reverse-append, reverse-reverse}
use clang_uml.Prelude.{
  Bool, true, false, ◌||◌, none, some, List, [], ◌∷◌, ◌++◌, ◌≡◌, refl, sym, ap, ◌∙◌, arith,
  if◌then◌else◌, any_of, any_of-append, append_assoc, append-nil,
}
use clang_uml.Enums.{MessageType, ◌is_message◌}
use clang_uml.Sequence.Message.{Message, is_content}
use clang_uml.Sequence.Diagram.{
  fold_or_end, missing, nonempty, empty_after, search_back, fold_or_end_block_statement,
}

-- A message that the search for a start of the given type stops at.
abbrev pub stops : MessageType → Message → Bool
stops start m = m.type is_message start || is_content m.type

search_back_skip :
    (start : MessageType) (skipped rest : List Message)
    → any_of (stops start) skipped ≡ false
    → search_back start (skipped ++ rest) ≡ search_back start rest
unfolding search_back
search_back_skip start [] rest h = refl
search_back_skip start (m ∷ ms) rest h = ground (arith, search_back_skip start ms rest)

any_of-reverse {ℓ} : {A : Type ℓ} (p : A → Bool) (xs : List A) → any_of p (reverse xs) ≡ any_of p xs
any_of-reverse p [] = refl
any_of-reverse p (x ∷ xs) =
    ap (any_of p) (reverse-append (x ∷ []) xs)
    ∙ any_of-append p (reverse xs) (x ∷ [])
    ∙ ground (arith, any_of-reverse p xs)

-- What is reversed in front of the messages that are skipped.
search_back_after :
    (start : MessageType) (before : List Message) (m : Message) (body : List Message)
    → any_of (stops start) body ≡ false
    → search_back start (reverse (before ++ m ∷ body)) ≡ search_back start (m ∷ reverse before)
search_back_after start before m body h =
    ap (search_back start) (reverse-append before (m ∷ body))
    ∙ ap (λ l. search_back start (l ++ reverse before)) (reverse-append (m ∷ []) body)
    ∙ ap (search_back start) (append_assoc (reverse body) (m ∷ []) (reverse before))
    ∙ search_back_skip start (reverse body) (m ∷ reverse before)
        (any_of-reverse (stops start) body ∙ h)

search_back-stops :
    (start : MessageType) (m : Message) (earlier : List Message)
    → stops start m ≡ true
    → search_back start (m ∷ earlier)
      ≡ (if m.type is_message start then empty_after earlier else nonempty)
unfolding search_back
search_back-stops start m earlier s = ground arith

search_back_nil : (start : MessageType) → search_back start [] ≡ missing
unfolding search_back
search_back_nil start = refl

-- A statement with no content behind its start is taken back to the messages before it; one with
-- a call or a return behind its start gets its end message, and nothing else changes.
pub fold_or_end_lem :
    (end : Message) (start : MessageType) (before : List Message) (m : Message)
    (body : List Message)
    → any_of (stops start) body ≡ false
    → stops start m ≡ true
    → fold_or_end_block_statement end start (before ++ m ∷ body)
      ≡ (if m.type is_message start then some before else some ((before ++ m ∷ body) ++ end ∷ []))
unfolding fold_or_end_block_statement
fold_or_end_lem end start before m body h s =
    ap (fold_or_end end (before ++ m ∷ body)) (search_back_after start before m body h)
    ∙ ground (arith, search_back-stops start m (reverse before), reverse-reverse before)

-- The end of a statement is undefined if the caller's messages hold no start of such a
-- statement and no call or return at all.
pub fold_or_end_missing :
    (end : Message) (start : MessageType) (messages : List Message)
    → any_of (stops start) messages ≡ false
    → fold_or_end_block_statement end start messages ≡ none
unfolding fold_or_end_block_statement
fold_or_end_missing end start messages h = ap (fold_or_end end messages) (
    ap (search_back start) (sym (append-nil (reverse messages)))
    ∙ search_back_skip start (reverse messages) [] (any_of-reverse (stops start) messages ∙ h)
    ∙ search_back_nil start)
