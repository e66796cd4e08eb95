-- ===== src/Tvl/Laws.antt =====
-- The loops of the three-valued logic.
use mathlib.Core.List.{foldr}
use clang_uml.Prelude.{
  Bool, true, false, ◌||◌, Option, none, some, List, [], ◌∷◌, map, ◌≡◌, refl, ◌∙◌, arith,
  if◌then◌else◌,
}
use clang_uml.Prelude
use clang_uml.Tvl.{Value, and_, or_, is_true, is_false, all_of_loop, all_of, any_of_loop, any_of}

-- The binary operations are commutative and associative, and "undefined" is neutral in both.
pub or_comm : (l r : Value) → or_ l r ≡ or_ r l
unfolding or_
or_comm l r = ground arith

pub or_assoc : (a b c : Value) → or_ (or_ a b) c ≡ or_ a (or_ b c)
unfolding or_
or_assoc a b c = ground arith

pub and_comm : (l r : Value) → and_ l r ≡ and_ r l
unfolding and_
and_comm l r = ground arith

pub and_assoc : (a b c : Value) → and_ (and_ a b) c ≡ and_ a (and_ b c)
unfolding and_
and_assoc a b c = ground arith

module _ {ℓ} {A : Type ℓ} (pred : A → Value) where
  any_of_loop-fold :
      (res : Value) (xs : List A)
      → is_true res ≡ false
      → any_of_loop pred res xs ≡ or_ res (foldr or_ none (map pred xs))
  unfolding any_of_loop or_
  any_of_loop-fold res [] h = ground arith
  any_of_loop-fold res (x ∷ xs) h =
      ground (arith, any_of_loop-fold res xs, any_of_loop-fold (some false) xs)

  all_of_loop-fold :
      (res : Value) (xs : List A)
      → is_false res ≡ false
      → all_of_loop pred res xs ≡ and_ res (foldr and_ none (map pred xs))
  unfolding all_of_loop and_
  all_of_loop-fold res [] h = ground arith
  all_of_loop-fold res (x ∷ xs) h =
      ground (arith, all_of_loop-fold res xs, all_of_loop-fold (some true) xs)

  -- `any_of`, which leaves the loop at the first true, is the fold of `or_` over all elements.
  pub any_of-fold : (xs : List A) → any_of pred xs ≡ foldr or_ none (map pred xs)
  unfolding any_of or_
  any_of-fold xs = ground (arith, any_of_loop-fold none xs refl)

  -- `all_of`, which leaves the loop at the first false, is the fold of `and_` over all elements.
  pub all_of-fold : (xs : List A) → all_of pred xs ≡ foldr and_ none (map pred xs)
  unfolding all_of and_
  all_of-fold xs = ground (arith, all_of_loop-fold none xs refl)

  abbrev pub some_true : List A → Bool
  some_true xs = Prelude.any_of (λ x. is_true (pred x)) xs

  abbrev pub some_false : List A → Bool
  some_false xs = Prelude.any_of (λ x. is_false (pred x)) xs

  or_fold_lem :
      (xs : List A)
      → foldr or_ none (map pred xs)
        ≡ (if some_true xs then some true else if some_false xs then some false else none)
  unfolding or_
  or_fold_lem [] = refl
  or_fold_lem (x ∷ xs) = ground (arith, or_fold_lem xs)

  and_fold_lem :
      (xs : List A)
      → foldr and_ none (map pred xs)
        ≡ (if some_false xs then some false else if some_true xs then some true else none)
  unfolding and_
  and_fold_lem [] = refl
  and_fold_lem (x ∷ xs) = ground (arith, and_fold_lem xs)

  -- `any_of` is true if some vote is true, else false if some vote is false, else undefined.
  pub any_of-verdict :
      (xs : List A)
      → any_of pred xs
        ≡ (if some_true xs then some true else if some_false xs then some false else none)
  any_of-verdict xs = any_of-fold xs ∙ or_fold_lem xs

  -- `all_of` is false if some vote is false, else true if some vote is true, else undefined.
  pub all_of-verdict :
      (xs : List A)
      → all_of pred xs
        ≡ (if some_false xs then some false else if some_true xs then some true else none)
  all_of-verdict xs = all_of-fold xs ∙ and_fold_lem xs
