-- ===== src/Prelude/Lists.antt =====
-- Lists measured by native numbers and searched by Boolean tests.
use Prim.Native.Nat.{ℕ, zero, suc, ◌+◌, ◌≤◌, ◌<◌}
use mathlib.Core.Path.{◌≡◌, refl}
use mathlib.Core.Bool.{Bool, true, false, ◌&&◌, ◌||◌}
use mathlib.Core.List.{List, [], ◌∷◌, ◌++◌}
use mathlib.Core.Option.{Option, none, some}
use native.Mathlib.Omega.{arith}
use clang_uml.Prelude.Tests.{if◌then◌else◌}

module _ {ℓ} {A : Type ℓ} where
  abbrev pub length : List A → ℕ
  length [] = 0
  length (x ∷ xs) = suc (length xs)

  abbrev pub get_elem? : List A → ℕ → Option A
  get_elem? [] i = none
  get_elem? (x ∷ xs) zero = some x
  get_elem? (x ∷ xs) (suc i) = get_elem? xs i

  abbrev pub take : ℕ → List A → List A
  take zero xs = []
  take (suc n) [] = []
  take (suc n) (x ∷ xs) = x ∷ take n xs

  abbrev pub drop : ℕ → List A → List A
  drop zero xs = xs
  drop (suc n) [] = []
  drop (suc n) (x ∷ xs) = drop n xs

  pub length-append : (xs ys : List A) → length (xs ++ ys) ≡ length xs + length ys
  length-append [] ys = omega arith
  length-append (x ∷ xs) ys = omega (arith, length-append xs ys)

  -- std::any_of, std::all_of and std::find_if.
  abbrev pub any_of : (A → Bool) → List A → Bool
  any_of p [] = false
  any_of p (x ∷ xs) = p x || any_of p xs

  abbrev pub all_of : (A → Bool) → List A → Bool
  all_of p [] = true
  all_of p (x ∷ xs) = p x && all_of p xs

  abbrev pub find_if : (A → Bool) → List A → Option A
  find_if p [] = none
  find_if p (x ∷ xs) = if p x then some x else find_if p xs

  -- The erase-remove idiom, `util::erase_if`.
  abbrev pub erase_if : (A → Bool) → List A → List A
  erase_if p [] = []
  erase_if p (x ∷ xs) = if p x then erase_if p xs else x ∷ erase_if p xs

  abbrev pub All {κ} : (A → Type κ) → List A → Type κ
  All P [] = Unit
  All P (x ∷ xs) = P x × All P xs

module _ {ℓ} {A : Type ℓ} (p : A → Bool) where
  pub any_of-append : (xs ys : List A) → any_of p (xs ++ ys) ≡ (any_of p xs || any_of p ys)
  any_of-append [] ys = refl
  any_of-append (x ∷ xs) ys = ground (arith, any_of-append xs ys)

  pub erase_if-append : (xs ys : List A) → erase_if p (xs ++ ys) ≡ erase_if p xs ++ erase_if p ys
  erase_if-append [] ys = refl
  erase_if-append (x ∷ xs) ys = ground (arith, erase_if-append xs ys)

  pub length-erase_if-le : (xs : List A) → length (erase_if p xs) ≤ length xs
  length-erase_if-le [] = omega arith
  length-erase_if-le (x ∷ xs) = ground (arith, length-erase_if-le xs)

  pub length-erase_if-lt : (xs : List A) → any_of p xs ≡ true → length (erase_if p xs) < length xs
  length-erase_if-lt [] h = cc
  length-erase_if-lt (x ∷ xs) h = ground (arith, length-erase_if-le xs, length-erase_if-lt xs)

  pub any_of-erase_if : (xs : List A) → any_of p (erase_if p xs) ≡ false
  any_of-erase_if [] = refl
  any_of-erase_if (x ∷ xs) = ground (arith, any_of-erase_if xs)

  pub erase_if_none : (xs : List A) → any_of p xs ≡ false → erase_if p xs ≡ xs
  erase_if_none [] h = refl
  erase_if_none (x ∷ xs) h = ground (arith, erase_if_none xs)

module _ {ℓ} {A : Type ℓ} where
  pub All-append {κ} : (P : A → Type κ) (xs ys : List A) → All P xs → All P ys → All P (xs ++ ys)
  All-append P [] ys hx hy = hy
  All-append P (x ∷ xs) ys hx hy = (hx.0, All-append P xs ys hx.1 hy)

  pub All-mono {κ μ} :
      (P : A → Type κ) (Q : A → Type μ) (xs : List A) → ((x : A) → P x → Q x) → All P xs → All Q xs
  All-mono P Q [] f h = tt
  All-mono P Q (x ∷ xs) f h = (f x h.0, All-mono P Q xs f h.1)

  pub All-erase_if : (p : A → Bool) (xs : List A) → All (λ x. p x ≡ false) (erase_if p xs)
  All-erase_if p [] = tt
  All-erase_if p (x ∷ xs) = ground (arith, All-erase_if p xs)

  pub All-unit : (xs : List A) → All (λ _. Unit {0}) xs
  All-unit [] = tt
  All-unit (x ∷ xs) = (tt, All-unit xs)
