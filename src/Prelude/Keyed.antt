-- ===== src/Prelude/Keyed.antt =====
-- std::set and std::map keyed by a number: lists that are kept in ascending order of their keys.
-- `emplace` and `insert` leave an entry whose key is there already.
use Prim.Native.Nat.{ℕ, suc, ◌≤◌}
use mathlib.Core.Path.{◌≡◌, refl}
use mathlib.Core.Bool.{Bool, true, false, ◌||◌}
use mathlib.Core.List.{List, [], ◌∷◌}
use mathlib.Core.Option.{Option, none, some}
use mathlib.Core.Logic.{inl, inr}
use native.Mathlib.Omega.{arith}
use clang_uml.Prelude.Tests.{◌==◌, ltb, if◌then◌else◌, Bool-cases}
use clang_uml.Prelude.Lists.{length}

abbrev pub elem : ℕ → List ℕ → Bool
elem x [] = false
elem x (y ∷ ys) = x == y || elem x ys

unfoldable pub emplace : ℕ → List ℕ → List ℕ
emplace x [] = x ∷ []
emplace x (y ∷ ys) = if x == y then y ∷ ys else if ltb x y then x ∷ y ∷ ys else y ∷ emplace x ys

pub elem-emplace : (x y : ℕ) (ys : List ℕ) → elem y (emplace x ys) ≡ (y == x || elem y ys)
unfolding emplace
elem-emplace x y [] = refl
elem-emplace x y (z ∷ ys) = ground (arith, elem-emplace x y ys)

pub length-emplace-le : (x : ℕ) (ys : List ℕ) → length (emplace x ys) ≤ suc (length ys)
unfolding emplace
length-emplace-le x [] = omega arith
length-emplace-le x (z ∷ ys) = ground (arith, length-emplace-le x ys)

unfoldable pub emplace_all : List ℕ → List ℕ → List ℕ
emplace_all [] s = s
emplace_all (x ∷ xs) s = emplace_all xs (emplace x s)

pub elem-emplace_all : (xs s : List ℕ) (y : ℕ) → elem y (emplace_all xs s) ≡ (elem y xs || elem y s)
unfolding emplace_all
elem-emplace_all [] s y = refl
elem-emplace_all (x ∷ xs) s y =
    ground (arith, elem-emplace_all xs (emplace x s) y, elem-emplace x y s)

module _ {ℓ} {V : Type ℓ} where
  unfoldable pub find : ℕ → List (ℕ × V) → Option V
  find k [] = none
  find k ((j, v) ∷ m) = if k == j then some v else find k m

  abbrev pub contains : ℕ → List (ℕ × V) → Bool
  contains k m = elim (find k m) [ none ↦ false | some _ ↦ true ]

  unfoldable pub place : ℕ → V → List (ℕ × V) → List (ℕ × V)
  place k v [] = (k, v) ∷ []
  place k v ((j, w) ∷ m) = if ltb k j then (k, v) ∷ (j, w) ∷ m else (j, w) ∷ place k v m

  unfoldable pub insert : ℕ → V → List (ℕ × V) → List (ℕ × V)
  insert k v m = if contains k m then m else place k v m

  -- Applies a function to the value of a key, as a reference from `at` does.
  unfoldable pub update : ℕ → (V → V) → List (ℕ × V) → List (ℕ × V)
  update k f [] = []
  update k f ((j, w) ∷ m) = if k == j then (j, f w) ∷ m else (j, w) ∷ update k f m

  find-place :
      (k j : ℕ) (v : V) (m : List (ℕ × V))
      → find k m ≡ none
      → find j (place k v m) ≡ (if j == k then some v else find j m)
  unfolding find place
  find-place k j v [] h = refl
  find-place k j v ((i, w) ∷ m) h = elim (Bool-cases (ltb k i)) [
    | inl l ↦ rw l
    | inr l ↦ rw l (ground (arith, find-place k j v m))
  ]

  pub find-insert :
      (k j : ℕ) (v : V) (m : List (ℕ × V))
      → find j (insert k v m)
        ≡ (if contains k m then find j m else if j == k then some v else find j m)
  unfolding insert
  find-insert k j v m = ground (arith, find-place k j v m)

  pub find-update :
      (k j : ℕ) (f : V → V) (m : List (ℕ × V))
      → find j (update k f m)
        ≡ elim (find j m) [ some w ↦ some (if j == k then f w else w) | none ↦ none ]
  unfolding find update
  find-update k j f [] = refl
  find-update k j f ((i, w) ∷ m) = elim (Bool-cases (k == i)) [
    | inl e ↦ rw e (ground arith)
    | inr e ↦ rw e (ground (arith, find-update k j f m))
  ]
