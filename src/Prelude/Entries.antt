-- ===== src/Prelude/Entries.antt =====
-- What holds of every entry of a map, and `erase` of a key.
use Prim.Native.Nat.{ℕ}
use mathlib.Core.Path.{◌≡◌, refl, sym, ap, ◌∙◌}
use mathlib.Core.Bool.{Bool, true, false, ◌||◌}
use mathlib.Core.List.{List, [], ◌∷◌}
use mathlib.Core.Option.{Option, none, some}
use mathlib.Core.Logic.{inl, inr}
use native.Mathlib.Omega.{arith}
use clang_uml.Prelude.Tests.{◌==◌, ==_iff, ==_refl, ltb, if◌then◌else◌, Bool-cases}
use clang_uml.Prelude.Lists.{All}
use clang_uml.Prelude.Keyed.{find, contains, place, insert, update, find-update}

unfoldable pub erase_key {ℓ} : {V : Type ℓ} → ℕ → List (ℕ × V) → List (ℕ × V)
erase_key k [] = []
erase_key k ((j, v) ∷ m) = let rest = erase_key k m in if k == j then rest else (j, v) ∷ rest

-- Every entry that the operations on a map leave or add.
module _ {ℓ κ} {V : Type ℓ} (P : ℕ × V → Type κ) where
  All-place : (k : ℕ) (x : V) (m : List (ℕ × V)) → P (k, x) → All P m → All P (place k x m)
  unfolding place
  All-place k x [] p h = (p, tt)
  All-place k x ((j, w) ∷ m) p h = elim (Bool-cases (ltb k j)) [
    | inl l ↦ rw l (p, h)
    | inr l ↦ rw l (h.0, All-place k x m p h.1)
  ]

  pub All-insert : (k : ℕ) (x : V) (m : List (ℕ × V)) → P (k, x) → All P m → All P (insert k x m)
  unfolding insert
  All-insert k x m p h = elim (Bool-cases (contains k m)) [
    | inl l ↦ rw l h
    | inr l ↦ rw l (All-place k x m p h)
  ]

  pub All-erase_key : (k : ℕ) (m : List (ℕ × V)) → All P m → All P (erase_key k m)
  unfolding erase_key
  All-erase_key k [] h = tt
  All-erase_key k ((j, w) ∷ m) h = elim (Bool-cases (k == j)) [
    | inl l ↦ rw l (All-erase_key k m h.1)
    | inr l ↦ rw l (h.0, All-erase_key k m h.1)
  ]

module _ {ℓ κ} {V : Type ℓ} (P : V → Type κ) where
  abbrev pub Each : List (ℕ × V) → Type κ
  Each m = All (λ entry. P entry.1) m

  pub All-update :
      (k : ℕ) (f : V → V) (m : List (ℕ × V))
      → ((x : V) → P x → P (f x))
      → Each m
      → Each (update k f m)
  unfolding update
  All-update k f [] g h = tt
  All-update k f ((j, w) ∷ m) g h = elim (Bool-cases (k == j)) [
    | inl l ↦ rw l (g w h.0, h.1)
    | inr l ↦ rw l (h.0, All-update k f m g h.1)
  ]

  pub find-Each : (k : ℕ) (m : List (ℕ × V)) (x : V) → find k m ≡ some x → Each m → P x
  unfolding find
  find-Each k [] x e h = cc
  find-Each k ((j, w) ∷ m) x e h = elim (Bool-cases (k == j)) [
    | inl l ↦ (let same : w ≡ x = ground (arith, e, l) in rw (sym same) h.0)
    | inr l ↦ find-Each k m x (let rest : find k m ≡ some x = ground (arith, e, l) in rest) h.1
  ]

-- No key stands twice.
module _ {ℓ} {V : Type ℓ} where
  abbrev pub IsUnique : List (ℕ × V) → Type 0
  IsUnique [] = Unit
  IsUnique ((k, v) ∷ m) = (contains k m ≡ false) × IsUnique m

  contains-place :
      (k j : ℕ) (x : V) (m : List (ℕ × V)) → contains j (place k x m) ≡ (j == k || contains j m)
  unfolding place find
  contains-place k j x [] = ground arith
  contains-place k j x ((i, w) ∷ m) = ground (arith, contains-place k j x m)

  IsUnique-place :
      (k : ℕ) (x : V) (m : List (ℕ × V))
      → contains k m ≡ false
      → IsUnique m
      → IsUnique (place k x m)
  unfolding place find
  IsUnique-place k x [] h u = (refl, tt)
  IsUnique-place k x ((j, w) ∷ m) h u =
      ground (arith, contains-place k j x m, IsUnique-place k x m, h, u.0, u.1)

  pub IsUnique-insert : (k : ℕ) (x : V) (m : List (ℕ × V)) → IsUnique m → IsUnique (insert k x m)
  unfolding insert
  IsUnique-insert k x m u = elim (Bool-cases (contains k m)) [
    | inl old ↦ rw old u
    | inr new ↦ rw new (IsUnique-place k x m new u)
  ]

  contains-update :
      (k j : ℕ) (f : V → V) (m : List (ℕ × V)) → contains j (update k f m) ≡ contains j m
  contains-update k j f m = ground (arith, find-update k j f m)

  pub IsUnique-update :
      (k : ℕ) (f : V → V) (m : List (ℕ × V)) → IsUnique m → IsUnique (update k f m)
  unfolding update
  IsUnique-update k f [] u = tt
  IsUnique-update k f ((j, w) ∷ m) u = elim (Bool-cases (k == j)) [
    | inl same ↦ rw same u
    | inr other ↦ rw other (contains-update k j f m ∙ u.0, IsUnique-update k f m u.1)
  ]

  -- What holds of every value that is found holds of every entry.
  pub All_found {κ} :
      (P : V → Type κ) (m : List (ℕ × V))
      → IsUnique m
      → ((k : ℕ) (x : V) → find k m ≡ some x → P x)
      → All (λ entry. P entry.1) m
  unfolding find
  All_found P [] u h = tt
  All_found P ((j, w) ∷ m) u h =
      (h j w (rw (==_refl j) refl), All_found P m u.1 (λ k x e. h k x (still_found k x e)))
    where
      still_found :
          (k : ℕ) (x : V) → find k m ≡ some x → (if k == j then some w else find k m) ≡ some x
      still_found k x e = elim (Bool-cases (k == j)) [
        | inl same ↦
            let at : find j m ≡ some x = ap (λ i. find i m) (sym ((==_iff k j).0 same)) ∙ e in
            let there : contains j m ≡ true =
              ap (λ (o : Option V). elim o as (λ _. Bool) [ none ↦ false | some _ ↦ true ]) at in
            let clash : true ≡ false = sym there ∙ u.0 in absurd cc
        | inr other ↦ rw (other, e) refl
      ]
