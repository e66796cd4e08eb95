-- ===== src/Tvl.antt =====
-- src/common/model/tvl.h: the three-valued logic by which filters vote. `none` is "undefined".
pub mod Laws
use clang_uml.Prelude.{Bool, true, false, ◌&&◌, Option, none, some, List, [], ◌∷◌}

abbrev pub Value : Type 0
Value = Option Bool

unfoldable pub and_ : Value → Value → Value
and_ none r = r
and_ (some l) none = some l
and_ (some l) (some r) = some (r && l)

unfoldable pub or_ : Value → Value → Value
or_ none none = none
or_ (some true) r = some true
or_ l (some true) = some true
or_ l r = some false

abbrev pub is_true : Value → Bool
is_true (some true) = true
is_true _ = false

abbrev pub is_false : Value → Bool
is_false (some false) = true
is_false _ = false

abbrev pub is_undefined : Value → Bool
is_undefined none = true
is_undefined _ = false

module _ {ℓ} {A : Type ℓ} (pred : A → Value) where
  -- The loop of `all_of`, whose local variable `res` is the argument; `break` at the first false.
  all_of_loop : Value → List A → Value
  all_of_loop res [] = res
  all_of_loop res (x ∷ xs) = elim (pred x) [
    | none ↦ all_of_loop res xs
    | some m ↦ elim m [ true ↦ all_of_loop (some true) xs | false ↦ some false ]
  ]

  unfoldable pub all_of : List A → Value
  unfolding all_of_loop
  all_of = all_of_loop none

  -- The loop of `any_of`, which returns at the first true.
  any_of_loop : Value → List A → Value
  any_of_loop res [] = res
  any_of_loop res (x ∷ xs) = elim (pred x) [
    | none ↦ any_of_loop res xs
    | some m ↦ elim m [ true ↦ some true | false ↦ any_of_loop (some false) xs ]
  ]

  unfoldable pub any_of : List A → Value
  unfolding any_of_loop
  any_of = any_of_loop none
