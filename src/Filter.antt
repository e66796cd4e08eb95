-- ===== src/Filter.antt =====
-- src/common/model/filters/diagram_filter.{h,cc}: a diagram keeps what its filter includes. A
-- filter visitor is modelled by its `match` at one type of element, for a diagram that is fixed.
pub mod Verdict
pub mod Groups
pub mod Namespaces
pub mod Context
pub mod Ancestry
pub mod Members
mod Samples
use clang_uml.Prelude.{Bool, true, false, not, ◌||◌, List, [], ◌∷◌, ◌++◌, if◌then◌else◌}
use clang_uml.Prelude
use clang_uml.Tvl
use clang_uml.Tvl.{Value}

pub data FilterType : Type 0 where
  k_inclusive k_exclusive : FilterType

pub data FilterMode : Type 0 where
  basic advanced : FilterMode

abbrev pub is_inclusive : FilterType → Bool
is_inclusive FilterType.k_inclusive = true
is_inclusive FilterType.k_exclusive = false

abbrev pub is_advanced : FilterMode → Bool
is_advanced advanced = true
is_advanced basic = false

pub record DiagramFilter {ℓ} (E : Type ℓ) : Type ℓ where
  pub inclusive : List (E → Value)
  pub exclusive : List (E → Value)

module _ {ℓ} {E : Type ℓ} where
  unfoldable pub should_include : DiagramFilter E → E → Bool
  unfolding Tvl.any_of Tvl.all_of
  should_include f e =
      let exc = Tvl.any_of (λ ex. ex e) f.exclusive in
      let inc = Tvl.all_of (λ in_. in_ e) f.inclusive in
      if Tvl.is_true exc then false else (Tvl.is_undefined inc || Tvl.is_true inc)

  unfoldable pub add_inclusive_filter : (E → Value) → DiagramFilter E → DiagramFilter E
  add_inclusive_filter fv f = record f { inclusive = f.inclusive ++ fv ∷ [] }

  unfoldable pub add_exclusive_filter : (E → Value) → DiagramFilter E → DiagramFilter E
  add_exclusive_filter fv f = record f { exclusive = f.exclusive ++ fv ∷ [] }

  unfoldable pub add_filter : FilterType → (E → Value) → DiagramFilter E → DiagramFilter E
  unfolding add_inclusive_filter add_exclusive_filter
  add_filter FilterType.k_inclusive fv f = add_inclusive_filter fv f
  add_filter FilterType.k_exclusive fv f = add_exclusive_filter fv f

  -- Removes from a collection what the filter does not include.
  unfoldable pub apply_filter : DiagramFilter E → List E → List E
  apply_filter f col = Prelude.erase_if (λ e. not (should_include f e)) col
