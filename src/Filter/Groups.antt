-- ===== src/Filter/Groups.antt =====
-- anyof_filter and allof_filter, which combine other filters. A filter has the basic mode until
-- `set_mode` is called, and the program calls it of no group.
use clang_uml.Prelude.{Bool, not, ◌&&◌, some, List, ◌≡◌, arith, if◌then◌else◌}
use clang_uml.Tvl
use clang_uml.Tvl.{Value}
use clang_uml.Tvl.Laws.{any_of-verdict, all_of-verdict}
use clang_uml.Filter.{FilterType, FilterMode, basic, is_inclusive, is_advanced}
use clang_uml.Filter.Verdict.{excluded, rejected}

module _ {ℓ} {E : Type ℓ} where
  -- `complete` is `d.complete()` of the diagram: whether its model has been built.
  pub match_anyof : FilterType → FilterMode → Bool → List (E → Value) → E → Value
  match_anyof type mode complete filters e =
      let result = Tvl.any_of (λ f. f e) filters in
      if is_advanced mode && not complete then some (is_inclusive type) else result

  pub match_allof : List (E → Value) → E → Value
  match_allof filters e = Tvl.all_of (λ f. f e) filters

  -- In the basic mode a group of alternatives rejects an element exactly if no filter of the group matches
  -- it and some filter of the group rejects it, and a group that must match together rejects it exactly if
  -- some filter of the group does.
  pub groups_reject :
      (t : FilterType) (complete : Bool) (filters : List (E → Value)) (e : E)
      → (Tvl.is_false (match_anyof t basic complete filters e)
          ≡ (not (excluded filters e) && rejected filters e))
        × (Tvl.is_false (match_allof filters e) ≡ rejected filters e)
  unfolding match_anyof match_allof
  groups_reject t complete filters e = (
    ground (arith, any_of-verdict (λ (g : E → Value). g e) filters),
    ground (arith, all_of-verdict (λ (g : E → Value). g e) filters),
  )
