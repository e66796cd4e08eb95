-- ===== src/Filter/Verdict.antt =====
-- When a diagram filter includes an element.
use clang_uml.Prelude.{
  Bool, true, false, not, ◌&&◌, ◌||◌, List, [], ◌∷◌, ◌++◌, ◌≡◌, refl, arith, any_of-append,
  any_of-erase_if,
}
use clang_uml.Prelude
use clang_uml.Tvl
use clang_uml.Tvl.{Value}
use clang_uml.Tvl.Laws.{any_of-verdict, all_of-verdict}
use clang_uml.Filter.{FilterType, is_inclusive, DiagramFilter, should_include, add_filter}

module _ {ℓ} {E : Type ℓ} where
  -- Some filter of the list excludes, or rejects, the element.
  abbrev pub excluded : List (E → Value) → E → Bool
  excluded l e = Prelude.any_of (λ fv. Tvl.is_true (fv e)) l

  abbrev pub rejected : List (E → Value) → E → Bool
  rejected l e = Prelude.any_of (λ fv. Tvl.is_false (fv e)) l

  -- An element is included exactly if no exclusive filter matches it and no inclusive filter
  -- rejects it; filters that are undefined for the element have no say.
  pub should_include-verdict :
      (f : DiagramFilter E) (e : E)
      → should_include f e ≡ (not (excluded f.exclusive e) && not (rejected f.inclusive e))
  unfolding should_include
  should_include-verdict f e = ground (
    arith,
    any_of-verdict (λ (ex : E → Value). ex e) f.exclusive,
    all_of-verdict (λ (in_ : E → Value). in_ e) f.inclusive,
  )

  -- One more filter can only exclude more: an inclusive one those it rejects, an exclusive one
  -- those it matches, and the verdict of the other filters stays.
  pub should_include-add_filter :
      (t : FilterType) (fv : E → Value) (f : DiagramFilter E) (e : E)
      → should_include (add_filter t fv f) e ≡ (
          should_include f e
          && not (
              (is_inclusive t && Tvl.is_false (fv e))
              || (not (is_inclusive t) && Tvl.is_true (fv e))))
  unfolding add_filter
  should_include-add_filter FilterType.k_inclusive fv f e = ground (
    arith,
    should_include-verdict f e,
    should_include-verdict (add_filter FilterType.k_inclusive fv f) e,
    any_of-append (λ (g : E → Value). Tvl.is_false (g e)) f.inclusive (fv ∷ []),
  )
  should_include-add_filter FilterType.k_exclusive fv f e = ground (
    arith,
    should_include-verdict f e,
    should_include-verdict (add_filter FilterType.k_exclusive fv f) e,
    any_of-append (λ (g : E → Value). Tvl.is_true (g e)) f.exclusive (fv ∷ []),
  )
