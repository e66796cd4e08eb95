-- ===== src/ConfigOption/Inheritance.antt =====
-- What an option is after it has taken over the options of the levels around it.
use clang_uml.Prelude.{false, ◌||◌, List, [], ◌∷◌, if◌then◌else◌, ◌≡◌, arith, any_of, ◌++◌}
use clang_uml.ConfigOption.{ConfigOption, is_append, set, override}

module _ {ℓ} {A : Type ℓ} (append : A → A → A) where
  -- The levels around an option, from the nearest.
  unfoldable pub inherit : List (ConfigOption A) → ConfigOption A → ConfigOption A
  inherit [] o = o
  inherit (outer ∷ rest) o = inherit rest (override append outer o)

  -- The value of the first level that is declared, and else that of the option.
  abbrev pub first_declared : List (ConfigOption A) → A → A
  first_declared [] v = v
  first_declared (o ∷ os) v = if o.is_declared then o.value else first_declared os v

  -- An option that is overridden has the value that it declares or else that of the nearest level
  -- that declares one; it is declared if it or some level was.
  pub inherit_override :
      (levels : List (ConfigOption A)) (o : ConfigOption A)
      → is_append o.inheritance_mode ≡ false
      → ((inherit levels o).value ≡ first_declared (o ∷ levels) o.value)
        × ((inherit levels o).is_declared ≡ (o.is_declared || any_of (λ l. l.is_declared) levels))
  unfolding inherit override set
  inherit_override [] o h = ground arith
  inherit_override (outer ∷ rest) o h =
      ground (arith, inherit_override rest (override append outer o), h)

-- The values of all levels that are declared, from the nearest.
abbrev pub declared_values {ℓ} : {A : Type ℓ} → List (ConfigOption (List A)) → List A
declared_values [] = []
declared_values (o ∷ os) =
    if o.is_declared then o.value ++ declared_values os else declared_values os
