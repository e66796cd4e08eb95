-- ===== src/ConfigOption/Samples.antt =====
-- An option and the level around it.
use clang_uml.Prelude.{ℕ, ◌||◌, List, [], ◌∷◌, ◌≡◌, refl, any_of, insert, find, place}
use clang_uml.ConfigOption.{
  ConfigOption, k_override, k_append, new_option_with, set, append_value, append_value_map,
}
use clang_uml.ConfigOption.Inheritance.{inherit, first_declared, inherit_override}

abbrev outer : ConfigOption ℕ
outer = set 7 (new_option_with "width" 1 k_override)

abbrev single : ConfigOption ℕ
single = new_option_with "width" 1 k_override

inherit_override_example :
    ((inherit append_value (outer ∷ []) single).value
      ≡ first_declared append_value (single ∷ outer ∷ []) single.value)
    × ((inherit append_value (outer ∷ []) single).is_declared
        ≡ (single.is_declared || any_of (λ l. l.is_declared) (outer ∷ [])))
inherit_override_example = inherit_override append_value (outer ∷ []) single refl

abbrev globs : List ℕ → ConfigOption (List ℕ)
globs xs = new_option_with "glob" xs k_append

-- A key that is there keeps its value.
appended_map : append_value_map {A = ℕ} ((1, 5) ∷ []) ((1, 6) ∷ (2, 7) ∷ []) ≡ (1, 5) ∷ (2, 7) ∷ []
unfolding append_value_map insert find place
appended_map = refl
