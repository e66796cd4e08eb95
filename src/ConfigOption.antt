-- ===== src/ConfigOption.antt =====
-- src/config/option.h: an option of the configuration, and how a diagram takes it over from the
-- configuration around it.
pub mod Inheritance
mod Samples
use clang_uml.Prelude.{
  ℕ, Bool, true, false, not, ◌&&◌, List, [], ◌∷◌, ◌++◌, String, if◌then◌else◌, insert,
}

pub data InheritMode : Type 0 where
  k_override k_append : InheritMode

abbrev pub is_append : InheritMode → Bool
is_append k_append = true
is_append k_override = false

pub record ConfigOption {ℓ} (A : Type ℓ) : Type ℓ where
  pub name : String
  pub value : A
  pub is_declared : Bool
  pub has_value : Bool
  pub inheritance_mode : InheritMode

module _ {ℓ} {A : Type ℓ} where
  -- An option with no initial value has the default of its type.
  abbrev pub new_option : String → A → InheritMode → ConfigOption A
  new_option name initial im = record {
    name = name;
    value = initial;
    is_declared = false;
    has_value = false;
    inheritance_mode = im;
  }

  abbrev pub new_option_with : String → A → InheritMode → ConfigOption A
  new_option_with name initial im = record {
    name = name;
    value = initial;
    is_declared = false;
    has_value = true;
    inheritance_mode = im;
  }

  unfoldable pub set : A → ConfigOption A → ConfigOption A
  set v o = record o { value = v; is_declared = true; has_value = true }

  -- The overloads of `append_value`: for any type, for vectors and for maps, whose keys that are there
  -- stay. Those for JSON and for the options of PlantUML call other code.
  abbrev pub append_value : A → A → A
  append_value l r = r

  abbrev pub append_value_vector : List A → List A → List A
  append_value_vector l r = l ++ r

  unfoldable pub append_value_map : List (ℕ × A) → List (ℕ × A) → List (ℕ × A)
  append_value_map l [] = l
  append_value_map l ((k, v) ∷ r) = append_value_map (insert k v l) r

  -- The first argument is the overload for the type of the option.
  unfoldable pub override : (A → A → A) → ConfigOption A → ConfigOption A → ConfigOption A
  unfolding set
  override append o self =
      if o.is_declared && is_append self.inheritance_mode
      then record self { value = append self.value o.value; is_declared = true; has_value = true }
      else if not self.is_declared && o.is_declared
      then set o.value self
      else self
