-- ===== src/ModelPath/Samples.antt =====
-- Two namespaces, one in the other.
use clang_uml.Prelude.{true, false, List, [], ◌∷◌, String, ◌≡◌}
use clang_uml.ModelPath.{PathType, ModelPath, starts_with, joined, relative_to, common_path}
use clang_uml.ModelPath.Relative.{joined-relative_to, common_path-greatest}

abbrev name_space : List String → ModelPath
name_space names = record { path_type = PathType.k_namespace; path = names; is_root = false }

abbrev outer : ModelPath
outer = name_space ("a" ∷ [])

abbrev inner : ModelPath
inner = name_space ("a" ∷ "b" ∷ [])

joined-relative_to_example :
    (starts_with inner outer ≡ true → (joined outer (relative_to inner outer)).path ≡ inner.path)
    × (starts_with inner outer ≡ false → (relative_to inner outer).path ≡ inner.path)
joined-relative_to_example = joined-relative_to inner outer

common_path-greatest_example :
    (starts_with inner (common_path inner outer) ≡ true)
    × (starts_with outer (common_path inner outer) ≡ true)
    × ((r : ModelPath)
        → starts_with inner r ≡ true
        → starts_with outer r ≡ true
        → starts_with (common_path inner outer) r ≡ true)
common_path-greatest_example = common_path-greatest inner outer
