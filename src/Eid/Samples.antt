-- ===== src/Eid/Samples.antt =====
-- A map of one id.
use clang_uml.Prelude.{true, false, not, ◌&&◌, none, some, [], ◌≡◌, refl, ◌==◌, if◌then◌else◌}
use clang_uml.Eid.{Eid, eid_lt, add, get_global_id, resolve_or}
use clang_uml.Eid.Mapping.{resolve_or-add}

abbrev global : Eid
global = record { value = 70; is_global = true }

abbrev local : Eid
local = record { value = 7; is_global = false }

resolve_or-add_example :
    (resolve_or (add 7 global []) local
      ≡ (if not local.is_global && local.value == 7 then global else resolve_or [] local))
    × (resolve_or [] local
        ≡ elim (get_global_id [] local) as (λ _. Eid) [ none ↦ local | some g ↦ g ])
resolve_or-add_example = resolve_or-add 7 global [] local

abbrev other : Eid
other = record { value = 8; is_global = false }

-- Of a global and a local id of one value each is less than the other.
both_less :
    (eid_lt (record { value = 5; is_global = true }) (record { value = 5; is_global = false })
      && eid_lt (record { value = 5; is_global = false }) (record { value = 5; is_global = true }))
    ≡ true
unfolding eid_lt
both_less = refl
