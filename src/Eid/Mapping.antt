-- ===== src/Eid/Mapping.antt =====
-- What the map resolves, and where the order of ids is none.
use clang_uml.Prelude.{
  Bool, ℕ, not, ◌&&◌, none, some, List, ◌≡◌, arith, ◌==◌, if◌then◌else◌, insert, find-insert,
  find-update,
}
use clang_uml.Eid.{Eid, add, get_global_id, resolve_or}

-- After an id is added, that local id is resolved to the new global one, whatever was there before;
-- every other local id and every global one is resolved as before. An id with no global id is
-- resolved to itself.
pub resolve_or-add :
    (ast_id : ℕ) (global_id : Eid) (id_map : List (ℕ × Eid)) (id : Eid)
    → (resolve_or (add ast_id global_id id_map) id
        ≡ (if not id.is_global && id.value == ast_id then global_id else resolve_or id_map id))
      × (resolve_or id_map id
          ≡ elim (get_global_id id_map id) as (λ _. Eid) [ none ↦ id | some g ↦ g ])
unfolding add resolve_or get_global_id
resolve_or-add ast_id global_id id_map id = (
  ground (
    arith,
    find-update ast_id id.value (λ (_ : Eid). global_id) (insert ast_id global_id id_map),
    find-insert ast_id id.value global_id id_map,
  ),
  ground arith,
)

abbrev eid : ℕ → Bool → Eid
eid value is_global = record { value = value; is_global = is_global }
