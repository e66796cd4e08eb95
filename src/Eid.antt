-- ===== src/Eid.antt =====
-- `eid_t` (src/common/types.{h,cc}), the id of an element, and the map from the ids of the syntax tree to
-- those of the diagram (src/common/visitor/ast_id_mapper.cc). A local id is the value of its 64 bits.
pub mod Mapping
mod Samples
use clang_uml.Prelude.{
  ℕ, ◌+◌, ◌%◌, Bool, true, false, not, ◌&&◌, Option, none, some, List, ◌==◌, ltb, if◌then◌else◌,
  find, insert, update, contains,
}

pub record Eid : Type 0 where
  pub value : ℕ
  pub is_global : Bool

abbrev pub same_kind : Bool → Bool → Bool
same_kind true r = r
same_kind false r = not r

-- operator==
unfoldable pub eid_eq : Eid → Eid → Bool
eid_eq lhs rhs = same_kind lhs.is_global rhs.is_global && lhs.value == rhs.value

-- operator<, whose sum is one of 64 bits, modulo 2 ^ 64.
unfoldable pub eid_lt : Eid → Eid → Bool
eid_lt lhs rhs =
    if not (same_kind lhs.is_global rhs.is_global)
    then ltb lhs.value ((rhs.value + 1) % 18446744073709551616)
    else ltb lhs.value rhs.value

-- id_map_[ast_id] = global_id
unfoldable pub add : ℕ → Eid → List (ℕ × Eid) → List (ℕ × Eid)
add ast_id global_id id_map = update ast_id (λ _. global_id) (insert ast_id global_id id_map)

unfoldable pub get_global_id : List (ℕ × Eid) → Eid → Option Eid
get_global_id id_map ast_id = if ast_id.is_global then none else find ast_id.value id_map

unfoldable pub resolve_or : List (ℕ × Eid) → Eid → Eid
resolve_or id_map id =
    if id.is_global then id else elim (find id.value id_map) [ none ↦ id | some g ↦ g ]
