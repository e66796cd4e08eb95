-- ===== src/ModelPath/Relative.antt =====
-- Relative paths, parents and common paths.
use clang_uml.Prelude.{
  Bool, true, false, Option, none, some, List, [], ◌∷◌, ◌++◌, String, ◌≡◌, refl, sym, ap, ◌∙◌, ◌↔◌,
  arith, leb, if◌then◌else◌, length, drop, Bool-cases, inl, inr, append_assoc, append-nil,
}
use mathlib.Core.List.{reverse, reverse-append}
use clang_uml.ModelPath.{
  ModelPath, vector_starts_with, vector_ends_with, append_name, append_names, drop_last,
  remove_prefix, common_names, set_is_root, joined, parent, starts_with, ends_with, common_path,
  relative_to, name, size,
}
use clang_uml.ModelPath.Prefix.{
  vector_starts_with-append, vector_starts_with-rest, vector_ends_with-append,
  vector_ends_with-rest, common_names-starts, common_names-greatest,
}

-- A path starts with another just when it is that one followed by more names.
pub starts_with_iff :
    (p q : ModelPath)
    → (starts_with p q ≡ true) ↔ ((rest : List String) × (p.path ≡ q.path ++ rest))
starts_with_iff p q = (
  λ h. (drop (length q.path) p.path, vector_starts_with-rest p.path q.path h),
  λ (rest, e). ap (λ l. vector_starts_with l q.path) e ∙ vector_starts_with-append q.path rest,
)

-- A path ends with another just when it is more names followed by that one.
pub ends_with_iff :
    (p q : ModelPath) → (ends_with p q ≡ true) ↔ ((rest : List String) × (p.path ≡ rest ++ q.path))
ends_with_iff p q = (
  vector_ends_with-rest p.path q.path,
  λ (rest, e). ap (λ l. vector_ends_with l q.path) e ∙ vector_ends_with-append rest q.path,
)

drop_append : (xs ys : List String) → drop (length xs) (xs ++ ys) ≡ ys
drop_append [] ys = refl
drop_append (x ∷ xs) ys = drop_append xs ys

append_names-path : (ns : List String) (p : ModelPath) → (append_names ns p).path ≡ p.path ++ ns
unfolding append_name
append_names-path [] p = sym (append-nil p.path)
append_names-path (n ∷ ns) p =
    append_names-path ns (append_name n p) ∙ append_assoc p.path (n ∷ []) ns

set_is_root-path : (r : Bool) (p : ModelPath) → (set_is_root r p).path ≡ p.path
unfolding set_is_root
set_is_root-path r p = ground arith

relative_of-path :
    (res q : ModelPath)
    → (if starts_with res q
        then set_is_root false (record res { path = remove_prefix res.path q.path })
        else res).path
      ≡ remove_prefix res.path q.path
unfolding remove_prefix
relative_of-path res q = elim (Bool-cases (vector_starts_with res.path q.path)) [
  | inl inside ↦
      rw inside (set_is_root-path false (record res { path = drop (length q.path) res.path }))
  | inr outside ↦ rw outside refl
]

relative_to-path : (p q : ModelPath) → (relative_to p q).path ≡ remove_prefix p.path q.path
unfolding relative_to
relative_to-path p q =
    relative_of-path (set_is_root true p) q
    ∙ ap (λ l. remove_prefix l q.path) (set_is_root-path true p)

-- If a path starts with another, then made relative to it and joined to it again it has the names that it
-- had; if it does not, it has its own names when it is made relative.
pub joined-relative_to :
    (p q : ModelPath)
    → (starts_with p q ≡ true → (joined q (relative_to p q)).path ≡ p.path)
      × (starts_with p q ≡ false → (relative_to p q).path ≡ p.path)
unfolding joined remove_prefix
joined-relative_to p q = (
  λ h.
      append_names-path (relative_to p q).path _
      ∙ ap (λ l. q.path ++ l) (relative_to-path p q ∙ rw h refl)
      ∙ sym (vector_starts_with-rest p.path q.path h),
  λ h. relative_to-path p q ∙ rw h refl,
)

-- A path joined to another and made relative to it is the path that it was.
pub relative_to-joined : (p q : ModelPath) → (relative_to (joined q p) q).path ≡ p.path
unfolding joined remove_prefix
relative_to-joined p q =
    let at = append_names-path p.path (record q { path_type = p.path_type }) in
    relative_to-path (joined q p) q
    ∙ ap (λ l. remove_prefix l q.path) at
    ∙ rw (vector_starts_with-append q.path p.path) (drop_append q.path p.path)

split_last :
    (xs : List String) → leb (length xs) 1 ≡ false → (n : String) × (xs ≡ drop_last xs ++ n ∷ [])
split_last [] h = cc
split_last (x ∷ []) h = cc
split_last (x ∷ y ∷ []) h = (y, refl)
split_last (x ∷ y ∷ z ∷ xs) h =
    let (n, e) = split_last (y ∷ z ∷ xs) (ground arith) in (n, ap (λ l. x ∷ l) e)

-- What `parent` gives for a path.
abbrev pub IsParent : ModelPath → Option ModelPath → Type 0
IsParent p none = leb (size p) 1 ≡ true
IsParent p (some q) = (n : String) × (name p ≡ some n) × (p.path ≡ q.path ++ n ∷ [])

-- A path of two names or more is its parent followed by its own name; one of fewer has no parent.
pub parent-IsParent : (p : ModelPath) → IsParent p (parent p)
unfolding parent name
parent-IsParent p = elim (Bool-cases (leb (size p) 1)) [
  | inl short ↦ rw (short, parent) short
  | inr long ↦
      let (n, e) = split_last p.path long in
      rw (long, parent)
        (n, rw (ap reverse e ∙ reverse-append (drop_last p.path) (n ∷ []), name) refl, e)
]

-- The common path of two paths starts both of them, and each path that starts both starts it.
pub common_path-greatest :
    (p q : ModelPath)
    → (starts_with p (common_path p q) ≡ true)
      × (starts_with q (common_path p q) ≡ true)
      × ((r : ModelPath)
          → starts_with p r ≡ true
          → starts_with q r ≡ true
          → starts_with (common_path p q) r ≡ true)
unfolding common_path
common_path-greatest p q =
    let (hp, hq) = common_names-starts p.path q.path in
    let c = common_names p.path q.path in
    (
      ap (λ l. vector_starts_with l c) hp ∙ vector_starts_with-append c _,
      ap (λ l. vector_starts_with l c) hq ∙ vector_starts_with-append c _,
      λ r pr qr.
          ap (λ l. vector_starts_with l r.path)
            (ap (common_names p.path) (vector_starts_with-rest q.path r.path qr)
              ∙ ap (λ l. common_names l (r.path ++ drop (length r.path) q.path))
                  (vector_starts_with-rest p.path r.path pr)
              ∙ common_names-greatest r.path (drop (length r.path) p.path)
                  (drop (length r.path) q.path))
          ∙ vector_starts_with-append r.path
              (common_names (drop (length r.path) p.path) (drop (length r.path) q.path)),
    )
