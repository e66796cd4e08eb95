-- ===== src/ClassDiagram/Redundant.antt =====
-- The relationships that an element keeps.
use clang_uml.Prelude.{
  ℕ, Bool, true, false, not, ◌&&◌, List, [], ◌∷◌, ◌≡◌, refl, sym, ◌∙◌, arith, ◌==◌, elem,
  emplace_all, elem-emplace_all, any_of, erase_if, All, All-mono, All-erase_if, Bool-cases, inl,
  inr,
}
use clang_uml.ClassDiagram.{
  Relationship, DiagramElement, is_dependency, other_destinations, is_redundant, remove_redundant,
}

abbrev pub points_to : ℕ → Relationship → Bool
points_to j r = r.destination == j

-- Whether an element has a relationship to another that is no dependency.
abbrev pub is_tied : ℕ → List Relationship → Bool
is_tied j rs = any_of (λ r. not (is_dependency r) && points_to j r) rs

other_destinations-is_tied :
    (rs : List Relationship) (j : ℕ) → elem j (other_destinations rs) ≡ is_tied j rs
other_destinations-is_tied [] j = refl
other_destinations-is_tied (r ∷ rs) j = ground (arith, other_destinations-is_tied rs j)

-- A set of destinations that all have a relationship that is kept.
kept-points_to :
    (id j : ℕ) (s : List ℕ) (rs : List Relationship)
    → (j == id) ≡ false
    → any_of (points_to j) rs ≡ true
    → elem j s ≡ false
    → any_of (points_to j) (erase_if (is_redundant id s) rs) ≡ true
kept-points_to id j s [] n h e = cc
kept-points_to id j s (r ∷ rs) n h e =
    let later = kept-points_to id j s rs n in ground (arith, later)

kept-is_tied :
    (id j : ℕ) (s : List ℕ) (rs : List Relationship)
    → is_tied j rs ≡ is_tied j (erase_if (is_redundant id s) rs)
kept-is_tied id j s [] = refl
kept-is_tied id j s (r ∷ rs) = ground (arith, kept-is_tied id j s rs)

is_tied-points_to :
    (j : ℕ) (rs : List Relationship) → is_tied j rs ≡ true → any_of (points_to j) rs ≡ true
is_tied-points_to j [] h = h
is_tied-points_to j (r ∷ rs) h = ground (arith, is_tied-points_to j rs)

-- Removing the redundant dependencies of an element loses no link: every destination other than the
-- element itself that a relationship pointed to is still pointed to. Of the relationships that are
-- left, no dependency points to the element itself or to a destination of another kind of
-- relationship.
pub remove_redundant_lem :
    (el : DiagramElement)
    → ((j : ℕ)
        → (j == el.id) ≡ false
        → any_of (points_to j) el.relationships ≡ true
        → any_of (points_to j) (remove_redundant el).relationships ≡ true)
      × All
          (λ r.
            is_dependency r ≡ true
            → ((r.destination == el.id) ≡ false)
              × (is_tied r.destination (remove_redundant el).relationships ≡ false))
          (remove_redundant el).relationships
unfolding remove_redundant
remove_redundant_lem el =
    let s = emplace_all (other_destinations el.relationships) [] in
    let tied = λ (j : ℕ). elem-emplace_all (other_destinations el.relationships) [] j in
    (
      λ j n h. elim (Bool-cases (is_tied j el.relationships)) [
        | inl t ↦ is_tied-points_to j _ (sym (kept-is_tied el.id j s el.relationships) ∙ t)
        | inr t ↦
            kept-points_to el.id j s el.relationships n h
              (ground (arith, tied j, other_destinations-is_tied el.relationships j, t))
      ],
      All-mono _ _ _
          (λ r kept dep. ground (
            arith,
            kept,
            dep,
            tied r.destination,
            other_destinations-is_tied el.relationships r.destination,
            kept-is_tied el.id r.destination s el.relationships,
          ))
          (All-erase_if (is_redundant el.id s) el.relationships),
    )
