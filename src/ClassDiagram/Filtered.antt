-- ===== src/ClassDiagram/Filtered.antt =====
-- The loop of `apply_filter` ends, and what is left is included.
use clang_uml.Prelude.{
  ℕ, zero, suc, ◌<◌, Bool, true, not, Option, none, some, List, [], ◌∷◌, ◌++◌, map, ◌≡◌, refl, sym,
  ap, ◌∙◌, arith, ◌==◌, if◌then◌else◌, elem, emplace, elem-emplace, length, any_of, erase_if,
  erase_if-append, length-erase_if-lt, All, Bool-cases, Option-cases, ◌⊎◌, inl, inr,
}
use mathlib.Core.List.{map-append}
use clang_uml.ClassDiagram.{
  Relationship, DiagramElement, Diagram, Filter, elements, remove, rejected, remove_elements,
  remove_rejected, filter_relationships, for_all_elements, apply_filter,
}

rejected_mono :
    (include : DiagramElement → Bool) (els : List DiagramElement) (s : List ℕ) (x : ℕ)
    → elem x s ≡ true
    → elem x (rejected include els s) ≡ true
rejected_mono include [] s x h = h
rejected_mono include (el ∷ els) s x h =
    rejected_mono include els _ x (ground (arith, h, elem-emplace el.id x s))

-- Nothing is rejected just when everything is included.
rejected-All :
    (include : DiagramElement → Bool) (els : List DiagramElement)
    → rejected include els [] ≡ []
    → All (λ el. include el ≡ true) els
rejected-All include [] h = tt
rejected-All include (el ∷ els) h = elim (Bool-cases (include el)) [
  | inl kept ↦ (kept, rejected-All include els (rw kept at h))
  | inr gone ↦
      let there =
        rejected_mono include els (emplace el.id []) el.id
          (ground (arith, elem-emplace el.id el.id [])) in
      let nowhere = rw gone at h in
      let impossible : ⊥ = ground (arith, rw nowhere at there) in elim impossible [ ]
]

some_rejected :
    (include : DiagramElement → Bool) (els : List DiagramElement) (s : List ℕ) (x : ℕ)
    → elem x (rejected include els s) ≡ true
    → (elem x s ≡ true) ⊎ (any_of (λ (e : DiagramElement). e.id == x) els ≡ true)
some_rejected include [] s x h = inl h
some_rejected include (el ∷ els) s x h =
    elim (some_rejected include els (if include el then s else emplace el.id s) x h) [
      | inl old ↦ ground (arith, old, elem-emplace el.id x s)
      | inr later ↦ inr (ground (arith, later))
    ]

elements-remove :
    (ids : List ℕ) (d : Diagram) → elements (remove_elements ids d) ≡ remove ids (elements d)
unfolding remove_elements remove
elements-remove ids d =
    let p = λ (e : DiagramElement). elem e.id ids in
    sym (
      erase_if-append p (d.classes ++ d.enums ++ d.concepts) d.objc_interfaces
      ∙ ap (λ l. l ++ erase_if p d.objc_interfaces)
          (erase_if-append p (d.classes ++ d.enums) d.concepts
            ∙ ap (λ l. l ++ erase_if p d.concepts) (erase_if-append p d.classes d.enums)))

any_of-id :
    (x : ℕ) (ids : List ℕ) (els : List DiagramElement)
    → any_of (λ (e : DiagramElement). e.id == x) els ≡ true
    → any_of (λ (e : DiagramElement). elem e.id (x ∷ ids)) els ≡ true
any_of-id x ids [] h = h
any_of-id x ids (el ∷ els) h = ground (arith, any_of-id x ids els)

List-cases : (xs : List ℕ) → (xs ≡ []) ⊎ ((x : ℕ) × (rest : List ℕ) × (xs ≡ x ∷ rest))
List-cases [] = inl refl
List-cases (x ∷ rest) = inr (x, rest, refl)

-- What the loop gives: a diagram all of whose elements are included in it.
abbrev pub IsIncluded : Filter → Option Diagram → Type 0
IsIncluded f none = ⊥
IsIncluded f (some d) = All (λ el. f.should_include d el ≡ true) (elements d)

remove_elements-lt :
    (f : Filter) (d : Diagram) (x : ℕ) (ids : List ℕ)
    → rejected (f.should_include d) (elements d) [] ≡ x ∷ ids
    → length (elements (remove_elements (rejected (f.should_include d) (elements d) []) d))
      < length (elements d)
unfolding remove
remove_elements-lt f d x ids h =
    let from = some_rejected (f.should_include d) (elements d) [] x (rw h (ground arith)) in
    let some_id : any_of (λ (e : DiagramElement). e.id == x) (elements d) ≡ true =
      ground (arith, from) in
    rw (h, elements-remove (x ∷ ids) d)
      (length-erase_if-lt (λ (e : DiagramElement). elem e.id (x ∷ ids)) (elements d)
        (any_of-id x ids (elements d) some_id))

pub remove_rejected-IsIncluded :
    (fuel : ℕ) (f : Filter) (d : Diagram)
    → length (elements d) < fuel
    → IsIncluded f (remove_rejected fuel f d)
unfolding remove_rejected
remove_rejected-IsIncluded zero f d l = let impossible : ⊥ = omega (arith, l) in elim impossible [ ]
remove_rejected-IsIncluded (suc fuel) f d l =
    elim (List-cases (rejected (f.should_include d) (elements d) [])) [
      | inl e ↦ rw (e, remove_rejected) (rejected-All (f.should_include d) (elements d) e)
      | inr (x, ids, e) ↦
          rw (e, remove_rejected)
            (remove_rejected-IsIncluded fuel f
              (remove_elements (rejected (f.should_include d) (elements d) []) d)
              (omega (arith, l, remove_elements-lt f d x ids e)))
    ]

abbrev pub with_included : (Relationship → Bool) → DiagramElement → DiagramElement
with_included include el = record el {
  relationships = erase_if (λ r. not (include r)) el.relationships;
}

-- What filtering gives: the elements of a diagram in which each is included, each with those of its
-- relationships that are included, and in their order.
abbrev pub IsFiltered : Filter → Option Diagram → Type 0
IsFiltered f none = ⊥
IsFiltered f (some d) =
    (d' : Diagram) × All (λ el. f.should_include d' el ≡ true) (elements d')
    × (elements d ≡ map (with_included (f.should_include_relationship d')) (elements d'))

erase_nothing :
    (rs : List Relationship) → erase_if (λ (r : Relationship). elem r.destination []) rs ≡ rs
erase_nothing [] = refl
erase_nothing (r ∷ rs) = ap (λ l. r ∷ l) (erase_nothing rs)

filter-with_included :
    (include : Relationship → Bool) (els : List DiagramElement)
    → map (filter_relationships include []) els ≡ map (with_included include) els
unfolding filter_relationships
filter-with_included include [] = refl
filter-with_included include (el ∷ els) =
    rw (erase_nothing (erase_if (λ r. not (include r)) el.relationships))
      (ap (λ l. with_included include el ∷ l) (filter-with_included include els))

elements-for_all :
    (g : DiagramElement → DiagramElement) (d : Diagram)
    → elements (for_all_elements g d) ≡ map g (elements d)
elements-for_all g d = sym (
    map-append g (d.classes ++ d.enums ++ d.concepts) d.objc_interfaces
    ∙ ap (λ l. l ++ map g d.objc_interfaces)
        (map-append g (d.classes ++ d.enums) d.concepts
          ∙ ap (λ l. l ++ map g d.concepts) (map-append g d.classes d.enums)))

-- With more fuel than the diagram has elements the filtering of a class diagram ends; what it gives is
-- a diagram in which the filter includes each element, with the relationships that it includes. No
-- relationship is removed for the element that it points to.
pub apply_filter-IsFiltered :
    (fuel : ℕ) (f : Filter) (d : Diagram)
    → length (elements d) < fuel
    → IsFiltered f (apply_filter fuel f d)
unfolding apply_filter
apply_filter-IsFiltered fuel f d l =
    let h = remove_rejected-IsIncluded fuel f d l in
    elim (Option-cases (remove_rejected fuel f d)) [
      | inl e ↦ elim (rw e at h) [ ]
      | inr (d', e) ↦
          rw (e, apply_filter)
            (d', rw e at h, elements-for_all _ d' ∙ filter-with_included _ (elements d'))
    ]
