-- ===== src/NestedTrait/Contents.antt =====
-- What the tree contains, and what the operations do to it.
use clang_uml.Prelude.{
  ℕ, ◌+◌, ◌<◌, ◌≤◌, Bool, true, false, ◌&&◌, List, [], ◌∷◌, ◌++◌, String, ◌==◌, ==_iff, ltb,
  if◌then◌else◌, ◌≡◌, refl, sym, ap, arith, elem, Bool-cases, inl, inr, all_of as all_of_list,
}
use clang_uml.NestedTrait.{
  Elements, no_elements, element, package_, has_id, is_empty, all_of, erase, remove_below,
  get_and_remove, remove,
}

-- The ids of the elements that are no packages, at any depth.
unfoldable pub element_ids : Elements → List ℕ
element_ids no_elements = []
element_ids (element id _ next) = id ∷ element_ids next
element_ids (package_ _ _ _ inner next) = element_ids inner ++ element_ids next

-- All ids, those of packages too.
unfoldable pub ids : Elements → List ℕ
ids no_elements = []
ids (element id _ next) = id ∷ ids next
ids (package_ id _ _ inner next) = id ∷ (ids inner ++ ids next)

all_of_list-append :
    (f : ℕ → Bool) (xs ys : List ℕ)
    → all_of_list f (xs ++ ys) ≡ (all_of_list f xs && all_of_list f ys)
all_of_list-append f [] ys = refl
all_of_list-append f (x ∷ xs) ys = ground (arith, all_of_list-append f xs ys)

-- `all_of` asks the test of each element at any depth, and of no package.
pub all_of-element_ids :
    (f : ℕ → Bool) (es : Elements) → all_of f es ≡ all_of_list f (element_ids es)
unfolding all_of element_ids
all_of-element_ids f no_elements = refl
all_of-element_ids f (element id name next) = ap (λ b. f id && b) (all_of-element_ids f next)
all_of-element_ids f (package_ id name r inner next) =
    rw (all_of-element_ids f inner, all_of-element_ids f next)
      (sym (all_of_list-append f (element_ids inner) (element_ids next)))

-- A tree is empty just when the test that is never true holds of all its elements.
pub is_empty-element_ids : (es : Elements) → is_empty es ≡ all_of (λ _. false) es
unfolding is_empty all_of
is_empty-element_ids no_elements = refl
is_empty-element_ids (element id name next) = refl
is_empty-element_ids (package_ id name r inner next) =
    rw (is_empty-element_ids inner, is_empty-element_ids next) refl

-- How often an id stands in the tree.
abbrev pub count : ℕ → List ℕ → ℕ
count x [] = 0
count x (y ∷ ys) = (if y == x then 1 else 0) + count x ys

pub count-append : (x : ℕ) (xs ys : List ℕ) → count x (xs ++ ys) ≡ count x xs + count x ys
count-append x [] ys = omega arith
count-append x (y ∷ xs) ys = ground (arith, count-append x xs ys)

has_id-count : (id : ℕ) (es : Elements) → has_id id es ≡ true → 0 < count id (ids es)
unfolding has_id ids
has_id-count id no_elements h = cc
has_id-count id (element i name next) h = ground (arith, has_id-count id next)
has_id-count id (package_ i name r inner next) h =
    ground (arith, has_id-count id next, count-append id (ids inner) (ids next))

erase-count :
    (id x : ℕ) (es : Elements)
    → (has_id id es ≡ true → count id (ids (erase id es)) < count id (ids es))
      × (count x (ids (erase id es)) ≤ count x (ids es))
unfolding has_id ids erase
erase-count id x no_elements = (λ h. cc, omega arith)
erase-count id x (element i name next) = ground (arith, erase-count id x next)
erase-count id x (package_ i name r inner next) =
    let h = erase-count id x next in
    let a = count-append id (ids inner) (ids next) in
    let b = count-append x (ids inner) (ids next) in
    let c = count-append id (ids inner) (ids (erase id next)) in
    let e = count-append x (ids inner) (ids (erase id next)) in
    elim (Bool-cases (i == id)) [
      | inl same ↦ rw same (ground (arith, h, a, b, c, e), ground (arith, h, a, b, c, e))
      | inr other ↦ rw other (ground (arith, h, a, b, c, e), ground (arith, h, a, b, c, e))
    ]

-- What taking an id out of the tree does, by what it reports. The id may be at the top of `es`, where
-- the search below does not look.
abbrev IsRemoval : ℕ → Elements → Bool × Elements → Type 0
IsRemoval id es r =
    (r.0 ≡ true → count id (ids r.1) < count id (ids es))
    × (r.0 ≡ false → (r.1 ≡ es) × (has_id id es ≡ false → count id (ids es) ≡ 0))
    × ((x : ℕ) → count x (ids r.1) ≤ count x (ids es))

element-IsRemoval :
    (id i : ℕ) (name : String) (next : Elements) (r : Bool × Elements)
    → IsRemoval id next r
    → IsRemoval id (element i name next) (r.0, element i name r.1)
unfolding ids has_id
element-IsRemoval id i name next r h = (
  λ e. ground (arith, h.0 e),
  λ e. (ap (element i name) (h.1 e).0, λ n. ground (arith, (h.1 e).1, n)),
  λ x. ground (arith, h.2 x),
)

next-IsRemoval :
    (id i : ℕ) (name : String) (root : Bool) (inner next : Elements) (r : Bool × Elements)
    → count id (ids inner) ≡ 0
    → IsRemoval id next r
    → IsRemoval id (package_ i name root inner next) (r.0, package_ i name root inner r.1)
unfolding ids has_id
next-IsRemoval id i name root inner next r z h =
    let a = λ (x : ℕ). count-append x (ids inner) (ids next) in
    let b = λ (x : ℕ). count-append x (ids inner) (ids r.1) in
    (
      λ e. ground (arith, h.0 e, a id, b id),
      λ e. (ap (package_ i name root inner) (h.1 e).0, λ n. ground (arith, (h.1 e).1, n, a id)),
      λ x. ground (arith, h.2 x, a x, b x),
    )

inner-IsRemoval :
    (id i : ℕ) (name : String) (root : Bool) (inner taken next : Elements)
    → count id (ids taken) < count id (ids inner)
    → ((x : ℕ) → count x (ids taken) ≤ count x (ids inner))
    → IsRemoval id (package_ i name root inner next) (true, package_ i name root taken next)
unfolding ids has_id
inner-IsRemoval id i name root inner taken next l m =
    let a = λ (x : ℕ). count-append x (ids inner) (ids next) in
    let b = λ (x : ℕ). count-append x (ids taken) (ids next) in
    (λ e. ground (arith, l, a id, b id), λ e. cc, λ x. ground (arith, m x, a x, b x))

remove_below-IsRemoval : (id : ℕ) (es : Elements) → IsRemoval id es (remove_below id es)
unfolding remove_below ids
remove_below-IsRemoval id no_elements = (λ e. cc, λ _. (refl, λ _. refl), λ x. omega arith)
remove_below-IsRemoval id (element i name next) =
    element-IsRemoval id i name next (remove_below id next) (remove_below-IsRemoval id next)
remove_below-IsRemoval id (package_ i name root inner next) =
    let below = remove_below-IsRemoval id inner in
    elim (Bool-cases (has_id id inner)) [
      | inl here ↦
          rw (here, remove_below)
            (inner-IsRemoval id i name root inner (erase id inner) next
              ((erase-count id id inner).0 here) (λ x. (erase-count id x inner).1))
      | inr deeper ↦ elim (Bool-cases (remove_below id inner).0) [
        | inl found ↦
            rw (deeper, found, remove_below)
              (inner-IsRemoval id i name root inner (remove_below id inner).1 next (below.0 found)
                below.2)
        | inr absent ↦
            rw (deeper, absent, remove_below)
              (next-IsRemoval id i name root inner next (remove_below id next)
                ((below.1 absent).1 deeper) (remove_below-IsRemoval id next))
      ]
    ]

both : {r : Bool × Elements} {b : Bool} {es : Elements} → r.0 ≡ b → r.1 ≡ es → r ≡ (b, es)
both h k = cc

-- Removing an id that stands in the tree takes it out; one that does not stand in it leaves the tree
-- as it is. No other id comes to stand in the tree more often than before.
pub get_and_remove_lem :
    (id : ℕ) (es : Elements)
    → (0 < count id (ids es)
        → ((get_and_remove id es).0 ≡ true)
          × (count id (ids (get_and_remove id es).1) < count id (ids es)))
      × (count id (ids es) ≡ 0 → get_and_remove id es ≡ (false, es))
      × ((x : ℕ) → count x (ids (get_and_remove id es).1) ≤ count x (ids es))
unfolding get_and_remove
get_and_remove_lem id es =
    let below = remove_below-IsRemoval id es in
    elim (Bool-cases (has_id id es)) [
      | inl here ↦
          rw (here, get_and_remove)
            (
              λ _. (refl, (erase-count id id es).0 here),
              λ z.
                  let impossible : ⊥ = omega (arith, z, has_id-count id es here) in
                  elim impossible [ ],
              λ x. (erase-count id x es).1,
            )
      | inr deeper ↦
          rw (deeper, get_and_remove)
            (elim (Bool-cases (remove_below id es).0) [
              | inl found ↦ (
                λ _. (found, below.0 found),
                λ z. let impossible : ⊥ = omega (arith, z, below.0 found) in elim impossible [ ],
                below.2,
              )
              | inr absent ↦
                  let none_there = (below.1 absent).1 deeper in
                  (
                    λ p. let impossible : ⊥ = omega (arith, p, none_there) in elim impossible [ ],
                    λ z. both absent (below.1 absent).0,
                    below.2,
                  )
            ])
    ]

remove_mono :
    (element_ids : List ℕ) (es : Elements) (x : ℕ)
    → count x (ids (remove element_ids es)) ≤ count x (ids es)
unfolding remove
remove_mono [] es x = omega arith
remove_mono (y ∷ element_ids) es x =
    omega (arith, remove_mono element_ids (get_and_remove y es).1 x, (get_and_remove_lem y es).2 x)

taken_out :
    (x : ℕ) (es : Elements)
    → ((y : ℕ) → count y (ids es) ≤ 1)
    → count x (ids (get_and_remove x es).1) ≡ 0
taken_out x es u =
    let (taken, _, fewer) = get_and_remove_lem x es in
    elim (Bool-cases (ltb 0 (count x (ids es)))) [
      | inl there ↦ omega (arith, u x, (taken (ground arith)).1)
      | inr absent ↦ ground (arith, fewer x)
    ]

-- When no id stands in the tree twice, none of the ids that are removed stands in it afterwards.
pub remove-count :
    (element_ids : List ℕ) (es : Elements) (id : ℕ)
    → ((x : ℕ) → count x (ids es) ≤ 1)
    → elem id element_ids ≡ true
    → count id (ids (remove element_ids es)) ≡ 0
unfolding remove
remove-count [] es id u h = cc
remove-count (x ∷ element_ids) es id u h =
    let es' = (get_and_remove x es).1 in
    let (taken, _, fewer) = get_and_remove_lem x es in
    elim (Bool-cases (id == x)) [
      | inl same ↦
          rw ((==_iff id x).0 same) (omega (arith, remove_mono element_ids es' x, taken_out x es u))
      | inr other ↦
          remove-count element_ids es' id (λ y. omega (arith, u y, fewer y))
            (ground (arith, h, other))
    ]
