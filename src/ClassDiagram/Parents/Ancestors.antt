-- ===== src/ClassDiagram/Parents/Ancestors.antt =====
-- The set that `get_parents` ends with.
use clang_uml.Prelude.{
  ℕ, zero, suc, ◌<◌, Bool, true, false, ◌||◌, some, List, [], ◌∷◌, ◌≡◌, refl, sym, ap, ◌∙◌, ◌↔◌,
  arith, ◌==◌, ==_iff, ==_refl, any_of, elem, length, Bool-cases, inl, inr,
}
use clang_uml.ClassDiagram.{Diagram}
use clang_uml.ClassDiagram.Parents.{emplace_parents, get_parents}
use clang_uml.ClassDiagram.Parents.Reached.{is_base, elem-emplace_parents}
use clang_uml.ClassDiagram.Parents.Growth.{
  missing, missing-le-length, missing-lt, IsWithin, Grows-emplace_parents,
}

-- A class, its base classes, their base classes and so on.
pub data Ancestor (d : Diagram) (p : ℕ) : ℕ → Type 0 where
  itself : Ancestor d p p
  base_of : {r q : ℕ} → Ancestor d p r → is_base d q r ≡ true → Ancestor d p q

pub any_of-elem :
    (f : ℕ → Bool) (xs : List ℕ) → any_of f xs ≡ true → (y : ℕ) × (elem y xs ≡ true) × (f y ≡ true)
any_of-elem f [] h = absurd cc
any_of-elem f (x ∷ xs) h = elim (Bool-cases (f x)) [
  | inl here ↦ (x, rw (==_refl x) refl, here)
  | inr other ↦
      let (y, inside, holds) =
        any_of-elem f xs (let rest : any_of f xs ≡ true = ground (arith, h, other) in rest) in
      (y, ground (arith, inside), holds)
]

pub elem-any_of :
    (f : ℕ → Bool) (xs : List ℕ) (y : ℕ) → elem y xs ≡ true → f y ≡ true → any_of f xs ≡ true
elem-any_of f [] y inside holds = absurd cc
elem-any_of f (x ∷ xs) y inside holds = elim (Bool-cases (y == x)) [
  | inl same ↦
      let here : f x ≡ true = ap f (sym ((==_iff y x).0 same)) ∙ holds in ground (arith, here)
  | inr other ↦
      let rest : any_of f xs ≡ true =
        elem-any_of f xs y (let e : elem y xs ≡ true = ground (arith, inside, other) in e) holds in
      ground (arith, rest)
]

module _ (d : Diagram) where
  -- A set that holds the bases of all its classes, what it started from, and only what must be in it.
  abbrev Result : (ℕ → Type 0) → List ℕ → List ℕ → Type 0
  Result P ps qs =
      IsWithin ps qs
      × ((x : ℕ) → elem x qs ≡ true → P x)
      × ((x : ℕ) → any_of (is_base d x) qs ≡ true → elem x qs ≡ true)

  rounds :
      (P : ℕ → Type 0)
      → ((x y : ℕ) → P y → is_base d x y ≡ true → P x)
      → (fuel : ℕ) (ps : List ℕ) → missing ps d.classes < fuel
      → ((x : ℕ) → elem x ps ≡ true → P x)
      → (qs : List ℕ) × (get_parents d fuel ps ≡ some qs) × Result P ps qs
  unfolding get_parents
  rounds P closed zero ps lt h = absurd (omega arith)
  rounds P closed (suc fuel) ps lt h =
      let s = emplace_parents d ps (false, ps) in
      let g = Grows-emplace_parents d ps (false, ps) in
      let member = λ (x : ℕ). elem-emplace_parents d x ps (false, ps) in
      let all : (x : ℕ) → elem x s.1 ≡ true → P x = λ x k. from_start x (sym (member x) ∙ k) in
      elim (Bool-cases s.0) [
        | inl found ↦ elim (g.new found) [
          | inl clash ↦ absurd cc
          | inr (x, there, out, inside) ↦
              let fewer = missing-lt ps s.1 d.classes x g.within there out inside in
              let (qs, e, (within, holds, all_bases)) =
                rounds P closed fuel s.1 (omega (arith, fewer, lt)) all in
              (qs, rw found e, (λ y k. within y (g.within y k), holds, all_bases))
        ]
        | inr nothing ↦
            let same : s.1 ≡ ps = ap (λ (t : Bool × List ℕ). t.1) (g.old nothing) in
            (
              s.1,
              rw nothing refl,
              (
                g.within,
                all,
                λ x k. member x ∙ or_true (elem x ps) (ap (any_of (is_base d x)) (sym same) ∙ k),
              ),
            )
      ]
    where
      from_start : (x : ℕ) → (elem x ps || any_of (is_base d x) ps) ≡ true → P x
      from_start x k = elim (Bool-cases (elem x ps)) [
        | inl inside ↦ h x inside
        | inr out ↦
            let some_base : any_of (is_base d x) ps ≡ true = ground (arith, k, out) in
            let (y, inside, base) = any_of-elem (is_base d x) ps some_base in
            closed x y (h y inside) base
      ]

      or_true : (a : Bool) {b : Bool} → b ≡ true → (a || b) ≡ true
      or_true true k = refl
      or_true false k = k

  reached :
      (p : ℕ) (qs : List ℕ)
      → elem p qs ≡ true
      → ((x : ℕ) → any_of (is_base d x) qs ≡ true → elem x qs ≡ true)
      → {x : ℕ} → Ancestor d p x
      → elem x qs ≡ true
  reached p qs inside all_bases itself = inside
  reached p qs inside all_bases {x} (base_of {r} up base) =
      all_bases x (elem-any_of (is_base d x) qs r (reached p qs inside all_bases up) base)

  -- With fuel above the number of classes, `get_parents` ends, and a class is in the set then exactly
  -- if it is one of the classes at the start, a base class of one, a base class of that, and so on.
  pub get_parents-Ancestor :
      (fuel : ℕ) (parents : List ℕ)
      → length d.classes < fuel
      → (result : List ℕ) × (get_parents d fuel parents ≡ some result)
        × ((x : ℕ) → (elem x result ≡ true) ↔ ((p : ℕ) × (elem p parents ≡ true) × Ancestor d p x))
  get_parents-Ancestor fuel parents lt =
      let (qs, e, (within, holds, all_bases)) =
        rounds (λ x. (p : ℕ) × (elem p parents ≡ true) × Ancestor d p x)
          (λ x y (p, inside, up) base. (p, inside, base_of up base)) fuel parents
          (omega (arith, missing-le-length parents d.classes, lt)) (λ x k. (x, k, itself)) in
      (qs, e, λ x. (holds x, λ (p, inside, up). reached p qs (within p inside) all_bases up))
