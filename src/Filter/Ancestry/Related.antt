-- ===== src/Filter/Ancestry/Related.antt =====
-- What `subclass_filter` and `parents_filter` say, in terms of base classes.
use clang_uml.Prelude.{
  ℕ, suc, Bool, true, false, ◌&&◌, ◌||◌, String, some, List, [], ◌∷◌, ◌≡◌, refl, sym, ap, ◌∙◌, ◌↔◌,
  arith, str_eq, ◌==◌, if◌then◌else◌, any_of, length, elem, emplace, elem-emplace,
}
use clang_uml.ClassDiagram.{DiagramElement, Diagram}
use clang_uml.ClassDiagram.Parents.Ancestors.{
  Ancestor, get_parents-Ancestor, any_of-elem, elem-any_of,
}
use clang_uml.Filter.Ancestry.{
  all_parents, is_empty, has_name, find_class, full_name_matches, subclass_match, emplace_matching,
  matching_children, parents_match,
}

any_of-false {ℓ} : {A : Type ℓ} (xs : List A) → any_of (λ _. false) xs ≡ false
any_of-false [] = refl
any_of-false (x ∷ xs) = any_of-false xs

any_of-or {ℓ} :
    {A : Type ℓ} (f g : A → Bool) (xs : List A)
    → any_of (λ x. f x || g x) xs ≡ (any_of f xs || any_of g xs)
any_of-or f g [] = refl
any_of-or f g (x ∷ xs) = ground (arith, any_of-or f g xs)

any_of_swap {ℓ κ} :
    {A : Type ℓ} {B : Type κ} (f : A → B → Bool) (xs : List A) (ys : List B)
    → any_of (λ x. any_of (f x) ys) xs ≡ any_of (λ y. any_of (λ x. f x y) xs) ys
any_of_swap f [] ys = sym (any_of-false ys)
any_of_swap f (x ∷ xs) ys =
    ap (λ b. any_of (f x) ys || b) (any_of_swap f xs ys)
    ∙ sym (any_of-or (f x) (λ y. any_of (λ x. f x y) xs) ys)

-- A class that passes a test is reached from the set.
abbrev pub Reaches : Diagram → (ℕ → Bool) → (ℕ → Bool) → Type 0
Reaches d start test = (x : ℕ) × (p : ℕ) × (start p ≡ true) × Ancestor d p x × (test x ≡ true)

all_parents-Reaches :
    (d : Diagram) (test : ℕ → Bool) (ps : List ℕ)
    → (qs : List ℕ) × (all_parents d ps ≡ some qs)
      × ((any_of test qs ≡ true) ↔ Reaches d (λ p. elem p ps) test)
all_parents-Reaches d test ps =
    let (qs, e, members) = get_parents-Ancestor d (suc (length d.classes)) ps (omega arith) in
    (
      qs,
      e,
      (
        λ h.
            let (x, inside, holds) = any_of-elem test qs h in
            let (p, start, up) = (members x).0 inside in (x, p, start, up, holds),
        λ (x, p, start, up, holds). elem-any_of test qs x ((members x).1 (p, start, up)) holds,
      ),
    )

module _ (escaped : String → String) (d : Diagram) where
  -- In a class diagram that is complete, with a root, the subclass filter is true of an element whose
  -- class is found exactly if that class, or a class that it is derived from, has a name that matches a root.
  pub subclass_match-Reaches :
      (roots : List (String → Bool)) (e c : DiagramElement)
      → is_empty roots ≡ false
      → find_class escaped d e.full_name ≡ some c
      → (b : Bool) × (subclass_match escaped d true true roots e ≡ some (some b))
        × ((b ≡ true)
            ↔ Reaches d
                (λ p. p == c.id)
                (λ x. any_of (λ root. full_name_matches escaped d root x) roots))
  unfolding subclass_match
  subclass_match-Reaches roots e c nonempty found =
      let test = λ (x : ℕ). any_of (λ root. full_name_matches escaped d root x) roots in
      let (qs, made, iff) = all_parents-Reaches d test (c.id ∷ []) in
      let b = any_of (λ root. any_of (full_name_matches escaped d root) qs) roots in
      let swapped : b ≡ any_of test qs = any_of_swap (full_name_matches escaped d) roots qs in
      (
        b,
        rw (nonempty, found, made) refl,
        (
          λ h.
              let (x, p, start, up, holds) = iff.0 (sym swapped ∙ h) in
              (x, p, (let s : (p == c.id) ≡ true = ground (arith, start) in s), up, holds),
          λ (x, p, start, up, holds).
              swapped
              ∙ iff.1 (
                x,
                p,
                (let s : elem p (c.id ∷ []) ≡ true = ground (arith, start) in s),
                up,
                holds,
              ),
        ),
      )

  abbrev pub is_child : List (String → Bool) → ℕ → Bool
  is_child children p =
      any_of (λ pattern. any_of (λ c. has_name escaped d pattern c && p == c.id) d.classes) children

  elem-emplace_matching :
      (pattern : String → Bool) (cs : List DiagramElement) (s : List ℕ) (x : ℕ)
      → elem x (emplace_matching escaped d pattern cs s)
        ≡ (elem x s || any_of (λ c. has_name escaped d pattern c && x == c.id) cs)
  unfolding emplace_matching
  elem-emplace_matching pattern [] s x = ground arith
  elem-emplace_matching pattern (c ∷ cs) s x =
      elem-emplace_matching pattern cs (if has_name escaped d pattern c then emplace c.id s else s)
        x
      ∙ ground (arith, elem-emplace c.id x s)

  elem-matching_children :
      (patterns : List (String → Bool)) (s : List ℕ) (x : ℕ)
      → elem x (matching_children escaped d patterns s) ≡ (elem x s || is_child patterns x)
  unfolding matching_children
  elem-matching_children [] s x = ground arith
  elem-matching_children (pattern ∷ patterns) s x =
      elem-matching_children patterns (emplace_matching escaped d pattern d.classes s) x
      ∙ ground (arith, elem-emplace_matching pattern d.classes s x)

  -- In a class diagram that is complete, with a child pattern, the parents filter is true of an element
  -- exactly if its name is that of a class that matches a pattern, or that such a class is derived from.
  pub parents_match-Reaches :
      (children : List (String → Bool)) (e : DiagramElement)
      → is_empty children ≡ false
      → (b : Bool) × (parents_match escaped d true true children e ≡ some (some b))
        × ((b ≡ true)
            ↔ Reaches d (is_child children) (full_name_matches escaped d (str_eq e.full_name)))
  unfolding parents_match
  parents_match-Reaches children e nonempty =
      let test = full_name_matches escaped d (str_eq e.full_name) in
      let (qs, made, iff) = all_parents-Reaches d test (matching_children escaped d children []) in
      let child = elem-matching_children children [] in
      (
        any_of test qs,
        rw (nonempty, made) refl,
        (
          λ h. let (x, p, start, up, holds) = iff.0 h in (x, p, sym (child p) ∙ start, up, holds),
          λ (x, p, start, up, holds). iff.1 (x, p, child p ∙ start, up, holds),
        ),
      )
