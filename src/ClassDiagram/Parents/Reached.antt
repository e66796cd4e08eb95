-- ===== src/ClassDiagram/Parents/Reached.antt =====
-- What `get_parents` finds: the classes that are reached along the relationships of derivation.
use clang_uml.Prelude.{
  ℕ, Bool, true, false, ◌&&◌, ◌||◌, Option, none, some, List, [], ◌∷◌, ◌≡◌, refl, sym, ap, ◌∙◌,
  arith, ◌==◌, ==_iff, any_of, elem, elem-emplace, Bool-cases, inl, inr,
}
use clang_uml.ClassDiagram.{Relationship, DiagramElement, Diagram, get_element_id, has_element_id}
use clang_uml.ClassDiagram.Parents.{
  is_extension, emplace_class, emplace_bases, relationships_of, emplace_parents,
}

pub id-get_element_id :
    (id : ℕ) (view : List DiagramElement) (p : DiagramElement)
    → get_element_id id view ≡ some p
    → p.id ≡ id
id-get_element_id id [] p h = cc
id-get_element_id id (c ∷ view) p h = elim (Bool-cases (c.id == id)) [
  | inl same ↦ (let e : c.id ≡ p.id = ground (arith, h, same) in sym e ∙ (==_iff c.id id).0 same)
  | inr other ↦
      id-get_element_id id view p
        (let rest : get_element_id id view ≡ some p = ground (arith, h, other) in rest)
]

pub has_element_id-get :
    (id : ℕ) (view : List DiagramElement)
    → has_element_id id view
      ≡ elim (get_element_id id view) as (λ _. Bool) [ none ↦ false | some _ ↦ true ]
has_element_id-get id [] = refl
has_element_id-get id (c ∷ view) = ground (arith, has_element_id-get id view)

module _ (d : Diagram) where
  -- The class `x` of the diagram is a base class in the relationships.
  abbrev pub is_base_in : ℕ → List Relationship → Bool
  is_base_in x rels =
      any_of (λ rel. is_extension rel && rel.destination == x) rels && has_element_id x d.classes

  abbrev pub is_base : ℕ → ℕ → Bool
  is_base x id = is_base_in x (relationships_of d id)

  abbrev there : Option DiagramElement → Bool
  there none = false
  there (some _) = true

  elem-emplace_class :
      (x dest : ℕ) (o : Option DiagramElement) (s : Bool × List ℕ)
      → ((p : DiagramElement) → o ≡ some p → p.id ≡ dest)
      → elem x (emplace_class o s).1 ≡ (elem x s.1 || (dest == x && there o))
  unfolding emplace_class
  elem-emplace_class x dest none (f, ps) h = ground arith
  elem-emplace_class x dest (some p) (f, ps) h =
      let at : p.id ≡ dest = h p refl in
      ground (arith, elem-emplace p.id x ps, ==_iff dest x, ==_iff x p.id, at)

  distribute :
      (a e t r h : Bool)
      → (e ≡ true → h ≡ t)
      → ((a || (e && t)) || (r && h)) ≡ (a || ((e || r) && h))
  distribute a true t r h same = let e : h ≡ t = same refl in ground (arith, e)
  distribute a false t r h same = ground arith

  elem-emplace_bases :
      (x : ℕ) (rels : List Relationship) (s : Bool × List ℕ)
      → elem x (emplace_bases d rels s).1 ≡ (elem x s.1 || is_base_in x rels)
  unfolding emplace_bases
  elem-emplace_bases x [] s = ground arith
  elem-emplace_bases x (rel ∷ rels) s = elim (Bool-cases (is_extension rel)) [
    | inr other ↦ rw (other, emplace_bases) (elem-emplace_bases x rels s)
    | inl ext ↦
        let o = get_element_id rel.destination d.classes in
        let here =
          elem-emplace_class x rel.destination o s
            (λ p. id-get_element_id rel.destination d.classes p) in
        rw (ext, emplace_bases)
          (elem-emplace_bases x rels (emplace_class o s)
            ∙ ap (λ b. b || is_base_in x rels) here
            ∙ distribute (elem x s.1) (rel.destination == x) (there o)
                (any_of (λ r. is_extension r && r.destination == x) rels)
                (has_element_id x d.classes)
                (λ e.
                  has_element_id-get x d.classes
                  ∙ ap (λ k. there (get_element_id k d.classes))
                      (sym ((==_iff rel.destination x).0 e))))
  ]

  pub elem-emplace_parents :
      (x : ℕ) (ids : List ℕ) (s : Bool × List ℕ)
      → elem x (emplace_parents d ids s).1 ≡ (elem x s.1 || any_of (is_base x) ids)
  unfolding emplace_parents
  elem-emplace_parents x [] s = ground arith
  elem-emplace_parents x (id ∷ ids) s =
      elem-emplace_parents x ids (emplace_bases d (relationships_of d id) s)
      ∙ ground (arith, elem-emplace_bases x (relationships_of d id) s)
