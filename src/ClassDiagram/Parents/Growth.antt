-- ===== src/ClassDiagram/Parents/Growth.antt =====
-- Each call of `get_parents` that finds a new class leaves fewer of them out.
use clang_uml.Prelude.{
  ℕ, suc, ◌<◌, ◌≤◌, Bool, true, false, Option, none, some, List, [], ◌∷◌, ◌≡◌, refl, sym, ap, ◌∙◌,
  ◌⊎◌, arith, if◌then◌else◌, ◌==◌, ==_iff, ==_refl, elem, elem-emplace, length, Bool-cases, inl,
  inr,
}
use clang_uml.ClassDiagram.{Relationship, DiagramElement, Diagram, get_element_id, has_element_id}
use clang_uml.ClassDiagram.Parents.{
  is_extension, emplace_class, emplace_bases, relationships_of, emplace_parents,
}
use clang_uml.ClassDiagram.Parents.Reached.{has_element_id-get, id-get_element_id}

-- The classes that are not in the set.
unfoldable pub missing : List ℕ → List DiagramElement → ℕ
missing ps [] = 0
missing ps (c ∷ cs) = let rest = missing ps cs in if elem c.id ps then rest else suc rest

pub missing-le-length : (ps : List ℕ) (cs : List DiagramElement) → missing ps cs ≤ length cs
unfolding missing
missing-le-length ps [] = omega arith
missing-le-length ps (c ∷ cs) = ground (arith, missing-le-length ps cs)

abbrev pub IsWithin : List ℕ → List ℕ → Type 0
IsWithin ps qs = (x : ℕ) → elem x ps ≡ true → elem x qs ≡ true

missing-le :
    (ps qs : List ℕ) (cs : List DiagramElement) → IsWithin ps qs → missing qs cs ≤ missing ps cs
unfolding missing
missing-le ps qs [] h = omega arith
missing-le ps qs (c ∷ cs) h = ground (arith, missing-le ps qs cs h, h c.id)

pub missing-lt :
    (ps qs : List ℕ) (cs : List DiagramElement) (x : ℕ)
    → IsWithin ps qs
    → has_element_id x cs ≡ true
    → elem x ps ≡ false
    → elem x qs ≡ true
    → missing qs cs < missing ps cs
unfolding missing
missing-lt ps qs [] x h there out inside = cc
missing-lt ps qs (c ∷ cs) x h there out inside = elim (Bool-cases (c.id == x)) [
  | inl same ↦
      let at : c.id ≡ x = (==_iff c.id x).0 same in
      ground (arith, missing-le ps qs cs h, at, out, inside)
  | inr other ↦
      let rest : has_element_id x cs ≡ true = ground (arith, there, other) in
      ground (arith, missing-lt ps qs cs x h rest out inside, h c.id)
]

module _ (d : Diagram) where
  abbrev pub IsNew : List ℕ → List ℕ → Type 0
  IsNew ps qs =
      (x : ℕ) × (has_element_id x d.classes ≡ true) × (elem x ps ≡ false) × (elem x qs ≡ true)

  -- The set grows, the flag says whether a class is new, and if none is the set is what it was.
  pub record Grows (s t : Bool × List ℕ) : Type 0 where
    pub within : IsWithin s.1 t.1
    pub new : t.0 ≡ true → (s.0 ≡ true) ⊎ IsNew s.1 t.1
    pub old : t.0 ≡ false → t ≡ s

  Grows-refl : (s : Bool × List ℕ) → Grows s s
  Grows-refl s = record { within = λ x h. h; new = λ h. inl h; old = λ _. refl }

  Grows-trans : (s t u : Bool × List ℕ) → Grows s t → Grows t u → Grows s u
  Grows-trans s t u g k = record {
    within = λ x h. k.within x (g.within x h);
    new = λ h. elim (k.new h) [
      | inl h' ↦ elim (g.new h') [
        | inl h'' ↦ inl h''
        | inr (x, c, out, inside) ↦ inr (x, c, out, k.within x inside)
      ]
      | inr (x, c, out, inside) ↦ inr (x, c, before x out, inside)
    ];
    old = λ h. let same = k.old h in same ∙ g.old (ap (λ p. p.0) (sym same) ∙ h);
  }
    where
      before : (x : ℕ) → elem x t.1 ≡ false → elem x s.1 ≡ false
      before x out = elim (Bool-cases (elem x s.1)) [
        | inl inside ↦ let clash : true ≡ false = sym (g.within x inside) ∙ out in absurd cc
        | inr h ↦ h
      ]

  Grows-by :
      (o : Option DiagramElement) (s : Bool × List ℕ)
      → ((p : DiagramElement) → o ≡ some p → has_element_id p.id d.classes ≡ true)
      → Grows s (emplace_class o s)
  unfolding emplace_class
  Grows-by none s h = Grows-refl s
  Grows-by (some p) (f, ps) h = elim (Bool-cases (elem p.id ps)) [
    | inl inside ↦ rw inside (Grows-refl (f, ps))
    | inr out ↦ rw out (record {
      within = λ x k. ground (arith, elem-emplace p.id x ps, k);
      new = λ _. inr (p.id, h p refl, out, elem-emplace p.id p.id ps ∙ rw (==_refl p.id) refl);
      old = λ clash. absurd cc;
    })
  ]

  Grows-emplace_class :
      (id : ℕ) (s : Bool × List ℕ) → Grows s (emplace_class (get_element_id id d.classes) s)
  Grows-emplace_class id s = Grows-by (get_element_id id d.classes) s (λ p e.
      ap (λ k. has_element_id k d.classes) (id-get_element_id id d.classes p e)
      ∙ has_element_id-get id d.classes
      ∙ ap (λ (o : Option DiagramElement). elim o as (λ _. Bool) [ none ↦ false | some _ ↦ true ])
          e)

  Grows-emplace_bases :
      (rels : List Relationship) (s : Bool × List ℕ) → Grows s (emplace_bases d rels s)
  unfolding emplace_bases
  Grows-emplace_bases [] s = Grows-refl s
  Grows-emplace_bases (rel ∷ rels) s = elim (Bool-cases (is_extension rel)) [
    | inl ext ↦
        let t = emplace_class (get_element_id rel.destination d.classes) s in
        rw (ext, emplace_bases)
          (Grows-trans s t (emplace_bases d rels t) (Grows-emplace_class rel.destination s)
            (Grows-emplace_bases rels t))
    | inr other ↦ rw (other, emplace_bases) (Grows-emplace_bases rels s)
  ]

  pub Grows-emplace_parents : (ids : List ℕ) (s : Bool × List ℕ) → Grows s (emplace_parents d ids s)
  unfolding emplace_parents
  Grows-emplace_parents [] s = Grows-refl s
  Grows-emplace_parents (id ∷ ids) s =
      let t = emplace_bases d (relationships_of d id) s in
      Grows-trans s t (emplace_parents d ids t) (Grows-emplace_bases (relationships_of d id) s)
        (Grows-emplace_parents ids t)
