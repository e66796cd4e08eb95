-- ===== src/Filter/Context/Ball.antt =====
-- Each round of the context takes in what is next to it, and leaving early makes no difference.
use clang_uml.Prelude.{
  ℕ, zero, suc, Bool, true, false, ◌&&◌, ◌||◌, List, [], ◌∷◌, ◌≡◌, refl, sym, ap, ◌∙◌, arith, ◌==◌,
  any_of, elem, emplace, elem-emplace, Bool-cases, inl, inr,
}
use clang_uml.Enums.{RelationshipType}
use clang_uml.ClassDiagram.{DiagramElement, Diagram, elements}
use clang_uml.Filter.Context.{
  ContextConfig, is_adjacent, process_elements, extend, next_context, extend_context, matching,
  initialize_effective_context_class_diagram,
}

module _ (d : Diagram) (includes : RelationshipType → Bool) (cfg : ContextConfig) where
  process_elements-elem :
      (ctx : List ℕ) (ps : List DiagramElement) (current : List ℕ) (x : ℕ)
      → elem x (process_elements d includes cfg ctx ps current)
        ≡ (elem x current || any_of (λ p. p.id == x && is_adjacent d includes cfg ctx p) ps)
  unfolding process_elements
  process_elements-elem ctx [] current x = ground arith
  process_elements-elem ctx (p ∷ ps) current x =
      elim (Bool-cases (is_adjacent d includes cfg ctx p)) [
        | inl near ↦ rw near (
            ground (
              arith,
              process_elements-elem ctx ps (emplace p.id current) x,
              elem-emplace p.id x current,
            ))
        | inr far ↦ rw far (ground (arith, process_elements-elem ctx ps current x))
      ]

  extend-elem :
      (ids : List ℕ) (extended : Bool) (ctx : List ℕ) (x : ℕ)
      → elem x (extend d includes cfg ids extended ctx).1 ≡ (elem x ids || elem x ctx)
  unfolding extend
  extend-elem [] extended ctx x = refl
  extend-elem (id ∷ ids) extended ctx x = ground (
    arith,
    extend-elem ids extended ctx x,
    extend-elem ids true (emplace id ctx) x,
    elem-emplace id x ctx,
  )

  extend-true : (ids ctx : List ℕ) → (extend d includes cfg ids true ctx).0 ≡ true
  unfolding extend
  extend-true [] ctx = refl
  extend-true (id ∷ ids) ctx = ground (arith, extend-true ids ctx, extend-true ids (emplace id ctx))

  extend-false :
      (ids ctx : List ℕ)
      → (extend d includes cfg ids false ctx).0 ≡ false
      → (extend d includes cfg ids false ctx).1 ≡ ctx
  unfolding extend
  extend-false [] ctx h = refl
  extend-false (id ∷ ids) ctx h =
      ground (arith, extend-false ids ctx, extend-true ids (emplace id ctx), h)

  -- One round adds to the context just the elements of the diagram that are next to it.
  pub next_context-elem :
      (ctx : List ℕ) (x : ℕ)
      → elem x (next_context d includes cfg ctx).1
        ≡ (elem x ctx || any_of (λ p. p.id == x && is_adjacent d includes cfg ctx p) (elements d))
  unfolding next_context
  next_context-elem ctx x = ground (
    arith,
    extend-elem (process_elements d includes cfg ctx (elements d) []) false ctx x,
    process_elements-elem ctx (elements d) [] x,
  )

  -- All rounds, as many as the radius.
  unfoldable pub rounds : ℕ → List ℕ → List ℕ
  unfolding next_context
  rounds zero ctx = ctx
  rounds (suc n) ctx = rounds n (next_context d includes cfg ctx).1

  rounds_still :
      (n : ℕ) (ctx : List ℕ) → (next_context d includes cfg ctx).1 ≡ ctx → rounds n ctx ≡ ctx
  unfolding rounds
  rounds_still zero ctx h = refl
  rounds_still (suc n) ctx h = ap (rounds n) h ∙ rounds_still n ctx h

  next_still :
      (ctx : List ℕ)
      → (next_context d includes cfg ctx).0 ≡ false
      → (next_context d includes cfg ctx).1 ≡ ctx
  unfolding next_context
  next_still ctx h = extend-false (process_elements d includes cfg ctx (elements d) []) ctx h

  extend_context-ended : (n : ℕ) (ctx : List ℕ) → extend_context d includes cfg n false ctx ≡ ctx
  unfolding extend_context
  extend_context-ended zero ctx = refl
  extend_context-ended (suc n) ctx = refl

  -- The loop that leaves when a round adds nothing gives what all rounds of the radius give.
  pub extend_context-rounds :
      (n : ℕ) (ctx : List ℕ) → extend_context d includes cfg n true ctx ≡ rounds n ctx
  unfolding extend_context rounds
  extend_context-rounds zero ctx = refl
  extend_context-rounds (suc n) ctx =
      let next = (next_context d includes cfg ctx).1 in
      elim (Bool-cases (next_context d includes cfg ctx).0) [
        | inl again ↦ rw again (extend_context-rounds n next)
        | inr ended ↦
            let still = ap (λ c. (next_context d includes cfg c).1) (next_still ctx ended) in
            rw ended (extend_context-ended n next ∙ sym (rounds_still n next still))
      ]

-- The context of a class diagram is what the rounds of its radius give from the elements that match
-- the pattern, and a round adds just the elements that are next to the context before it.
pub initialize_effective_context-rounds :
    (d : Diagram) (includes : RelationshipType → Bool) (cfg : ContextConfig)
    → (initialize_effective_context_class_diagram d includes cfg
        ≡ rounds d includes cfg cfg.radius (
            matching d includes cfg d.concepts
              (matching d includes cfg d.enums (matching d includes cfg d.classes []))))
      × ((ctx : List ℕ) (x : ℕ)
          → elem x (next_context d includes cfg ctx).1 ≡ (
              elem x ctx
              || any_of (λ p. p.id == x && is_adjacent d includes cfg ctx p) (elements d)))
unfolding initialize_effective_context_class_diagram
initialize_effective_context-rounds d includes cfg =
    (extend_context-rounds d includes cfg cfg.radius _, next_context-elem d includes cfg)
