-- ===== src/Filter/Context.antt =====
-- `context_filter` (src/common/model/filters/diagram_filter.{h,cc}) for a class diagram: the elements
-- within a number of relationships of those that match a pattern.
pub mod Ball
use clang_uml.Prelude.{
  ℕ, zero, suc, Bool, true, false, not, ◌&&◌, ◌||◌, Option, none, some, List, [], ◌∷◌, ◌==◌,
  if◌then◌else◌, any_of, elem, emplace,
}
use clang_uml.Tvl.{Value}
use clang_uml.Enums.{RelationshipType, ◌is_relationship◌}
use clang_uml.ClassDiagram.{Relationship, DiagramElement, Diagram, elements, get}

pub data ContextDirection : Type 0 where
  inward outward any : ContextDirection

-- The pattern of a name is matched by a test; the relationships are all types when the list is empty.
pub record ContextConfig : Type 0 where
  pub pattern : DiagramElement → Bool
  pub radius : ℕ
  pub direction : ContextDirection
  pub relationships : List RelationshipType

abbrev pub is_part : RelationshipType → Bool
is_part r =
    r is_relationship RelationshipType.k_aggregation
    || r is_relationship RelationshipType.k_composition

abbrev no_types : List RelationshipType → Bool
no_types [] = true
no_types (_ ∷ _) = false

unfoldable pub should_include : ContextConfig → RelationshipType → Bool
unfolding ◌is_relationship◌
should_include cfg r =
    no_types cfg.relationships || any_of (λ t. t is_relationship r) cfg.relationships

-- Aggregation and composition are in the model in reverse direction.
abbrev pub is_skipped : ContextDirection → Bool → Bool
is_skipped inward part = part
is_skipped outward part = not part
is_skipped any part = false

module _ (d : Diagram) (includes : RelationshipType → Bool) (cfg : ContextConfig) where
  abbrev pub admits : Bool → Relationship → Bool
  admits skipped rel =
      not (not (should_include cfg rel.type) || not (includes rel.type)) && not skipped

  -- A relationship of the element to one in the context.
  abbrev pub points_into : List ℕ → DiagramElement → Bool
  points_into effective_context p =
      any_of
        (λ (rel : Relationship).
          admits (is_skipped cfg.direction (is_part rel.type)) rel
          && any_of (λ id. rel.destination == id) effective_context)
        p.relationships

  -- A relationship to the element of one in the context.
  abbrev pub is_pointed_to : List ℕ → DiagramElement → Bool
  is_pointed_to effective_context p =
      any_of
        (λ id. elim (get d id) [
          | none ↦ false
          | some e ↦
              any_of
                (λ (rel : Relationship).
                  admits (is_skipped cfg.direction (not (is_part rel.type))) rel
                  && rel.destination == p.id)
                e.relationships
        ])
        effective_context

  abbrev pub is_adjacent : List ℕ → DiagramElement → Bool
  is_adjacent effective_context p =
      points_into effective_context p || is_pointed_to effective_context p

  unfoldable pub process_elements : List ℕ → List DiagramElement → List ℕ → List ℕ
  unfolding should_include
  process_elements effective_context [] current = current
  process_elements effective_context (p ∷ ps) current =
      process_elements effective_context ps
        (if is_adjacent effective_context p then emplace p.id current else current)

  -- Adds what is new, and says whether there was any.
  unfoldable pub extend : List ℕ → Bool → List ℕ → Bool × List ℕ
  extend [] extended effective_context = (extended, effective_context)
  extend (id ∷ ids) extended effective_context =
      if elem id effective_context
      then extend ids extended effective_context
      else extend ids true (emplace id effective_context)

  unfoldable pub next_context : List ℕ → Bool × List ℕ
  unfolding process_elements extend
  next_context effective_context =
      extend (process_elements effective_context (elements d) []) false effective_context

  -- The loop, which ends when the radius is used up or nothing was added.
  unfoldable pub extend_context : ℕ → Bool → List ℕ → List ℕ
  unfolding next_context
  extend_context zero extended effective_context = effective_context
  extend_context (suc radius_counter) extended effective_context =
      let (again, next) = next_context effective_context in
      let rest = extend_context radius_counter again next in
      if extended then rest else effective_context

  unfoldable pub matching : List DiagramElement → List ℕ → List ℕ
  matching [] effective_context = effective_context
  matching (e ∷ es) effective_context =
      matching es (if cfg.pattern e then emplace e.id effective_context else effective_context)

  unfoldable pub initialize_effective_context_class_diagram : List ℕ
  unfolding matching extend_context
  initialize_effective_context_class_diagram =
      extend_context cfg.radius true
        (matching d.concepts (matching d.enums (matching d.classes [])))

abbrev is_nil : List ℕ → Bool
is_nil [] = true
is_nil (_ ∷ _) = false

abbrev all_nil : List (List ℕ) → Bool
all_nil [] = true
all_nil (c ∷ cs) = is_nil c && all_nil cs

-- The vote on an element of a complete class diagram, by the contexts that were computed.
unfoldable pub match_context : List (List ℕ) → DiagramElement → Value
match_context effective_contexts e =
    if all_nil effective_contexts
    then none
    else if any_of (λ ec. elem e.id ec) effective_contexts
    then some true
    else some false
