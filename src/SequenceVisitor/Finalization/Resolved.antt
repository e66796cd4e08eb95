-- ===== src/SequenceVisitor/Finalization/Resolved.antt =====
-- The ids of the diagram once they are resolved.
use clang_uml.Prelude.{
  if◌then◌else◌, ℕ, Bool, true, false, ◌||◌, Option, none, some, List, [], ◌∷◌, ◌≡◌, refl, sym, ap,
  ◌∙◌, ◌⊎◌, inl, inr, ◌↔◌, arith, ◌==◌, ==_iff, ==_refl, find, emplace, elem, elem-emplace, map,
  All, Bool-cases, Option-cases, some-injective,
}
use clang_uml.Eid.{Eid, get_global_id}
use clang_uml.Sequence.Message.{Message, Activity}
use clang_uml.Sequence.Diagram.{messages_of}
use clang_uml.SequenceVisitor.Messages.{Visitor}
use clang_uml.SequenceVisitor.Finalization.{
  get_unique_id, unique_ids, resolve_to, resolve_ids_to_global,
}

pub find-each_activity :
    (f : ℕ → Activity → Activity) (k : ℕ) (m : List (ℕ × Activity))
    → find k (map (λ entry. (entry.0, f entry.0 entry.1)) m)
      ≡ elim (find k m) [ none ↦ none | some a ↦ some (f k a) ]
unfolding find
find-each_activity f k [] = refl
find-each_activity f k ((j, a) ∷ m) = elim (Bool-cases (k == j)) [
  | inl same ↦ (let e : k ≡ j = (==_iff k j).0 same in rw (same, e) refl)
  | inr other ↦ rw other (find-each_activity f k m)
]

elem-emplace-some :
    (o : Option ℕ) (s : List ℕ) (g : ℕ)
    → elem g (elim o as (λ _. List ℕ) [ none ↦ s | some u ↦ emplace u s ])
      ≡ (elim o as (λ _. Bool) [ none ↦ false | some u ↦ g == u ] || elem g s)
elem-emplace-some none s g = refl
elem-emplace-some (some u) s g = elem-emplace u g s

module _ (is_global : ℕ → Bool) (id_map : List (ℕ × Eid)) where
  -- An id of the list that has this global id.
  abbrev pub IsResolved : List ℕ → ℕ → Type 0
  IsResolved ids g = (id : ℕ) × (elem id ids ≡ true) × (get_unique_id is_global id_map id ≡ some g)

  -- Whether there is one.
  abbrev resolves_to : Option ℕ → ℕ → Bool
  resolves_to o g = elim o as (λ _. Bool) [ none ↦ false | some u ↦ g == u ]

  abbrev any_resolves_to : List ℕ → ℕ → Bool
  any_resolves_to [] g = false
  any_resolves_to (id ∷ ids) g =
      resolves_to (get_unique_id is_global id_map id) g || any_resolves_to ids g

  elem-unique_ids :
      (ids s : List ℕ) (g : ℕ)
      → elem g (unique_ids is_global id_map ids s) ≡ (any_resolves_to ids g || elem g s)
  unfolding unique_ids
  elem-unique_ids [] s g = refl
  elem-unique_ids (id ∷ ids) s g =
      let rest =
        elem-unique_ids ids
          (elim (get_unique_id is_global id_map id) as (λ _. List ℕ) [
            | none ↦ s
            | some u ↦ emplace u s
          ])
          g in
      ground (arith, rest, elem-emplace-some (get_unique_id is_global id_map id) s g)

  resolves_to_iff : (o : Option ℕ) (g : ℕ) → (resolves_to o g ≡ true) ↔ (o ≡ some g)
  resolves_to_iff none g = (λ h. absurd cc, λ h. absurd cc)
  resolves_to_iff (some u) g =
      (λ h. ap some (sym ((==_iff g u).0 h)), λ h. (==_iff g u).1 (sym (some-injective h)))

  here_or_there :
      (id : ℕ) (ids : List ℕ) (g : ℕ)
      → resolves_to (get_unique_id is_global id_map id) g ≡ true ⊎ IsResolved ids g
      → IsResolved (id ∷ ids) g
  here_or_there id ids g (inl here) =
      (id, rw (==_refl id) refl, (resolves_to_iff (get_unique_id is_global id_map id) g).0 here)
  here_or_there id ids g (inr (i, there, e)) =
      (i, (let h : (i == id || elem i ids) ≡ true = ground (arith, there) in h), e)

  any_resolves_to_iff : (ids : List ℕ) (g : ℕ) → (any_resolves_to ids g ≡ true) ↔ IsResolved ids g
  any_resolves_to_iff [] g = (λ h. absurd cc, λ (i, h, e). absurd cc)
  any_resolves_to_iff (id ∷ ids) g = (
    λ h. elim (Bool-cases (resolves_to (get_unique_id is_global id_map id) g)) [
      | inl here ↦ here_or_there id ids g (inl here)
      | inr elsewhere ↦ here_or_there id ids g (
          inr (
            (any_resolves_to_iff ids g).0
              (let later : any_resolves_to ids g ≡ true = ground (arith, h, elsewhere) in later)))
    ],
    λ (i, there, e). elim (Bool-cases (i == id)) [
      | inl same ↦
          let at : get_unique_id is_global id_map id ≡ some g =
            ap (get_unique_id is_global id_map) (sym ((==_iff i id).0 same)) ∙ e in
          let here = (resolves_to_iff (get_unique_id is_global id_map id) g).1 at in rw here refl
      | inr other ↦
          let later : elem i ids ≡ true = ground (arith, other, there) in
          let rest = (any_resolves_to_iff ids g).1 (i, later, e) in ground (arith, rest)
    ],
  )

  pub unique_ids_iff :
      (ids : List ℕ) (g : ℕ)
      → (elem g (unique_ids is_global id_map ids []) ≡ true) ↔ IsResolved ids g
  unique_ids_iff ids g =
      let (to, from) = any_resolves_to_iff ids g in
      let e = elem-unique_ids ids [] g in
      (
        λ h. to (let r : any_resolves_to ids g ≡ true = ground (arith, e, h) in r),
        λ r. (let h = from r in ground (arith, e, h)),
      )

  -- A global id, or a local one with no global id.
  abbrev pub IsFinal : ℕ → Type 0
  IsFinal id = (is_global id ≡ true) ⊎ (get_unique_id is_global id_map id ≡ none)

  -- The values of the map are global.
  abbrev pub IsGlobalMap : Type 0
  IsGlobalMap = (id g : ℕ) → get_unique_id is_global id_map id ≡ some g → is_global g ≡ true

  resolve_to-IsFinal : IsGlobalMap → (m : Message) → IsFinal (resolve_to is_global id_map m).to
  unfolding resolve_to
  resolve_to-IsFinal h m = elim (Bool-cases (is_global m.to)) [
    | inl global ↦ rw global (inl global)
    | inr is_local ↦ elim (Option-cases (get_unique_id is_global id_map m.to)) [
      | inl e ↦ rw (is_local, e) (inr e)
      | inr (g, e) ↦ rw (is_local, e) (inl (h m.to g e))
    ]
  ]

  All-map-IsFinal :
      IsGlobalMap
      → (ms : List Message) → All (λ m. IsFinal m.to) (map (resolve_to is_global id_map) ms)
  All-map-IsFinal h [] = tt
  All-map-IsFinal h (m ∷ ms) = (resolve_to-IsFinal h m, All-map-IsFinal h ms)

-- The messages of an activity that each_activity changes.
messages-each_activity :
    (f : List Message → List Message) (k : ℕ) (m : List (ℕ × Activity))
    → f [] ≡ []
    → elim (find k (
          map
            (λ (entry : ℕ × Activity). (entry.0, record entry.1 { messages = f entry.1.messages }))
            m))
        as (λ _. List Message) [ none ↦ [] | some a ↦ a.messages ]
      ≡ f (elim (find k m) as (λ _. List Message) [ none ↦ [] | some a ↦ a.messages ])
messages-each_activity f k m e = elim (Option-cases (find k m)) [
  | inl n ↦ rw (find-each_activity (λ _ a. record a { messages = f a.messages }) k m, n) (sym e)
  | inr (a, s) ↦ rw (find-each_activity (λ _ a. record a { messages = f a.messages }) k m, s) refl
]

-- The same message, to the global id that the map has for a local target.
abbrev pub global_of : (is_global : ℕ → Bool) → List (ℕ × Eid) → ℕ → ℕ
global_of is_global id_map id =
    if is_global id
    then id
    else elim (find id id_map) as (λ _. ℕ) [ none ↦ id | some global ↦ global.value ]

abbrev pub sent_to_global : (is_global : ℕ → Bool) → List (ℕ × Eid) → Message → Message
sent_to_global is_global id_map m = record m { to = global_of is_global id_map m.to }

resolve_to-sent_to_global :
    (is_global : ℕ → Bool) (id_map : List (ℕ × Eid)) (m : Message)
    → resolve_to is_global id_map m ≡ sent_to_global is_global id_map m
unfolding resolve_to get_unique_id get_global_id
resolve_to-sent_to_global is_global id_map m = ground arith

map-resolve_to :
    (is_global : ℕ → Bool) (id_map : List (ℕ × Eid)) (ms : List Message)
    → map (resolve_to is_global id_map) ms ≡ map (sent_to_global is_global id_map) ms
map-resolve_to is_global id_map [] = refl
map-resolve_to is_global id_map (m ∷ ms) =
    ap (λ n. n ∷ map (resolve_to is_global id_map) ms)
      (resolve_to-sent_to_global is_global id_map m)
    ∙ ap (λ l. sent_to_global is_global id_map m ∷ l) (map-resolve_to is_global id_map ms)

pub messages-resolve_ids_to_global :
    (is_global : ℕ → Bool) (v : Visitor) (id : ℕ)
    → messages_of (resolve_ids_to_global is_global v).diagram id
      ≡ map (resolve_to is_global v.id_map) (messages_of v.diagram id)
unfolding resolve_ids_to_global
messages-resolve_ids_to_global is_global v id =
    messages-each_activity (map (resolve_to is_global v.id_map)) id v.diagram.activities refl

-- If the values of the map of ids are global, then once ids are resolved each activity has its messages
-- in their order, each as it was but for its target, which is the global id of a local target that has one
-- and else the target that it was; no target is a local id that has a global one; and the active
-- participants are the global ids of those that were.
pub resolve_ids_to_global_lem :
    (is_global : ℕ → Bool) (v : Visitor)
    → IsGlobalMap is_global v.id_map
    → ((id : ℕ)
        → (messages_of (resolve_ids_to_global is_global v).diagram id
            ≡ map (sent_to_global is_global v.id_map) (messages_of v.diagram id))
          × All
              (λ m. IsFinal is_global v.id_map m.to)
              (messages_of (resolve_ids_to_global is_global v).diagram id))
      × ((g : ℕ)
          → (elem g (resolve_ids_to_global is_global v).diagram.active_participants ≡ true)
            ↔ IsResolved is_global v.id_map v.diagram.active_participants g)
unfolding resolve_ids_to_global
resolve_ids_to_global_lem is_global v h = (
  λ id.
      (let e = messages-resolve_ids_to_global is_global v id in
        (
          e ∙ map-resolve_to is_global v.id_map (messages_of v.diagram id),
          rw e (All-map-IsFinal is_global v.id_map h (messages_of v.diagram id)),
        )),
  unique_ids_iff is_global v.id_map v.diagram.active_participants,
)
