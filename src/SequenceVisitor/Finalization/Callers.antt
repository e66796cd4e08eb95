-- ===== src/SequenceVisitor/Finalization/Callers.antt =====
-- The callers of the activities, whose ids are resolved.
use clang_uml.Prelude.{
  ℕ, Bool, true, false, Option, none, some, List, [], ◌∷◌, ◌≡◌, refl, sym, ap, ◌∙◌, inl, inr, ◌↔◌,
  if◌then◌else◌, ◌==◌, ==_iff, ==_refl, find, contains, insert, find-insert, elem, Bool-cases,
  Option-cases,
}
use mathlib.Core.Path.{fun_ext}
use clang_uml.Eid.{Eid}
use clang_uml.Sequence.Message.{Activity, new_activity, set_callers}
use clang_uml.SequenceVisitor.Messages.{Visitor}
use clang_uml.SequenceVisitor.Finalization.{
  get_unique_id, unique_ids, translate_callers, add_callers_to_activities,
}
use clang_uml.SequenceVisitor.Finalization.Resolved.{find-each_activity, IsResolved, unique_ids_iff}

-- What an entry gives to the activity `g`, if its key has the global id of the first argument.
abbrev pub entry_or : Option ℕ → ℕ → List ℕ → Option (List ℕ) → Option (List ℕ)
entry_or none g caller_ids later = later
entry_or (some u) g caller_ids later = if g == u then some caller_ids else later

-- The callers in the first entry whose key has the global id `g`.
abbrev pub first_of :
    (is_global : ℕ → Bool) → List (ℕ × Eid) → ℕ → List (ℕ × List ℕ) → Option (List ℕ)
first_of is_global id_map g [] = none
first_of is_global id_map g ((id, caller_ids) ∷ rest) =
    entry_or (get_unique_id is_global id_map id) g caller_ids (first_of is_global id_map g rest)

module _ (is_global : ℕ → Bool) (id_map : List (ℕ × Eid)) where
  abbrev or_unique : Option (List ℕ) → Option (List ℕ) → Option (List ℕ)
  or_unique (some callers) o = some callers
  or_unique none none = none
  or_unique none (some ids) = some (unique_ids is_global id_map ids [])

  find-insert_or :
      (o : Option ℕ) (acs : List (ℕ × List ℕ)) (g : ℕ) (ids : List ℕ) (later : Option (List ℕ))
      → or_unique
          (find g (elim o as (λ _. List (ℕ × List ℕ)) [
            | none ↦ acs
            | some u ↦ insert u (unique_ids is_global id_map ids []) acs
          ]))
          later
        ≡ or_unique (find g acs) (entry_or o g ids later)
  find-insert_or none acs g ids later = refl
  find-insert_or (some u) acs g ids later =
      let e = find-insert u g (unique_ids is_global id_map ids []) acs in
      elim (Bool-cases (g == u)) [
        | inl same ↦
            (let at : u ≡ g = sym ((==_iff g u).0 same) in
              elim (Option-cases (find g acs)) [
                | inl n ↦
                    let fresh : contains g acs ≡ false =
                      ap
                        (λ (o : Option (List ℕ)). elim o as (λ _. Bool) [
                          | none ↦ false
                          | some _ ↦ true
                        ])
                        n in
                    rw
                      (
                        at,
                        find-insert g g (unique_ids is_global id_map ids []) acs,
                        fresh,
                        n,
                        ==_refl g,
                      )
                      refl
                | inr (cs, s) ↦
                    let there : contains g acs ≡ true =
                      ap
                        (λ (o : Option (List ℕ)). elim o as (λ _. Bool) [
                          | none ↦ false
                          | some _ ↦ true
                        ])
                        s in
                    rw (at, find-insert g g (unique_ids is_global id_map ids []) acs, there, s) refl
              ])
        | inr other ↦ elim (Bool-cases (contains u acs)) [
          | inl c ↦ rw (e, c, other) refl
          | inr c ↦ rw (e, c, other) refl
        ]
      ]

  find-translate_callers :
      (m acs : List (ℕ × List ℕ)) (g : ℕ)
      → find g (translate_callers is_global id_map m acs)
        ≡ or_unique (find g acs) (first_of is_global id_map g m)
  unfolding translate_callers
  find-translate_callers [] acs g = elim (Option-cases (find g acs)) [
    | inl e ↦ rw e refl
    | inr (cs, e) ↦ rw e refl
  ]
  find-translate_callers ((id, ids) ∷ rest) acs g =
      find-translate_callers rest _ g
      ∙ find-insert_or (get_unique_id is_global id_map id) acs g ids
          (first_of is_global id_map g rest)

-- An activity with the callers of an entry, if there is one.
abbrev pub with_entry :
    (is_global : ℕ → Bool) → List (ℕ × Eid) → Option (List ℕ) → Activity → Activity
with_entry is_global id_map none a = a
with_entry is_global id_map (some caller_ids) a =
    set_callers (unique_ids is_global id_map caller_ids []) a

with_found :
    (is_global : ℕ → Bool) (id_map : List (ℕ × Eid)) (o : Option (List ℕ)) (a : Activity)
    → elim (or_unique is_global id_map none o) as (λ _. Activity) [
      | none ↦ a
      | some callers ↦ set_callers callers a
    ]
      ≡ with_entry is_global id_map o a
with_found is_global id_map none a = refl
with_found is_global id_map (some ids) a = refl

-- Each activity gets as its callers the global ids of those in the first entry, in the order of the ids,
-- whose key has the global id of the activity; an activity with no such entry stays as it is, and none is
-- added. These are the ids that a caller in the entry has as its global id.
pub add_callers_to_activities_lem :
    (is_global : ℕ → Bool) (v : Visitor) (id : ℕ)
    → (find id (add_callers_to_activities is_global v).diagram.activities
        ≡ elim (find id v.diagram.activities) as (λ _. Option Activity) [
          | none ↦ none
          | some a ↦
              some (
                with_entry is_global v.id_map (first_of is_global v.id_map id v.activity_callers) a)
        ])
      × ((caller_ids : List ℕ) (c : ℕ)
          → (elem c (with_entry is_global v.id_map (some caller_ids) (new_activity id)).callers
              ≡ true)
            ↔ IsResolved is_global v.id_map caller_ids c)
unfolding add_callers_to_activities set_callers find
add_callers_to_activities_lem is_global v id = (
  find-each_activity
        (λ i a.
          elim (find i (translate_callers is_global v.id_map v.activity_callers []))
            as (λ _. Activity) [ none ↦ a | some callers ↦ set_callers callers a ])
        id v.diagram.activities
      ∙ ap
          (λ (f : Activity → Activity).
            elim (find id v.diagram.activities) as (λ _. Option Activity) [
              | none ↦ none
              | some a ↦ some (f a)
            ])
          (fun_ext λ a.
            ap (λ o. elim o as (λ _. Activity) [ none ↦ a | some callers ↦ set_callers callers a ])
              (find-translate_callers is_global v.id_map v.activity_callers [] id)
            ∙ with_found is_global v.id_map (first_of is_global v.id_map id v.activity_callers) a),
  unique_ids_iff is_global v.id_map,
)
