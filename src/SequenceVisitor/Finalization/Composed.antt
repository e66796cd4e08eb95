-- ===== src/SequenceVisitor/Finalization/Composed.antt =====
-- The steps of `finalize` one after the other.
use clang_uml.Prelude.{
  ℕ, Bool, false, Option, none, some, List, [], ◌∷◌, ◌≡◌, refl, ap, ◌∙◌, inl, inr, find, contains,
  map, IsUnique, Option-cases,
}
use clang_uml.Eid.{Eid}
use clang_uml.Sequence.Message.{Activity, set_callers}
use clang_uml.Sequence.Diagram.{messages_of}
use clang_uml.SequenceVisitor.Messages.{Visitor}
use clang_uml.SequenceVisitor.Finalization.{
  resolve_to, resolve_ids_to_global, ensure_lambda_messages_have_operator_as_target,
  add_callers_to_activities, finalize,
}
use clang_uml.SequenceVisitor.Finalization.Resolved.{
  find-each_activity, messages-resolve_ids_to_global,
}
use clang_uml.SequenceVisitor.Finalization.Callers.{
  with_entry, first_of, add_callers_to_activities_lem,
}
use clang_uml.SequenceVisitor.Finalization.Retargeted.{
  retarget, messages-ensure_lambda_messages, IsUnique-ensure_lambda_messages,
}

contains-each_activity :
    (f : ℕ → Activity → Activity) (k : ℕ) (m : List (ℕ × Activity))
    → contains k (map (λ entry. (entry.0, f entry.0 entry.1)) m) ≡ contains k m
contains-each_activity f k m = elim (Option-cases (find k m)) [
  | inl n ↦ rw (contains, find-each_activity f k m, n) refl
  | inr (a, s) ↦ rw (contains, find-each_activity f k m, s) refl
]

IsUnique-each_activity :
    (f : ℕ → Activity → Activity) (m : List (ℕ × Activity))
    → IsUnique m
    → IsUnique (map (λ entry. (entry.0, f entry.0 entry.1)) m)
IsUnique-each_activity f [] u = tt
IsUnique-each_activity f ((k, a) ∷ m) u =
    (contains-each_activity f k m ∙ u.0, IsUnique-each_activity f m u.1)

messages-with_entry :
    (is_global : ℕ → Bool) (id_map : List (ℕ × Eid)) (o : Option (List ℕ)) (a : Activity)
    → (with_entry is_global id_map o a).messages ≡ a.messages
unfolding set_callers
messages-with_entry is_global id_map none a = refl
messages-with_entry is_global id_map (some ids) a = refl

messages-add_callers :
    (is_global : ℕ → Bool) (v : Visitor) (k : ℕ)
    → messages_of (add_callers_to_activities is_global v).diagram k ≡ messages_of v.diagram k
messages-add_callers is_global v k =
    let e = (add_callers_to_activities_lem is_global v k).0 in
    elim (Option-cases (find k v.diagram.activities)) [
      | inl n ↦ rw (messages_of, e, n) refl
      | inr (a, s) ↦
          rw (messages_of, e, s)
            (messages-with_entry is_global v.id_map
              (first_of is_global v.id_map k v.activity_callers) a)
    ]

IsUnique-resolve_ids :
    (is_global : ℕ → Bool) (v : Visitor)
    → IsUnique v.diagram.activities
    → IsUnique (resolve_ids_to_global is_global v).diagram.activities
unfolding resolve_ids_to_global
IsUnique-resolve_ids is_global v u =
    IsUnique-each_activity
      (λ _ a. record a { messages = map (resolve_to is_global v.id_map) a.messages })
      v.diagram.activities u

IsUnique-add_callers :
    (is_global : ℕ → Bool) (v : Visitor)
    → IsUnique v.diagram.activities
    → IsUnique (add_callers_to_activities is_global v).diagram.activities
unfolding add_callers_to_activities
IsUnique-add_callers is_global v u = IsUnique-each_activity _ v.diagram.activities u

pub finalize-retarget :
    (is_global : ℕ → Bool) (fuel : ℕ) (v : Visitor)
    → IsUnique v.diagram.activities
    → (v' : Visitor) × (finalize is_global false fuel v ≡ some v')
      × IsUnique v'.diagram.activities
      × ((k : ℕ)
          → messages_of v'.diagram k
            ≡ map
                (retarget v.diagram.participants)
                (map (resolve_to is_global v.id_map) (messages_of v.diagram k)))
unfolding finalize resolve_ids_to_global
finalize-retarget is_global fuel v u =
    let r = resolve_ids_to_global is_global v in
    let w = ensure_lambda_messages_have_operator_as_target r in
    let unique = IsUnique-resolve_ids is_global v u in
    (
      add_callers_to_activities is_global w,
      refl,
      IsUnique-add_callers is_global w (IsUnique-ensure_lambda_messages r unique),
      λ k.
          messages-add_callers is_global w k
          ∙ messages-ensure_lambda_messages r unique k
          ∙ ap (map (retarget v.diagram.participants))
              (messages-resolve_ids_to_global is_global v k),
    )
