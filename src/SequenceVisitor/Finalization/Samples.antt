-- ===== src/SequenceVisitor/Finalization/Samples.antt =====
-- A function 100, whose local id is 5, calls itself before its global id is known, and a lambda 60, whose
-- operator is 61. Ids above 50 are global.
use clang_uml.Prelude.{
  ℕ, Bool, true, false, Option, none, some, List, [], ◌∷◌, ◌≡◌, refl, arith, ◌↔◌, ltb, map, find,
  All, elem, insert,
}
use clang_uml.Enums.{MessageType}
use clang_uml.Eid.{get_global_id}
use clang_uml.Sequence.Message.{
  Message, Activity, Participant, ParticipantKind, new_message, new_activity, set_to, set_callers,
}
use clang_uml.Sequence.Diagram.{Diagram, messages_of, callers_of}
use clang_uml.SequenceVisitor.Messages.{Visitor}
use clang_uml.SequenceVisitor.Composition.{new_visitor}
use clang_uml.SequenceVisitor.Finalization.{
  get_unique_id, unique_ids, translate_callers, resolve_ids_to_global, add_callers_to_activities,
}
use clang_uml.SequenceVisitor.Finalization.Resolved.{
  IsResolved, IsFinal, IsGlobalMap, sent_to_global, resolve_ids_to_global_lem,
}
use clang_uml.SequenceVisitor.Finalization.Callers.{
  with_entry, first_of, add_callers_to_activities_lem,
}

abbrev above_fifty : ℕ → Bool
above_fifty id = ltb 50 id

abbrev call_to : ℕ → Message
call_to id = set_to id (new_message MessageType.k_call 100)

abbrev sample_participant : ℕ → ParticipantKind → Participant
sample_participant id kind = record {
  id = id;
  full_name = "p";
  skip = false;
  return_type = "void";
  kind = kind;
}

abbrev sample_diagram : Diagram
sample_diagram = record {
  activities = (100, record (new_activity 100) { messages = call_to 5 ∷ call_to 60 ∷ [] }) ∷ [];
  participants =
      (60, sample_participant 60 (ParticipantKind.class_ true 61))
      ∷ (61, sample_participant 61 (ParticipantKind.method 60))
      ∷ (100, sample_participant 100 ParticipantKind.function)
      ∷ [];
  active_participants = 5 ∷ 60 ∷ [];
}

abbrev sample_visitor : Visitor
sample_visitor = record new_visitor {
  diagram = sample_diagram;
  id_map = (5, record { value = 100; is_global = true }) ∷ [];
  activity_callers = (5, 100 ∷ []) ∷ (100, 60 ∷ []) ∷ [];
}

sample_ids-IsGlobalMap : IsGlobalMap above_fifty sample_visitor.id_map
unfolding get_unique_id get_global_id find
sample_ids-IsGlobalMap id g h = ground (arith, h)

-- The call of 60 by 100 is lost: the entry of the local id stands first.
callers_lost :
    callers_of (add_callers_to_activities above_fifty sample_visitor).diagram 100 ≡ 100 ∷ []
unfolding add_callers_to_activities translate_callers unique_ids get_unique_id get_global_id find
    insert clang_uml.Prelude.place set_callers clang_uml.Prelude.emplace
callers_lost = refl

resolve_ids_to_global_lem_example :
    ((id : ℕ)
      → (messages_of (resolve_ids_to_global above_fifty sample_visitor).diagram id
          ≡ map (sent_to_global above_fifty sample_visitor.id_map) (messages_of sample_diagram id))
        × All
            (λ m. IsFinal above_fifty sample_visitor.id_map m.to)
            (messages_of (resolve_ids_to_global above_fifty sample_visitor).diagram id))
    × ((g : ℕ)
        → (elem g (resolve_ids_to_global above_fifty sample_visitor).diagram.active_participants
            ≡ true)
          ↔ IsResolved above_fifty sample_visitor.id_map (5 ∷ 60 ∷ []) g)
resolve_ids_to_global_lem_example =
    resolve_ids_to_global_lem above_fifty sample_visitor sample_ids-IsGlobalMap

add_callers_to_activities_lem_example :
    (find 100 (add_callers_to_activities above_fifty sample_visitor).diagram.activities
      ≡ elim (find 100 sample_diagram.activities) as (λ _. Option Activity) [
        | none ↦ none
        | some a ↦ some (
            with_entry above_fifty sample_visitor.id_map
              (first_of above_fifty sample_visitor.id_map 100 sample_visitor.activity_callers)
              a)
      ])
    × ((caller_ids : List ℕ) (c : ℕ)
        → (elem c
              (with_entry above_fifty sample_visitor.id_map
                (some caller_ids)
                (new_activity 100)).callers
            ≡ true)
          ↔ IsResolved above_fifty sample_visitor.id_map caller_ids c)
add_callers_to_activities_lem_example = add_callers_to_activities_lem above_fifty sample_visitor 100
