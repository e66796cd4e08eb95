-- ===== src/SequenceVisitor/Finalization.antt =====
-- `translation_unit_visitor::finalize` of src/sequence_diagram/visitor/translation_unit_visitor.cc, after the
-- traversal: local ids are replaced by global ones, calls of a lambda are given to its operator, and the
-- activities get their callers. `is_global` tells the ids of the two kinds apart, which share no
-- number, and sets and maps of ids are in the order of their numbers.
pub mod Resolved
pub mod Callers
pub mod Retargeted
pub mod Composed
mod Samples
use clang_uml.Prelude.{
  ℕ, Bool, true, false, not, ◌&&◌, Option, none, some, List, [], ◌∷◌, ◌>>=◌, if◌then◌else◌, ◌==◌,
  find, insert, update, emplace, map,
}
use clang_uml.Eid.{Eid, get_global_id}
use clang_uml.Sequence.Message.{
  Message, Activity, Participant, ParticipantKind, set_to, set_message_name, set_callers,
}
use clang_uml.Sequence.Diagram.{Diagram}
use clang_uml.Sequence.Lambdas.{inline_lambda_operator_calls}
use clang_uml.SequenceVisitor.Messages.{Visitor, with_diagram, ensure_activity_exists}

-- The loop over the activities that changes each in place.
abbrev pub each_activity : (ℕ → Activity → Activity) → Diagram → Diagram
each_activity f d = record d {
  activities = map (λ entry. (entry.0, f entry.0 entry.1)) d.activities;
}

-- The operator that a call of this participant stands for. A cast to a class fails for all others.
abbrev pub lambda_operator : ParticipantKind → Option ℕ
lambda_operator (ParticipantKind.class_ is_lambda lambda_operator_id) =
    if is_lambda && not (lambda_operator_id == 0) then some lambda_operator_id else none
lambda_operator _ = none

unfoldable pub operator_of : List (ℕ × Participant) → ℕ → Option ℕ
operator_of participants id = find id participants >>= λ p. lambda_operator p.kind

abbrev pub set_target : Option ℕ → Message → Message
set_target none m = m
set_target (some operator) m = set_message_name "operator()" (set_to operator m)

abbrev pub ensure_target : Option ℕ → Message → Visitor → Visitor
ensure_target none m v = v
ensure_target (some operator) m v = ensure_activity_exists (set_target (some operator) m) v

-- The loop over the messages of an activity: the messages, and the visitor with the callers and the
-- activities that are new. No loop reads the messages before its end.
unfoldable pub retarget_messages : List Message → Visitor → List Message × Visitor
retarget_messages [] v = ([], v)
retarget_messages (m ∷ ms) v =
    let operator = operator_of v.diagram.participants m.to in
    let rest = retarget_messages ms (ensure_target operator m v) in
    (set_target operator m ∷ rest.0, rest.1)

-- The loop over the activities. Those that it inserts have no messages.
unfoldable pub ensure_lambda_messages : List (ℕ × Activity) → Visitor → Visitor
ensure_lambda_messages [] v = v
ensure_lambda_messages ((id, a) ∷ rest) v =
    let (messages, v) = retarget_messages a.messages v in
    let activities = update id (λ b. record b { messages = messages }) v.diagram.activities in
    ensure_lambda_messages rest (with_diagram (record v.diagram { activities = activities }) v)

abbrev pub ensure_lambda_messages_have_operator_as_target : Visitor → Visitor
ensure_lambda_messages_have_operator_as_target v = ensure_lambda_messages v.diagram.activities v

module _ (is_global : ℕ → Bool) where
  unfoldable pub get_unique_id : List (ℕ × Eid) → ℕ → Option ℕ
  unfolding get_global_id
  get_unique_id id_map id =
      if is_global id
      then some id
      else elim (get_global_id id_map (record { value = id; is_global = false })) [
        | none ↦ none
        | some global ↦ some global.value
      ]

  -- The loops that insert the global ids of some ids into a set. The global id of a global one is itself.
  unfoldable pub unique_ids : List (ℕ × Eid) → List ℕ → List ℕ → List ℕ
  unique_ids id_map [] s = s
  unique_ids id_map (id ∷ ids) s =
      unique_ids id_map ids
        (elim (get_unique_id id_map id) [ none ↦ s | some global ↦ emplace global s ])

  unfoldable pub resolve_to : List (ℕ × Eid) → Message → Message
  resolve_to id_map m =
      if is_global m.to
      then m
      else elim (get_unique_id id_map m.to) [ none ↦ m | some global ↦ set_to global m ]

  unfoldable pub resolve_ids_to_global : Visitor → Visitor
  unfolding unique_ids resolve_to
  resolve_ids_to_global v =
      let d =
        each_activity (λ _ a. record a { messages = map (resolve_to v.id_map) a.messages })
          v.diagram in
      with_diagram (record d { active_participants = unique_ids v.id_map d.active_participants [] })
        v

  -- acs: `emplace` keeps the callers that are there.
  unfoldable pub translate_callers :
      List (ℕ × Eid) → List (ℕ × List ℕ) → List (ℕ × List ℕ) → List (ℕ × List ℕ)
  unfolding unique_ids
  translate_callers id_map [] acs = acs
  translate_callers id_map ((id, caller_ids) ∷ rest) acs =
      translate_callers id_map rest (elim (get_unique_id id_map id) [
        | none ↦ acs
        | some global ↦ insert global (unique_ids id_map caller_ids []) acs
      ])

  unfoldable pub add_callers_to_activities : Visitor → Visitor
  unfolding translate_callers set_callers
  add_callers_to_activities v =
      let acs = translate_callers v.id_map v.activity_callers [] in
      with_diagram
        (each_activity
          (λ id a. elim (find id acs) [ none ↦ a | some callers ↦ set_callers callers a ])
          v.diagram)
        v

  -- The fuel is that of the recursion over lambdas.
  unfoldable pub finalize : (inline_lambda_messages : Bool) → ℕ → Visitor → Option Visitor
  finalize inline_lambda_messages fuel v =
      let v = resolve_ids_to_global v in
      let v = ensure_lambda_messages_have_operator_as_target v in
      let v = add_callers_to_activities v in
      if inline_lambda_messages
      then (inline_lambda_operator_calls fuel v.diagram >>= λ d. some (with_diagram d v))
      else some v
