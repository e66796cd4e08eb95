-- ===== src/Sequence/Endpoints.antt =====
-- The ends of the call chains that a configuration names (`get_to_activity_ids` and
-- `get_from_activity_ids` of src/sequence_diagram/model/diagram.cc). A location of the configuration,
-- which may be a regular expression, is its test of a name.
use clang_uml.Prelude.{
  ℕ, Bool, false, not, Option, none, some, List, [], ◌∷◌, ◌++◌, String, ◌>>=◌, if◌then◌else◌,
  emplace_all,
}
use clang_uml.Enums.{MessageType, ◌is_message◌}
use clang_uml.Sequence.Message.{Message, Activity}
use clang_uml.Sequence.Diagram.{Diagram, get_participant}

-- util::remove_duplicates: `sort` and `erase(unique(...))`.
unfoldable pub remove_duplicates : List ℕ → List ℕ
remove_duplicates xs = emplace_all xs []

-- The loop over the messages of an activity; `none` is `std::out_of_range`, for a call whose callee is
-- no participant.
unfoldable pub to_ids : (String → Bool) → Diagram → List Message → Option (List ℕ)
unfolding ◌is_message◌
to_ids location d [] = some []
to_ids location d (m ∷ ms) = to_ids location d ms >>= λ rest.
    (if not (m.type is_message MessageType.k_call)
      then some rest
      else get_participant d m.to
        >>= (λ callee. some (if location callee.full_name then m.to ∷ rest else rest)))

unfoldable pub all_to_ids : (String → Bool) → Diagram → List (ℕ × Activity) → Option (List ℕ)
unfolding to_ids
all_to_ids location d [] = some []
all_to_ids location d ((k, v) ∷ rest) = to_ids location d v.messages >>= λ here.
    all_to_ids location d rest >>= (λ later. some (here ++ later))

unfoldable pub get_to_activity_ids : (String → Bool) → Diagram → Option (List ℕ)
unfolding all_to_ids remove_duplicates
get_to_activity_ids location d =
    all_to_ids location d d.activities >>= λ ids. some (remove_duplicates ids)

-- Whether the caller of an activity is a participant that the location names.
abbrev pub is_start : (String → Bool) → Diagram → Activity → Bool
is_start location d v = elim (get_participant d v.from) [
  | none ↦ false
  | some p ↦ location p.full_name
]

abbrev pub from_ids : (String → Bool) → Diagram → List (ℕ × Activity) → List ℕ
from_ids location d [] = []
from_ids location d ((k, v) ∷ rest) =
    let later = from_ids location d rest in if is_start location d v then k ∷ later else later

unfoldable pub get_from_activity_ids : (String → Bool) → Diagram → List ℕ
unfolding remove_duplicates
get_from_activity_ids location d = remove_duplicates (from_ids location d d.activities)
