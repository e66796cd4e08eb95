-- ===== src/Sequence/Blocks.antt =====
-- `diagram::finalize` (src/sequence_diagram/model/diagram.cc): calls that the filter does not include
-- are removed from each activity, and then the block statements in which no call or return is left.
pub mod Statements
pub mod Pruning
pub mod Finalized
pub mod Guarantees
pub mod Included
use clang_uml.Prelude.{
  ◌&&◌, ℕ, zero, suc, ◌+◌, ◌-◌, Bool, true, false, not, ◌||◌, Option, none, some, List, [], ◌∷◌,
  ◌++◌, map, ◌>>=◌, if◌then◌else◌, ltb, length, any_of, erase_if,
}
use clang_uml.Filter
use clang_uml.Filter.{DiagramFilter}
use clang_uml.Enums.{MessageType, ◌is_message◌}
use clang_uml.Sequence.Message.{
  Message, Activity, Participant, is_function, is_content, set_return_type,
}
use clang_uml.Sequence.Diagram.{Diagram, get_participant}

unfoldable pub is_begin_block_message : MessageType → Bool
is_begin_block_message MessageType.k_if = true
is_begin_block_message MessageType.k_while = true
is_begin_block_message MessageType.k_do = true
is_begin_block_message MessageType.k_for = true
is_begin_block_message MessageType.k_try = true
is_begin_block_message MessageType.k_switch = true
is_begin_block_message MessageType.k_conditional = true
is_begin_block_message _ = false

unfoldable pub is_end_block_message : MessageType → Bool
is_end_block_message MessageType.k_if_end = true
is_end_block_message MessageType.k_while_end = true
is_end_block_message MessageType.k_do_end = true
is_end_block_message MessageType.k_for_end = true
is_end_block_message MessageType.k_try_end = true
is_end_block_message MessageType.k_switch_end = true
is_end_block_message MessageType.k_conditional_end = true
is_end_block_message _ = false

-- `diagram::should_include`: what the filters say of a participant and of where it is declared.
unfoldable pub should_include :
    DiagramFilter Participant → DiagramFilter Participant → Participant → Bool
unfolding Filter.should_include
should_include on_element on_location p =
    Filter.should_include on_element p && Filter.should_include on_location p

-- `included` is `should_include` for the filters of the diagram.
unfoldable pub is_excluded_call : (Participant → Bool) → Diagram → Message → Bool
unfolding ◌is_message◌
is_excluded_call included d m =
    if not (m.type is_message MessageType.k_call)
    then false
    else elim (get_participant d m.to) [ none ↦ true | some p ↦ p.skip || not (included p) ]

-- A call gets the return type of its callee.
unfoldable pub with_return_type : Diagram → Message → Message
unfolding ◌is_message◌
with_return_type d m =
    if m.type is_message MessageType.k_call
    then elim (get_participant d m.to) [
      | none ↦ m
      | some p ↦ if is_function p.kind then set_return_type p.return_type m else m
    ]
    else m

-- The stack of open blocks, the last one (`back()`) first.
pub record BlockState : Type 0 where
  pub nest_level : ℕ
  pub stack : List (List Message)

-- `block_message_stack.at(level)` is counted from the first block; `none` is `std::out_of_range`.
unfoldable pub append_nth : ℕ → List Message → List (List Message) → Option (List (List Message))
append_nth i more [] = none
append_nth zero more (s ∷ stack) = some ((s ++ more) ∷ stack)
append_nth (suc i) more (s ∷ stack) = do rest ← append_nth i more stack; some (s ∷ rest)

unfoldable pub append_at : ℕ → List Message → List (List Message) → Option (List (List Message))
unfolding append_nth
append_at level more stack =
    if ltb level (length stack) then append_nth (length stack - 1 - level) more stack else none

abbrev pub pop_back : List (List Message) → List (List Message)
pop_back [] = []
pop_back (s ∷ stack) = stack

-- The end of the block `back`, whose messages move to the enclosing block if one is content. `none`
-- stands for a nest level below 0, at which the program throws or asserts.
unfoldable pub end_block : ℕ → List Message → List (List Message) → Option BlockState
unfolding append_at is_content
end_block zero back below = none
end_block (suc level) back below = do
  stack ←
      if any_of (λ m. is_content m.type) back
      then append_at level back (back ∷ below)
      else some (back ∷ below)
  some (record { nest_level = level; stack = pop_back stack })

unfoldable pub block_step : Diagram → BlockState → Message → Option BlockState
unfolding is_begin_block_message is_end_block_message end_block with_return_type
block_step d s m =
    if is_begin_block_message m.type
    then some (record { nest_level = s.nest_level + 1; stack = (m ∷ []) ∷ s.stack })
    else elim s.stack [
      | [] ↦ none
      | back ∷ below ↦
          if is_end_block_message m.type
          then end_block s.nest_level (back ++ m ∷ []) below
          else some (record s { stack = (back ++ with_return_type d m ∷ []) ∷ below })
    ]

unfoldable pub block_steps : Diagram → BlockState → List Message → Option BlockState
unfolding block_step
block_steps d s [] = some s
block_steps d s (m ∷ ms) = do s' ← block_step d s m; block_steps d s' ms

abbrev pub bottom : List (List Message) → Option (List Message)
bottom [] = none
bottom (s ∷ []) = some s
bottom (s ∷ t ∷ stack) = bottom (t ∷ stack)

abbrev pub no_blocks : BlockState
no_blocks = record { nest_level = 0; stack = [] ∷ [] }

unfoldable pub remove_empty_blocks : Diagram → List Message → Option (List Message)
unfolding block_steps
remove_empty_blocks d ms = do s ← block_steps d no_blocks ms; bottom s.stack

unfoldable pub finalize_activity : (Participant → Bool) → Diagram → Activity → Option Activity
unfolding is_excluded_call remove_empty_blocks
finalize_activity included d a = do
  messages ← remove_empty_blocks d (erase_if (is_excluded_call included d) a.messages)
  some (record a { messages = messages })

unfoldable pub finalize_all :
    (Participant → Bool) → Diagram → List (ℕ × Activity) → Option (List (ℕ × Activity))
unfolding finalize_activity
finalize_all included d [] = some []
finalize_all included d ((id, a) ∷ rest) = do
  a' ← finalize_activity included d a
  rest' ← finalize_all included d rest
  some ((id, a') ∷ rest')

unfoldable pub finalize : (Participant → Bool) → Diagram → Option Diagram
unfolding finalize_all
finalize included d = do
  activities ← finalize_all included d d.activities
  some (record d { activities = activities })
