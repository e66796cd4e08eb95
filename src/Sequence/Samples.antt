-- ===== src/Sequence/Samples.antt =====
-- A small sequence diagram, and what the operations do with it.
use clang_uml.Prelude.{
  List, not, str_eq, String, ℕ, ◌<◌, Bool, true, false, some, [], ◌∷◌, ◌++◌, ◌≡◌, refl, arith,
  if◌then◌else◌, find, All, map,
}
use mathlib.Core.Option as Opt
use clang_uml.Enums.{◌is_message◌, MessageType}
use clang_uml.Sequence.Message.{
  is_content, Message, Participant, ParticipantKind, new_message, set_to,
}
use clang_uml.Sequence.Diagram.{
  Diagram, messages_of, add_message, add_block_message, end_block_message,
}
use clang_uml.Sequence.Diagram.Adding.{
  IsLinked, add_message-IsLinked, add_messages, empty_block_leaves_no_trace,
}
use clang_uml.Filter.{DiagramFilter}
use clang_uml.Sequence.Blocks.{
  should_include, is_begin_block_message, is_end_block_message, is_excluded_call,
  remove_empty_blocks, finalize, with_return_type,
}
use clang_uml.Sequence.Blocks.Statements.{Statements, nil, single, block, flatten, IsBlocks, prune}
use clang_uml.Sequence.Blocks.Finalized.{balanced}
use clang_uml.Sequence.Blocks.Guarantees.{
  is_defined, remove_empty_blocks-is_defined, remove_empty_blocks_prunes, contents_of,
  remove_empty_blocks_keeps_contents,
}
use clang_uml.Sequence.Blocks.Included.{GoesToIncluded, IsBalanced, finalize_lem}
use clang_uml.Sequence.Chains.{
  Callers, no_callers, caller, is_empty, build_reverse_call_graph, find_reverse_message_chains,
  get_all_from_to_message_chains,
}
use clang_uml.Sequence.Chains.Search.{paths_to, find_reverse_message_chains_lem}
use clang_uml.Sequence.Chains.Fuel.{build_reverse_call_graph_fuel, unvisited}
use clang_uml.Sequence.Chains.Routes.{IsTraced}
use clang_uml.Sequence.Chains.FromTo.{IsChain, IsSent, get_all_from_to_message_chains-IsChain}
use clang_uml.Sequence.Lambdas.{is_lambda_operator, inline_lambda_operator_calls}
use clang_uml.Sequence.Lambdas.Lambdaless.{
  IsRanked, IsLambdaless, inline_lambda_operator_calls-IsLambdaless,
}

abbrev message : MessageType → ℕ → ℕ → Message
message type from to = set_to to (new_message type from)

abbrev call : ℕ → ℕ → Message
call from to = message MessageType.k_call from to

abbrev loop : Message
loop = message MessageType.k_for 1 0

abbrev loop_end : Message
loop_end = message MessageType.k_for_end 1 0

abbrev function : ℕ → Participant
function id = record {
  id = id;
  full_name = "f";
  skip = false;
  return_type = "int";
  kind = ParticipantKind.function;
}

-- Function 1 calls function 2.
abbrev two : Diagram
two = record {
  activities =
      (1, record { from = 1; messages = call 1 2 ∷ []; callers = [] })
      ∷ (2, record { from = 2; messages = []; callers = 1 ∷ [] })
      ∷ [];
  participants = (1, function 1) ∷ (2, function 2) ∷ [];
  active_participants = 1 ∷ 2 ∷ [];
}

-- An empty loop and a call.
abbrev looping : Statements
looping = block loop nil loop_end (single (call 1 2) nil)

looping-IsBlocks : IsBlocks looping
unfolding is_begin_block_message is_end_block_message
looping-IsBlocks = (refl, tt, refl, ((refl, refl), tt))

for-begins : is_begin_block_message loop.type ≡ true
unfolding is_begin_block_message
for-begins = refl

remove_empty_blocks_prunes_example :
    (remove_empty_blocks two (flatten looping) ≡ some (flatten (prune two looping)))
    × (remove_empty_blocks two (flatten looping ++ loop ∷ flatten nil)
        ≡ some (flatten (prune two looping)))
remove_empty_blocks_prunes_example =
    remove_empty_blocks_prunes two looping nil loop looping-IsBlocks tt for-begins

-- The loop of the example is gone.
prune-looping : flatten (prune two looping) ≡ with_return_type two (call 1 2) ∷ []
unfolding prune flatten
prune-looping = refl

remove_empty_blocks_keeps_contents_example :
    Opt.map contents_of (remove_empty_blocks two (flatten looping))
    ≡ some (map (with_return_type two) (contents_of (flatten looping)))
remove_empty_blocks_keeps_contents_example =
    remove_empty_blocks_keeps_contents two looping looping-IsBlocks

remove_empty_blocks-is_defined_example :
    is_defined (remove_empty_blocks two (loop ∷ loop_end ∷ loop_end ∷ []))
    ≡ balanced 0 (loop ∷ loop_end ∷ loop_end ∷ [])
remove_empty_blocks-is_defined_example =
    remove_empty_blocks-is_defined two (loop ∷ loop_end ∷ loop_end ∷ [])

-- Leaves out a participant with no name.
abbrev named : DiagramFilter Participant
named = record { inclusive = (λ p. some (not (str_eq p.full_name ""))) ∷ []; exclusive = [] }

abbrev everywhere : DiagramFilter Participant
everywhere = record { inclusive = []; exclusive = [] }

abbrev included : Participant → Bool
included = should_include named everywhere

two-IsBalanced : All (IsBalanced included two) two.activities
unfolding should_include find balanced is_excluded_call is_begin_block_message is_end_block_message
two-IsBalanced = (refl, (refl, tt))

finalize_lem_example :
    (d' : Diagram) × (finalize included two ≡ some d')
    × All (λ entry. All (GoesToIncluded included two) entry.1.messages) d'.activities
finalize_lem_example = finalize_lem included two two-IsBalanced

abbrev between : List Message
between = message MessageType.k_case 1 0 ∷ message MessageType.k_else 1 0 ∷ []

empty_block_leaves_no_trace_example :
    (d' : Diagram) × (end_block_message loop_end loop.type
        (add_messages between (add_block_message loop two))
      ≡ some d')
    × (messages_of d' loop.from ≡ messages_of two loop.from)
unfolding ◌is_message◌ is_content
empty_block_leaves_no_trace_example =
    empty_block_leaves_no_trace loop between loop_end two (refl, (refl, tt)) refl refl

abbrev nothing : Diagram
nothing = record { activities = []; participants = []; active_participants = [] }

nothing-IsLinked : IsLinked nothing
unfolding find
nothing-IsLinked k = tt

add_message-IsLinked_example : IsLinked (add_message (call 1 2) nothing)
add_message-IsLinked_example = add_message-IsLinked (call 1 2) nothing nothing-IsLinked

-- Node 2 has the callers 1 and 3, and 1 is called by 4.
abbrev graph : Callers
graph = caller 1 (caller 4 no_callers no_callers) (caller 3 no_callers no_callers)

find_reverse_message_chains_example :
    find_reverse_message_chains 2 graph
    ≡ (if is_empty graph then (2 ∷ []) ∷ [] else paths_to (2 ∷ []) graph)
find_reverse_message_chains_example = find_reverse_message_chains_lem 2 graph

paths_to-graph : paths_to (2 ∷ []) graph ≡ (4 ∷ 1 ∷ 2 ∷ []) ∷ (3 ∷ 2 ∷ []) ∷ []
unfolding paths_to
paths_to-graph = refl

unvisited-two : unvisited [] two.activities < 3
unfolding unvisited
unvisited-two = omega arith

unvisited-two_more : unvisited [] two.activities < 8
unfolding unvisited
unvisited-two_more = omega arith

build_reverse_call_graph_fuel_example :
    build_reverse_call_graph 3 two [] 2 ≡ build_reverse_call_graph 8 two [] 2
build_reverse_call_graph_fuel_example =
    build_reverse_call_graph_fuel 3 8 two [] 2 refl unvisited-two unvisited-two_more

two-IsTraced : IsTraced two
unfolding find
two-IsTraced = record {
  unique = (refl, (refl, tt));
  sent = λ k. ground arith;
  traced = λ k c h. ground (arith, h);
}

get_all_from_to_message_chains_example :
    All (λ mc. IsChain 1 2 mc × All (IsSent two) mc) (get_all_from_to_message_chains two 1 2)
get_all_from_to_message_chains_example = get_all_from_to_message_chains-IsChain two 1 2 two-IsTraced

-- Function 1 calls the operator 5 of the lambda 4, which calls function 2.
abbrev lambdas : Diagram
lambdas = record {
  activities =
      (1, record { from = 1; messages = call 1 5 ∷ []; callers = [] })
      ∷ (2, record { from = 2; messages = []; callers = 5 ∷ [] })
      ∷ (5, record { from = 5; messages = call 5 2 ∷ []; callers = 1 ∷ [] })
      ∷ [];
  participants =
      (1, function 1)
      ∷ (2, function 2)
      ∷ (
        4,
        record {
          id = 4;
          full_name = "lambda";
          skip = false;
          return_type = "";
          kind = ParticipantKind.class_ true 5;
        },
      )
      ∷ (
        5,
        record {
          id = 5;
          full_name = "operator()";
          skip = false;
          return_type = "int";
          kind = ParticipantKind.method 4;
        },
      )
      ∷ [];
  active_participants = 1 ∷ 2 ∷ 4 ∷ [];
}

lambdas-IsRanked : IsRanked lambdas (λ _. 0)
unfolding is_lambda_operator find
lambdas-IsRanked k h = ground (arith, h)

inline_lambda_operator_calls_example : IsLambdaless lambdas (inline_lambda_operator_calls 2 lambdas)
inline_lambda_operator_calls_example =
    inline_lambda_operator_calls-IsLambdaless lambdas (λ _. 0) 1 lambdas-IsRanked (λ k. omega arith)

abbrev any_name : String → Bool
any_name name = true
