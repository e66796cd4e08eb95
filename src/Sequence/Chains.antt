-- ===== src/Sequence/Chains.antt =====
-- The call chains of `to` and `from_to` conditions (src/sequence_diagram/model/diagram.cc): the
-- reverse call graph of an activity, its paths, and the messages along them.
pub mod Search
pub mod Fuel
pub mod Routes
pub mod FromTo
use clang_uml.Prelude.{
  ℕ, zero, suc, Bool, true, false, not, ◌&&◌, ◌||◌, Option, none, some, List, [], ◌∷◌, ◌++◌, map,
  ◌==◌, ltb, if◌then◌else◌, elem, emplace, find_if, erase_if, length,
}
use mathlib.Core.List.{reverse}
use clang_uml.Enums.{MessageType, ◌is_message◌}
use clang_uml.Sequence.Message.{Message, Activity}
use clang_uml.Sequence.Diagram.{Diagram, has_activity, messages_of, callers_of}

-- The callers of a node of the reverse call graph, each with its own callers, in order.
pub data Callers : Type 0 where
  no_callers : Callers
  caller : (activity_id : ℕ) (callers siblings : Callers) → Callers

abbrev pub is_empty : Callers → Bool
is_empty no_callers = true
is_empty (caller _ _ _) = false

-- The loop over the callers; those that were visited on the way are skipped.
unfoldable pub caller_nodes : (ℕ → Callers) → List ℕ → List ℕ → Callers
caller_nodes build visited [] = no_callers
caller_nodes build visited (c ∷ cs) = elim (elem c visited) [
  | true ↦ caller_nodes build visited cs
  | false ↦ caller c (build c) (caller_nodes build visited cs)
]

-- The callers that `build_reverse_call_graph` gives to the node of an activity. Each call visits one
-- more activity, which bounds the depth: the first argument is fuel.
unfoldable pub build_reverse_call_graph : ℕ → Diagram → List ℕ → ℕ → Callers
unfolding caller_nodes
build_reverse_call_graph zero d visited_callers id = no_callers
build_reverse_call_graph (suc fuel) d visited_callers id = elim (has_activity d id) [
  | false ↦ no_callers
  | true ↦
      let visited = emplace id visited_callers in
      caller_nodes (build_reverse_call_graph fuel d visited) visited (callers_of d id)
]

-- `pop_back()` of a vector.
unfoldable pub pop_back : List ℕ → List ℕ
pop_back [] = []
pop_back (x ∷ []) = []
pop_back (x ∷ y ∷ xs) = x ∷ pop_back (y ∷ xs)

-- The depth first search: `all_message_chains` and `current_chain` are the state.
unfoldable pub search_each : Callers → List (List ℕ) × List ℕ → List (List ℕ) × List ℕ
unfolding pop_back
search_each no_callers s = s
search_each (caller id callers siblings) (all, current) =
    let current' = current ++ id ∷ [] in
    let (all', after) =
      search_each callers
        (if is_empty callers then all ++ reverse current' ∷ [] else all, current') in
    search_each siblings (all', pop_back after)

-- The search from the root, which is one node.
unfoldable pub find_reverse_message_chains : ℕ → Callers → List (List ℕ)
unfolding search_each
find_reverse_message_chains root callers = (search_each (caller root callers no_callers) ([], [])).0

-- The comparison of two chains of ids in `sort`.
unfoldable pub chain_lt : List ℕ → List ℕ → Bool
chain_lt xs [] = false
chain_lt [] (y ∷ ys) = true
chain_lt (x ∷ xs) (y ∷ ys) = ltb x y || x == y && chain_lt xs ys

unfoldable pub chain_eq : List ℕ → List ℕ → Bool
chain_eq [] [] = true
chain_eq (x ∷ xs) (y ∷ ys) = x == y && chain_eq xs ys
chain_eq _ _ = false

-- `sort` and then `erase(unique(...))`, one chain at a time.
unfoldable pub emplace_chain : List ℕ → List (List ℕ) → List (List ℕ)
unfolding chain_lt chain_eq
emplace_chain c [] = c ∷ []
emplace_chain c (e ∷ chains) =
    if chain_eq c e
    then e ∷ chains
    else if chain_lt c e
    then c ∷ e ∷ chains
    else e ∷ emplace_chain c chains

unfoldable pub sort_unique : List (List ℕ) → List (List ℕ)
unfolding emplace_chain
sort_unique [] = []
sort_unique (c ∷ chains) = emplace_chain c (sort_unique chains)

abbrev pub is_call_to : ℕ → Message → Bool
is_call_to to m = m.type is_message MessageType.k_call && m.to == to

abbrev pub target_messages : ℕ → List Message → List ℕ → List ℕ
target_messages to [] more = more
target_messages to (m ∷ ms) more =
    let rest = target_messages to ms more in if is_call_to to m then m.from ∷ rest else rest

-- The activities with a call to the target, one entry for each such call.
unfoldable pub target_callers : ℕ → List (ℕ × Activity) → List ℕ
target_callers to [] = []
target_callers to ((k, a) ∷ rest) = target_messages to a.messages (target_callers to rest)

-- Each root of the target gets its callers; every search starts with nothing visited.
unfoldable pub target_roots : (ℕ → Callers) → List ℕ → Callers
target_roots build [] = no_callers
target_roots build (c ∷ cs) = caller c (build c) (target_roots build cs)

-- The first message along each link of a chain; a link with no message is left out.
unfoldable pub to_message_chain : Diagram → List ℕ → List Message
to_message_chain d [] = []
to_message_chain d (from ∷ rest) = elim rest [
  | [] ↦ []
  | to ∷ _ ↦
      let after = to_message_chain d rest in
      elim (find_if (λ m. m.to == to) (messages_of d from)) [ none ↦ after | some m ↦ m ∷ after ]
]

abbrev pub starts_at : ℕ → List Message → Bool
starts_at from [] = false
starts_at from (m ∷ mc) = from == 0 || m.from == from

unfoldable pub get_all_from_to_message_chains : Diagram → ℕ → ℕ → List (List Message)
unfolding build_reverse_call_graph find_reverse_message_chains sort_unique target_callers
    target_roots to_message_chain
get_all_from_to_message_chains d from_activity to_activity =
    let fuel = suc (length d.activities) in
    let roots =
      target_roots (build_reverse_call_graph fuel d []) (target_callers to_activity d.activities) in
    let chains = sort_unique (find_reverse_message_chains to_activity roots) in
    erase_if (λ mc. not (starts_at from_activity mc)) (map (to_message_chain d) chains)
