-- ===== src/Engine/Tests.antt =====
-- Tests of the interest resolution.
use inc_sim.Base.{◌≡◌, refl, ◌<◌, Bool, true, false, none, some, [], ◌∷◌, ◌++◌, arith, length, ltb}
use inc_sim.Base.Text.{Text, text, text_eq, contains}
use inc_sim.Base.Table.{find, update}
use inc_sim.Base.Outcome.{ok}
use inc_sim.Base.Number.{u32}
use inc_sim.Boost.{split_text}
use inc_sim.Ndn.{plain_names}
use inc_sim.Samples.{computation, compute_node, plain_fib, plain_parts}
use inc_sim.Computation.{add_miss_exec_counter}
use inc_sim.Node.{IncOrchestrationComputeNode}
use inc_sim.Node.Functions.{get_function}
use inc_sim.Node.Excluded.{check_exclude_list}
use inc_sim.Engine.{
  nack, forward, fetch, Resolution, get_fetch_decisions, extract_function_name, extract_data_names,
  part_kind,
}
use inc_sim.Engine.Names.{extract_names, is_end, are_arguments}
use inc_sim.Engine.Decisions.{
  decision_of, wanted, is_complete, get_fetch_decisions_lem, get_fetch_decisions_unknown,
  get_fetch_decisions-is_complete, counted,
}

abbrev interest : Text
interest = text "/lambda/Function/f1/Data/d9"

extract_names_example :
    (extract_function_name plain_names (
        text "/lambda"
        ∷ text "/Function"
        ∷ text "/f1"
        ∷ text "/Data"
        ∷ text "/d1"
        ∷ text "/d2"
        ∷ [])
      ≡ some (text "/f1"))
    × (extract_data_names plain_names false (
          text "/lambda"
          ∷ text "/Function"
          ∷ text "/f1"
          ∷ text "/Data"
          ∷ text "/d1"
          ∷ text "/d2"
          ∷ [])
        ≡ text "/d1" ∷ text "/d2" ∷ [])
    × (extract_data_names plain_names false (
          text "/lambda"
          ∷ text "/Function"
          ∷ text "/f1"
          ∷ text "/Data"
          ∷ text "/d1"
          ∷ text "/d2"
          ∷ text "/%FE%07"
          ∷ [])
        ≡ text "/d1" ∷ text "/d2" ∷ [])
unfolding part_kind text_eq are_arguments contains is_end
extract_names_example =
    extract_names plain_names (text "/lambda") (text "/Function") (text "/f1") (text "/Data")
      (text "/d1" ∷ text "/d2" ∷ []) refl refl refl refl refl refl (text "/%FE%07") [] refl refl

abbrev all_stored : Text → Bool
all_stored name = true

interest_names : extract_function_name plain_names (plain_parts.parts interest) ≡ some (text "/f1")
unfolding extract_function_name split_text text_eq
interest_names = refl

f1_stored : find (text "/f1") compute_node.func_map ≡ some (some computation)
unfolding find text_eq
f1_stored = refl

get_fetch_decisions_lem_example :
    let ps = extract_data_names plain_names false (plain_parts.parts interest) in
    get_fetch_decisions plain_names plain_parts plain_fib true all_stored interest compute_node
    ≡ ok (record {
      decision =
          decision_of plain_names plain_parts plain_fib true all_stored
            (text "/f1")
            computation
            ps
            compute_node;
      fetches =
          (text "/Function/f1" ∷ [])
          ++ wanted plain_names plain_parts plain_fib true all_stored compute_node ps;
      node =
          counted plain_names plain_parts plain_fib true all_stored
            (decision_of plain_names plain_parts plain_fib true all_stored
              (text "/f1")
              computation
              ps
              compute_node)
            (text "/f1")
            computation
            compute_node;
    })
unfolding split_text extract_data_names text_eq contains
get_fetch_decisions_lem_example =
    get_fetch_decisions_lem plain_names plain_parts plain_fib true all_stored interest compute_node
      (text "/f1") interest_names computation f1_stored refl (omega arith)

-- The node excludes `/f1`, so the interest is forwarded, and the miss counted.
abbrev forwarded : Resolution plain_names plain_parts plain_fib
forwarded = record {
  decision = forward;
  fetches = text "/Function/f1" ∷ [];
  node = record compute_node {
    func_map = (text "/f1", some (record computation { miss_exec_counter = 7 })) ∷ [];
  };
}

forward_test :
    get_fetch_decisions plain_names plain_parts plain_fib true all_stored interest compute_node
    ≡ ok forwarded
unfolding get_fetch_decisions get_function split_text extract_data_names text_eq contains find
    update check_exclude_list add_miss_exec_counter
forward_test = refl

interest_short : length (plain_parts.parts interest) < u32
unfolding split_text
interest_short = omega arith

-- Without the exclusion the function, which is off, is to be fetched.
abbrev free_node : IncOrchestrationComputeNode plain_names plain_fib
free_node = record compute_node { func_exclude_list = [] }

abbrev fetching : Resolution plain_names plain_parts plain_fib
fetching = record { decision = fetch; fetches = text "/Function/f1" ∷ []; node = free_node }

fetch_test :
    get_fetch_decisions plain_names plain_parts plain_fib true all_stored interest free_node
    ≡ ok fetching
unfolding get_fetch_decisions get_function split_text extract_data_names text_eq contains find
    update check_exclude_list add_miss_exec_counter
fetch_test = refl

get_fetch_decisions-is_complete_example :
    is_complete plain_names plain_parts plain_fib true all_stored fetch (text "/Function/f1" ∷ [])
    ≡ true
get_fetch_decisions-is_complete_example =
    get_fetch_decisions-is_complete plain_names plain_parts plain_fib true all_stored interest
      free_node fetching interest_short fetch_test

f8_named :
    extract_function_name plain_names (plain_parts.parts (text "/lambda/Function/f8"))
    ≡ some (text "/f8")
unfolding extract_function_name split_text text_eq
f8_named = refl

f8_missing : find (text "/f8") compute_node.func_map ≡ none
unfolding find text_eq
f8_missing = refl

get_fetch_decisions_unknown_example :
    (r : Resolution plain_names plain_parts plain_fib) × (get_fetch_decisions plain_names
        plain_parts plain_fib true all_stored
        (text "/lambda/Function/f8")
        compute_node
      ≡ ok r)
    × (r.decision ≡ nack)
    × (r.fetches ≡ [])
    × (find (text "/f8") r.node.func_map ≡ some none)
get_fetch_decisions_unknown_example =
    get_fetch_decisions_unknown plain_names plain_parts plain_fib true all_stored
      (text "/lambda/Function/f8") compute_node (text "/f8") f8_named f8_missing

long_data_name : ltb (length (plain_parts.parts (text "/lambda/Data/d1"))) 2 ≡ false
unfolding split_text
long_data_name = refl

unnamed : extract_function_name plain_names (plain_parts.parts (text "/lambda/Data/d1")) ≡ none
unfolding extract_function_name split_text text_eq
unnamed = refl
