-- ===== src/Node/Tests.antt =====
-- Tests of the compute node.
use inc_sim.Base.{◌≡◌, refl, true, false, none, some, List, [], ◌∷◌, arith}
use inc_sim.Base.Text.{text, text_eq}
use inc_sim.Base.Table.{find}
use inc_sim.Base.Outcome.{ok, err, null_pointer}
use inc_sim.Ndn.{plain_names}
use inc_sim.Boost.{plain_split}
use inc_sim.Samples.{computation, compute_node, plain_fib}
use inc_sim.Node.{IncOrchestrationComputeNode, check_provided_data_list, add_provided_data}
use inc_sim.Node.Queue.{increment_queue_fill, decrement_queue_fill}
use inc_sim.Node.Queue.Timers.{
  IsBounded, QueueOp, increment, decrement, queue_call, queue_run, queue_run-IsBounded,
}
use inc_sim.Node.Functions.{enable_function, disable_function, get_function}
use inc_sim.Node.Functions.Laws.{get_function_poisons}
use inc_sim.Node.Provided.{provided_data_part}

abbrev Node : Type 0
Node = IncOrchestrationComputeNode plain_names plain_fib

compute_node-IsBounded : IsBounded compute_node
compute_node-IsBounded = record { within = omega arith; full = λ e. omega arith; empty = λ e. cc }

-- A refused increment, and decrements until one is refused.
abbrev calls : List (QueueOp plain_names)
calls = increment 1 ∷ decrement 2 ∷ decrement 3 ∷ decrement 4 ∷ decrement 5 ∷ []

queue_run-IsBounded_example : IsBounded (queue_run calls compute_node)
queue_run-IsBounded_example = queue_run-IsBounded calls compute_node compute_node-IsBounded

queue_run_test :
    let n : Node = queue_run calls compute_node in
    (n.queue_fill ≡ 0) × (n.empty_timer_started ≡ true) × (n.q_empty_time ≡ 5)
unfolding queue_run queue_call increment_queue_fill decrement_queue_fill
queue_run_test = (refl, refl, refl)

f1_stored : find (text "/f1") compute_node.func_map ≡ some (some computation)
unfolding find text_eq
f1_stored = refl

f9_missing : find (text "/f9") compute_node.func_map ≡ none
unfolding find text_eq
f9_missing = refl

get_function_poisons_example :
    (enable_function plain_split (text "/f9") compute_node ≡ ok (false, compute_node))
    × (disable_function plain_split (text "/f9") compute_node ≡ ok (false, compute_node))
    × ((get_function (text "/f9") compute_node).0 ≡ none)
    × (enable_function plain_split (text "/f9") (get_function (text "/f9") compute_node).1
        ≡ err null_pointer)
    × (disable_function plain_split (text "/f9") (get_function (text "/f9") compute_node).1
        ≡ err null_pointer)
get_function_poisons_example = get_function_poisons plain_split (text "/f9") compute_node f9_missing

provided_not_null : text_eq compute_node.provided_data (text "null") ≡ false
unfolding text_eq
provided_not_null = refl

-- The node has `/d10` and `/d2`, but counts as having `/d1`.
provided_data_part_example :
    (check_provided_data_list (text "/d1") compute_node ≡ true)
    × ((add_provided_data (text "/d1") compute_node).provided_data ≡ text "/d10,/d2")
provided_data_part_example =
    provided_data_part compute_node [] (text "/d1") (text "0,/d2") refl provided_not_null
