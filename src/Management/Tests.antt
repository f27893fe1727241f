-- ===== src/Management/Tests.antt =====
-- Tests of the orchestrator's decisions.
use inc_sim.Base.{◌≡◌, refl, true, List, [], ◌∷◌, arith}
use inc_sim.Base.Text.{Text, text, text_eq}
use inc_sim.Ndn.{plain_names}
use inc_sim.Samples.{two_nodes}
use inc_sim.Management.{ClockLaws, nanoseconds, in_band, send}
use inc_sim.Management.Passes.{function_switch_handler}
use inc_sim.Management.Commands.{Command, messages, plan, function_switch_handler-plan}
use inc_sim.Management.Commands.Reasons.{AllOf, Justified, function_switch_handler-Justified}
use inc_sim.Management.Once.{
  pair_in, is_excluded, check_run, remains, OneRemains, check_run-OneRemains,
  check_atleast_once_enabled, check_atleast_once_enabled_lem,
}

nanoseconds-ClockLaws : ClockLaws nanoseconds
nanoseconds-ClockLaws = record { times_zero = λ t. omega arith; lt_of_int = λ i. ground arith }

-- On the first node something ran, so its idle function is switched off; the missed one is switched
-- on twice, and the second node gets the function that is busy on the first.
function_switch_test :
    function_switch_handler plain_names nanoseconds 3000 (text "In-Band") two_nodes
    ≡ in_band (text "/Orchestrator/n1/FunctionSwitch/Disable/f1")
      ∷ in_band (text "/Orchestrator/n2/FunctionSwitch/Enable/f2")
      ∷ in_band (text "/Orchestrator/n1/FunctionSwitch/Enable/f3")
      ∷ in_band (text "/Orchestrator/n1/FunctionSwitch/Enable/f3")
      ∷ []
unfolding function_switch_handler send text_eq
function_switch_test = refl

function_switch_handler-plan_example :
    function_switch_handler plain_names nanoseconds 3000 (text "In-Band") two_nodes
    ≡ messages (text "In-Band") (plan nanoseconds 3000 two_nodes)
function_switch_handler-plan_example =
    function_switch_handler-plan nanoseconds nanoseconds-ClockLaws 3000 (text "In-Band") two_nodes

function_switch_handler-Justified_example :
    (cs : List (Command plain_names)) × (function_switch_handler plain_names nanoseconds 3000
        (text "In-Band")
        two_nodes
      ≡ messages (text "In-Band") cs)
    × AllOf (Justified nanoseconds 3000 two_nodes) cs
function_switch_handler-Justified_example =
    function_switch_handler-Justified nanoseconds nanoseconds-ClockLaws 3000 (text "In-Band")
      two_nodes

-- Two nodes that have `/f1` on: only the first to ask may switch it off.
abbrev asks : List (Text × Text)
asks = (text "/n1", text "/f1") ∷ (text "/n2", text "/f1") ∷ []

none_excluded : OneRemains plain_names two_nodes []
unfolding OneRemains is_excluded
none_excluded h e = absurd (ground (arith, e))

check_run_test : check_run plain_names asks two_nodes [] ≡ (text "/n1", text "/f1") ∷ []
unfolding check_run check_atleast_once_enabled text_eq
check_run_test = refl

check_run-OneRemains_example :
    OneRemains plain_names two_nodes (check_run plain_names asks two_nodes [])
check_run-OneRemains_example = check_run-OneRemains plain_names asks two_nodes [] none_excluded

check_atleast_once_enabled_lem_example :
    check_atleast_once_enabled plain_names (text "/n1") (text "/f1") [] two_nodes
    ≡ (true, (text "/n1", text "/f1") ∷ [])
unfolding remains text_eq pair_in
check_atleast_once_enabled_lem_example =
    check_atleast_once_enabled_lem plain_names (text "/n1") (text "/f1") [] two_nodes
