-- ===== src/NodeApp/Tests.antt =====
-- Tests of the answers of a node, with names as their own URIs and the plain split.
use inc_sim.Base.{◌≡◌, refl, true, false, [], ◌∷◌}
use inc_sim.Base.Text.{text, text_eq, contains, slashed}
use inc_sim.Base.Table.{find}
use inc_sim.Base.Number.{to_string}
use inc_sim.Base.Outcome.{ok, err, uninitialized}
use inc_sim.Base.Gives.{Succeeds}
use inc_sim.Ndn.{plain_names}
use inc_sim.Boost.{plain_split, plain_split-SplitLaws, split_text, free_of-Without}
use inc_sim.Samples.{info, compute_node, plain_parts, plain_parts-UriLaws, reported_node}
use inc_sim.Management.Loops.{uris}
use inc_sim.Management.Commands.{Command, render}
use inc_sim.NodeApp.{node_report}
use inc_sim.NodeApp.Switch.{
  all_but_last, orchestration_request_resolution, orchestrator_request_resolution,
}
use inc_sim.NodeApp.Switching.{is_usable}
use inc_sim.NodeApp.Commands.{IsAnswer}
use inc_sim.NodeApp.Commands.Udp.{udp_command_lem}
use inc_sim.NodeApp.Commands.NamedData.{ndn_command_lem}

abbrev command : Command plain_names
command = record {
  node = text "/n1";
  on = true;
  functions = info (text "/f1") 0 7 false ∷ info (text "/f9") 0 7 false ∷ [];
}

command_uris : uris command.functions ≡ slashed (text "f1" ∷ text "f9" ∷ [])
unfolding uris
command_uris = refl

first_usable : is_usable (find (text "/f1") compute_node.func_map) ≡ true
unfolding find text_eq is_usable
first_usable = refl

second_usable : is_usable (find (text "/f9") compute_node.func_map) ≡ true
unfolding find text_eq is_usable
second_usable = refl

udp_command_lem_example :
    Succeeds
      (IsAnswer true (text "/f1" ∷ []) compute_node)
      (orchestration_request_resolution plain_split (render command) compute_node)
unfolding all_but_last
udp_command_lem_example =
    udp_command_lem plain_split plain_split-SplitLaws compute_node command (text "n1") (text "f1")
      (text "f9" ∷ []) refl command_uris
      (
        free_of-Without b'/' (text "n1") refl,
        (free_of-Without b'/' (text "f1") refl, (free_of-Without b'/' (text "f9") refl, tt)),
      )
      (unfold find text_eq is_usable in refl)

ndn_command_lem_example :
    Succeeds
      (IsAnswer true (text "/f1" ∷ text "/f9" ∷ []) compute_node)
      (orchestrator_request_resolution plain_parts plain_split (render command) compute_node)
ndn_command_lem_example =
    ndn_command_lem plain_parts plain_parts-UriLaws plain_split compute_node command (text "n1")
      (text "f1") (text "f9" ∷ []) refl command_uris refl (unfold find text_eq is_usable in refl)

-- A command that names one function switches nothing by UDP.
one_function_test :
    orchestration_request_resolution plain_split
      (text "/Orchestrator/n1/FunctionSwitch/Enable/f1")
      compute_node
    ≡ ok (record { payload = text "operation failed"; events = []; node = compute_node })
unfolding orchestration_request_resolution text_eq contains split_text all_but_last
one_function_test = refl

-- A command that names no function has the NDN app read a flag that was never set.
no_function_test :
    orchestrator_request_resolution plain_parts plain_split
      (text "/Orchestrator/n1/FunctionSwitch/Enable")
      compute_node
    ≡ err uninitialized
unfolding orchestrator_request_resolution text_eq split_text
no_function_test = refl

report_test :
    node_report reported_node
    ≡ ok (
        text
          "name=/n1;processor_core=4;processor_type=1000;RAM=100;ROM=200;links=/n2;runtimes=py;node_busy_counter=0;data=d1:7,d2:9;functions=/f1:0:2:6:1:20:30:400:Operand_1")
unfolding node_report to_string
report_test = refl
