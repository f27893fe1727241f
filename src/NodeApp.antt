-- ===== src/NodeApp.antt =====
-- apps/inc_compute_node_apps/node_orchestration_udp_app/udp-orchestration-node-app.cpp and
-- apps/inc_compute_node_apps/node_orchestration_ndn_app/ndn-orchestration-node-app.cpp: how a compute
-- node answers the requests of the orchestrator. Here is what it reports.
pub mod Switch
pub mod Switching
pub mod Commands
pub mod Report
mod Tests
use inc_sim.Base.{Bool, true, false, Option, none, some, List, [], ◌∷◌, if◌then◌else◌}
use inc_sim.Base.Text.{Text, text, ◌<<◌}
use inc_sim.Base.Table.{Table}
use inc_sim.Base.Number.{to_string}
use inc_sim.Base.Outcome.{Outcome, ok, err, null_pointer, ◌>>=◌}
use inc_sim.Ndn.{Ndn, Nfd}
use inc_sim.Computation.{Computation}
use inc_sim.Node.{IncOrchestrationComputeNode, reset_node_busy_counter}

-- The callbacks `m_onFuncEnableTrace` and `m_onFuncDisableTrace`
pub data Event : Type 0 where
  func_enabled func_disabled : Text → Event

-- The payload of the packet that answers a request, the callbacks, and the node after it.
pub record Answer (N : Ndn) (F : Nfd N) : Type 0 where
  pub payload : Text
  pub events : List Event
  pub node : IncOrchestrationComputeNode N F

-- A `bool` as a stream prints it.
abbrev pub flag_text : Bool → Text
flag_text true = text "1"
flag_text false = text "0"

module _ {N : Ndn} where
  -- The body of the loop over the functions.
  unfoldable pub function_report : Text → Computation N → Text
  function_report name c =
      name
      << text ":"
      << flag_text c.enable_computation
      << text ":"
      << to_string c.exec_counter
      << text ":"
      << to_string c.miss_exec_counter
      << text ":"
      << to_string c.cpu
      << text ":"
      << to_string c.ram
      << text ":"
      << to_string c.rom
      << text ":"
      << to_string c.func_size
      << text ":"
      << c.input_list

  unfoldable pub functions_report : Table (Option (Computation N)) → Outcome Text
  unfolding function_report
  functions_report [] = ok []
  functions_report ((name, none) ∷ m) = err null_pointer
  functions_report ((name, some c) ∷ m) = do
    rest ← functions_report m
    ok (function_report name c << rest)

  -- One entry of the answer to `/FunctionStatus`; a line ends with the byte 10.
  unfoldable pub status_line : Text → Computation N → Text
  status_line name c =
      text "function_name="
      << name
      << text ";enable_status="
      << flag_text c.enable_computation
      << text ";execution_counter="
      << to_string c.exec_counter
      << text ";"
      << (10 ∷ [])

  unfoldable pub status_lines : Table (Option (Computation N)) → Outcome Text
  unfolding status_line
  status_lines [] = ok []
  status_lines ((name, none) ∷ m) = err null_pointer
  status_lines ((name, some c) ∷ m) = do rest ← status_lines m; ok (status_line name c << rest)

module _ {N : Ndn} {F : Nfd N} where
  -- What both apps write for the status of the node.
  unfoldable pub node_report : IncOrchestrationComputeNode N F → Outcome Text
  unfolding functions_report
  node_report n = do
    functions ← functions_report n.func_map
    ok (
        text "name=/"
        << n.node_label
        << text ";processor_core="
        << to_string n.processor_core
        << text ";processor_type="
        << to_string n.processor_speed
        << text ";RAM="
        << to_string n.ram
        << text ";ROM="
        << to_string n.rom
        << text ";links="
        << n.links
        << text ";runtimes="
        << n.supported_runtimes
        << text ";node_busy_counter="
        << to_string n.node_busy_counter
        << text ";data="
        << n.provided_data
        << text ";functions="
        << functions)

  -- `StatusFetchHandler` of the UDP app.
  unfoldable pub udp_status_fetch_handler :
      Text → IncOrchestrationComputeNode N F → Outcome (Answer N F)
  unfolding node_report reset_node_busy_counter
  udp_status_fetch_handler packet_data n = do
    report ← node_report n
    ok (record {
      payload = text "/Orchestrator/" << n.node_label << packet_data << text "/" << report;
      events = [];
      node = reset_node_busy_counter n;
    })

  -- `StatusFetchHandler` of the NDN app, with the third part of the name of the interest.
  unfoldable pub ndn_status_fetch_handler :
      N.Name → IncOrchestrationComputeNode N F → Outcome (Answer N F)
  unfolding node_report reset_node_busy_counter
  ndn_status_fetch_handler action n = do
    let n' =
        if N.name_eq action (N.name (text "/BootstrapInfo")) then reset_node_busy_counter n else n
    report ← node_report n'
    ok (record { payload = report; events = []; node = reset_node_busy_counter n' })

  unfoldable pub udp_function_status_request_handler :
      IncOrchestrationComputeNode N F → Outcome (Answer N F)
  unfolding status_lines
  udp_function_status_request_handler n = do
    lines ← status_lines n.func_map
    ok (record {
      payload = text "/Orchestrator/" << n.node_label << text "/FunctionStatus/" << lines;
      events = [];
      node = n;
    })

  unfoldable pub ndn_function_status_request_handler :
      IncOrchestrationComputeNode N F → Outcome (Answer N F)
  unfolding status_lines
  ndn_function_status_request_handler n = do
    lines ← status_lines n.func_map
    ok (record {
      payload = text "Function status from node: " << n.node_label << (10 ∷ lines);
      events = [];
      node = n;
    })

  unfoldable pub unknown_packet_handler : IncOrchestrationComputeNode N F → Answer N F
  unknown_packet_handler n = record {
    payload = text "Unknown orchestration instruction";
    events = [];
    node = n;
  }
