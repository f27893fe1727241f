-- ===== src/NodeApp/Switch.antt =====
-- `FunctionSwitchHandler` of both apps, and the choice of the handler for a request.
use inc_sim.Base.{Bool, false, ◌||◌, Option, none, some, List, [], ◌∷◌, ◌++◌, if◌then◌else◌}
use inc_sim.Base.Text.{Text, text, text_eq, contains}
use inc_sim.Base.Outcome.{Outcome, ok, err, bad_index, uninitialized, ◌>>=◌, or_fault}
use inc_sim.Ndn.{Ndn, Nfd, NameParts, sub_name}
use inc_sim.Boost.{Boost}
use inc_sim.Node.{IncOrchestrationComputeNode}
use inc_sim.Node.Functions.{enable_function, disable_function}
use inc_sim.Node.Excluded.{add_to_exclude_list, remove_from_exclude_list, check_exclude_list}
use inc_sim.NodeApp.{
  Event, func_enabled, func_disabled, Answer, udp_status_fetch_handler, ndn_status_fetch_handler,
  udp_function_status_request_handler, ndn_function_status_request_handler, unknown_packet_handler,
}

-- The variable `flag`, `none` while it has no value, the callbacks so far, and the node.
pub record Switching (N : Ndn) (F : Nfd N) : Type 0 where
  pub flag : Option Bool
  pub events : List Event
  pub node : IncOrchestrationComputeNode N F

-- All but the last of the tokens.
unfoldable pub all_but_last : List Text → List Text
all_but_last [] = []
all_but_last (x ∷ []) = []
all_but_last (x ∷ y ∷ ys) = x ∷ all_but_last (y ∷ ys)

-- `tokens[4]`, and the tokens from the sixth on before `tokens.end()-1`. With fewer than six the
-- iterator starts behind the end of the loop.
unfoldable pub switch_tokens : List Text → Outcome (Text × List Text)
unfolding all_but_last
switch_tokens (a ∷ b ∷ c ∷ d ∷ operation ∷ e ∷ es) = ok (operation, all_but_last (e ∷ es))
switch_tokens tokens = err bad_index

-- The parts that the loop reads.
unfoldable pub function_parts {ℓ} : {A : Type ℓ} → List A → List A
function_parts (a ∷ b ∷ c ∷ d ∷ ps) = ps
function_parts ps = []

module _ {N : Ndn} {F : Nfd N} where
  module _ (b : Boost) where
    -- The branch that enables a function.
    unfoldable pub switch_on : Text → Switching N F → Outcome (Switching N F)
    switch_on func_name s = do
      r ← enable_function b func_name s.node
      ok (record {
        flag = some r.0;
        events = s.events ++ (if r.0 then func_enabled func_name ∷ [] else []);
        node =
            if check_exclude_list func_name r.1
            then remove_from_exclude_list func_name r.1
            else r.1;
      })

    -- The branch that disables a function.
    unfoldable pub switch_off : Text → Switching N F → Outcome (Switching N F)
    switch_off func_name s = do
      r ← disable_function b func_name s.node
      ok (record {
        flag = some r.0;
        events = s.events ++ (if r.0 then func_disabled func_name ∷ [] else []);
        node = add_to_exclude_list func_name r.1;
      })

    unfoldable pub udp_switch_one : Text → Text → Switching N F → Outcome (Switching N F)
    unfolding switch_on switch_off
    udp_switch_one operation token s =
        if text_eq operation (text "Enable")
        then switch_on (b'/' ∷ token) s
        else if text_eq operation (text "Disable")
        then switch_off (b'/' ∷ token) s
        else ok s

    unfoldable pub udp_switch_all : Text → List Text → Switching N F → Outcome (Switching N F)
    unfolding udp_switch_one
    udp_switch_all operation [] s = ok s
    udp_switch_all operation (t ∷ ts) s = do
      s' ← udp_switch_one operation t s
      udp_switch_all operation ts s'

    unfoldable pub ndn_switch_one : Text → Text → Switching N F → Outcome (Switching N F)
    unfolding switch_on switch_off
    ndn_switch_one operation func_name s = do
      s' ← if text_eq operation (text "/Enable") then switch_on func_name s else ok s
      if text_eq operation (text "/Disable") then switch_off func_name s' else ok s'

    -- The loop over the parts of the name from the fifth on.
    unfoldable pub ndn_switch_all : Text → List N.Name → Switching N F → Outcome (Switching N F)
    unfolding ndn_switch_one
    ndn_switch_all operation [] s = ok s
    ndn_switch_all operation (p ∷ ps) s = do
      s' ← ndn_switch_one operation (N.to_uri p) s
      ndn_switch_all operation ps s'

  -- `if (flag)` with the text of the answer.
  unfoldable pub finish : Switching N F → Outcome (Answer N F)
  finish s = do
    flag ← or_fault s.flag uninitialized
    ok (record {
      payload = if flag then text "operation success" else text "operation failed";
      events = s.events;
      node = s.node;
    })

  unfoldable pub udp_function_switch_handler :
      Boost → Text → IncOrchestrationComputeNode N F → Outcome (Answer N F)
  unfolding switch_tokens udp_switch_all finish
  udp_function_switch_handler b packet_data n = do
    t ← switch_tokens (b.split b'/' packet_data)
    s ← udp_switch_all b t.0 t.1 (record { flag = some false; events = []; node = n })
    finish s

  -- `OrchestrationRequestResolution` of the UDP app.
  unfoldable pub orchestration_request_resolution :
      Boost → Text → IncOrchestrationComputeNode N F → Outcome (Answer N F)
  unfolding udp_status_fetch_handler udp_function_status_request_handler udp_function_switch_handler
      unknown_packet_handler
  orchestration_request_resolution b packet_data n =
      if text_eq packet_data (text "/BootstrapInfo")
        || text_eq packet_data (text "/NodeStatusFetch")
      then udp_status_fetch_handler packet_data n
      else if text_eq packet_data (text "/FunctionStatus")
      then udp_function_status_request_handler n
      else if contains (text "/FunctionSwitch") packet_data
      then udp_function_switch_handler b packet_data n
      else ok (unknown_packet_handler n)

  module _ (names : NameParts N) where
    unfoldable pub ndn_function_switch_handler :
        Boost → N.Name → IncOrchestrationComputeNode N F → Outcome (Answer N F)
    unfolding function_parts ndn_switch_all finish
    ndn_function_switch_handler b interest n = do
      s ←
          ndn_switch_all b (N.to_uri (sub_name names 3 interest))
            (function_parts (names.parts interest)) (record { flag = none; events = []; node = n })
      finish s

    -- `OrchestratorRequestResolution` of the NDN app.
    unfoldable pub orchestrator_request_resolution :
        Boost → N.Name → IncOrchestrationComputeNode N F → Outcome (Answer N F)
    unfolding ndn_status_fetch_handler ndn_function_status_request_handler
        ndn_function_switch_handler
    orchestrator_request_resolution b interest n =
        let action = sub_name names 2 interest in
        if N.name_eq action (N.name (text "/BootstrapInfo"))
          || N.name_eq action (N.name (text "/NodeStatusFetch"))
        then ndn_status_fetch_handler action n
        else if N.name_eq action (N.name (text "/FunctionStatus"))
        then ndn_function_status_request_handler n
        else if N.name_eq action (N.name (text "/FunctionSwitch"))
        then ndn_function_switch_handler b interest n
        else ok (record { payload = text "Unknown request"; events = []; node = n })
