-- ===== src/Communication.antt =====
-- apps/orchestration/orchestration_communication_app: how the orchestrator's two communication apps
-- (udp_orchestration_communication_app and ndn_orchestration_communication_app) take messages.
pub mod Exchange
pub mod Fill
pub mod Transmit
mod Tests
use inc_sim.Base.{
  ℕ, suc, Bool, true, false, ◌||◌, Option, none, some, List, [], ◌∷◌, if◌then◌else◌, length, drop,
}
use inc_sim.Base.Text.{Text, text, contains, is_prefix, find_text}
use inc_sim.Base.Outcome.{Outcome, ok, ◌>>=◌}
use inc_sim.Ndn.{Ndn, NameParts, sub_name}
use inc_sim.Boost.{Boost}
use inc_sim.Storage.{Nodes}
use inc_sim.Messages.Status.{handle_message}

-- `find(action)`, and `erase(0, index + action.size() + 1)`. Where the action is not found the index is
-- -1, and as many bytes as the action has are erased.
unfoldable pub erase_action : Text → Text → Text
unfolding find_text
erase_action action packet_data = elim (find_text action packet_data) [
  | none ↦ drop (length action) packet_data
  | some found ↦ drop (suc (length action)) found
]

-- `actionToDo` and what is left of the packet.
unfoldable pub udp_action : Text → Text × Text
unfolding erase_action
udp_action packet_data =
    if is_prefix (text "/Orchestrator") packet_data
    then (if contains (text "/BootstrapInfo/") packet_data
        then (text "/BootstrapInfo", erase_action (text "/BootstrapInfo") packet_data)
        else if contains (text "/NodeStatusFetch") packet_data
        then (text "/NodeStatusFetch", erase_action (text "/NodeStatusFetch") packet_data)
        else (text "/Others", packet_data))
    else (text "/Others", packet_data)

-- A received packet by the type of the sender's address; only an internet address has it read.
pub data Datagram : Type 0 where
  inet inet6 : Text → Datagram
  other_address : Datagram

unfoldable pub read_packet : Text → Datagram → Text
read_packet before (inet s) = s
read_packet before (inet6 s) = s
read_packet before other_address = before

module _ (N : Ndn) (b : Boost) where
  -- `HandleRead`, with the variable `packet_data`.
  unfoldable pub udp_handle_read : List Datagram → Text → Nodes N → Outcome (Nodes N)
  unfolding udp_action read_packet
  udp_handle_read [] packet_data t = ok t
  udp_handle_read (packet ∷ packets) packet_data t = do
    let action = udp_action (read_packet packet_data packet)
    t' ← handle_message N b action.0 action.1 t
    udp_handle_read packets action.1 t'

  module _ (names : NameParts N) where
    -- `actionToDo` for the name of the data.
    unfoldable pub ndn_action : N.Name → Text
    ndn_action data_name =
        if N.name_eq (sub_name names 0 data_name) (N.name (text "/Orchestrator"))
        then (if N.name_eq (sub_name names 2 data_name) (N.name (text "/BootstrapInfo"))
            then text "/BootstrapInfo"
            else if N.name_eq (sub_name names 2 data_name) (N.name (text "/NodeStatusFetch"))
            then text "/NodeStatusFetch"
            else text "/Others")
        else text "/Others"

    -- `OnData`; the name is written as a URI and read again.
    unfoldable pub on_data : N.Name → Text → Nodes N → Outcome (Nodes N)
    unfolding ndn_action
    on_data data_name content t =
        handle_message N b (ndn_action (N.name (N.to_uri data_name))) content t
