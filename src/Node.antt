-- ===== src/Node.antt =====
-- model/inc-orchestration-compute-node.{h,cc}: a compute node with its queue, its provided data,
-- its functions and the orchestrator's exclude list.
pub mod Queue
pub mod Functions
pub mod Excluded
pub mod Provided
mod Tests
use inc_sim.Base.{
  ℕ, ◌+◌, ◌%◌, Bool, true, false, Option, none, some, List, [], ◌∷◌, ◌++◌, if◌then◌else◌,
}
use inc_sim.Base.Text.{Text, text, contains}
use inc_sim.Base.Table.{Table}
use inc_sim.Base.Number.{u32}
use inc_sim.Ndn.{Ndn, Nfd}
use inc_sim.Computation.{Computation, add_to_text_list}

-- The members that other code reads and writes. `func_map` is the map of `m_func_map`, whose entry is
-- `none` where the map holds a null pointer; the order of its entries means nothing. Every pointer in
-- it is taken to be the only one to its object, as `AddNewFunction` makes them.
pub record IncOrchestrationComputeNode (N : Ndn) (F : Nfd N) : Type 0 where
  pub uuid : ℕ
  pub node_label : Text
  pub processor_core : ℕ
  pub processor_speed : ℕ
  pub ram : ℕ
  pub rom : ℕ
  pub node_busy_counter : ℕ
  pub queue_size : ℕ
  pub queue_fill : ℕ
  pub empty_timer_started : Bool
  pub q_empty_time : N.Double
  pub full_timer_started : Bool
  pub q_full_time : N.Double
  pub links : Text
  pub supported_runtimes : Text
  pub provided_data : Text
  pub inc_strategy : Text
  pub func_exclude_list : List Text
  pub func_map : Table (Option (Computation N))
  pub producer_app_face : Option F.Face
  -- the forwarding table of the forwarder on the same network node
  pub fib : F.Fib

module _ {N : Ndn} {F : Nfd N} where
  -- The getters and setters that only read or write one member.
  unfoldable pub set_processor_core :
      ℕ → IncOrchestrationComputeNode N F → IncOrchestrationComputeNode N F
  set_processor_core v n = record n { processor_core = v }

  unfoldable pub set_ram : ℕ → IncOrchestrationComputeNode N F → IncOrchestrationComputeNode N F
  set_ram v n = record n { ram = v }

  unfoldable pub set_rom : ℕ → IncOrchestrationComputeNode N F → IncOrchestrationComputeNode N F
  set_rom v n = record n { rom = v }

  unfoldable pub set_links :
      Text → IncOrchestrationComputeNode N F → IncOrchestrationComputeNode N F
  set_links v n = record n { links = v }

  unfoldable pub set_supported_runtimes :
      Text → IncOrchestrationComputeNode N F → IncOrchestrationComputeNode N F
  set_supported_runtimes v n = record n { supported_runtimes = v }

  unfoldable pub set_producer_app_face :
      Option F.Face → IncOrchestrationComputeNode N F → IncOrchestrationComputeNode N F
  set_producer_app_face v n = record n { producer_app_face = v }

  unfoldable pub set_inc_strategy :
      Text → IncOrchestrationComputeNode N F → IncOrchestrationComputeNode N F
  set_inc_strategy v n = record n { inc_strategy = v }

  unfoldable pub reset_node_busy_counter :
      IncOrchestrationComputeNode N F → IncOrchestrationComputeNode N F
  reset_node_busy_counter n = record n { node_busy_counter = 0 }

  unfoldable pub add_node_busy_counter :
      IncOrchestrationComputeNode N F → IncOrchestrationComputeNode N F
  add_node_busy_counter n = record n { node_busy_counter = (n.node_busy_counter + 1) % u32 }

  unfoldable pub check_provided_data_list : Text → IncOrchestrationComputeNode N F → Bool
  check_provided_data_list value n = contains value n.provided_data

  unfoldable pub add_provided_data :
      Text → IncOrchestrationComputeNode N F → IncOrchestrationComputeNode N F
  unfolding add_to_text_list
  add_provided_data value n = record n { provided_data = add_to_text_list value n.provided_data }
