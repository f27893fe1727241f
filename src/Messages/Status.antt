-- ===== src/Messages/Status.antt =====
-- `NodeStatusFetchHandler` and `HandleMessage` of message_handler.cpp.
pub mod Frame
pub mod Keeps
pub mod Others
use inc_sim.Base.{
  ℕ, ◌≡◌, refl, Bool, true, false, Option, none, some, List, [], ◌∷◌, ◌++◌, if◌then◌else◌,
}
use inc_sim.Base.Text.{Text, text, text_eq}
use inc_sim.Base.Outcome.{Outcome, ok, err, ◌>>=◌, index}
use inc_sim.Base.Number.{stoi}
use inc_sim.Ndn.{Ndn}
use inc_sim.Boost.{Boost}
use inc_sim.Storage.{Nodes}
use inc_sim.Storage.NodeInfo.{
  set_node_ram, set_node_rom, set_node_cpu, set_node_busy_counter, set_node_links,
  set_node_runtimes, set_node_data_list,
}
use inc_sim.Storage.Functions.{
  get_func_index, set_func_name, set_func_exe_counter, set_func_interest_counter, set_func_status,
  set_func_cpu, set_func_ram, set_func_rom, set_func_size, set_func_inputs,
}
use inc_sim.Messages.{advance_one, parse_data_list, number_at}
use inc_sim.Messages.Bootstrap.{bootstrap_phase_handler}

module _ (N : Ndn) (b : Boost) where
  -- The writes for a function that was found at position `i`.
  unfoldable pub status_writes : Text → Text → List Text → ℕ → Nodes N → Outcome (Nodes N)
  status_writes id name each i t0 = do
    t1 ← set_func_name id i (N.name name) false t0
    status ← index each 1
    t2 ← set_func_status id i (text_eq status (text "1")) false t1.1
    exe ← number_at N b each 2
    t3 ← set_func_exe_counter id i exe false t2.1
    interest ← number_at N b each 3
    t4 ← set_func_interest_counter id i interest false t3.1
    cores ← number_at N b each 4
    t5 ← set_func_cpu id i cores false t4.1
    ram ← number_at N b each 5
    t6 ← set_func_ram id i ram false t5.1
    rom ← number_at N b each 6
    t7 ← set_func_rom id i rom false t6.1
    size ← number_at N b each 7
    t8 ← set_func_size id i size false t7.1
    inputs ← index each 8
    t9 ← set_func_inputs id i (b.split b',' inputs) false t8.1
    ok t9.1

  -- One entry of the function list.
  unfoldable pub status_function : Text → Text → Nodes N → Outcome (Nodes N)
  unfolding status_writes
  status_function id entry t = do
    let each = b.split b':' entry
    name ← index each 0
    found ← get_func_index id (b'/' ∷ name) false t
    if found.0 then status_writes id (b'/' ∷ name) each found.1 t else ok t

  unfoldable pub status_functions : Text → List Text → Nodes N → Outcome (Nodes N)
  unfolding status_function
  status_functions id [] t = ok t
  status_functions id (e ∷ es) t = do t' ← status_function id e t; status_functions id es t'

  -- The body of the loop, by the key of the token. The state is the variable `UUID` and the table.
  unfoldable pub status_field : Text → List Text → Text → Nodes N → Outcome (Text × Nodes N)
  unfolding advance_one status_functions
  status_field key values id t =
      if text_eq key (text "name")
      then (do v ← index values 1; ok (v, t))
      else if text_eq key (text "processor_core")
      then (do v ← number_at N b values 1; ok (id, (set_node_cpu id v false t).1))
      else if text_eq key (text "RAM")
      then (do v ← number_at N b values 1; ok (id, (set_node_ram id v false t).1))
      else if text_eq key (text "ROM")
      then (do v ← number_at N b values 1; ok (id, (set_node_rom id v false t).1))
      else if text_eq key (text "links")
      then (do v ← index values 1; ok (id, (set_node_links id (b.split b',' v) false t).1))
      else if text_eq key (text "runtimes")
      then (do v ← index values 1; ok (id, (set_node_runtimes id (b.split b',' v) false t).1))
      else if text_eq key (text "node_busy_counter")
      then (do v ← number_at N b values 1; ok (id, (set_node_busy_counter id v false t).1))
      else if text_eq key (text "data")
      then (do
        v ← index values 1
        if text_eq v (text "null") then ok (id, t) else do
          data_list ← parse_data_list N b (b.split b',' v)
          ok (id, (set_node_data_list id data_list false t).1))
      else if text_eq key (text "functions")
      then (do
        v ← index values 1
        functions ← advance_one (b.split b'/' v)
        t' ← status_functions id functions t
        ok (id, t'))
      else ok (id, t)

  unfoldable pub status_token : Text → Text → Nodes N → Outcome (Text × Nodes N)
  unfolding status_field
  status_token token id t = do
    let values = b.split b'=' token
    key ← index values 0
    status_field key values id t

  unfoldable pub status_tokens : List Text → Text → Nodes N → Outcome (Text × Nodes N)
  unfolding status_token
  status_tokens [] id t = ok (id, t)
  status_tokens (x ∷ xs) id t = do s ← status_token x id t; status_tokens xs s.0 s.1

  unfoldable pub node_status_fetch_handler : Text → Nodes N → Outcome (Nodes N)
  unfolding status_tokens
  node_status_fetch_handler content t = do s ← status_tokens (b.split b';' content) [] t; ok s.1

  unfoldable pub handle_message : Text → Text → Nodes N → Outcome (Nodes N)
  unfolding bootstrap_phase_handler node_status_fetch_handler
  handle_message action content t =
      if text_eq action (text "/BootstrapInfo")
      then bootstrap_phase_handler N b content t
      else if text_eq action (text "/NodeStatusFetch")
      then node_status_fetch_handler content t
      else ok t
