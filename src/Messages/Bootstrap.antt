-- ===== src/Messages/Bootstrap.antt =====
-- `BootstrapPhaseHandler` of message_handler.cpp.
pub mod Snapshot
use inc_sim.Base.{
  ℕ, ◌≡◌, refl, Bool, true, false, Option, none, some, List, [], ◌∷◌, ◌++◌, if◌then◌else◌,
}
use inc_sim.Base.Text.{Text, text, text_eq}
use inc_sim.Base.Outcome.{Outcome, ok, err, ◌>>=◌, index}
use inc_sim.Base.Number.{stoi}
use inc_sim.Ndn.{Ndn}
use inc_sim.Boost.{Boost}
use inc_sim.Storage.{FunctionInfo, DataInfo, ComputeNode, Nodes, add_node_to_table}
use inc_sim.Messages.{advance_one, parse_data, parse_data_list, number_at}

module _ (N : Ndn) (b : Boost) where
  -- `computeNode newNode;`
  abbrev pub new_node : ComputeNode N
  new_node = record {
    node_name = N.empty_name;
    node_ptr = none;
    ram = (0, 0);
    rom = (0, 0);
    cpu = (0, 0);
    node_busy_counter = (0, 0);
    links = ([], []);
    runtimes_supported = ([], []);
    data_initial = [];
    data_current = [];
    functions_initial = [];
    functions_current = [];
    hop_distance = [];
  }

  -- The inputs of a function: the text `null` stands for none.
  unfoldable pub parse_inputs : Text → List Text
  parse_inputs inputs = if text_eq inputs (text "null") then [] else b.split b',' inputs

  -- One entry `name:status:executions:interests:cores:ram:rom:size:inputs` of a function list, from
  -- which the leading `/` was split off.
  unfoldable pub parse_function : Text → Outcome (FunctionInfo N)
  unfolding parse_inputs
  parse_function entry = do
    let each = b.split b':' entry
    name ← index each 0
    status ← index each 1
    exe ← number_at N b each 2
    interest ← number_at N b each 3
    cores ← number_at N b each 4
    ram ← number_at N b each 5
    rom ← number_at N b each 6
    size ← number_at N b each 7
    inputs ← index each 8
    ok (record {
      func_name = N.name (b'/' ∷ name);
      exec_time = none;
      func_exe_counter = exe;
      func_interest_counter = interest;
      cores = cores;
      ram = ram;
      rom = rom;
      size_bytes = size;
      input_data_list = parse_inputs inputs;
      status = text_eq status (text "1");
    })

  unfoldable pub parse_functions : List Text → ComputeNode N → Outcome (ComputeNode N)
  unfolding parse_function
  parse_functions [] n = ok n
  parse_functions (e ∷ es) n = do
    f ← parse_function e
    parse_functions es (record n {
      functions_initial = n.functions_initial ++ f ∷ [];
      functions_current = n.functions_current ++ f ∷ [];
    })

  unfoldable pub add_data : List Text → ComputeNode N → Outcome (ComputeNode N)
  unfolding parse_data
  add_data [] n = ok n
  add_data (e ∷ es) n = do
    d ← parse_data N b e
    add_data es (record n {
      data_initial = n.data_initial ++ d ∷ [];
      data_current = n.data_current ++ d ∷ [];
    })

  -- The body of the loop, by the key of the token.
  unfoldable pub bootstrap_field : Text → List Text → ComputeNode N → Outcome (ComputeNode N)
  unfolding add_data parse_functions advance_one
  bootstrap_field key values n =
      if text_eq key (text "name")
      then (do v ← index values 1; ok (record n { node_name = N.name v }))
      else if text_eq key (text "processor_core")
      then (do v ← number_at N b values 1; ok (record n { cpu = (v, v) }))
      else if text_eq key (text "RAM")
      then (do v ← number_at N b values 1; ok (record n { ram = (v, v) }))
      else if text_eq key (text "ROM")
      then (do v ← number_at N b values 1; ok (record n { rom = (v, v) }))
      else if text_eq key (text "links")
      then (do
        v ← index values 1
        let links = b.split b',' v
        ok (record n { links = (links, links) }))
      else if text_eq key (text "runtimes")
      then (do
        v ← index values 1
        let runtimes = b.split b',' v
        ok (record n { runtimes_supported = (runtimes, runtimes) }))
      else if text_eq key (text "node_busy_counter")
      then ok (record n { node_busy_counter = (0, 0) })
      else if text_eq key (text "data")
      then (do
        v ← index values 1
        if text_eq v (text "null") then ok n else add_data (b.split b',' v) n)
      else if text_eq key (text "functions")
      then (do
        v ← index values 1
        functions ← advance_one (b.split b'/' v)
        parse_functions functions n)
      else ok n

  unfoldable pub bootstrap_token : Text → ComputeNode N → Outcome (ComputeNode N)
  unfolding bootstrap_field
  bootstrap_token token n = do
    let values = b.split b'=' token
    key ← index values 0
    bootstrap_field key values n

  unfoldable pub bootstrap_tokens : List Text → ComputeNode N → Outcome (ComputeNode N)
  unfolding bootstrap_token
  bootstrap_tokens [] n = ok n
  bootstrap_tokens (t ∷ ts) n = do n' ← bootstrap_token t n; bootstrap_tokens ts n'

  unfoldable pub bootstrap_phase_handler : Text → Nodes N → Outcome (Nodes N)
  unfolding bootstrap_tokens
  bootstrap_phase_handler content t = do
    n ← bootstrap_tokens (b.split b';' content) new_node
    ok (add_node_to_table (N.to_uri n.node_name) n t).1
