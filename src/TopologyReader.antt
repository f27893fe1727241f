-- ===== src/TopologyReader.antt =====
-- utils/topology/inc-annotated-topology-reader.{hpp,cpp}: `ReadTopology`, which reads the nodes, links
-- and functions of a topology file. A file is the list of what `getline` gives, so that `eof ()` holds
-- when none is left.
pub mod Input
pub mod Sections
pub mod Topology
pub mod Links
pub mod Statuses
pub mod Provisions
pub mod Inputs
pub mod Completion
mod Tests
use inc_sim.Base.{
  map, ◌%◌, ℕ, ◌≡◌, Bool, true, false, ◌&&◌, ◌||◌, Option, none, some, List, [], ◌∷◌, ◌++◌,
  if◌then◌else◌, length, any, ◌==◌,
}
use inc_sim.Base.Number.{u32}
use inc_sim.Base.Text.{Text, text, text_eq, contains}
use inc_sim.Base.Table.{Table, find, insert, update}
use inc_sim.Base.Outcome.{Outcome, ok, err, aborted, uninitialized, or_fault, ◌>>=◌}
use inc_sim.Boost.{Boost}
use inc_sim.Ndn.{Ndn, Nfd}
use inc_sim.Computation.{Computation, new_computation, add_to_input_list}
use inc_sim.Node.{IncOrchestrationComputeNode}
use inc_sim.Node.Functions.{add_new_function}
use inc_sim.TopologyReader.Input.{
  Stream, line_buffer, extract, to_word, to_u32, otherwise, read_word,
}

-- What the code takes of `ns3::Names`, for names under the path of the reader: `Add`, which ends the
-- program for a name that is there, and whether `Find` returns a node.
pub record Directory : Type 1 where
  pub Names : Type 0
  pub add : Text → Names → Option Names
  pub has : Text → Names → Bool

-- `TopologyReader::Link` with the attributes that are set.
pub record Link : Type 0 where
  pub from : Text
  pub to : Text
  pub data_rate : Text
  pub ospf : Text
  pub delay : Option Text
  pub max_packets : Option Text
  pub loss_rate : Option Text

-- What is read of a line of the section `router`, but for the position.
pub record NodeLine : Type 0 where
  pub name : Text
  pub processor_core : ℕ
  pub processor_speed : ℕ
  pub ram : ℕ
  pub rom : ℕ
  pub queue : ℕ
  pub links : Text
  pub runtimes : Text

-- `compute_nodes` is `m_inc_compute_nodes`, with the names that `SetName` sets; `consumer_nodes` has
-- the names of the nodes in `m_consumer_nodecontainer`.
pub record Reader (N : Ndn) (F : Nfd N) (D : Directory) : Type 0 where
  pub names : D.Names
  pub compute_nodes : List (Text × IncOrchestrationComputeNode N F)
  pub consumer_nodes : List Text
  pub links_list : List Link
  pub function_list : List (Computation N)
  pub initial_func_status : Table (List Text)

-- The reader behind a section, the lines that are left, and `curSection`.
pub record Section (N : Ndn) (F : Nfd N) (D : Directory) : Type 0 where
  pub reader : Reader N F D
  pub lines : List Text
  pub cur_section : Text

-- `line[0] == '#'`, where the byte behind an empty line is 0.
abbrev pub is_comment : Text → Bool
is_comment [] = false
is_comment (c ∷ s) = c == b'#'

abbrev pub is_empty : Text → Bool
is_empty [] = true
is_empty (c ∷ s) = false

-- What stands before each `;`, `part` being what stands before this text since the last one.
unfoldable pub split_runtimes : Text → Text → List Text
split_runtimes part [] = []
split_runtimes part (c ∷ s) =
    let next = split_runtimes [] s in
    let more = split_runtimes (part ++ c ∷ []) s in if c == b';' then part ∷ next else more

-- An attribute that is set unless the text is empty.
abbrev pub when_given : Text → Option Text
when_given [] = none
when_given (c ∷ s) = some (c ∷ s)

unfoldable pub read_link : Text → Link
unfolding read_word
read_link line =
    let from = read_word (line_buffer line) in
    let to = read_word from.1 in
    let capacity = read_word to.1 in
    let metric = read_word capacity.1 in
    let delay = read_word metric.1 in
    let max_packets = read_word delay.1 in
    let loss_rate = read_word max_packets.1 in
    record {
      from = from.0;
      to = to.0;
      data_rate = capacity.0;
      ospf = metric.0;
      delay = when_given delay.0;
      max_packets = when_given max_packets.0;
      loss_rate = when_given loss_rate.0;
    }

module _ {A : Type 0} (to_double : Text → (A × Bool) × Text) where
  -- `to_double` converts the text of a `double`.
  unfoldable pub read_node : Text → NodeLine
  unfolding extract to_u32 read_word
  read_node line =
      let name = read_word (line_buffer line) in
      let latitude = extract to_double name.1 in
      let longitude = extract to_double latitude.1 in
      let processor_core = extract to_u32 longitude.1 in
      let processor_speed = extract to_u32 processor_core.1 in
      let ram = extract to_u32 processor_speed.1 in
      let rom = extract to_u32 ram.1 in
      let queue = extract to_u32 rom.1 in
      let links = read_word queue.1 in
      let runtimes = read_word links.1 in
      record {
        name = name.0;
        processor_core = otherwise processor_core.0 0;
        processor_speed = otherwise processor_speed.0 0;
        ram = otherwise ram.0 0;
        rom = otherwise rom.0 0;
        queue = otherwise queue.0 0;
        links = links.0;
        runtimes = runtimes.0;
      }

module _ {N : Ndn} where
  -- The inputs of a line go to every function of the name.
  unfoldable pub add_inputs : List Text → Computation N → Computation N
  unfolding add_to_input_list
  add_inputs [] f = f
  add_inputs (x ∷ xs) f = add_inputs xs (add_to_input_list x f)

  module _ (to_double : Text → (N.Double × Bool) × Text) (b : Boost) where
    -- A line of the functions. The members that are numbers have no value before they are read.
    unfoldable pub read_function : Text → Outcome (Computation N)
    unfolding extract to_u32 read_word split_runtimes new_computation
    read_function line = do
      let name = read_word (line_buffer line)
      let inputs = read_word name.1
      let runtimes = read_word inputs.1
      let ram = extract to_u32 runtimes.1
      let rom = extract to_u32 ram.1
      let cpu = extract to_u32 rom.1
      let exec_time = extract to_double cpu.1
      let instructions = extract to_u32 exec_time.1
      let func_size = extract to_u32 instructions.1
      let result_size = extract to_u32 func_size.1
      cpu_value ← or_fault cpu.0 uninitialized
      ram_value ← or_fault ram.0 uninitialized
      rom_value ← or_fault rom.0 uninitialized
      time_value ← or_fault exec_time.0 uninitialized
      instructions_value ← or_fault instructions.0 uninitialized
      func_value ← or_fault func_size.0 uninitialized
      result_value ← or_fault result_size.0 uninitialized
      let params =
          if text_eq inputs.0 (text "null") then 0 else length (b.split b',' inputs.0) % u32
      ok (record (new_computation ram_value rom_value cpu_value params) {
        computation_name = N.name name.0;
        exec_time = time_value;
        func_size = func_value;
        runtime_requirements = split_runtimes [] runtimes.0;
      })
