-- ===== src/Messages/Tests.antt =====
-- Tests of the message handlers, with names as their own URIs and the plain split.
use inc_sim.Base.{false, ◌≡◌, refl, true, none, [], ◌∷◌}
use inc_sim.Base.Text.{Text, text, text_eq}
use inc_sim.Base.Number.{stoi}
use inc_sim.Base.Table.{find, insert, update}
use inc_sim.Base.Outcome.{ok}
use inc_sim.Ndn.{plain_names}
use inc_sim.Boost.{plain_split, split_text}
use inc_sim.Samples.{two_nodes, node1, node2, info}
use inc_sim.Storage.{FunctionInfo, ComputeNode, Nodes, add_node_to_table}
use inc_sim.Storage.NodeInfo.{set_node_cpu}
use inc_sim.Storage.Functions.{
  get_func_index, set_func_name, set_func_exe_counter, set_func_interest_counter, set_func_status,
  set_func_cpu, set_func_ram, set_func_rom, set_func_size, set_func_inputs,
}
use inc_sim.Messages.Bootstrap.{bootstrap_phase_handler}
use inc_sim.Messages.Bootstrap.Snapshot.{IsSnapshot, bootstrap_adds-IsSnapshot}
use inc_sim.Messages.Status.{node_status_fetch_handler}
use inc_sim.Messages.Status.Frame.{Kept}
use inc_sim.Messages.Status.Others.{gives_name, names_node, status_fetch-others}
use inc_sim.Messages.Status.Keeps.{status_fetch-Kept}

abbrev bootstrap_text : Text
bootstrap_text =
    text "name=/n3;processor_core=2;RAM=64;data=/d1:7;functions=/f1:1:0:0:1:20:30:400:null"

abbrev function : FunctionInfo plain_names
function = record (info (text "/f1") 0 0 true) { input_data_list = [] }

abbrev node3 : ComputeNode plain_names
node3 = record {
  node_name = text "/n3";
  node_ptr = none;
  ram = (64, 64);
  rom = (0, 0);
  cpu = (2, 2);
  node_busy_counter = (0, 0);
  links = ([], []);
  runtimes_supported = ([], []);
  data_initial = record { data_name = text "/d1"; size_bytes = 7 } ∷ [];
  data_current = record { data_name = text "/d1"; size_bytes = 7 } ∷ [];
  functions_initial = function ∷ [];
  functions_current = function ∷ [];
  hop_distance = [];
}

bootstrap_test :
    bootstrap_phase_handler plain_names plain_split bootstrap_text []
    ≡ ok ((text "/n3", node3) ∷ [])
unfolding bootstrap_phase_handler split_text stoi text_eq add_node_to_table insert
bootstrap_test = refl

bootstrap_adds-IsSnapshot_example :
    (n : ComputeNode plain_names) × IsSnapshot n
    × (((text "/n3", node3) ∷ []) ≡ (add_node_to_table n.node_name n []).1)
bootstrap_adds-IsSnapshot_example =
    bootstrap_adds-IsSnapshot plain_names plain_split bootstrap_text [] ((text "/n3", node3) ∷ [])
      bootstrap_test

abbrev status_text : Text
status_text = text "name=/n2;processor_core=2;functions=/f2:1:4:0:1:20:30:400:null"

-- The current RAM gets the number of cores, and the function an input `null`.
abbrev after_status : Nodes plain_names
after_status =
    (text "/n1", node1)
    ∷ (
      text "/n2",
      record node2 {
        ram = (100, 2);
        functions_current =
            record (info (text "/f2") 4 0 true) { input_data_list = text "/d1" ∷ text "null" ∷ [] }
            ∷ info (text "/f1") 0 0 true
            ∷ [];
      },
    )
    ∷ []

status_test :
    node_status_fetch_handler plain_names plain_split status_text two_nodes ≡ ok after_status
unfolding node_status_fetch_handler split_text stoi text_eq find update set_node_cpu get_func_index
    set_func_name set_func_status set_func_exe_counter set_func_interest_counter set_func_cpu
    set_func_ram set_func_rom set_func_size set_func_inputs
status_test = refl

status_fetch-Kept_example : Kept two_nodes after_status
status_fetch-Kept_example =
    status_fetch-Kept plain_names plain_split status_text two_nodes after_status status_test

-- The message is about `/n2`.
n1_unnamed : names_node plain_split (text "/n1") (split_text b';' status_text) ≡ false
unfolding names_node gives_name split_text text_eq
n1_unnamed = refl

n1_not_empty : text_eq [] (text "/n1") ≡ false
unfolding text_eq
n1_not_empty = refl

status_fetch-others_example : find (text "/n1") after_status ≡ find (text "/n1") two_nodes
status_fetch-others_example =
    status_fetch-others plain_names plain_split status_text (text "/n1") two_nodes after_status
      n1_not_empty n1_unnamed status_test
