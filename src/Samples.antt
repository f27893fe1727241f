-- ===== src/Samples.antt =====
-- Concrete nodes, functions and tables for the tests of the components.
use inc_sim.Base.{
  ℕ, ◌≡◌, refl, sym, ap, ◌∙◌, Bool, true, false, none, some, List, [], ◌∷◌, ◌++◌, map, arith,
}
use inc_sim.Base.Text.{Text, text, text_eq, slashed}
use inc_sim.Base.Table.{Table, find, insert, update}
use inc_sim.Ndn.{Nfd, NameParts, UriLaws, plain_names, all_plain, all_plain_parts}
use inc_sim.Boost.{
  Without, AllWithout, split_text, split-joined, plain_split, plain_split-SplitLaws,
}
use inc_sim.Computation.{Computation}
use inc_sim.Node.{IncOrchestrationComputeNode}
use inc_sim.Storage.{FunctionInfo, ComputeNode, Nodes}

abbrev pub info : Text → ℕ → ℕ → Bool → FunctionInfo plain_names
info name exe interest status = record {
  func_name = name;
  exec_time = none;
  func_exe_counter = exe;
  func_interest_counter = interest;
  cores = 1;
  ram = 20;
  rom = 30;
  size_bytes = 400;
  input_data_list = text "/d1" ∷ [];
  status = status;
}

-- One function is idle, one overloaded, one off and missed.
abbrev pub idle : FunctionInfo plain_names
idle = info (text "/f1") 0 0 true

abbrev pub overloaded : FunctionInfo plain_names
overloaded = info (text "/f2") 9 0 true

abbrev pub missed : FunctionInfo plain_names
missed = info (text "/f3") 0 12 false

abbrev pub stored : Text → List (FunctionInfo plain_names) → ComputeNode plain_names
stored name functions = record {
  node_name = name;
  node_ptr = none;
  ram = (100, 80);
  rom = (200, 200);
  cpu = (4, 4);
  node_busy_counter = (0, 1);
  links = (text "/n2" ∷ [], text "/n2" ∷ []);
  runtimes_supported = (text "py" ∷ [], text "py" ∷ []);
  data_initial = [];
  data_current = record { data_name = text "/d1"; size_bytes = 7 } ∷ [];
  functions_initial = functions;
  functions_current = functions;
  hop_distance = [];
}

abbrev pub node1 : ComputeNode plain_names
node1 = stored (text "/n1") (idle ∷ overloaded ∷ missed ∷ [])

abbrev pub node2 : ComputeNode plain_names
node2 = stored (text "/n2") (info (text "/f2") 0 3 false ∷ info (text "/f1") 0 0 true ∷ [])

abbrev pub two_nodes : Nodes plain_names
two_nodes = (text "/n1", node1) ∷ (text "/n2", node2) ∷ []

-- A forwarding table that keeps the faces of an entry in a list, a face being its remote URI.
abbrev pub plain_fib : Nfd plain_names
plain_fib = record {
  Fib = Table (List Text);
  Face = Text;
  remote_uri = λ face. face;
  next_hops = λ fib name. find name fib;
  insert = λ fib name. (insert name [] fib).1;
  add_or_update_next_hop = λ fib name face cost. update name (λ faces. face ∷ faces) fib;
  remove_next_hop = λ fib name face. update name (λ faces. []) fib;
}

abbrev pub computation : Computation plain_names
computation = record {
  computation_name = text "/f1";
  enable_computation = false;
  ram = 20;
  rom = 30;
  cpu = 1;
  exec_counter = 2;
  miss_exec_counter = 6;
  param_number = 1;
  func_size = 400;
  exec_time = 0;
  runtime_requirements = text "py" ∷ [];
  input_list = text "/d1";
}

-- A node with a full queue of three places, one function, and a producer's face.
abbrev pub compute_node : IncOrchestrationComputeNode plain_names plain_fib
compute_node = record {
  uuid = 1;
  node_label = text "n1";
  processor_core = 4;
  processor_speed = 1000;
  ram = 100;
  rom = 200;
  node_busy_counter = 0;
  queue_size = 3;
  queue_fill = 3;
  empty_timer_started = false;
  q_empty_time = 0;
  full_timer_started = false;
  q_full_time = 0;
  links = text "/n2";
  supported_runtimes = text "py";
  provided_data = text "/d10,/d2";
  inc_strategy = text "nfn";
  func_exclude_list = text "/f1" ∷ [];
  func_map = (text "/f1", some computation) ∷ [];
  producer_app_face = some (text "nfnProducerAppFace://");
  fib = [];
}

abbrev behind_first : List Text → List Text
behind_first [] = []
behind_first (x ∷ xs) = slashed xs

-- A name is its URI, and its parts stand between the slashes.
abbrev pub plain_parts : NameParts plain_names
plain_parts = record { parts = λ name. behind_first (split_text b'/' name); append = λ a b. a ++ b }

plain_part-Without : (p : Text) → all_plain p ≡ true → Without b'/' p
plain_part-Without [] h = tt
plain_part-Without (x ∷ p) h = ground (arith, plain_part-Without p)

plain_parts-AllWithout : (ps : List Text) → all_plain_parts ps ≡ true → AllWithout b'/' ps
plain_parts-AllWithout [] h = tt
plain_parts-AllWithout (p ∷ ps) h =
    (plain_part-Without p (ground (arith, h)), plain_parts-AllWithout ps (ground (arith, h)))

unchanged : (ps : List Text) → map (λ (p : Text). p) ps ≡ ps
unchanged [] = refl
unchanged (p ∷ ps) = ap (λ l. p ∷ l) (unchanged ps)

pub plain_parts-UriLaws : UriLaws plain_names plain_parts
plain_parts-UriLaws = record {
  name_of_uri = λ name. refl;
  parts_of_uri = λ ps h.
      ap behind_first
        (split-joined plain_split plain_split-SplitLaws [] ps tt (plain_parts-AllWithout ps h))
      ∙ sym (unchanged (slashed ps));
  uri_of_part = λ p h. refl;
  part_eq = λ p q h k. unfold text_eq in refl;
}

-- The same function with an input whose name has no slash, and a node that has only this function.
abbrev pub reported : Computation plain_names
reported = record computation { input_list = text "Operand_1" }

abbrev pub reported_node : IncOrchestrationComputeNode plain_names plain_fib
reported_node = record compute_node {
  provided_data = text "d1:7,d2:9";
  func_map = (text "/f1", some reported) ∷ [];
}
