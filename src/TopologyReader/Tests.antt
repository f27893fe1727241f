-- ===== src/TopologyReader/Tests.antt =====
-- A topology file, and what is read of it.
use inc_sim.Base.{◌≡◌, refl, Bool, false, ◌||◌, none, some, List, [], ◌∷◌, ◌++◌, if◌then◌else◌, map}
use inc_sim.Base.Text.{Text, text, text_eq}
use inc_sim.Base.Table.{find}
use inc_sim.Base.Outcome.{ok, err, aborted}
use inc_sim.Base.Gives.{Succeeds}
use inc_sim.Ndn.{plain_names}
use inc_sim.Boost.{plain_split, split_text}
use inc_sim.Samples.{computation, compute_node, plain_fib}
use inc_sim.Node.{IncOrchestrationComputeNode}
use inc_sim.TopologyReader.{Directory, Reader, Section}
use inc_sim.TopologyReader.Input.{to_u32, read_word}
use inc_sim.TopologyReader.Sections.{link_section, status_section}
use inc_sim.TopologyReader.Topology.{read_topology}
use inc_sim.TopologyReader.Links.{Linked, link_lines, link_section_lem}
use inc_sim.TopologyReader.Statuses.{functions_of, said_for, status_section_lem}

-- Names in a list.
abbrev has_in : Text → List Text → Bool
has_in x [] = false
has_in x (y ∷ ys) = text_eq y x || has_in x ys

abbrev plain_directory : Directory
plain_directory = record {
  Names = List Text;
  add = λ x names. if has_in x names then none else some (x ∷ names);
  has = has_in;
}

abbrev start : Reader plain_names plain_fib plain_directory
start = record {
  names = [];
  compute_nodes = [];
  consumer_nodes = [];
  links_list = [];
  function_list = [];
  initial_func_status = [];
}

abbrev blank : IncOrchestrationComputeNode plain_names plain_fib
blank = record compute_node { func_map = [] }

abbrev link_part : List Text
link_part =
    text "# from to"
    ∷ text "compute-0 orchestrator-0 1Mbps 1 10ms"
    ∷ text "orchestrator-0 compute-0 2Mbps 1"
    ∷ []
    ∷ text "consumer-0 compute-0 1Mbps 1"
    ∷ text "functions"
    ∷ []

abbrev status_part : List Text
status_part =
    text "compute-0 /f1"
    ∷ text "compute-1 /f2"
    ∷ text "compute-0 /f3"
    ∷ text "consumer section"
    ∷ []

abbrev file : List Text
file =
    text "router"
      ∷ text "orchestrator-0 0 0 4 1000 100 200 3 l py;"
      ∷ text "compute-0 0 0 2 1000 50 60 3 l py;"
      ∷ text "consumer-0"
      ∷ text "links"
      ∷ link_part
    ++ text "/f1 a,b py;c;rest 20 30 1 5 10 400 70" ∷ text "initial function status" ∷ status_part
    ++ text "consumer-0 /f1 x,y 4" ∷ text "initial data section" ∷ text "x" ∷ []

-- What is read of the file: of the three links the first and the last, of the function its
-- requirements before each semicolon, and the inputs a consumer asks for.
read_topology_test :
    (r : Reader plain_names plain_fib plain_directory) × (read_topology to_u32 plain_split blank
        file start
      ≡ ok r)
    × (map (λ l. l.from) r.links_list ≡ text "compute-0" ∷ text "consumer-0" ∷ [])
    × (map (λ l. l.to) r.links_list ≡ text "orchestrator-0" ∷ text "compute-0" ∷ [])
    × (map (λ n. n.0) r.compute_nodes ≡ text "orchestrator-0" ∷ text "compute-0" ∷ [])
    × (map (λ n. n.1.processor_core) r.compute_nodes ≡ 4 ∷ 2 ∷ [])
    × (map (λ f. f.runtime_requirements) r.function_list ≡ (text "py" ∷ text "c" ∷ []) ∷ [])
    × (map (λ f. f.param_number) r.function_list ≡ 2 ∷ [])
    × (map (λ f. f.input_list) r.function_list ≡ text "x,y" ∷ [])
    × (map (λ n. map (λ e. e.0) n.1.func_map) r.compute_nodes ≡ [] ∷ (text "/f1" ∷ []) ∷ [])
unfolding read_topology text_eq split_text find
read_topology_test = (_, refl, refl, refl, refl, refl, refl, refl, refl, refl)

-- A file whose line `router` is its last one.
no_router_test : read_topology to_u32 plain_split blank (text "router" ∷ []) start ≡ err aborted
unfolding read_topology text_eq
no_router_test = refl

abbrev three_named : Reader plain_names plain_fib plain_directory
three_named = record start {
  names = text "compute-0" ∷ text "orchestrator-0" ∷ text "consumer-0" ∷ [];
}

link_section_lem_example :
    Succeeds
      (λ s. Linked (link_lines link_part) three_named s.reader)
      (link_section link_part ([], three_named))
unfolding link_lines text_eq
link_section_lem_example = link_section_lem link_part three_named refl refl

status_section_lem_example :
    functions_of (text "compute-0") (status_section status_part start).1.initial_func_status
    ≡ text "/f1" ∷ text "/f3" ∷ []
unfolding functions_of said_for text_eq read_word
status_section_lem_example = status_section_lem status_part start (text "compute-0")

abbrev consumer_part : List Text
consumer_part = text "consumer-0 /f1 x,y 4" ∷ text "initial data section" ∷ []

abbrev behind_status : Section plain_names plain_fib plain_directory
behind_status = record {
  reader = record start {
    compute_nodes = (text "orchestrator-0", blank) ∷ (text "compute-0", blank) ∷ [];
    function_list = computation ∷ [];
  };
  lines = status_part ++ consumer_part;
  cur_section = text "initial function status";
}
