-- ===== src/TopologyReader/Topology.antt =====
-- `ReadTopology`, as it puts its loops together.
use inc_sim.Base.{Bool, some, List, [], ◌∷◌, if◌then◌else◌}
use inc_sim.Base.Text.{Text, text, text_eq}
use inc_sim.Base.Outcome.{Outcome, ok, err, aborted, ◌>>=◌}
use inc_sim.Boost.{Boost}
use inc_sim.Ndn.{Ndn, Nfd}
use inc_sim.Computation.{Computation}
use inc_sim.Node.{IncOrchestrationComputeNode}
use inc_sim.Node.Functions.{add_new_function}
use inc_sim.TopologyReader.{Directory, Reader, Section}
use inc_sim.TopologyReader.Sections.{
  behind_router, link_section, status_section, input_section, function_section, node_section,
}

module _ {N : Ndn} {F : Nfd N} where
  -- `AddNewFunction` for each function of the list.
  unfoldable pub add_functions :
      List (Computation N)
      → IncOrchestrationComputeNode N F
      → Outcome (IncOrchestrationComputeNode N F)
  unfolding add_new_function
  add_functions [] n = ok n
  add_functions (f ∷ fs) n = do
    n' ← add_new_function (N.to_uri f.computation_name) (some f) n
    add_functions fs n'

  unfoldable pub add_to_nodes :
      List (Computation N)
      → List (Text × IncOrchestrationComputeNode N F)
      → Outcome (List (Text × IncOrchestrationComputeNode N F))
  unfolding add_functions
  add_to_nodes fs [] = ok []
  add_to_nodes fs ((name, n) ∷ ns) = do
    n' ← add_functions fs n
    ns' ← add_to_nodes fs ns
    ok ((name, n') ∷ ns')

  -- The loop over the positions from 1 on.
  unfoldable pub add_to_others :
      List (Computation N)
      → List (Text × IncOrchestrationComputeNode N F)
      → Outcome (List (Text × IncOrchestrationComputeNode N F))
  unfolding add_to_nodes
  add_to_others fs [] = ok []
  add_to_others fs (n ∷ ns) = do ns' ← add_to_nodes fs ns; ok (n ∷ ns')

  module _ {D : Directory} (to_double : Text → (N.Double × Bool) × Text) (b : Boost)
      (blank : IncOrchestrationComputeNode N F) where
    -- What stands behind the links: the functions, unless the section of the status follows at
    -- once, the status, and the inputs that consumers ask for.
    unfoldable pub behind_links : Section N F D → Outcome (Reader N F D)
    unfolding function_section status_section input_section add_to_others
    behind_links s = do
      read ←
          if text_eq s.cur_section (text "initial function status")
          then ok (s.lines, s.reader)
          else function_section to_double b s.lines s.reader
      elim read.0 [
        | [] ↦ ok read.1
        | line ∷ lines ↦ do
          let status = status_section (line ∷ lines) read.1
          let functions = input_section b status.0 status.1.function_list
          nodes ← add_to_others functions status.1.compute_nodes
          ok (record status.1 { function_list = functions; compute_nodes = nodes })
      ]

    -- `ReadTopology`, without `ApplySettings`, which configures the devices of the links. A file
    -- that ends before its links or its status is left as far as it was read.
    unfoldable pub read_topology : List Text → Reader N F D → Outcome (Reader N F D)
    unfolding behind_router node_section link_section behind_links
    read_topology lines r = elim (behind_router lines) [
      | [] ↦ err aborted
      | line ∷ nodes ↦ do
        read ← node_section to_double blank (line ∷ nodes) r
        elim read.0 [
          | [] ↦ ok read.1
          | first ∷ links ↦ do
            s ← link_section (first ∷ links) ([], read.1)
            elim s.lines [ [] ↦ ok s.reader | next ∷ more ↦ behind_links s ]
        ]
    ]
