-- ===== src/TopologyReader/Completion.antt =====
-- The end of `ReadTopology`, from the section of the status on.
use inc_sim.Base.{◌≡◌, List, ◌∷◌, ◌++◌, map}
use inc_sim.Base.Text.{Text}
use inc_sim.Boost.{Boost}
use inc_sim.Ndn.{Ndn, Nfd}
use inc_sim.Node.{IncOrchestrationComputeNode}
use inc_sim.TopologyReader.{Directory, Reader}
use inc_sim.TopologyReader.Statuses.{functions_of, said_for}
use inc_sim.TopologyReader.Inputs.{behind_status, asked_of, with_inputs}
use inc_sim.TopologyReader.Provisions.{AllProvisioned}

module _ {N : Ndn} {F : Nfd N} {D : Directory} where
  -- What the lines of the status and of the consumers make of a reader with the compute nodes `n` and
  -- `ns`: the functions said for a node are behind those of before; the functions of the reader get
  -- the inputs that are asked of functions with their names; the first node is left as it is, and the
  -- others are provided with these functions; the links and the consumers stay.
  pub record Completed (b : Boost) (lines : List Text) (r : Reader N F D)
      (n : Text × IncOrchestrationComputeNode N F)
      (ns : List (Text × IncOrchestrationComputeNode N F)) (r' : Reader N F D) : Type 0 where
    pub status :
        (k : Text)
        → functions_of k r'.initial_func_status
          ≡ functions_of k r.initial_func_status ++ said_for k lines
    pub inputs :
        r'.function_list
        ≡ map
            (λ f. with_inputs (asked_of N b f.computation_name (behind_status lines)) f)
            r.function_list
    pub others : List (Text × IncOrchestrationComputeNode N F)
    pub nodes : r'.compute_nodes ≡ n ∷ others
    pub provisioned : AllProvisioned r'.function_list ns others
    pub links : r'.links_list ≡ r.links_list
    pub consumers : r'.consumer_nodes ≡ r.consumer_nodes
