-- ===== src/Storage/NodeInfo.antt =====
-- node-info-storage.cpp, "Node info": what is kept about a node, but for its functions.

use inc_sim.Base.{ℕ, Bool, Option, List, [], ◌∷◌, ◌++◌, if◌then◌else◌}
use inc_sim.Base.Text.{Text}
use inc_sim.Base.Outcome.{Outcome}
use inc_sim.Ndn.{Ndn}
use inc_sim.Storage.{
  DataInfo, ComputeNode, Nodes, half, set_half, push_all, modify, read_or_zero, read_node,
}

module _ {N : Ndn} where
  unfoldable pub get_node_info : Text → Nodes N → Outcome (ComputeNode N)
  unfolding read_node
  get_node_info id t = read_node id (λ n. n) t

  unfoldable pub get_node_name : Text → Nodes N → Outcome N.Name
  unfolding read_node
  get_node_name id t = read_node id (λ n. n.node_name) t

  unfoldable pub set_node_name : Text → N.Name → Nodes N → Bool × Nodes N
  unfolding modify
  set_node_name id v t = modify id (λ n. record n { node_name = v }) t

  unfoldable pub get_node_pointer : Text → Nodes N → Outcome (Option ℕ)
  unfolding read_node
  get_node_pointer id t = read_node id (λ n. n.node_ptr) t

  unfoldable pub set_node_pointer : Text → Option ℕ → Nodes N → Bool × Nodes N
  unfolding modify
  set_node_pointer id v t = modify id (λ n. record n { node_ptr = v }) t

  unfoldable pub get_node_ram : Text → Bool → Nodes N → ℕ
  unfolding read_or_zero
  get_node_ram id d t = read_or_zero id (λ n. half d n.ram) t

  unfoldable pub set_node_ram : Text → ℕ → Bool → Nodes N → Bool × Nodes N
  unfolding modify
  set_node_ram id v d t = modify id (λ n. record n { ram = set_half d v n.ram }) t

  unfoldable pub get_node_rom : Text → Bool → Nodes N → ℕ
  unfolding read_or_zero
  get_node_rom id d t = read_or_zero id (λ n. half d n.rom) t

  unfoldable pub set_node_rom : Text → ℕ → Bool → Nodes N → Bool × Nodes N
  unfolding modify
  set_node_rom id v d t = modify id (λ n. record n { rom = set_half d v n.rom }) t

  unfoldable pub get_node_busy_counter : Text → Bool → Nodes N → ℕ
  unfolding read_or_zero
  get_node_busy_counter id d t = read_or_zero id (λ n. half d n.node_busy_counter) t

  unfoldable pub set_node_busy_counter : Text → ℕ → Bool → Nodes N → Bool × Nodes N
  unfolding modify
  set_node_busy_counter id v d t =
      modify id (λ n. record n { node_busy_counter = set_half d v n.node_busy_counter }) t

  unfoldable pub get_node_cpu : Text → Bool → Nodes N → ℕ
  unfolding read_or_zero
  get_node_cpu id d t = read_or_zero id (λ n. half d n.cpu) t

  -- As in the source, the current value is written to the current RAM.
  unfoldable pub set_node_cpu : Text → ℕ → Bool → Nodes N → Bool × Nodes N
  unfolding modify
  set_node_cpu id v d t =
      modify id
        (λ n. if d then record n { cpu = (v, n.cpu.1) } else record n { ram = (n.ram.0, v) }) t

  unfoldable pub get_node_links : Text → Bool → Nodes N → Outcome (List Text)
  unfolding read_node
  get_node_links id d t = read_node id (λ n. half d n.links) t

  unfoldable pub set_node_links : Text → List Text → Bool → Nodes N → Bool × Nodes N
  unfolding modify
  set_node_links id v d t = modify id (λ n. record n { links = set_half d v n.links }) t

  unfoldable pub add_link_to_node : Text → Text → Bool → Nodes N → Bool × Nodes N
  unfolding modify
  add_link_to_node id v d t =
      modify id (λ n. record n { links = set_half d (half d n.links ++ v ∷ []) n.links }) t

  unfoldable pub get_node_runtimes : Text → Bool → Nodes N → Outcome (List Text)
  unfolding read_node
  get_node_runtimes id d t = read_node id (λ n. half d n.runtimes_supported) t

  unfoldable pub set_node_runtimes : Text → List Text → Bool → Nodes N → Bool × Nodes N
  unfolding modify
  set_node_runtimes id v d t =
      modify id (λ n. record n { runtimes_supported = set_half d v n.runtimes_supported }) t

  unfoldable pub add_runtime_to_node : Text → Text → Bool → Nodes N → Bool × Nodes N
  unfolding modify
  add_runtime_to_node id v d t =
      modify id
        (λ n. record n {
          runtimes_supported =
              set_half d (half d n.runtimes_supported ++ v ∷ []) n.runtimes_supported;
        })
        t

  unfoldable pub get_data_at_node : Text → Bool → Nodes N → Outcome (List (DataInfo N))
  unfolding read_node
  get_data_at_node id d t = read_node id (λ n. if d then n.data_initial else n.data_current) t

  unfoldable pub add_data_to_node : Text → DataInfo N → Bool → Nodes N → Bool × Nodes N
  unfolding modify
  add_data_to_node id v d t =
      modify id
        (λ n.
          if d
          then record n { data_initial = n.data_initial ++ v ∷ [] }
          else record n { data_current = n.data_current ++ v ∷ [] })
        t

  -- `clear`, then `push_back` of each entry
  unfoldable pub set_node_data_list : Text → List (DataInfo N) → Bool → Nodes N → Bool × Nodes N
  unfolding modify push_all
  set_node_data_list id vs d t =
      modify id
        (λ n.
          if d
          then record n { data_initial = push_all [] vs }
          else record n { data_current = push_all [] vs })
        t
