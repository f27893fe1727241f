-- ===== src/Storage/NodeValues.antt =====
-- What the node getters of node-info-storage.cpp read after its node setters.
use inc_sim.Base.{ℕ, ◌≡◌, Bool, true, false, not, some, List, [], ◌∷◌, ◌++◌, arith}
use inc_sim.Base.Text.{Text, text_eq_refl}
use inc_sim.Base.Table.{find, find-update}
use inc_sim.Base.Outcome.{ok}
use inc_sim.Ndn.{Ndn}
use inc_sim.Storage.{ComputeNode, Nodes, half, set_half}
use inc_sim.Storage.NodeInfo.{
  get_node_ram, set_node_ram, get_node_rom, set_node_rom, get_node_busy_counter,
  set_node_busy_counter, get_node_cpu, set_node_cpu, get_node_links, set_node_links,
  get_node_runtimes, set_node_runtimes, add_link_to_node, add_runtime_to_node,
}

module _ {N : Ndn} (id : Text) (d : Bool) (t : Nodes N) (n : ComputeNode N)
    (stored : find id t ≡ some n) where
  -- For a stored node, RAM, ROM and busy counter read back as set, and the half that the flag does
  -- not select reads as before.
  pub numbers_set_get :
      (v : ℕ)
      → (get_node_ram id d (set_node_ram id v d t).1 ≡ v)
        × (get_node_ram id (not d) (set_node_ram id v d t).1 ≡ get_node_ram id (not d) t)
        × (get_node_rom id d (set_node_rom id v d t).1 ≡ v)
        × (get_node_rom id (not d) (set_node_rom id v d t).1 ≡ get_node_rom id (not d) t)
        × (get_node_busy_counter id d (set_node_busy_counter id v d t).1 ≡ v)
        × (get_node_busy_counter id (not d) (set_node_busy_counter id v d t).1
            ≡ get_node_busy_counter id (not d) t)
  unfolding get_node_ram set_node_ram get_node_rom set_node_rom get_node_busy_counter
      set_node_busy_counter
  numbers_set_get v = ground (
    arith,
    find-update id id (λ m. record m { ram = set_half d v m.ram }) n t,
    find-update id id (λ m. record m { rom = set_half d v m.rom }) n t,
    find-update id id (λ m. record m { node_busy_counter = set_half d v m.node_busy_counter }) n t,
    text_eq_refl id,
  )

  -- For a stored node `setNodeCPU` with the flag `false` leaves both values that `getNodeCPU`
  -- returns, and overwrites the current RAM by the number of cores.
  pub set_node_cpu_current :
      (v : ℕ)
      → (get_node_cpu id false (set_node_cpu id v false t).1 ≡ get_node_cpu id false t)
        × (get_node_cpu id true (set_node_cpu id v false t).1 ≡ get_node_cpu id true t)
        × (get_node_ram id false (set_node_cpu id v false t).1 ≡ v)
  unfolding get_node_ram get_node_cpu set_node_cpu
  set_node_cpu_current v =
      ground (arith, find-update id id (λ m. record m { ram = (m.ram.0, v) }) n t, text_eq_refl id)

  -- For a stored node, links and runtimes read back as set, and what is added to the links or
  -- runtimes is read behind those that were there.
  pub lists_set_get :
      (vs : List Text) (v : Text)
      → (get_node_links id d (set_node_links id vs d t).1 ≡ ok vs)
        × (get_node_runtimes id d (set_node_runtimes id vs d t).1 ≡ ok vs)
        × (get_node_links id d (add_link_to_node id v d t).1 ≡ ok (half d n.links ++ v ∷ []))
        × (get_node_runtimes id d (add_runtime_to_node id v d t).1
            ≡ ok (half d n.runtimes_supported ++ v ∷ []))
  unfolding get_node_links set_node_links get_node_runtimes set_node_runtimes add_link_to_node
      add_runtime_to_node
  lists_set_get vs v = ground (
    arith,
    find-update id id (λ m. record m { links = set_half d vs m.links }) n t,
    find-update id id (λ m. record m { runtimes_supported = set_half d vs m.runtimes_supported }) n
        t,
    find-update id id (λ m. record m { links = set_half d (half d m.links ++ v ∷ []) m.links }) n t,
    find-update id id
        (λ m. record m {
          runtimes_supported =
              set_half d (half d m.runtimes_supported ++ v ∷ []) m.runtimes_supported;
        })
        n t,
    text_eq_refl id,
  )
