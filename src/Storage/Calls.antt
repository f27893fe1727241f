-- ===== src/Storage/Calls.antt =====
-- The calls of the setters of node-info-storage.hpp.
use inc_sim.Base.{
  ℕ, ◌+◌, ◌≡◌, refl, Bool, true, false, Option, List, [], ◌∷◌, inl, inr, if◌then◌else◌, arith,
  Option-cases, length,
}
use inc_sim.Base.Text.{Text}
use inc_sim.Base.Table.{find, insert, update, keys}
use inc_sim.Base.Outcome.{ok, >>=-eq-ok}
use inc_sim.Ndn.{Ndn}
use inc_sim.Storage.{FunctionInfo, DataInfo, ComputeNode, Nodes}
use inc_sim.Storage.NodeInfo.{
  set_node_name, set_node_pointer, set_node_ram, set_node_rom, set_node_busy_counter, set_node_cpu,
  set_node_links, add_link_to_node, set_node_runtimes, add_runtime_to_node, add_data_to_node,
  set_node_data_list,
}
use inc_sim.Storage.Functions.{
  functions, with_functions, add_function_to_node, set_func_info, set_func_name,
  set_func_exe_counter, set_func_interest_counter, set_func_status, set_func_cpu, set_func_ram,
  set_func_rom, set_func_size, set_func_inputs, push_inputs,
}
use inc_sim.Storage.Writes.{Writes, Writes-refl, update-Writes, modify-Writes, modify_func-Writes}

-- One successful call of a setter for the node `id`.
pub data Setter (N : Ndn) (id : Text) (t : Nodes N) : Nodes N → Type 0 where
  node_name : (v : N.Name) → Setter N id t (set_node_name id v t).1
  node_pointer : (v : Option ℕ) → Setter N id t (set_node_pointer id v t).1
  node_ram : (v : ℕ) (d : Bool) → Setter N id t (set_node_ram id v d t).1
  node_rom : (v : ℕ) (d : Bool) → Setter N id t (set_node_rom id v d t).1
  node_busy : (v : ℕ) (d : Bool) → Setter N id t (set_node_busy_counter id v d t).1
  node_cpu : (v : ℕ) (d : Bool) → Setter N id t (set_node_cpu id v d t).1
  node_links : (v : List Text) (d : Bool) → Setter N id t (set_node_links id v d t).1
  link : (v : Text) (d : Bool) → Setter N id t (add_link_to_node id v d t).1
  node_runtimes : (v : List Text) (d : Bool) → Setter N id t (set_node_runtimes id v d t).1
  runtime : (v : Text) (d : Bool) → Setter N id t (add_runtime_to_node id v d t).1
  data_entry : (v : DataInfo N) (d : Bool) → Setter N id t (add_data_to_node id v d t).1
  data_list : (v : List (DataInfo N)) (d : Bool) → Setter N id t (set_node_data_list id v d t).1
  new_func : (v : FunctionInfo N) (d : Bool) → Setter N id t (add_function_to_node id v d t).1
  func_info :
      (i : ℕ) (v : FunctionInfo N) (d : Bool) (r : Bool × Nodes N)
      → set_func_info id i v d t ≡ ok r
      → Setter N id t r.1
  func_name :
      (i : ℕ) (v : N.Name) (d : Bool) (r : Bool × Nodes N)
      → set_func_name id i v d t ≡ ok r
      → Setter N id t r.1
  func_exe_counter :
      (i v : ℕ) (d : Bool) (r : Bool × Nodes N)
      → set_func_exe_counter id i v d t ≡ ok r
      → Setter N id t r.1
  func_interest_counter :
      (i v : ℕ) (d : Bool) (r : Bool × Nodes N)
      → set_func_interest_counter id i v d t ≡ ok r
      → Setter N id t r.1
  func_status :
      (i : ℕ) (v d : Bool) (r : Bool × Nodes N)
      → set_func_status id i v d t ≡ ok r
      → Setter N id t r.1
  func_cpu :
      (i v : ℕ) (d : Bool) (r : Bool × Nodes N) → set_func_cpu id i v d t ≡ ok r → Setter N id t r.1
  func_ram :
      (i v : ℕ) (d : Bool) (r : Bool × Nodes N) → set_func_ram id i v d t ≡ ok r → Setter N id t r.1
  func_rom :
      (i v : ℕ) (d : Bool) (r : Bool × Nodes N) → set_func_rom id i v d t ≡ ok r → Setter N id t r.1
  func_size :
      (i v : ℕ) (d : Bool) (r : Bool × Nodes N)
      → set_func_size id i v d t ≡ ok r
      → Setter N id t r.1
  func_inputs :
      (i : ℕ) (v : List Text) (d : Bool) (r : Bool × Nodes N)
      → set_func_inputs id i v d t ≡ ok r
      → Setter N id t r.1

module _ {N : Ndn} where
  pub set_func_inputs-Writes :
      (id : Text) (i : ℕ) (vs : List Text) (d : Bool) (t : Nodes N) (r : Bool × Nodes N)
      → set_func_inputs id i vs d t ≡ ok r
      → Writes N id t r.1
  unfolding set_func_inputs
  set_func_inputs-Writes id i vs d t r h = elim (Option-cases (find id t)) [
    | inl e ↦ let q : r ≡ (false, t) = ground (arith, e) in rw q (Writes-refl id t)
    | inr (n, e) ↦
        let split : (gs : List (FunctionInfo N)) × (push_inputs i vs (functions d n) ≡ ok gs)
            × (ok (true, update id (with_functions d gs) t) ≡ ok r) =
          >>=-eq-ok (push_inputs i vs (functions d n)) _ (rw (e, set_func_inputs) at h) in
        let q : r ≡ (true, update id (with_functions d split.0) t) = ground (arith, split.2) in
        rw q (update-Writes id (with_functions d split.0) t)
  ]

  -- No call of a setter that returns changes which nodes are stored, what is stored for another
  -- node, or that the keys ascend.
  pub Setter-Writes : {id : Text} {t u : Nodes N} → Setter N id t u → Writes N id t u
  unfolding set_node_name set_node_pointer set_node_ram set_node_rom set_node_busy_counter
      set_node_cpu set_node_links add_link_to_node set_node_runtimes add_runtime_to_node
      add_data_to_node set_node_data_list add_function_to_node set_func_info set_func_name
      set_func_exe_counter set_func_interest_counter set_func_status set_func_cpu set_func_ram
      set_func_rom set_func_size
  Setter-Writes {id} {t} (node_name v) = modify-Writes id _ t
  Setter-Writes {id} {t} (node_pointer v) = modify-Writes id _ t
  Setter-Writes {id} {t} (node_ram v d) = modify-Writes id _ t
  Setter-Writes {id} {t} (node_rom v d) = modify-Writes id _ t
  Setter-Writes {id} {t} (node_busy v d) = modify-Writes id _ t
  Setter-Writes {id} {t} (node_cpu v d) = modify-Writes id _ t
  Setter-Writes {id} {t} (node_links v d) = modify-Writes id _ t
  Setter-Writes {id} {t} (link v d) = modify-Writes id _ t
  Setter-Writes {id} {t} (node_runtimes v d) = modify-Writes id _ t
  Setter-Writes {id} {t} (runtime v d) = modify-Writes id _ t
  Setter-Writes {id} {t} (data_entry v d) = modify-Writes id _ t
  Setter-Writes {id} {t} (data_list v d) = modify-Writes id _ t
  Setter-Writes {id} {t} (new_func v d) = modify-Writes id _ t
  Setter-Writes {id} {t} (func_info i v d r e) = modify_func-Writes id i _ d t r e
  Setter-Writes {id} {t} (func_name i v d r e) = modify_func-Writes id i _ d t r e
  Setter-Writes {id} {t} (func_exe_counter i v d r e) = modify_func-Writes id i _ d t r e
  Setter-Writes {id} {t} (func_interest_counter i v d r e) = modify_func-Writes id i _ d t r e
  Setter-Writes {id} {t} (func_status i v d r e) = modify_func-Writes id i _ d t r e
  Setter-Writes {id} {t} (func_cpu i v d r e) = modify_func-Writes id i _ d t r e
  Setter-Writes {id} {t} (func_ram i v d r e) = modify_func-Writes id i _ d t r e
  Setter-Writes {id} {t} (func_rom i v d r e) = modify_func-Writes id i _ d t r e
  Setter-Writes {id} {t} (func_size i v d r e) = modify_func-Writes id i _ d t r e
  Setter-Writes {id} {t} (func_inputs i v d r e) = set_func_inputs-Writes id i v d t r e

module _ {N : Ndn} where
  pub length-insert :
      (id : Text) (n : ComputeNode N) (t : Nodes N)
      → length (insert id n t).1 ≡ (if (insert id n t).0 then length t + 1 else length t)
  unfolding insert
  length-insert id n [] = omega arith
  length-insert id n ((j, v) ∷ t) = ground (arith, length-insert id n t)

  pub length-keys : (t : Nodes N) → length (keys t) ≡ length t
  length-keys [] = refl
  length-keys ((j, v) ∷ t) = ground (arith, length-keys t)
