-- ===== src/Storage.antt =====
-- apps/orchestration/storage/node-info-storage.{hpp,cpp}: the table of compute nodes that the
-- orchestrator keeps, `m_nodeInfoTable`, and the records in it.
pub mod NodeInfo
pub mod Functions
pub mod Writes
pub mod NodeValues
pub mod FuncIndex
pub mod FuncValues
pub mod Calls
pub mod Distances
pub mod Reach
pub mod History
pub mod Tests
use inc_sim.Base.{
  ℕ, Bool, true, false, Option, none, some, List, [], ◌∷◌, ◌++◌, if◌then◌else◌, length,
}
use inc_sim.Base.Text.{Text}
use inc_sim.Base.Table.{Table, find, insert, update}
use inc_sim.Base.Outcome.{Outcome, ok, err, no_return, ◌>>=◌}
use inc_sim.Ndn.{Ndn}

-- `exec_time` is `none` while the member has no value: no code but `setFuncInfo` writes it.
pub record FunctionInfo (N : Ndn) : Type 0 where
  pub func_name : N.Name
  pub exec_time : Option N.Double
  pub func_exe_counter : ℕ
  pub func_interest_counter : ℕ
  pub cores : ℕ
  pub ram : ℕ
  pub rom : ℕ
  pub size_bytes : ℕ
  pub input_data_list : List Text
  pub status : Bool

pub record DataInfo (N : Ndn) : Type 0 where
  pub data_name : N.Name
  pub size_bytes : ℕ

-- Of each pair the first part is the default value and the second the current one. `node_ptr` is
-- the identity of the object, `none` for the null pointer. The set `hop_distance` is the list of
-- its pairs in order.
pub record ComputeNode (N : Ndn) : Type 0 where
  pub node_name : N.Name
  pub node_ptr : Option ℕ
  pub ram : ℕ × ℕ
  pub rom : ℕ × ℕ
  pub cpu : ℕ × ℕ
  pub node_busy_counter : ℕ × ℕ
  pub links : List Text × List Text
  pub runtimes_supported : List Text × List Text
  pub data_initial : List (DataInfo N)
  pub data_current : List (DataInfo N)
  pub functions_initial : List (FunctionInfo N)
  pub functions_current : List (FunctionInfo N)
  pub hop_distance : List (Text × ℕ)

abbrev pub Nodes : Ndn → Type 0
Nodes N = Table (ComputeNode N)

-- The half of a pair that the flag `defaultvalue` selects.
abbrev pub half {ℓ} : {A : Type ℓ} → Bool → A × A → A
half d p = if d then p.0 else p.1

abbrev pub set_half {ℓ} : {A : Type ℓ} → Bool → A → A × A → A × A
set_half d v p = if d then (v, p.1) else (p.0, v)

-- `push_back` of each element of a list.
unfoldable pub push_all {ℓ} : {A : Type ℓ} → List A → List A → List A
push_all xs [] = xs
push_all xs (y ∷ ys) = push_all (xs ++ y ∷ []) ys

module _ {N : Ndn} where
  -- The shape of every setter: `false` if the node is unknown, else a write through the iterator.
  unfoldable pub modify : Text → (ComputeNode N → ComputeNode N) → Nodes N → Bool × Nodes N
  modify id f t = elim (find id t) [ none ↦ (false, t) | some n ↦ (true, update id f t) ]

  -- The getters that return 0 for an unknown node.
  unfoldable pub read_or_zero : Text → (ComputeNode N → ℕ) → Nodes N → ℕ
  read_or_zero id f t = elim (find id t) [ none ↦ 0 | some n ↦ f n ]

  -- The getters that return nothing for an unknown node.
  unfoldable pub read_node {ℓ} : {A : Type ℓ} → Text → (ComputeNode N → A) → Nodes N → Outcome A
  read_node id f t = elim (find id t) [ none ↦ err no_return | some n ↦ ok (f n) ]

  unfoldable pub add_node_to_table : Text → ComputeNode N → Nodes N → Bool × Nodes N
  add_node_to_table id n t = insert id n t

  unfoldable pub get_table_size : Nodes N → ℕ
  get_table_size t = length t
