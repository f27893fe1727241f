-- ===== src/Storage/Functions.antt =====
-- node-info-storage.cpp, "Function Info": the functions of a node, addressed by index.
use inc_sim.Base.{ℕ, ◌+◌, Bool, true, false, none, some, List, [], ◌∷◌, ◌++◌, if◌then◌else◌, set}
use inc_sim.Base.Text.{Text, text_eq}
use inc_sim.Base.Table.{find, update}
use inc_sim.Base.Outcome.{Outcome, ok, err, no_return, null_pointer, ◌>>=◌, at}
use inc_sim.Ndn.{Ndn}
use inc_sim.Storage.{FunctionInfo, ComputeNode, Nodes, push_all, modify, read_node}

module _ {N : Ndn} where
  -- `functions_initial` or `functions_current`, by the flag `defaultvalue`.
  abbrev pub functions : Bool → ComputeNode N → List (FunctionInfo N)
  functions d n = if d then n.functions_initial else n.functions_current

  abbrev pub with_functions : Bool → List (FunctionInfo N) → ComputeNode N → ComputeNode N
  with_functions d fs n =
      if d then record n { functions_initial = fs } else record n { functions_current = fs }

  unfoldable pub get_functions_at_node : Text → Bool → Nodes N → Outcome (List (FunctionInfo N))
  unfolding read_node
  get_functions_at_node id d t = read_node id (functions d) t

  unfoldable pub add_function_to_node : Text → FunctionInfo N → Bool → Nodes N → Bool × Nodes N
  unfolding modify
  add_function_to_node id v d t = modify id (λ n. with_functions d (functions d n ++ v ∷ []) n) t

  -- The shape of the getters: what `on_missing` says of an unknown node, else a checked access.
  unfoldable pub read_func {ℓ} :
      {A : Type ℓ} → Outcome A → Text → ℕ → (FunctionInfo N → A) → Bool → Nodes N → Outcome A
  read_func on_missing id i f d t = elim (find id t) [
    | none ↦ on_missing
    | some n ↦ do g ← at (functions d n) i; ok (f g)
  ]

  -- The shape of the setters: `false` for an unknown node, else a checked write.
  unfoldable pub modify_func :
      Text → ℕ → (FunctionInfo N → FunctionInfo N) → Bool → Nodes N → Outcome (Bool × Nodes N)
  modify_func id i f d t = elim (find id t) [
    | none ↦ ok (false, t)
    | some n ↦ do
      g ← at (functions d n) i
      ok (true, update id (with_functions d (set (functions d n) i (f g))) t)
  ]

  unfoldable pub get_func_info : Text → ℕ → Bool → Nodes N → Outcome (FunctionInfo N)
  unfolding read_func
  get_func_info id i d t = read_func (err no_return) id i (λ g. g) d t

  -- The loops of `getFuncIndex`, from position `i`.
  unfoldable pub func_index : Text → List (FunctionInfo N) → ℕ → Bool × ℕ
  func_index name [] i = (false, 0)
  func_index name (g ∷ gs) i =
      if text_eq name (N.to_uri g.func_name) then (true, i) else func_index name gs (i + 1)

  unfoldable pub get_func_index : Text → Text → Bool → Nodes N → Outcome (Bool × ℕ)
  unfolding read_node func_index
  get_func_index id name d t = read_node id (λ n. func_index name (functions d n) 0) t

  -- The inputs are copied to `functions_current` only.
  unfoldable pub set_func_info :
      Text → ℕ → FunctionInfo N → Bool → Nodes N → Outcome (Bool × Nodes N)
  unfolding modify_func push_all
  set_func_info id i new d t =
      modify_func id i
        (λ g. record g {
          func_name = new.func_name;
          func_exe_counter = new.func_exe_counter;
          func_interest_counter = new.func_interest_counter;
          status = new.status;
          exec_time = new.exec_time;
          cores = new.cores;
          ram = new.ram;
          rom = new.rom;
          size_bytes = new.size_bytes;
          input_data_list = if d then g.input_data_list else push_all [] new.input_data_list;
        })
        d t

  -- For an unknown node the source builds a name from the null pointer.
  unfoldable pub get_func_name : Text → ℕ → Bool → Nodes N → Outcome N.Name
  unfolding read_func
  get_func_name id i d t = read_func (err null_pointer) id i (λ g. g.func_name) d t

  unfoldable pub set_func_name : Text → ℕ → N.Name → Bool → Nodes N → Outcome (Bool × Nodes N)
  unfolding modify_func
  set_func_name id i v d t = modify_func id i (λ g. record g { func_name = v }) d t

  unfoldable pub get_func_exe_counter : Text → ℕ → Bool → Nodes N → Outcome ℕ
  unfolding read_func
  get_func_exe_counter id i d t = read_func (ok 0) id i (λ g. g.func_exe_counter) d t

  -- The default counter is set to 0, whatever the argument.
  unfoldable pub set_func_exe_counter : Text → ℕ → ℕ → Bool → Nodes N → Outcome (Bool × Nodes N)
  unfolding modify_func
  set_func_exe_counter id i v d t =
      modify_func id i (λ g. record g { func_exe_counter = if d then 0 else v }) d t

  unfoldable pub get_func_interest_counter : Text → ℕ → Bool → Nodes N → Outcome ℕ
  unfolding read_func
  get_func_interest_counter id i d t = read_func (ok 0) id i (λ g. g.func_interest_counter) d t

  unfoldable pub set_func_interest_counter :
      Text → ℕ → ℕ → Bool → Nodes N → Outcome (Bool × Nodes N)
  unfolding modify_func
  set_func_interest_counter id i v d t =
      modify_func id i (λ g. record g { func_interest_counter = if d then 0 else v }) d t

  unfoldable pub get_func_status : Text → ℕ → Bool → Nodes N → Outcome Bool
  unfolding read_func
  get_func_status id i d t = read_func (err no_return) id i (λ g. g.status) d t

  unfoldable pub get_func_cpu : Text → ℕ → Bool → Nodes N → Outcome ℕ
  unfolding read_func
  get_func_cpu id i d t = read_func (err no_return) id i (λ g. g.cores) d t

  unfoldable pub get_func_ram : Text → ℕ → Bool → Nodes N → Outcome ℕ
  unfolding read_func
  get_func_ram id i d t = read_func (err no_return) id i (λ g. g.ram) d t

  unfoldable pub get_func_rom : Text → ℕ → Bool → Nodes N → Outcome ℕ
  unfolding read_func
  get_func_rom id i d t = read_func (err no_return) id i (λ g. g.rom) d t

  unfoldable pub get_func_size : Text → ℕ → Bool → Nodes N → Outcome ℕ
  unfolding read_func
  get_func_size id i d t = read_func (err no_return) id i (λ g. g.size_bytes) d t

  unfoldable pub get_func_inputs : Text → ℕ → Bool → Nodes N → Outcome (List Text)
  unfolding read_func
  get_func_inputs id i d t = read_func (err no_return) id i (λ g. g.input_data_list) d t

  unfoldable pub set_func_status : Text → ℕ → Bool → Bool → Nodes N → Outcome (Bool × Nodes N)
  unfolding modify_func
  set_func_status id i v d t = modify_func id i (λ g. record g { status = v }) d t

  unfoldable pub set_func_cpu : Text → ℕ → ℕ → Bool → Nodes N → Outcome (Bool × Nodes N)
  unfolding modify_func
  set_func_cpu id i v d t = modify_func id i (λ g. record g { cores = v }) d t

  unfoldable pub set_func_ram : Text → ℕ → ℕ → Bool → Nodes N → Outcome (Bool × Nodes N)
  unfolding modify_func
  set_func_ram id i v d t = modify_func id i (λ g. record g { ram = v }) d t

  unfoldable pub set_func_rom : Text → ℕ → ℕ → Bool → Nodes N → Outcome (Bool × Nodes N)
  unfolding modify_func
  set_func_rom id i v d t = modify_func id i (λ g. record g { rom = v }) d t

  unfoldable pub set_func_size : Text → ℕ → ℕ → Bool → Nodes N → Outcome (Bool × Nodes N)
  unfolding modify_func
  set_func_size id i v d t = modify_func id i (λ g. record g { size_bytes = v }) d t

  -- The loop of `setFuncInputs`: each input is a checked access of its own, so an empty list checks
  -- no index.
  unfoldable pub push_inputs :
      ℕ → List Text → List (FunctionInfo N) → Outcome (List (FunctionInfo N))
  push_inputs i [] gs = ok gs
  push_inputs i (v ∷ vs) gs = do
    g ← at gs i
    push_inputs i vs (set gs i (record g { input_data_list = g.input_data_list ++ v ∷ [] }))

  unfoldable pub set_func_inputs : Text → ℕ → List Text → Bool → Nodes N → Outcome (Bool × Nodes N)
  unfolding push_inputs
  set_func_inputs id i vs d t = elim (find id t) [
    | none ↦ ok (false, t)
    | some n ↦ do
      gs ← push_inputs i vs (functions d n)
      ok (true, update id (with_functions d gs) t)
  ]
