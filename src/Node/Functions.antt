-- ===== src/Node/Functions.antt =====
-- The functions of a node: registration, enabling and disabling, and what this does to the
-- forwarding table.
pub mod Laws
use inc_sim.Base.{
  ℕ, Bool, true, false, not, Option, none, some, List, [], ◌∷◌, ◌++◌, ◌&&◌, if◌then◌else◌,
}
use inc_sim.Base.Text.{Text, text, text_eq}
use inc_sim.Base.Table.{Table, find, insert, emplace, update}
use inc_sim.Base.Outcome.{Outcome, ok, err, null_pointer, ◌>>=◌}
use inc_sim.Ndn.{Ndn, Nfd}
use inc_sim.Boost.{Boost}
use inc_sim.Computation.{Computation, enable, disable, new_computation}
use inc_sim.Node.{IncOrchestrationComputeNode}

-- The first face of the list that belongs to a producer application.
unfoldable pub app_face : {N : Ndn} (F : Nfd N) → List F.Face → Option F.Face
app_face F [] = none
app_face F (face ∷ faces) =
    if text_eq (F.remote_uri face) (text "nfnProducerAppFace://")
    then some face
    else app_face F faces

abbrev pub function_prefix : (N : Ndn) → Text → N.Name
function_prefix N func = N.name (text "/lambda/Function" ++ func)

module _ {N : Ndn} {F : Nfd N} where
  -- `fib.findExactMatch(prefix)`, and `fib.insert(prefix)` if there is no entry; then the app face is
  -- added at cost 0, if there is one.
  unfoldable pub notify_fib :
      N.Name → IncOrchestrationComputeNode N F → IncOrchestrationComputeNode N F
  notify_fib prefix n =
      let fib : F.Fib = elim (F.next_hops n.fib prefix) [
        | none ↦ F.insert n.fib prefix
        | some faces ↦ n.fib
      ] in
      record n {
        fib = elim n.producer_app_face [
          | none ↦ fib
          | some face ↦ F.add_or_update_next_hop fib prefix face 0
        ];
      }

  -- The entry loses its first producer face, if it has one.
  unfoldable pub unnotify_fib :
      N.Name → IncOrchestrationComputeNode N F → IncOrchestrationComputeNode N F
  unfolding app_face
  unnotify_fib prefix n = elim (F.next_hops n.fib prefix) [
    | none ↦ n
    | some faces ↦ elim (app_face F faces) [
      | none ↦ n
      | some face ↦ record n { fib = F.remove_next_hop n.fib prefix face }
    ]
  ]

  unfoldable pub notify_fib_function_enable :
      Text → IncOrchestrationComputeNode N F → IncOrchestrationComputeNode N F
  unfolding notify_fib
  notify_fib_function_enable func n = notify_fib (function_prefix N func) n

  unfoldable pub notify_fib_function_disable :
      Text → IncOrchestrationComputeNode N F → IncOrchestrationComputeNode N F
  unfolding unnotify_fib
  notify_fib_function_disable func n = unnotify_fib (function_prefix N func) n

  unfoldable pub notify_fib_data_enable :
      Text → IncOrchestrationComputeNode N F → IncOrchestrationComputeNode N F
  unfolding notify_fib
  notify_fib_data_enable name n = notify_fib (N.name (text "/lambda/Data" ++ (name ++ text "/"))) n

  unfoldable pub notify_fib_data_disable :
      Text → IncOrchestrationComputeNode N F → IncOrchestrationComputeNode N F
  unfolding unnotify_fib
  notify_fib_data_disable name n = unnotify_fib (N.name (text "/lambda/Data" ++ name)) n

  module _ (b : Boost) where
    -- The strategy is NFN and the producer's face is known.
    abbrev pub runs_nfn : IncOrchestrationComputeNode N F → Bool
    runs_nfn n =
        text_eq (b.to_lower_copy n.inc_strategy) (text "nfn")
        && elim n.producer_app_face [ none ↦ false | some face ↦ true ]

    unfoldable pub enable_function :
        Text → IncOrchestrationComputeNode N F → Outcome (Bool × IncOrchestrationComputeNode N F)
    unfolding enable notify_fib_function_enable
    enable_function func n = elim (find func n.func_map) [
      | none ↦ ok (false, n)
      | some none ↦ err null_pointer
      | some (some c) ↦
          let n' = record n { func_map = update func (λ _. some (enable c)) n.func_map } in
          ok (
            (enable c).enable_computation,
            if runs_nfn n' then notify_fib_function_enable func n' else n',
          )
    ]

    unfoldable pub disable_function :
        Text → IncOrchestrationComputeNode N F → Outcome (Bool × IncOrchestrationComputeNode N F)
    unfolding disable notify_fib_function_disable
    disable_function func n = elim (find func n.func_map) [
      | none ↦ ok (false, n)
      | some none ↦ err null_pointer
      | some (some c) ↦
          let n' = record n { func_map = update func (λ _. some (disable c)) n.func_map } in
          ok (
            not (disable c).enable_computation,
            if runs_nfn n' then notify_fib_function_disable func n' else n',
          )
    ]

    unfoldable pub enable_data_for_compute :
        Text → IncOrchestrationComputeNode N F → Bool × IncOrchestrationComputeNode N F
    unfolding notify_fib_data_enable
    enable_data_for_compute name n = (true, if runs_nfn n then notify_fib_data_enable name n else n)

  unfoldable pub set_function_map :
      Table (Option (Computation N))
      → IncOrchestrationComputeNode N F
      → IncOrchestrationComputeNode N F
  set_function_map m n = record n { func_map = m }

  -- A new object with the properties of `function`, but for its status and counters; `emplace` keeps
  -- an entry that is there.
  unfoldable pub add_new_function :
      Text
      → Option (Computation N)
      → IncOrchestrationComputeNode N F
      → Outcome (IncOrchestrationComputeNode N F)
  unfolding new_computation emplace
  add_new_function name none n = err null_pointer
  add_new_function name (some function) n =
      let t_func =
        record (new_computation function.ram function.rom function.cpu function.param_number) {
          computation_name = function.computation_name;
          exec_time = function.exec_time;
          runtime_requirements = function.runtime_requirements;
          func_size = function.func_size;
          input_list = function.input_list;
        } in
      ok (record n { func_map = emplace name (some t_func) n.func_map })

  -- `m_func_map[name]`: a name that is not there gets an entry with the null pointer.
  unfoldable pub get_function :
      Text
      → IncOrchestrationComputeNode N F
      → Option (Computation N) × IncOrchestrationComputeNode N F
  get_function name n = elim (find name n.func_map) [
    | none ↦ (none, record n { func_map = (insert name none n.func_map).1 })
    | some c ↦ (c, n)
  ]
