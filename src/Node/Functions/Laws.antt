-- ===== src/Node/Functions/Laws.antt =====
-- What enabling, disabling, registering and looking up a function do to the functions of a node.
use inc_sim.Base.{◌≡◌, refl, Bool, true, false, none, some, if◌then◌else◌, arith}
use inc_sim.Base.Text.{Text, text_eq, text_eq_refl}
use inc_sim.Base.Table.{find, update, find-update, find-update_ne, find-insert_new}
use inc_sim.Base.Outcome.{ok, err, null_pointer}
use inc_sim.Ndn.{Ndn, Nfd}
use inc_sim.Boost.{Boost}
use inc_sim.Computation.{Computation, enable, disable}
use inc_sim.Node.{IncOrchestrationComputeNode}
use inc_sim.Node.Functions.{
  notify_fib_function_enable, notify_fib_function_disable, notify_fib, unnotify_fib,
  enable_function, disable_function, runs_nfn, get_function,
}

module _ {N : Ndn} {F : Nfd N} where
  map-notify :
      (b : Bool) (func : Text) (n : IncOrchestrationComputeNode N F)
      → (if b then notify_fib_function_enable func n else n).func_map ≡ n.func_map
  unfolding notify_fib_function_enable notify_fib
  map-notify true func n = refl
  map-notify false func n = refl

  map-unnotify :
      (b : Bool) (func : Text) (n : IncOrchestrationComputeNode N F)
      → (if b then notify_fib_function_disable func n else n).func_map ≡ n.func_map
  unfolding notify_fib_function_disable unnotify_fib
  map-unnotify true func n = ground arith
  map-unnotify false func n = refl

  module _ (b : Boost) (func : Text) (n : IncOrchestrationComputeNode N F) (c : Computation N)
      (stored : find func n.func_map ≡ some (some c)) where
    -- `EnableFunction` of a function that the node has returns `true`. Then the function is enabled
    -- with no missed executions and is otherwise as before, and no other function changes.
    pub enable_function_lem :
        (n' : IncOrchestrationComputeNode N F) × (enable_function b func n ≡ ok (true, n'))
        × (find func n'.func_map
            ≡ some (some (record c { enable_computation = true; miss_exec_counter = 0 })))
        × ((j : Text) → text_eq func j ≡ false → find j n'.func_map ≡ find j n.func_map)
    unfolding enable_function enable
    enable_function_lem =
        let m = record n { func_map = update func (λ _. some (enable c)) n.func_map } in
        let n' : IncOrchestrationComputeNode N F =
          if runs_nfn b m then notify_fib_function_enable func m else m in
        (
          n',
          rw (stored, enable_function) refl,
          rw (map-notify (runs_nfn b m) func m) (
              ground (
                arith,
                find-update func func (λ _. some (enable c)) (some c) n.func_map,
                text_eq_refl func,
              )),
          λ j h.
              rw (map-notify (runs_nfn b m) func m)
                (find-update_ne func j (λ _. some (enable c)) n.func_map h),
        )

    -- `DisableFunction` of a function that the node has returns `true`. Then the function is disabled
    -- and is otherwise as before, and no other function changes.
    pub disable_function_lem :
        (n' : IncOrchestrationComputeNode N F) × (disable_function b func n ≡ ok (true, n'))
        × (find func n'.func_map ≡ some (some (record c { enable_computation = false })))
        × ((j : Text) → text_eq func j ≡ false → find j n'.func_map ≡ find j n.func_map)
    unfolding disable_function disable
    disable_function_lem =
        let m = record n { func_map = update func (λ _. some (disable c)) n.func_map } in
        let n' : IncOrchestrationComputeNode N F =
          if runs_nfn b m then notify_fib_function_disable func m else m in
        (
          n',
          rw (stored, disable_function) refl,
          rw (map-unnotify (runs_nfn b m) func m) (
              ground (
                arith,
                find-update func func (λ _. some (disable c)) (some c) n.func_map,
                text_eq_refl func,
              )),
          λ j h.
              rw (map-unnotify (runs_nfn b m) func m)
                (find-update_ne func j (λ _. some (disable c)) n.func_map h),
        )

  -- Looking up an unknown function leaves a null pointer behind: where the node does not have the
  -- function, `EnableFunction` and `DisableFunction` return `false`, but after a `GetFunction` of the
  -- same name both use the null pointer.
  pub get_function_poisons :
      (b : Boost) (func : Text) (n : IncOrchestrationComputeNode N F)
      → find func n.func_map ≡ none
      → (enable_function b func n ≡ ok (false, n))
        × (disable_function b func n ≡ ok (false, n))
        × ((get_function func n).0 ≡ none)
        × (enable_function b func (get_function func n).1 ≡ err null_pointer)
        × (disable_function b func (get_function func n).1 ≡ err null_pointer)
  unfolding enable_function disable_function get_function
  get_function_poisons b func n missing =
      ground (arith, missing, find-insert_new func none n.func_map)
