-- ===== src/NodeApp/Switching/Calls.antt =====
-- What the calls of `EnableFunction` and `DisableFunction` do, and one round of the loops.
use inc_sim.Base.{
  ◌-◌, ◌≡◌, refl, ap, ◌∙◌, Bool, true, false, Option, none, some, [], ◌∷◌, if◌then◌else◌, arith,
  Option-cases, inl, inr,
}
use inc_sim.Base.Text.{Text, text_eq, text_eq_iff}
use inc_sim.Base.Table.{Table, find, update, find-update}
use inc_sim.Base.Gives.{Succeeds, Succeeds-ok, Succeeds-bind}
use inc_sim.Ndn.{Ndn, Nfd}
use inc_sim.Boost.{Boost}
use inc_sim.Computation.{Computation, enable, disable}
use inc_sim.Node.{IncOrchestrationComputeNode}
use inc_sim.Node.Functions.{
  enable_function, disable_function, notify_fib_function_enable, notify_fib_function_disable,
  notify_fib, unnotify_fib,
}
use inc_sim.Node.Excluded.{
  member, count, add_to_exclude_list, remove_from_exclude_list, check_exclude_list,
  exclude_list_counts,
}
use inc_sim.NodeApp.Switch.{Switching, switch_on, switch_off}
use inc_sim.NodeApp.Switching.{switch_entry, is_usable, is_known, last_known, IsRun}

module _ {N : Ndn} where
  switched_map :
      (on : Bool) (name j : Text) (c : Computation N) (m : Table (Option (Computation N)))
      → find name m ≡ some (some c)
      → find j (update name (λ _. some (if on then enable c else disable c)) m)
        ≡ (if text_eq name j then switch_entry on (find j m) else find j m)
  unfolding switch_entry
  switched_map on name j c m e = ground (
    arith,
    text_eq_iff name j,
    find-update name j (λ _. some (if on then enable c else disable c)) (some c) m e,
  )

module _ {N : Ndn} {F : Nfd N} where
  -- The call switches its function, returns whether there is one, and keeps the exclude list.
  record IsCall (on : Bool) (name : Text) (n : IncOrchestrationComputeNode N F)
      (r : Bool × IncOrchestrationComputeNode N F) : Type 0 where
    result : r.0 ≡ is_known (find name n.func_map)
    functions :
        (j : Text)
        → find j r.1.func_map
          ≡ (if text_eq name j then switch_entry on (find j n.func_map) else find j n.func_map)
    excluded : r.1.func_exclude_list ≡ n.func_exclude_list

  module _ (name : Text) (n : IncOrchestrationComputeNode N F) where
    missing-IsCall : (on : Bool) → find name n.func_map ≡ none → IsCall on name n (false, n)
    unfolding switch_entry is_known
    missing-IsCall on e = record {
      result = rw e refl;
      functions = λ j. ground (arith, text_eq_iff name j);
      excluded = refl;
    }

    enabled-IsCall :
        (c : Computation N) (nfn : Bool)
        → find name n.func_map ≡ some (some c)
        → (let m = record n { func_map = update name (λ _. some (enable c)) n.func_map } in
            IsCall true name n (true, if nfn then notify_fib_function_enable name m else m))
    unfolding notify_fib_function_enable notify_fib is_known
    enabled-IsCall c true e = record {
      result = rw e refl;
      functions = λ j. switched_map true name j c n.func_map e;
      excluded = refl;
    }
    enabled-IsCall c false e = record {
      result = rw e refl;
      functions = λ j. switched_map true name j c n.func_map e;
      excluded = refl;
    }

    disabled-IsCall :
        (c : Computation N) (nfn : Bool)
        → find name n.func_map ≡ some (some c)
        → (let m = record n { func_map = update name (λ _. some (disable c)) n.func_map } in
            IsCall false name n (true, if nfn then notify_fib_function_disable name m else m))
    unfolding notify_fib_function_disable unnotify_fib is_known
    disabled-IsCall c nfn e = record {
      result = rw e refl;
      functions = λ j. ground (arith, switched_map false name j c n.func_map e);
      excluded = ground arith;
    }

    module _ (b : Boost) (u : is_usable (find name n.func_map) ≡ true) where
      enable_function-IsCall : Succeeds (IsCall true name n) (enable_function b name n)
      unfolding enable_function is_usable
      enable_function-IsCall = elim (Option-cases (find name n.func_map)) [
        | inl e ↦ rw (e, enable_function) (Succeeds-ok (false, n) (missing-IsCall true e))
        | inr (none, e) ↦ absurd (ground (arith, e, u))
        | inr (some c, e) ↦ rw (e, enable_function) (Succeeds-ok _ (enabled-IsCall c _ e))
      ]

      disable_function-IsCall : Succeeds (IsCall false name n) (disable_function b name n)
      unfolding disable_function is_usable
      disable_function-IsCall = elim (Option-cases (find name n.func_map)) [
        | inl e ↦ rw (e, disable_function) (Succeeds-ok (false, n) (missing-IsCall false e))
        | inr (none, e) ↦ absurd (ground (arith, e, u))
        | inr (some c, e) ↦ rw (e, disable_function) (Succeeds-ok _ (disabled-IsCall c _ e))
      ]

  module _ (x : Text) (n : IncOrchestrationComputeNode N F) where
    -- The removal from the exclude list of what is on it, when the test said `listed`.
    unexclude-func_map :
        (listed : Bool) → (if listed then remove_from_exclude_list x n else n).func_map ≡ n.func_map
    unfolding remove_from_exclude_list
    unexclude-func_map true = refl
    unexclude-func_map false = refl

    unexclude-count :
        (listed : Bool) (j : Text)
        → check_exclude_list x n ≡ listed
        → count j (if listed then remove_from_exclude_list x n else n).func_exclude_list
          ≡ count j n.func_exclude_list - (if text_eq x j then 1 else 0)
    unexclude-count true j e = (exclude_list_counts n x j).1
    unexclude-count false j e = ground (arith, e, text_eq_iff x j, (exclude_list_counts n x x).2)

  module _ (b : Boost) (x : Text) (s : Switching N F)
      (u : is_usable (find x s.node.func_map) ≡ true) where
    pub switch_on-IsRun : Succeeds (IsRun true (x ∷ []) s) (switch_on b x s)
    unfolding switch_on
    switch_on-IsRun =
        let call = enable_function-IsCall x s.node b u in
        let n' = call.value.1 in
        Succeeds-bind (enable_function b x s.node) call.value _ call.returns (
          Succeeds-ok _ (record {
            switched = record {
              functions = λ j.
                  ap (find j) (unexclude-func_map x n' (check_exclude_list x n'))
                  ∙ (unfold member in ground (arith, call.holds.functions j));
              excluded = λ j.
                  unexclude-count x n' (check_exclude_list x n') j refl
                  ∙ (unfold count in ground (arith, call.holds.excluded));
            };
            flag = unfold last_known in ground (arith, call.holds.result);
            events = ground (arith, call.holds.result);
          }))

    pub switch_off-IsRun : Succeeds (IsRun false (x ∷ []) s) (switch_off b x s)
    unfolding switch_off add_to_exclude_list
    switch_off-IsRun =
        let call = disable_function-IsCall x s.node b u in
        let n' = call.value.1 in
        Succeeds-bind (disable_function b x s.node) call.value _ call.returns (
          Succeeds-ok _ (record {
            switched = record {
              functions = λ j. unfold member in ground (arith, call.holds.functions j);
              excluded = λ j.
                  (exclude_list_counts n' x j).0
                  ∙ (unfold count in ground (arith, call.holds.excluded));
            };
            flag = unfold last_known in ground (arith, call.holds.result);
            events = ground (arith, call.holds.result);
          }))
