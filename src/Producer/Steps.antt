-- ===== src/Producer/Steps.antt =====
-- Every call for a job keeps the accounts of the node, and none faults.
use inc_sim.Base.{
  ℕ, ◌+◌, ◌≤◌, ◌<◌, ◌≡◌, refl, ◌∙◌, true, false, not, some, List, [], ◌∷◌, ◌++◌, if◌then◌else◌,
  arith, length, length-append,
}
use inc_sim.Base.Text.{Text, text, text_eq}
use inc_sim.Base.Number.{u32}
use inc_sim.Base.Outcome.{ok, err, bad_index, ◌>>=◌}
use inc_sim.Base.Gives.{Succeeds, Succeeds-ok, Succeeds-if, Succeeds-bind}
use inc_sim.Ndn.{Ndn, Nfd}
use inc_sim.Computation.{Computation}
use inc_sim.Node.{set_ram, set_processor_core, add_node_busy_counter}
use inc_sim.Node.Queue.{increment_queue_fill, decrement_queue_fill, is_queue_full, is_queue_empty}
use inc_sim.Producer.{
  Job, Output, Producer, use_func, check_resource, release_resource, do_execution, on_full_queue,
  handle_execute, run_next, scheduled_execution_end,
}
use inc_sim.Producer.Needs.{
  Needs, ram_of, cores_of, is_known, sum_ram, sum_cores, all_known, sums-append, sums-one,
  use_func-known, use_func-same, check_resource-same, increment-keeps, decrement-keeps,
}
use inc_sim.Producer.Accounts.{CanPush, Accounts, do_execution-Accounts, with_node}

module _ {N : Ndn} {F : Nfd N} (spec : Text → Needs) (total_ram total_cores size : ℕ)
    (small_ram : total_ram < u32) (small_cores : total_cores < u32) where
  abbrev Good : Producer N F → Type 0
  Good p = Accounts spec total_ram total_cores size p

  on_full_queue-Accounts :
      (queue_action : Text) (job : Job N) (p : Producer N F)
      → Good p
      → is_known (spec job.func) ≡ true
      → p.node.queue_fill ≡ p.node.queue_size
      → CanPush queue_action size
      → Succeeds Good (on_full_queue queue_action job p)
  unfolding on_full_queue add_node_busy_counter
  on_full_queue-Accounts queue_action job p a known full can =
      Succeeds-if (text_eq queue_action (text "push")) _ _ (λ e. rotate p.waiting_list refl e)
        λ _.
          Succeeds-if (text_eq queue_action (text "nack")) _ _
            (λ _. Succeeds-ok _ (
              with_node spec total_ram total_cores size p _ a refl refl refl refl refl a.fill
                a.within a.waiting))
            λ _.
              Succeeds-if (text_eq queue_action (text "forward")) _ _
                (λ _. Succeeds-ok _ (
                  with_node spec total_ram total_cores size p _ a refl refl refl refl refl a.fill
                    a.within a.waiting))
                λ _. Succeeds-ok _ (
                  with_node spec total_ram total_cores size p _ a refl refl refl refl refl a.fill
                    a.within a.waiting)
    where
      rotate :
          (w : List (Job N))
          → p.waiting_list ≡ w
          → text_eq queue_action (text "push") ≡ true
          → Succeeds Good (elim w [
            | [] ↦ err bad_index
            | _ ∷ rest ↦
                ok (record p {
                  node = add_node_busy_counter p.node;
                  waiting_list = rest ++ job ∷ [];
                })
          ])
      rotate [] x e = absurd (ground (arith, x, e, can, full, a.fill, a.sized))
      rotate (j ∷ rest) x e =
          let q : Producer N F = record p {
            node = add_node_busy_counter p.node;
            waiting_list = rest ++ job ∷ [];
          } in
          Succeeds-ok q (
            with_node spec total_ram total_cores size p q a refl refl refl refl refl
              (ground (arith, a.fill, x, length-append rest (job ∷ []))) a.within
              (unfold all_known in
                ground (
                  arith,
                  a.waiting,
                  x,
                  sums-append spec rest (job ∷ []),
                  sums-one spec job,
                  known,
                )))

  pub handle_execute-Accounts :
      (queue_action : Text) (now : N.Double) (job : Job N) (p : Producer N F)
      → Good p
      → is_known (spec job.func) ≡ true
      → CanPush queue_action size
      → Succeeds Good (handle_execute queue_action now job p)
  unfolding handle_execute
  handle_execute-Accounts queue_action now job p a known can =
      let (c, used, cost) = use_func-known spec job.func p.node (a.needs job.func) known in
      Succeeds-bind (use_func job.func p.node) c _ used (
        Succeeds-if (check_resource c p.node) _ _
          (λ e.
            do_execution-Accounts spec total_ram total_cores size small_ram small_cores job p c a
              used cost e)
          λ _.
            Succeeds-if (not (is_queue_full p.node)) _ _ (λ e. enqueued e)
              λ e. on_full_queue-Accounts queue_action job p a known (full e) can)
    where
      full : not (is_queue_full p.node) ≡ false → p.node.queue_fill ≡ p.node.queue_size
      full e = unfold is_queue_full in ground (arith, e)

      enqueued :
          not (is_queue_full p.node) ≡ true
          → Succeeds Good (
              ok (record p {
                node = (increment_queue_fill now p.node).node;
                waiting_list = p.waiting_list ++ job ∷ [];
              }))
      enqueued e =
          let n = (increment_queue_fill now p.node).node in
          let k = increment-keeps now p.node in
          let q : Producer N F = record p { node = n; waiting_list = p.waiting_list ++ job ∷ [] } in
          Succeeds-ok q (
            with_node spec total_ram total_cores size p q a k.0 k.1 k.2 refl k.3 (longer e) (room e)
              (ground (
                arith,
                a.waiting,
                known,
                sums-append spec p.waiting_list (job ∷ []),
                sums-one spec job,
              )))
        where
          longer :
              not (is_queue_full p.node) ≡ true
              → (increment_queue_fill now p.node).node.queue_fill
                ≡ length (p.waiting_list ++ job ∷ [])
          longer e =
              unfold is_queue_full increment_queue_fill in
              ground (arith, e, a.fill, a.within, length-append p.waiting_list (job ∷ []))

          room :
              not (is_queue_full p.node) ≡ true
              → (increment_queue_fill now p.node).node.queue_fill
                ≤ (increment_queue_fill now p.node).node.queue_size
          room e = unfold is_queue_full increment_queue_fill in ground (arith, e, a.within)

  run_next-Accounts :
      (now : N.Double) (p : Producer N F)
      → Good p
      → is_queue_empty p.node ≡ false
      → Succeeds Good (run_next now p)
  unfolding run_next is_queue_empty
  run_next-Accounts now p a some_waits = go p.waiting_list refl
    where
      taken : List (Job N) → Producer N F
      taken rest = record p { node = (decrement_queue_fill now p.node).node; waiting_list = rest }

      taken-Accounts :
          (next : Job N) (rest : List (Job N)) → p.waiting_list ≡ next ∷ rest → Good (taken rest)
      taken-Accounts next rest x =
          let k = decrement-keeps now p.node in
          with_node spec total_ram total_cores size p (taken rest) a k.0 k.1 k.2 refl k.4
            (ground (arith, k.3, a.fill, x)) (ground (arith, k.3, k.4, a.within))
            (unfold all_known in ground (arith, a.waiting, x))

      head_known :
          (next : Job N) (rest : List (Job N))
          → p.waiting_list ≡ next ∷ rest
          → is_known (spec next.func) ≡ true
      head_known next rest x = unfold all_known in ground (arith, a.waiting, x)

      start :
          (next : Job N) (rest : List (Job N))
          → p.waiting_list ≡ next ∷ rest
          → (c : Computation N) → use_func next.func p.node ≡ ok c
          → spec next.func ≡ some (c.ram, c.cpu)
          → check_resource c p.node ≡ true
          → Succeeds Good (do_execution next (taken rest))
      start next rest x c used cost e =
          let k = decrement-keeps now p.node in
          do_execution-Accounts spec total_ram total_cores size small_ram small_cores next
            (taken rest) c (taken-Accounts next rest x)
            (use_func-same next.func (decrement_queue_fill now p.node).node p.node k.0 ∙ used) cost
            (check_resource-same c (decrement_queue_fill now p.node).node p.node k.1 k.2 ∙ e)

      go :
          (w : List (Job N))
          → p.waiting_list ≡ w
          → Succeeds Good (elim w [
            | [] ↦ err bad_index
            | next ∷ rest ↦ do
              func ← use_func next.func p.node
              (if check_resource func p.node then do_execution next (taken rest) else ok p)
          ])
      go [] x = absurd (ground (arith, x, some_waits, a.fill))
      go (next ∷ rest) x =
          let (c, used, cost) =
            use_func-known spec next.func p.node (a.needs next.func) (head_known next rest x) in
          Succeeds-bind (use_func next.func p.node) c _ used (
            Succeeds-if (check_resource c p.node) _ _ (λ e. start next rest x c used cost e)
              λ _. Succeeds-ok p a)

  -- The end of an execution that was scheduled: `rest` are the others.
  pub scheduled_execution_end-Accounts :
      (now : N.Double) (job : Job N) (rest : List (Job N)) (p : Producer N F)
      → Good p
      → is_known (spec job.func) ≡ true
      → sum_ram spec p.scheduled ≡ ram_of (spec job.func) + sum_ram spec rest
      → sum_cores spec p.scheduled ≡ cores_of (spec job.func) + sum_cores spec rest
      → all_known spec rest ≡ true
      → Succeeds Good (scheduled_execution_end now job (record p { scheduled = rest }))
  unfolding scheduled_execution_end
  scheduled_execution_end-Accounts now job rest p a known split_ram split_cores others =
      let (c, used, cost) = use_func-known spec job.func p.node (a.needs job.func) known in
      Succeeds-bind (use_func job.func p.node) c _ used (
        Succeeds-if (not (is_queue_empty (release_resource c p.node))) _ _
          (λ e. run_next-Accounts now (ended c) (ended-Accounts c cost) (ground (arith, e)))
          λ _. Succeeds-ok (ended c) (ended-Accounts c cost))
    where
      ended : Computation N → Producer N F
      ended c = record p {
        node = release_resource c p.node;
        scheduled = rest;
        outputs = p.outputs ++ Output.data_sent job.interest ∷ [];
      }

      ended-Accounts : (c : Computation N) → spec job.func ≡ some (c.ram, c.cpu) → Good (ended c)
      ended-Accounts c cost =
          unfold release_resource set_ram set_processor_core in
          record {
            needs = a.needs;
            ram = ground (arith, a.ram, cost, split_ram, small_ram);
            cores = ground (arith, a.cores, cost, split_cores, small_cores);
            sized = a.sized;
            fill = a.fill;
            within = a.within;
            running = others;
            waiting = a.waiting;
          }
