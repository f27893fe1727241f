-- ===== src/Producer/Accounts.antt =====
-- The accounts of a node: its resources and its queue.
use inc_sim.Base.{
  ℕ, ◌+◌, ◌≤◌, ◌<◌, ◌≡◌, ap, ◌∙◌, true, false, ◌&&◌, some, [], ◌∷◌, ◌==◌, arith, length,
}
use inc_sim.Base.Text.{Text, text, text_eq}
use inc_sim.Base.Number.{u32}
use inc_sim.Base.Outcome.{ok}
use inc_sim.Base.Gives.{Succeeds, Succeeds-ok, Succeeds-bind}
use inc_sim.Ndn.{Ndn, Nfd}
use inc_sim.Computation.{Computation}
use inc_sim.Node.{set_ram, set_processor_core}
use inc_sim.Producer.{Job, Producer, minus32, use_func, check_resource, book_resource, do_execution}
use inc_sim.Producer.Needs.{
  Needs, needs_of, needs_of-run_func, sum_ram, sum_cores, all_known, sums-append, sums-one,
}

-- A full queue is rotated only if its size is not 0.
abbrev pub CanPush : Text → ℕ → Type 0
CanPush queue_action size = (text_eq queue_action (text "push") && size == 0) ≡ false

-- The totals are the resources of the idle node.
module _ {N : Ndn} {F : Nfd N} (spec : Text → Needs) (total_ram total_cores size : ℕ) where
  -- What is free and what the scheduled executions booked make up the totals, the fill of the queue
  -- is the length of the waiting list and within its size, and all jobs have functions.
  pub record Accounts (p : Producer N F) : Type 0 where
    pub needs : (key : Text) → needs_of key p.node.func_map ≡ spec key
    pub ram : p.node.ram + sum_ram spec p.scheduled ≡ total_ram
    pub cores : p.node.processor_core + sum_cores spec p.scheduled ≡ total_cores
    pub sized : p.node.queue_size ≡ size
    pub fill : p.node.queue_fill ≡ length p.waiting_list
    pub within : p.node.queue_fill ≤ p.node.queue_size
    pub running : all_known spec p.scheduled ≡ true
    pub waiting : all_known spec p.waiting_list ≡ true

  module _ (small_ram : total_ram < u32) (small_cores : total_cores < u32) where
    pub do_execution-Accounts :
        (job : Job N) (p : Producer N F) (c : Computation N)
        → Accounts p
        → use_func job.func p.node ≡ ok c
        → spec job.func ≡ some (c.ram, c.cpu)
        → check_resource c p.node ≡ true
        → Succeeds Accounts (do_execution job p)
    unfolding do_execution book_resource check_resource minus32 set_ram set_processor_core
    do_execution-Accounts job p c a used cost enough =
        Succeeds-bind (use_func job.func p.node) c _ used (
          Succeeds-ok _ (record {
            needs = λ key. needs_of-run_func key job.func p.node.func_map ∙ a.needs key;
            ram = ground (
              arith,
              a.ram,
              cost,
              enough,
              small_ram,
              sums-append spec p.scheduled (job ∷ []),
              sums-one spec job,
            );
            cores = ground (
              arith,
              a.cores,
              cost,
              enough,
              small_cores,
              sums-append spec p.scheduled (job ∷ []),
              sums-one spec job,
            );
            sized = a.sized;
            fill = a.fill;
            within = a.within;
            running = ground (
              arith,
              a.running,
              cost,
              sums-append spec p.scheduled (job ∷ []),
              sums-one spec job,
            );
            waiting = a.waiting;
          }))

  -- The same for a changed node and waiting list, as far as the accounts do not read them.
  pub with_node :
      (p q : Producer N F)
      → Accounts p
      → q.node.func_map ≡ p.node.func_map
      → q.node.ram ≡ p.node.ram
      → q.node.processor_core ≡ p.node.processor_core
      → q.scheduled ≡ p.scheduled
      → q.node.queue_size ≡ p.node.queue_size
      → q.node.queue_fill ≡ length q.waiting_list
      → q.node.queue_fill ≤ q.node.queue_size
      → all_known spec q.waiting_list ≡ true
      → Accounts q
  with_node p q a e1 e2 e3 e4 e5 f w k = record {
    needs = λ key. ap (needs_of key) e1 ∙ a.needs key;
    ram = rw (e2, e4) a.ram;
    cores = rw (e3, e4) a.cores;
    sized = e5 ∙ a.sized;
    fill = f;
    within = w;
    running = rw e4 a.running;
    waiting = k;
  }
