-- ===== src/Producer/Runs.antt =====
-- Sequences of interests to execute and of ends of executions, in any order.
use inc_sim.Base.{
  ℕ, zero, suc, ◌+◌, ◌<◌, ◌≡◌, Bool, true, ◌&&◌, Option, none, some, List, [], ◌∷◌, arith,
  Option-cases, inl, inr,
}
use inc_sim.Base.Text.{Text}
use inc_sim.Base.Number.{u32}
use inc_sim.Base.Outcome.{Outcome, ok, ◌>>=◌}
use inc_sim.Base.Gives.{Succeeds, Succeeds-ok, Succeeds-bind}
use inc_sim.Ndn.{Ndn, Nfd}
use inc_sim.Producer.{Job, Producer, handle_execute, scheduled_execution_end}
use inc_sim.Producer.Needs.{Needs, ram_of, cores_of, is_known, sum_ram, sum_cores, all_known}
use inc_sim.Producer.Accounts.{CanPush, Accounts}
use inc_sim.Producer.Steps.{handle_execute-Accounts, scheduled_execution_end-Accounts}

-- An interest that is resolved to be executed, or the call of `ScheduledExecutionEnd` that is
-- scheduled at a position.
pub data Event (N : Ndn) : Type 0 where
  request : N.Double → Job N → Event N
  end : N.Double → ℕ → Event N

module _ {N : Ndn} where
  -- The entry at a position, and the list without it.
  unfoldable pub pick : ℕ → List (Job N) → Option (Job N × List (Job N))
  pick i [] = none
  pick zero (job ∷ jobs) = some (job, jobs)
  pick (suc i) (job ∷ jobs) = elim (pick i jobs) [ none ↦ none | some x ↦ some (x.0, job ∷ x.1) ]

  unfoldable pub events_known : (Text → Needs) → List (Event N) → Bool
  events_known spec [] = true
  events_known spec (request now job ∷ events) =
      is_known (spec job.func) && events_known spec events
  events_known spec (end now i ∷ events) = events_known spec events

  pick-sums :
      (spec : Text → Needs) (i : ℕ) (jobs : List (Job N)) (x : Job N × List (Job N))
      → pick i jobs ≡ some x
      → (sum_ram spec jobs ≡ ram_of (spec x.0.func) + sum_ram spec x.1)
        × (sum_cores spec jobs ≡ cores_of (spec x.0.func) + sum_cores spec x.1)
        × (all_known spec jobs ≡ (is_known (spec x.0.func) && all_known spec x.1))
  unfolding pick sum_ram sum_cores all_known
  pick-sums spec i [] x e = cc
  pick-sums spec zero (job ∷ jobs) x e = ground (arith, e)
  pick-sums spec (suc i) (job ∷ jobs) x e = elim (Option-cases (pick i jobs)) [
    | inl f ↦ absurd (ground (arith, f, e))
    | inr (y, f) ↦ ground (arith, f, e, pick-sums spec i jobs y f)
  ]

module _ {N : Ndn} {F : Nfd N} (queue_action : Text) where
  unfoldable pub happen : Event N → Producer N F → Outcome (Producer N F)
  unfolding pick
  happen (request now job) p = handle_execute queue_action now job p
  happen (end now i) p = elim (pick i p.scheduled) [
    | none ↦ ok p
    | some x ↦ scheduled_execution_end now x.0 (record p { scheduled = x.1 })
  ]

  unfoldable pub run : List (Event N) → Producer N F → Outcome (Producer N F)
  unfolding happen
  run [] p = ok p
  run (event ∷ events) p = do p' ← happen event p; run events p'

  module _ (spec : Text → Needs) (total_ram total_cores size : ℕ) (small_ram : total_ram < u32)
      (small_cores : total_cores < u32) (can : CanPush queue_action size) where
    end-Accounts :
        (now : N.Double) (i : ℕ) (p : Producer N F)
        → Accounts spec total_ram total_cores size p
        → Succeeds (Accounts spec total_ram total_cores size) (happen (end now i) p)
    unfolding happen
    end-Accounts now i p a = elim (Option-cases (pick i p.scheduled)) [
      | inl e ↦ rw (e, happen) (Succeeds-ok p a)
      | inr (x, e) ↦
          let s = pick-sums spec i p.scheduled x e in
          rw (e, happen)
            (scheduled_execution_end-Accounts spec total_ram total_cores size small_ram small_cores
              now x.0 x.1 p a (ground (arith, s.2, a.running)) s.0 s.1
              (ground (arith, s.2, a.running)))
    ]

    -- Let the resources of the idle node be below 2³², the accounts of a state right, and the queue
    -- of positive size or the action on a full one another than `push`. Then any sequence of
    -- requests for functions of the node and of ends of scheduled executions, in any order, is
    -- handled without a fault, and at the end what is free and what is booked still make up the
    -- resources of the node, so that neither RAM nor cores wrapped around, and the fill of the
    -- queue is the length of the waiting list and within its size.
    pub run-Accounts :
        (events : List (Event N)) (p : Producer N F)
        → Accounts spec total_ram total_cores size p
        → events_known spec events ≡ true
        → Succeeds (Accounts spec total_ram total_cores size) (run events p)
    unfolding run events_known
    run-Accounts [] p a known = Succeeds-ok p a
    run-Accounts (request now job ∷ events) p a known =
        let s =
          handle_execute-Accounts spec total_ram total_cores size small_ram small_cores queue_action
            now job p a (ground (arith, known)) can in
        Succeeds-bind (happen (request now job) p) s.value _ (unfold happen in s.returns)
          (run-Accounts events s.value s.holds (ground (arith, known)))
    run-Accounts (end now i ∷ events) p a known =
        let s = end-Accounts now i p a in
        Succeeds-bind (happen (end now i) p) s.value _ s.returns
          (run-Accounts events s.value s.holds known)
