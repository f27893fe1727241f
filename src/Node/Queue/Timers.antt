-- ===== src/Node/Queue/Timers.antt =====
-- The fill of the queue and its two timers, over sequences of calls.
use inc_sim.Base.{
  ◌+◌, ◌-◌, ◌≤◌, ◌<◌, ◌≡◌, true, false, not, some, List, [], ◌∷◌, if◌then◌else◌, arith,
}
use inc_sim.Ndn.{Ndn, Nfd}
use inc_sim.Node.{IncOrchestrationComputeNode}
use inc_sim.Node.Queue.{
  full_queue, QueueCall, increment_queue_fill, decrement_queue_fill, is_queue_full, is_queue_empty,
}

-- The fill is within the size; a running timer says that the queue is full or empty.
pub record IsBounded {N : Ndn} {F : Nfd N} (n : IncOrchestrationComputeNode N F) : Type 0 where
  pub within : n.queue_fill ≤ n.queue_size
  pub full : n.full_timer_started ≡ true → n.queue_fill ≡ n.queue_size
  pub empty : n.empty_timer_started ≡ true → n.queue_fill ≡ 0

pub data QueueOp (N : Ndn) : Type 0 where
  increment decrement : N.Double → QueueOp N

module _ {N : Ndn} {F : Nfd N} where
  unfoldable pub queue_call : QueueOp N → IncOrchestrationComputeNode N F → QueueCall N F
  queue_call (increment now) n = increment_queue_fill now n
  queue_call (decrement now) n = decrement_queue_fill now n

  unfoldable pub queue_run :
      List (QueueOp N) → IncOrchestrationComputeNode N F → IncOrchestrationComputeNode N F
  queue_run [] n = n
  queue_run (op ∷ ops) n = queue_run ops (queue_call op n).node

  queue_call-IsBounded :
      (op : QueueOp N) (n : IncOrchestrationComputeNode N F)
      → IsBounded n
      → IsBounded (queue_call op n).node
  unfolding queue_call increment_queue_fill decrement_queue_fill
  queue_call-IsBounded (increment now) n v = ground (arith, v.within, v.full, v.empty)
  queue_call-IsBounded (decrement now) n v = ground (arith, v.within, v.full, v.empty)

  -- From a bounded queue, any sequence of increments and decrements keeps the fill within the size,
  -- a running full timer while the queue is full only, and a running empty timer while it is empty
  -- only.
  pub queue_run-IsBounded :
      (ops : List (QueueOp N)) (n : IncOrchestrationComputeNode N F)
      → IsBounded n
      → IsBounded (queue_run ops n)
  unfolding queue_run
  queue_run-IsBounded [] n v = v
  queue_run-IsBounded (op ∷ ops) n v =
      queue_run-IsBounded ops (queue_call op n).node (queue_call-IsBounded op n v)

  -- For a bounded queue an increment succeeds exactly if the queue is not full and a decrement exactly
  -- if it is not empty; what succeeds moves the fill by one and what fails leaves it.
  pub queue_calls :
      (n : IncOrchestrationComputeNode N F) (now : N.Double)
      → IsBounded n
      → ((increment_queue_fill now n).done ≡ not (is_queue_full n))
        × ((decrement_queue_fill now n).done ≡ not (is_queue_empty n))
        × ((increment_queue_fill now n).node.queue_fill
            ≡ (if is_queue_full n then n.queue_fill else n.queue_fill + 1))
        × ((decrement_queue_fill now n).node.queue_fill ≡ n.queue_fill - 1)
  unfolding increment_queue_fill decrement_queue_fill is_queue_full is_queue_empty
  queue_calls n now v = ground (arith, v.within)

  -- An increment that a full queue of positive size refuses, while the full timer does not run,
  -- starts this timer, and a decrement that follows reports the time from then on and stops it.
  pub full_queue_reported :
      (n : IncOrchestrationComputeNode N F) (from to : N.Double)
      → 0 < n.queue_size
      → n.queue_fill ≡ n.queue_size
      → n.full_timer_started ≡ false
      → let m = (increment_queue_fill from n).node in
        ((decrement_queue_fill to m).report ≡ some (full_queue from to))
        × ((decrement_queue_fill to m).node.full_timer_started ≡ false)
  unfolding increment_queue_fill decrement_queue_fill
  full_queue_reported n from to h e f = ground (arith, h, e, f)
