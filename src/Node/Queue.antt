-- ===== src/Node/Queue.antt =====
-- The queue of a node: its fill, and the timers that report how long it was empty or full.
pub mod Timers
use inc_sim.Base.{ℕ, ◌+◌, ◌-◌, Bool, true, false, Option, none, some, ltb, ◌==◌, if◌then◌else◌}
use inc_sim.Ndn.{Ndn, Nfd}
use inc_sim.Node.{IncOrchestrationComputeNode}

-- A call of `m_emptyQueueTimer` or `m_fullQueueTimer`, with the two times whose difference it gets.
pub data Report (N : Ndn) : Type 0 where
  empty_queue full_queue : N.Double → N.Double → Report N

-- What a call that changes the queue gives: the node, what it returns, and what it reports.
pub record QueueCall (N : Ndn) (F : Nfd N) : Type 0 where
  pub node : IncOrchestrationComputeNode N F
  pub done : Bool
  pub report : Option (Report N)

module _ {N : Ndn} {F : Nfd N} where
  unfoldable pub set_queue_size :
      ℕ → IncOrchestrationComputeNode N F → IncOrchestrationComputeNode N F
  set_queue_size v n = record n { queue_size = v; queue_fill = 0 }

  -- `now` is `Simulator::Now().GetSeconds()`.
  unfoldable pub increment_queue_fill : N.Double → IncOrchestrationComputeNode N F → QueueCall N F
  increment_queue_fill now n =
      if ltb n.queue_fill n.queue_size
      then record {
        node = record n { queue_fill = n.queue_fill + 1; empty_timer_started = false };
        done = true;
        report = if n.empty_timer_started then some (empty_queue n.q_empty_time now) else none;
      }
      else record {
        node =
            if n.full_timer_started
            then n
            else record n { q_full_time = now; full_timer_started = true };
        done = false;
        report = none;
      }

  unfoldable pub decrement_queue_fill : N.Double → IncOrchestrationComputeNode N F → QueueCall N F
  decrement_queue_fill now n =
      if ltb 0 n.queue_fill
      then record {
        node = record n { queue_fill = n.queue_fill - 1; full_timer_started = false };
        done = true;
        report = if n.full_timer_started then some (full_queue n.q_full_time now) else none;
      }
      else record {
        node =
            if n.empty_timer_started
            then n
            else record n { q_empty_time = now; empty_timer_started = true };
        done = false;
        report = none;
      }

  unfoldable pub is_queue_full : IncOrchestrationComputeNode N F → Bool
  is_queue_full n = n.queue_fill == n.queue_size

  unfoldable pub is_queue_empty : IncOrchestrationComputeNode N F → Bool
  is_queue_empty n = n.queue_fill == 0
