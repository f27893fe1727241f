-- ===== src/Producer.antt =====
-- apps/inc_compute_node_apps/inc_compute_app/NFN-producer-app.{hpp,cpp}: how a node runs functions: the
-- booking of its resources, its queue, and the ends of executions.
pub mod Needs
pub mod Accounts
pub mod Steps
pub mod Runs
pub mod Awaited
pub mod Resolve
pub mod Fetches
pub mod Unknown
pub mod Arrivals
mod Tests
use inc_sim.Base.{
  ℕ, zero, suc, ◌+◌, ◌-◌, ◌%◌, Bool, true, false, not, ◌&&◌, ◌||◌, Option, none, some, List, [],
  ◌∷◌, ◌++◌, if◌then◌else◌, ltb, get_elem?,
}
use inc_sim.Base.Text.{Text, text, text_eq}
use inc_sim.Base.Table.{Table, find, update}
use inc_sim.Base.Number.{u32}
use inc_sim.Base.Outcome.{Outcome, ok, err, null_pointer, bad_index, ◌>>=◌}
use inc_sim.Ndn.{Ndn, Nfd}
use inc_sim.Computation.{Computation, execute}
use inc_sim.Node.{IncOrchestrationComputeNode, set_ram, set_processor_core, add_node_busy_counter}
use inc_sim.Node.Queue.{increment_queue_fill, decrement_queue_fill, is_queue_full, is_queue_empty}

-- An `InterestComponentStruct`. `func` is the key of the node's function to which `m_func` points,
-- and `pending_args` says which of the names that are awaited have come.
pub record Job (N : Ndn) : Type 0 where
  pub interest : N.Name
  pub func : Text
  pub pending_args : List (N.Name × Bool)

-- What leaves the app: a data packet, an interest, a nack for congestion or for no route, a call of
-- `ForwardInterest`.
pub data Output (N : Ndn) : Type 0 where
  data_sent interest_sent congestion no_route forwarded : N.Name → Output N

-- `scheduled` are the calls of `ScheduledExecutionEnd` that the simulator is to make.
pub record Producer (N : Ndn) (F : Nfd N) : Type 0 where
  pub node : IncOrchestrationComputeNode N F
  pub waiting_list : List (Job N)
  pub pending_content_table : List (Job N)
  pub sending_interest_list : List N.Name
  pub scheduled : List (Job N)
  pub outputs : List (Output N)

-- `a - b` of two numbers of 32 bits
unfoldable pub minus32 : ℕ → ℕ → ℕ
minus32 a b = (a + u32 - b) % u32

module _ {N : Ndn} where
  -- `func->Execute()`
  unfoldable pub run_func : Table (Option (Computation N)) → Text → Table (Option (Computation N))
  unfolding execute
  run_func map key =
      update key (λ entry. elim entry [ none ↦ none | some c ↦ some (execute c) ]) map

  -- Entries are equal if their interests have the same URI; the first is erased.
  unfoldable pub delete_pending : Job N → List (Job N) → List (Job N)
  delete_pending job [] = []
  delete_pending job (entry ∷ entries) =
      let rest = delete_pending job entries in
      if text_eq (N.to_uri entry.interest) (N.to_uri job.interest) then entries else entry ∷ rest

module _ {N : Ndn} {F : Nfd N} where
  -- An access through `m_func`.
  unfoldable pub use_func : Text → IncOrchestrationComputeNode N F → Outcome (Computation N)
  use_func key node = elim (find key node.func_map) [
    | none ↦ err null_pointer
    | some none ↦ err null_pointer
    | some (some c) ↦ ok c
  ]

  unfoldable pub check_resource : Computation N → IncOrchestrationComputeNode N F → Bool
  check_resource func node = not (ltb node.ram func.ram || ltb node.processor_core func.cpu)

  unfoldable pub book_resource :
      Computation N → IncOrchestrationComputeNode N F → IncOrchestrationComputeNode N F
  unfolding set_ram set_processor_core minus32
  book_resource func node =
      set_processor_core (minus32 node.processor_core func.cpu)
        (set_ram (minus32 node.ram func.ram) node)

  unfoldable pub release_resource :
      Computation N → IncOrchestrationComputeNode N F → IncOrchestrationComputeNode N F
  unfolding set_ram set_processor_core
  release_resource func node =
      set_processor_core ((node.processor_core + func.cpu) % u32)
        (set_ram ((node.ram + func.ram) % u32) node)

  unfoldable pub do_execution : Job N → Producer N F → Outcome (Producer N F)
  unfolding use_func book_resource run_func delete_pending
  do_execution job p = do
    func ← use_func job.func p.node
    let node = book_resource func p.node
    ok (record p {
      node = record node { func_map = run_func node.func_map job.func };
      pending_content_table = delete_pending job p.pending_content_table;
      scheduled = p.scheduled ++ job ∷ [];
    })

  -- A full queue, by `QUEUE_ACTION`; a `pop` of an empty queue is undefined.
  unfoldable pub on_full_queue : Text → Job N → Producer N F → Outcome (Producer N F)
  unfolding add_node_busy_counter
  on_full_queue queue_action job p =
      let busy = add_node_busy_counter p.node in
      if text_eq queue_action (text "push")
      then elim p.waiting_list [
        | [] ↦ err bad_index
        | _ ∷ rest ↦ ok (record p { node = busy; waiting_list = rest ++ job ∷ [] })
      ]
      else if text_eq queue_action (text "nack")
      then ok (record p { node = busy; outputs = p.outputs ++ congestion job.interest ∷ [] })
      else if text_eq queue_action (text "forward")
      then ok (record p { node = busy; outputs = p.outputs ++ forwarded job.interest ∷ [] })
      else ok (record p { node = busy })

  -- The branch of `ResolveAndHandleDecisions` for the decision to execute.
  unfoldable pub handle_execute : Text → N.Double → Job N → Producer N F → Outcome (Producer N F)
  unfolding use_func check_resource do_execution on_full_queue is_queue_full increment_queue_fill
  handle_execute queue_action now job p = do
    func ← use_func job.func p.node
    (if check_resource func p.node
        then do_execution job p
        else if not (is_queue_full p.node)
        then ok (record p {
          node = (increment_queue_fill now p.node).node;
          waiting_list = p.waiting_list ++ job ∷ [];
        })
        else on_full_queue queue_action job p)

  -- The next interest of the queue is executed if its resources are there.
  unfoldable pub run_next : N.Double → Producer N F → Outcome (Producer N F)
  unfolding use_func check_resource do_execution decrement_queue_fill
  run_next now p = elim p.waiting_list [
    | [] ↦ err bad_index
    | next ∷ rest ↦ do
      func ← use_func next.func p.node
      (if check_resource func p.node
          then do_execution next
              (record p { node = (decrement_queue_fill now p.node).node; waiting_list = rest })
          else ok p)
  ]

  unfoldable pub scheduled_execution_end : N.Double → Job N → Producer N F → Outcome (Producer N F)
  unfolding use_func release_resource is_queue_empty run_next
  scheduled_execution_end now job p = do
    func ← use_func job.func p.node
    let q : Producer N F = record p {
      node = release_resource func p.node;
      outputs = p.outputs ++ data_sent job.interest ∷ [];
    }
    if not (is_queue_empty q.node) then run_next now q else ok q
