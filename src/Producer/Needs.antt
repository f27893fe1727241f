-- ===== src/Producer/Needs.antt =====
-- What the functions of a node need, in sum over jobs, and what calls leave of it.
use inc_sim.Base.{
  ℕ, ◌+◌, ◌-◌, ◌≡◌, refl, Bool, true, false, ◌&&◌, Option, none, some, List, [], ◌∷◌, ◌++◌, arith,
  Option-cases, inl, inr,
}
use inc_sim.Base.Text.{Text}
use inc_sim.Base.Table.{Table, find, update}
use inc_sim.Base.Outcome.{ok}
use inc_sim.Ndn.{Ndn, Nfd}
use inc_sim.Computation.{Computation, execute}
use inc_sim.Node.{IncOrchestrationComputeNode}
use inc_sim.Node.Queue.{increment_queue_fill, decrement_queue_fill}
use inc_sim.Producer.{Job, use_func, check_resource, run_func}

-- What a function of a node needs: RAM and cores.
abbrev pub Needs : Type 0
Needs = Option (ℕ × ℕ)

abbrev pub ram_of : Needs → ℕ
ram_of none = 0
ram_of (some x) = x.0

abbrev pub cores_of : Needs → ℕ
cores_of none = 0
cores_of (some x) = x.1

abbrev pub is_known : Needs → Bool
is_known none = false
is_known (some x) = true

module _ {N : Ndn} where
  unfoldable pub needs_of : Text → Table (Option (Computation N)) → Needs
  needs_of key map = elim (find key map) [
    | none ↦ none
    | some none ↦ none
    | some (some c) ↦ some (c.ram, c.cpu)
  ]

  pub needs_of-run_func :
      (key run : Text) (map : Table (Option (Computation N)))
      → needs_of key (run_func map run) ≡ needs_of key map
  unfolding needs_of run_func execute find update
  needs_of-run_func key run [] = refl
  needs_of-run_func key run ((j, c) ∷ map) = ground (arith, needs_of-run_func key run map)

-- The functions of a node and what they need, which no call changes, and jobs for them.
module _ {N : Ndn} (spec : Text → Needs) where
  unfoldable pub sum_ram : List (Job N) → ℕ
  sum_ram [] = 0
  sum_ram (job ∷ jobs) = ram_of (spec job.func) + sum_ram jobs

  unfoldable pub sum_cores : List (Job N) → ℕ
  sum_cores [] = 0
  sum_cores (job ∷ jobs) = cores_of (spec job.func) + sum_cores jobs

  unfoldable pub all_known : List (Job N) → Bool
  all_known [] = true
  all_known (job ∷ jobs) = is_known (spec job.func) && all_known jobs

  pub sums-append :
      (xs ys : List (Job N))
      → (sum_ram (xs ++ ys) ≡ sum_ram xs + sum_ram ys)
        × (sum_cores (xs ++ ys) ≡ sum_cores xs + sum_cores ys)
        × (all_known (xs ++ ys) ≡ (all_known xs && all_known ys))
  unfolding sum_ram sum_cores all_known
  sums-append [] ys = ground arith
  sums-append (x ∷ xs) ys = ground (arith, sums-append xs ys)

  pub sums-one :
      (x : Job N)
      → (sum_ram (x ∷ []) ≡ ram_of (spec x.func))
        × (sum_cores (x ∷ []) ≡ cores_of (spec x.func))
        × (all_known (x ∷ []) ≡ is_known (spec x.func))
  unfolding sum_ram sum_cores all_known
  sums-one x = ground arith

  module _ {F : Nfd N} where
    pub use_func-known :
        (key : Text) (node : IncOrchestrationComputeNode N F)
        → needs_of key node.func_map ≡ spec key
        → is_known (spec key) ≡ true
        → (c : Computation N) × (use_func key node ≡ ok c) × (spec key ≡ some (c.ram, c.cpu))
    unfolding use_func needs_of
    use_func-known key node e k = elim (Option-cases (find key node.func_map)) [
      | inl x ↦ absurd (ground (arith, x, e, k))
      | inr (none, x) ↦ absurd (ground (arith, x, e, k))
      | inr (some c, x) ↦ (c, ground (arith, x), ground (arith, x, e))
    ]

module _ {N : Ndn} {F : Nfd N} where
  pub use_func-same :
      (key : Text) (m n : IncOrchestrationComputeNode N F)
      → m.func_map ≡ n.func_map
      → use_func key m ≡ use_func key n
  unfolding use_func
  use_func-same key m n e = rw (e, use_func) refl

  pub check_resource-same :
      (c : Computation N) (m n : IncOrchestrationComputeNode N F)
      → m.ram ≡ n.ram
      → m.processor_core ≡ n.processor_core
      → check_resource c m ≡ check_resource c n
  unfolding check_resource
  check_resource-same c m n e f = rw (e, f, check_resource) refl

  pub increment-keeps :
      (now : N.Double) (n : IncOrchestrationComputeNode N F)
      → let m = (increment_queue_fill now n).node in
        (m.func_map ≡ n.func_map)
        × (m.ram ≡ n.ram)
        × (m.processor_core ≡ n.processor_core)
        × (m.queue_size ≡ n.queue_size)
  unfolding increment_queue_fill
  increment-keeps now n = ground arith

  pub decrement-keeps :
      (now : N.Double) (n : IncOrchestrationComputeNode N F)
      → let m = (decrement_queue_fill now n).node in
        (m.func_map ≡ n.func_map)
        × (m.ram ≡ n.ram)
        × (m.processor_core ≡ n.processor_core)
        × (m.queue_fill ≡ n.queue_fill - 1)
        × (m.queue_size ≡ n.queue_size)
  unfolding decrement_queue_fill
  decrement-keeps now n = ground arith
