-- ===== src/Storage/History.antt =====
-- Sequences of calls of the interface of node-info-storage.hpp, from the empty table.
use inc_sim.Base.{
  ℕ, ◌+◌, ◌≡◌, Bool, true, false, Option, none, some, List, [], ◌∷◌, if◌then◌else◌, any, length,
}
use inc_sim.Base.Text.{Text, text_eq}
use inc_sim.Base.Table.{keys, Above, IsSorted}
use inc_sim.Base.Outcome.{ok}
use inc_sim.Base.Gives.{Gives}
use inc_sim.Ndn.{Ndn}
use inc_sim.Storage.{ComputeNode, Nodes, add_node_to_table}
use inc_sim.Storage.Distances.{Routing, calculate_hop_distance}
use inc_sim.Storage.Calls.{Setter}

-- The tables that calls of the interface reach from the empty one, by `AddNodeToTable`, setters that
-- return, and `calculate_hop_distance` with whatever routing; with the names that `AddNodeToTable` was
-- called for, the last one first.
pub data Reached (N : Ndn) : List Text → Nodes N → Type 1 where
  start : Reached N [] []
  added :
      {h : List Text} {t : Nodes N}
      → Reached N h t
      → (id : Text) (n : ComputeNode N) → Reached N (id ∷ h) (add_node_to_table id n t).1
  wrote :
      {h : List Text} {t u : Nodes N}
      → Reached N h t
      → (id : Text) → Setter N id t u
      → Reached N h u
  measured :
      {h : List Text} {t : Nodes N}
      → Reached N h t
      → (R : Routing N) (r : Bool × Nodes N) → calculate_hop_distance R t ≡ ok r
      → Reached N h r.1

abbrev pub is_in : Text → List Text → Bool
is_in id h = any (λ x. text_eq x id) h

-- How many different names there are.
abbrev pub number_of : List Text → ℕ
number_of [] = 0
number_of (id ∷ h) = let rest = number_of h in if is_in id h then rest else rest + 1

abbrev pub is_some : {A : Type 0} → Option A → Bool
is_some none = false
is_some (some a) = true

module _ {N : Ndn} where
  -- What a table says of the calls: it has an entry exactly for the names that were added, one for
  -- each, in ascending order.
  pub record Recorded (h : List Text) (t : Nodes N) : Type 0 where
    pub sorted : IsSorted t
    pub stored : (id : Text) → is_in id (keys t) ≡ is_in id h
    pub size : length t ≡ number_of h

  record SameKeys (t u : Nodes N) : Type 0 where
    same : keys u ≡ keys t
    above : (k : Text) → Above k t → Above k u
    sorted : IsSorted t → IsSorted u
