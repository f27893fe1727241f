-- ===== src/NodeApp/Switching.antt =====
-- What a request to switch functions does to the node, without the loops.
pub mod Calls
pub mod Runs
use inc_sim.Base.{
  ℕ, ◌+◌, ◌-◌, ◌≡◌, refl, Bool, true, false, Option, none, some, List, [], ◌∷◌, ◌++◌, if◌then◌else◌,
  select, map, ◌&&◌,
}
use inc_sim.Base.Text.{Text}
use inc_sim.Base.Table.{Table, find}
use inc_sim.Ndn.{Ndn, Nfd}
use inc_sim.Computation.{Computation, enable, disable}
use inc_sim.Node.{IncOrchestrationComputeNode}
use inc_sim.Node.Excluded.{member, count}
use inc_sim.NodeApp.{Event, func_enabled, func_disabled}
use inc_sim.NodeApp.Switch.{Switching}

abbrev pub event_of : Bool → Text → Event
event_of on name = if on then func_enabled name else func_disabled name

module _ {N : Ndn} where
  -- An entry of the map of functions after its function was switched on or off.
  unfoldable pub switch_entry :
      Bool → Option (Option (Computation N)) → Option (Option (Computation N))
  switch_entry on (some (some c)) = some (some (if on then enable c else disable c))
  switch_entry on o = o

  -- The entry is not a null pointer.
  unfoldable pub is_usable : Option (Option (Computation N)) → Bool
  is_usable (some none) = false
  is_usable o = true

  -- There is an entry.
  unfoldable pub is_known : Option (Option (Computation N)) → Bool
  is_known none = false
  is_known (some o) = true

  -- The flag after a loop over the names: whether the node has the function that was last.
  unfoldable pub last_known : Table (Option (Computation N)) → Option Bool → List Text → Option Bool
  last_known m flag [] = flag
  last_known m flag (x ∷ xs) = last_known m (some (is_known (find x m))) xs

  -- The names of functions of the node.
  abbrev pub known : Table (Option (Computation N)) → List Text → List Text
  known m names = select (λ x. is_known (find x m)) names

  abbrev pub all_usable : Table (Option (Computation N)) → List Text → Bool
  all_usable m [] = true
  all_usable m (x ∷ xs) = is_usable (find x m) && all_usable m xs

module _ {N : Ndn} {F : Nfd N} where
  -- The functions with one of the names are switched, the others are as before; and each occurrence of
  -- a name takes one from the exclude list where functions are switched on, and adds one where they
  -- are switched off.
  pub record IsSwitched (on : Bool) (names : List Text) (n n' : IncOrchestrationComputeNode N F)
      : Type 0 where
    pub functions :
        (j : Text)
        → find j n'.func_map
          ≡ (if member j names then switch_entry on (find j n.func_map) else find j n.func_map)
    pub excluded :
        (j : Text)
        → count j n'.func_exclude_list ≡ (
            if on
            then count j n.func_exclude_list - count j names
            else count j n.func_exclude_list + count j names)

  -- What a loop that switches the names leaves.
  pub record IsRun (on : Bool) (names : List Text) (s s' : Switching N F) : Type 0 where
    pub switched : IsSwitched on names s.node s'.node
    pub flag : s'.flag ≡ last_known s.node.func_map s.flag names
    pub events : s'.events ≡ s.events ++ map (event_of on) (known s.node.func_map names)
