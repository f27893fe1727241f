-- ===== src/Engine.antt =====
-- apps/inc_compute_node_apps/inc_compute_app/NFN-interest-resolution-engine.{hpp,cpp}: what a node does
-- with an interest for a computation.
pub mod Names
pub mod Decisions
mod Tests
use inc_sim.Base.{
  ℕ, ◌+◌, ◌%◌, ◌<◌, ◌≡◌, Bool, true, false, not, ◌&&◌, ◌||◌, Option, none, some, List, [], ◌∷◌,
  ◌++◌, if◌then◌else◌, ltb, ◌==◌, length, select, map,
}
use inc_sim.Base.Text.{Text, text, contains}
use inc_sim.Base.Table.{update}
use inc_sim.Base.Number.{u32}
use inc_sim.Base.Outcome.{Outcome, ok, err, null_pointer, ◌>>=◌, or_fault}
use inc_sim.Ndn.{Ndn, Nfd, NameParts}
use inc_sim.Computation.{Computation, add_miss_exec_counter}
use inc_sim.Node.{IncOrchestrationComputeNode, check_provided_data_list}
use inc_sim.Node.Functions.{get_function}
use inc_sim.Node.Excluded.{check_exclude_list}

pub data NreDecision : Type 0 where
  nack fetch execute forward : NreDecision

-- What the tests of the loop of `ExtractDataNames` say of a part of a name.
pub data PartKind : Type 0 where
  skipped data_marker function_marker argument : PartKind

module _ (N : Ndn) where
  unfoldable pub part_kind : N.Name → PartKind
  part_kind p =
      if N.name_eq p (N.name (text "/lambda"))
      then skipped
      else if N.name_eq p (N.name (text "/Data"))
      then data_marker
      else if N.name_eq p (N.name (text "/Function"))
      then function_marker
      else argument

  -- `ExtractFunctionName`, from the parts of the name.
  unfoldable pub extract_function_name : List N.Name → Option N.Name
  extract_function_name [] = none
  extract_function_name (p ∷ []) = none
  extract_function_name (p ∷ q ∷ ps) =
      let rest = extract_function_name (q ∷ ps) in
      if N.name_eq p (N.name (text "/Function")) then some q else rest

  -- The loop of `ExtractDataNames`, with the variable `isData`.
  unfoldable pub extract_data_names : Bool → List N.Name → List N.Name
  unfolding part_kind
  extract_data_names is_data [] = []
  extract_data_names is_data (p ∷ ps) = elim (part_kind p) [
    | skipped ↦ extract_data_names is_data ps
    | data_marker ↦ extract_data_names true ps
    | function_marker ↦ extract_data_names false ps
    | argument ↦
        let rest = extract_data_names is_data ps in
        if is_data then (if contains (text "/%FE") (N.to_uri p) then [] else p ∷ rest) else rest
  ]

module _ (N : Ndn) (names : NameParts N) (F : Nfd N) where
  -- The decision, the names to fetch, and the node after the call.
  pub record Resolution : Type 0 where
    pub decision : NreDecision
    pub fetches : List N.Name
    pub node : IncOrchestrationComputeNode N F

  -- The loops over the parameters: the names of those that are not there. `in_store` is the lookup of
  -- a fresh data packet in the content store of the forwarder, `cache` is `DataCacheAvailable`.
  unfoldable pub missing_data :
      Bool → (N.Name → Bool) → IncOrchestrationComputeNode N F → List N.Name → List N.Name
  missing_data cache in_store node [] = []
  missing_data cache in_store node (p ∷ ps) =
      let rest = missing_data cache in_store node ps in
      let arg = names.append (N.name (text "/Data")) p in
      let found = if cache then in_store arg else check_provided_data_list (N.to_uri p) node in
      if found then rest else arg ∷ rest

  -- From the lookup of the parameters on, for a function that the node has.
  unfoldable pub decide :
      Bool
      → (N.Name → Bool)
      → N.Name
      → Computation N
      → List N.Name
      → IncOrchestrationComputeNode N F
      → Resolution
  unfolding missing_data
  decide cache in_store func_name func parameter_list node =
      let fetch_func =
        if func.enable_computation
        then []
        else names.append (N.name (text "/Function")) func_name ∷ [] in
      let missing = missing_data cache in_store node parameter_list in
      let data_miss_counter = length missing % u32 in
      if not (length parameter_list == func.param_number)
      then record { decision = nack; fetches = fetch_func; node = node }
      else if (not func.enable_computation && data_miss_counter == length parameter_list)
          || check_exclude_list (N.to_uri func_name) node
      then record {
        decision = forward;
        fetches = fetch_func ++ missing;
        node = record node {
          func_map =
              update (N.to_uri func_name) (λ _. some (add_miss_exec_counter func)) node.func_map;
        };
      }
      else if func.enable_computation && data_miss_counter == 0
      then record { decision = execute; fetches = fetch_func ++ missing; node = node }
      else record { decision = fetch; fetches = fetch_func ++ missing; node = node }

  -- What follows the lookup of the function.
  unfoldable pub with_function :
      Bool
      → (N.Name → Bool)
      → N.Name
      → List N.Name
      → Option (Computation N) × IncOrchestrationComputeNode N F
      → Resolution
  unfolding decide
  with_function cache in_store func_name parameter_list (none, node) = record {
    decision = nack;
    fetches = [];
    node = node;
  }
  with_function cache in_store func_name parameter_list (some func, node) =
      decide cache in_store func_name func parameter_list node

  unfoldable pub get_fetch_decisions :
      Bool → (N.Name → Bool) → N.Name → IncOrchestrationComputeNode N F → Outcome Resolution
  unfolding with_function extract_function_name extract_data_names
  get_fetch_decisions cache in_store interest node =
      let parts = names.parts interest in
      if ltb (length parts) 2
      then ok (record { decision = nack; fetches = []; node = node })
      else (do
        func_name ← or_fault (extract_function_name N parts) null_pointer
        ok (
            with_function cache in_store func_name (extract_data_names N false parts)
              (get_function (N.to_uri func_name) node)))
