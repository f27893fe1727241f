-- ===== src/Storage/Distances.antt =====
-- node-info-storage.cpp, `calculate_hop_distance` and `get_distance`.
use inc_sim.Base.{
  ℕ, Bool, true, false, ◌||◌, not, Option, none, some, List, [], ◌∷◌, if◌then◌else◌, ltb, ◌==◌,
}
use inc_sim.Base.Text.{Text, text_eq, text_lt}
use inc_sim.Base.Table.{find}
use inc_sim.Base.Outcome.{Outcome, ok, err, null_pointer, no_return, ◌>>=◌}
use inc_sim.Ndn.{Ndn}
use inc_sim.Storage.{ComputeNode, Nodes}

-- What the code takes of ns-3 and of the global routing of ndnSIM.
pub record Routing (N : Ndn) : Type 1 where
  pub Node : Type 0
  -- `Names::Find<Node>`, and the `Name` of `Names::FindName`
  pub find_node : Text → Option Node
  pub find_name : Node → N.Name
  -- whether the node exports a `GlobalRouter`
  pub has_router : Node → Bool
  -- the nodes and hops of `distances` behind `dijkstra_shortest_paths` from a node
  pub distances : Node → List (Node × ℕ)

-- `std::set<std::pair<std::string, int>>::insert`
unfoldable pub insert_pair : Text → ℕ → List (Text × ℕ) → List (Text × ℕ)
insert_pair name hops [] = (name, hops) ∷ []
insert_pair name hops ((x, n) ∷ s) =
    let rest = insert_pair name hops s in
    if text_eq x name
    then (if n == hops
        then (x, n) ∷ s
        else if ltb hops n
        then (name, hops) ∷ (x, n) ∷ s
        else (x, n) ∷ rest)
    else if text_lt name x
    then (name, hops) ∷ (x, n) ∷ s
    else (x, n) ∷ rest

-- The first pair of a name.
unfoldable pub find_hops : Text → List (Text × ℕ) → Option ℕ
find_hops k [] = none
find_hops k ((x, n) ∷ s) = let rest = find_hops k s in if text_eq x k then some n else rest

-- `src_node_name.erase (0, 1)`
abbrev pub without_first : Text → Text
without_first [] = []
without_first (c ∷ s) = s

abbrev pub or_zero : Option ℕ → ℕ
or_zero none = 0
or_zero (some n) = n

module _ {N : Ndn} where
  unfoldable pub get_distance : Text → Text → Nodes N → Outcome ℕ
  unfolding find_hops
  get_distance src_node dest_node t =
      if text_eq src_node dest_node then ok 0 else elim (find src_node t) [
        | none ↦ err no_return
        | some n ↦ ok (or_zero (find_hops dest_node n.hop_distance))
      ]

  -- A node of the table has the name.
  unfoldable pub has_node_name : N.Name → Nodes N → Bool
  has_node_name name [] = false
  has_node_name name ((k, n) ∷ t) = N.name_eq name n.node_name || has_node_name name t

  module _ (R : Routing N) where
    -- The loops over the distances from `src`, and over the table for each.
    unfoldable pub note_distances :
        Nodes N → R.Node → List (R.Node × ℕ) → List (Text × ℕ) → List (Text × ℕ)
    unfolding insert_pair has_node_name
    note_distances t src [] s = s
    note_distances t src ((dest, hops) ∷ dists) s = note_distances t src dists (
        if N.name_eq (R.find_name dest) (R.find_name src)
        then insert_pair (N.to_uri (R.find_name dest)) 0 s
        else if has_node_name (R.find_name dest) t
        then insert_pair (N.to_uri (R.find_name dest)) hops s
        else s)

    -- The body of the loop, for one entry of the table `t`.
    unfoldable pub measure : Nodes N → Text → ComputeNode N → Outcome (ComputeNode N)
    unfolding note_distances
    measure t key n = elim (R.find_node (without_first key)) [
      | none ↦ err null_pointer
      | some src ↦
          if not (R.has_router src)
          then ok n
          else ok
              (record n { hop_distance = note_distances t src (R.distances src) n.hop_distance })
    ]

    unfoldable pub measure_all : Nodes N → Nodes N → Outcome (Nodes N)
    unfolding measure
    measure_all t [] = ok []
    measure_all t ((key, n) ∷ rest) = do
      n' ← measure t key n
      rest' ← measure_all t rest
      ok ((key, n') ∷ rest')

    unfoldable pub calculate_hop_distance : Nodes N → Outcome (Bool × Nodes N)
    unfolding measure_all
    calculate_hop_distance t = do t' ← measure_all t t; ok (true, t')
