-- ===== src/Storage/Tests.antt =====
-- Tests of the table of nodes.
use inc_sim.Base.{ℕ, ◌≡◌, refl, Bool, true, false, some, [], ◌∷◌}
use inc_sim.Base.Text.{Text, text, text_eq}
use inc_sim.Base.Table.{find}
use inc_sim.Base.Outcome.{ok}
use inc_sim.Ndn.{plain_names}
use inc_sim.Samples.{idle, overloaded, missed, node1, two_nodes}
use inc_sim.Base.Gives.{Succeeds}
use inc_sim.Storage.Distances.{Routing, has_node_name, get_distance, calculate_hop_distance}
use inc_sim.Storage.Reach.{get_distance_lem}
use inc_sim.Storage.{Nodes, add_node_to_table}
use inc_sim.Storage.NodeInfo.{set_node_ram}
use inc_sim.Storage.Functions.{get_func_index}
use inc_sim.Storage.Writes.{Writes}
use inc_sim.Storage.FuncIndex.{Finds, get_func_index-Finds}
use inc_sim.Storage.Calls.{Setter, Setter-Writes}

abbrev n1 : Text
n1 = text "/n1"

node1_stored : find n1 two_nodes ≡ some node1
unfolding find text_eq
node1_stored = refl

get_func_index-Finds_example :
    (r : Bool × ℕ) × (get_func_index n1 (text "/f2") false two_nodes ≡ ok r)
    × Finds (text "/f2") (idle ∷ overloaded ∷ missed ∷ []) r
get_func_index-Finds_example =
    get_func_index-Finds n1 (text "/f2") false two_nodes node1 node1_stored

get_func_index_test : get_func_index n1 (text "/f2") false two_nodes ≡ ok (true, 1)
unfolding get_func_index find text_eq
get_func_index_test = refl

-- One node is added, and its current RAM written.
abbrev one_node : Nodes plain_names
one_node = (set_node_ram n1 9 false (add_node_to_table n1 node1 []).1).1

Setter-Writes_example : Writes plain_names n1 two_nodes (set_node_ram n1 9 false two_nodes).1
Setter-Writes_example = Setter-Writes (Setter.node_ram 9 false)

-- Every name is that of a node, and from each one reaches three.
abbrev plain_routing : Routing plain_names
plain_routing = record {
  Node = Text;
  find_node = λ name. some name;
  find_name = λ node. b'/' ∷ node;
  has_router = λ node. true;
  distances = λ node. (text "n1", 0) ∷ (text "n2", 2) ∷ (text "n3", 5) ∷ [];
}

get_distance_lem_example :
    Succeeds
      (λ result. (result.0 ≡ true) × (get_distance n1 (text "/n2") result.1 ≡ ok 2))
      (calculate_hop_distance plain_routing two_nodes)
unfolding has_node_name text_eq
get_distance_lem_example =
    get_distance_lem plain_routing two_nodes n1 (text "/n2") node1 (text "n1") refl node1_stored
      refl refl refl refl refl
