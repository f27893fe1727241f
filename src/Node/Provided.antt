-- ===== src/Node/Provided.antt =====
-- What a search of the provided data of a node finds.
use inc_sim.Base.{◌≡◌, true, false, ◌++◌}
use inc_sim.Base.Text.{Text, text, text_eq, contains_infix}
use inc_sim.Ndn.{Ndn, Nfd}
use inc_sim.Computation.Inputs.{contains-add, contains-add_mono, add_part}
use inc_sim.Node.{IncOrchestrationComputeNode, check_provided_data_list, add_provided_data}

module _ {N : Ndn} {F : Nfd N} (n : IncOrchestrationComputeNode N F) where
  -- Unless the node still has the text `null` for no data: data that was added is found, and what
  -- was found before stays found.
  pub provided_data_found :
      (v w : Text)
      → text_eq n.provided_data (text "null") ≡ false
      → check_provided_data_list w n ≡ true
      → (check_provided_data_list v (add_provided_data v n) ≡ true)
        × (check_provided_data_list w (add_provided_data v n) ≡ true)
  unfolding check_provided_data_list add_provided_data
  provided_data_found v w h k =
      (contains-add v n.provided_data, contains-add_mono v w n.provided_data h k)

  -- Unless the node still has the text `null`: whatever part `v` of the text of provided data a
  -- name is, such as `/d1` in `/d10`, the node counts as providing it, and adding it changes
  -- nothing.
  pub provided_data_part :
      (u v w : Text)
      → n.provided_data ≡ u ++ (v ++ w)
      → text_eq (u ++ (v ++ w)) (text "null") ≡ false
      → (check_provided_data_list v n ≡ true)
        × ((add_provided_data v n).provided_data ≡ n.provided_data)
  unfolding check_provided_data_list add_provided_data
  provided_data_part u v w e h = (rw e (contains_infix u v w), rw e (add_part u v w h))
