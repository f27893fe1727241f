-- ===== src/Communication/Exchange.antt =====
-- A request for the status of a node, its answer, and what the orchestrator makes of it.
use inc_sim.Base.{
  ℕ, suc, ◌≡◌, refl, ap, sym, ◌∙◌, true, false, List, [], ◌∷◌, ◌++◌, length, drop, arith, map,
}
use inc_sim.Base.Text.{
  Text, text, text_eq, contains_infix, is_prefix, is_prefix-append, joined, slashed,
}
use inc_sim.Base.Outcome.{Outcome, ok, ◌>>=◌}
use inc_sim.Ndn.{Ndn, Nfd, NameParts, UriLaws, part_at, is_plain_part}
use inc_sim.Boost.{Boost, SplitLaws, free_of, find_text-third}
use inc_sim.Computation.{Computation}
use inc_sim.Storage.{DataInfo, Nodes, add_node_to_table}
use inc_sim.Messages.Bootstrap.{bootstrap_phase_handler}
use inc_sim.Messages.Status.{handle_message}
use inc_sim.Node.{IncOrchestrationComputeNode, reset_node_busy_counter}
use inc_sim.NodeApp.{node_report, ndn_status_fetch_handler}
use inc_sim.NodeApp.Switch.{orchestration_request_resolution, orchestrator_request_resolution}
use inc_sim.NodeApp.Report.{
  is_reportable_node, stored_node, report_of, node_report-report_of, report_round_trip,
}
use inc_sim.NodeApp.Report.Functions.{entries, all_reportable}
use inc_sim.NodeApp.Report.Tokens.{stored_data}
use inc_sim.Communication.{erase_action, udp_action, inet, udp_handle_read, ndn_action, on_data}

-- A packet of a node `/label` about an action `/word`.
abbrev packet_of : Text → Text → Text → Text
packet_of label word report = text "/Orchestrator/" ++ (label ++ (b'/' ∷ (word ++ (b'/' ∷ report))))

drop-word : (w : Text) (x : ℕ) (r : Text) → drop (suc (length w)) (w ++ (x ∷ r)) ≡ r
drop-word [] x r = refl
drop-word (y ∷ w) x r = drop-word w x r

erase_action-packet_of :
    (label word report : Text)
    → free_of b'/' word ≡ true
    → free_of b'/' label ≡ true
    → is_prefix word (text "Orchestrator") ≡ false
    → is_prefix word label ≡ false
    → erase_action (b'/' ∷ word) (packet_of label word report) ≡ report
unfolding erase_action is_prefix
erase_action-packet_of label word report hw hl ps pl =
    rw
      (find_text-third b'/' word (text "Orchestrator") label (word ++ (b'/' ∷ report)) hw refl hl ps
        pl (is_prefix-append word (b'/' ∷ report)))
      (drop-word word b'/' report)

-- A packet about the bootstrap information of a node is taken as such, and its report is left.
udp_action-bootstrap :
    (label report : Text)
    → free_of b'/' label ≡ true
    → is_prefix (text "BootstrapInfo") label ≡ false
    → udp_action (packet_of label (text "BootstrapInfo") report) ≡ (text "/BootstrapInfo", report)
unfolding udp_action is_prefix
udp_action-bootstrap label report hl pl =
    rw (contains_infix (text "/Orchestrator/" ++ label) (text "/BootstrapInfo/") report) (
      ap (λ r. (text "/BootstrapInfo", r))
        (erase_action-packet_of label (text "BootstrapInfo") report refl hl refl pl))

module _ {N : Ndn} {F : Nfd N} (b : Boost) where
  -- A request to a node, and its answer to the orchestrator: the node and the table after it.
  pub udp_exchange :
      Text
      → IncOrchestrationComputeNode N F
      → Nodes N
      → Outcome (IncOrchestrationComputeNode N F × Nodes N)
  udp_exchange request n t = do
    a ← orchestration_request_resolution b request n
    t' ← udp_handle_read N b (inet a.payload ∷ []) [] t
    ok (a.node, t')

  pub ndn_exchange :
      NameParts N
      → N.Name
      → IncOrchestrationComputeNode N F
      → Nodes N
      → Outcome (IncOrchestrationComputeNode N F × Nodes N)
  ndn_exchange names interest n t = do
    a ← orchestrator_request_resolution names b interest n
    t' ← on_data N b names interest a.payload t
    ok (a.node, t')

module _ {N : Ndn} {F : Nfd N} where
  -- The table after an answer about a node with the functions `fs` and the data `ds`.
  abbrev pub told :
      Boost
      → IncOrchestrationComputeNode N F
      → List (Text × Computation N)
      → List (DataInfo N)
      → Nodes N
      → Nodes N
  told b n fs ds t =
      (add_node_to_table (N.to_uri (N.name (b'/' ∷ n.node_label))) (stored_node b n fs ds) t).1

  abbrev interest_parts : IncOrchestrationComputeNode N F → List Text
  interest_parts n = text "Orchestrator" ∷ n.node_label ∷ text "BootstrapInfo" ∷ []

  -- The request for the bootstrap information of the node.
  abbrev pub bootstrap_interest : IncOrchestrationComputeNode N F → N.Name
  bootstrap_interest n = N.name (joined (slashed (interest_parts n)))

module _ {N : Ndn} {F : Nfd N} (b : Boost) (laws : SplitLaws b)
    (n : IncOrchestrationComputeNode N F) (fs : List (Text × Computation N))
    (ds : List (DataInfo N)) (t : Nodes N) (functions : n.func_map ≡ entries fs)
    (node_texts : is_reportable_node n ≡ true) (function_texts : all_reportable fs ≡ true)
    (provided : stored_data N b n.provided_data ≡ ok ds) where
  handled : bootstrap_phase_handler N b (report_of b laws n fs) t ≡ ok (told b n fs ds t)
  handled =
      ap (λ o. o >>= (λ report. bootstrap_phase_handler N b report t))
        (sym (node_report-report_of b laws n fs functions))
      ∙ report_round_trip b laws n fs ds t functions node_texts function_texts provided

  -- Let a node be as in the round trip of its report, with a label that has no slash and does not
  -- begin with `BootstrapInfo`. Then the orchestrator's UDP app, given the packet with which the
  -- node's UDP app answers `/BootstrapInfo`, tells the table of exactly the values of the node,
  -- and the busy counter of the node is 0.
  pub udp_bootstrap_exchange :
      free_of b'/' n.node_label ≡ true
      → is_prefix (text "BootstrapInfo") n.node_label ≡ false
      → udp_exchange b (text "/BootstrapInfo") n t
        ≡ ok (reset_node_busy_counter n, told b n fs ds t)
  unfolding udp_exchange orchestration_request_resolution text_eq udp_handle_read handle_message
  udp_bootstrap_exchange slash begins = rw (node_report-report_of b laws n fs functions) (
      rw (udp_action-bootstrap n.node_label (report_of b laws n fs) slash begins) (
        ap (λ (o : Outcome (Nodes N)). (o >>= ok) >>= (λ t'. ok (reset_node_busy_counter n, t')))
          handled))

module _ {N : Ndn} {F : Nfd N} (names : NameParts N) (uris : UriLaws N names) (b : Boost)
    (n : IncOrchestrationComputeNode N F) (plain : is_plain_part n.node_label ≡ true) where
  parts : names.parts (bootstrap_interest n) ≡ map N.name (slashed (interest_parts n))
  parts = uris.parts_of_uri (interest_parts n) (ground (arith, plain))

  is_bootstrap : N.name_eq (N.name (text "/BootstrapInfo")) (N.name (text "/BootstrapInfo")) ≡ true
  unfolding text_eq
  is_bootstrap = uris.part_eq (text "BootstrapInfo") (text "BootstrapInfo") refl refl

  request_answered :
      (report : Text)
      → node_report (reset_node_busy_counter n) ≡ ok report
      → orchestrator_request_resolution names b (bootstrap_interest n) n
        ≡ ok (record { payload = report; events = []; node = reset_node_busy_counter n })
  unfolding orchestrator_request_resolution ndn_status_fetch_handler reset_node_busy_counter
  request_answered report e = rw (ap (part_at names 2) parts) (rw is_bootstrap (rw e refl))

  answer_handled :
      (content : Text) (t : Nodes N)
      → on_data N b names (bootstrap_interest n) content t ≡ bootstrap_phase_handler N b content t
  unfolding on_data ndn_action handle_message text_eq
  answer_handled content t = rw (uris.name_of_uri (bootstrap_interest n)) (
      rw (ap (part_at names 0) parts) (
        rw (uris.part_eq (text "Orchestrator") (text "Orchestrator") refl refl)
          (rw (ap (part_at names 2) parts) (rw is_bootstrap refl))))

-- The same of the NDN apps, whose requests are interests named by URIs, for a label of plain bytes.
pub ndn_bootstrap_exchange :
    {N : Ndn} {F : Nfd N} (b : Boost) (laws : SplitLaws b) (names : NameParts N)
    (uris : UriLaws N names) (n : IncOrchestrationComputeNode N F)
    (fs : List (Text × Computation N)) (ds : List (DataInfo N)) (t : Nodes N)
    → n.func_map ≡ entries fs
    → is_reportable_node n ≡ true
    → all_reportable fs ≡ true
    → stored_data N b n.provided_data ≡ ok ds
    → (plain : is_plain_part n.node_label ≡ true)
    → ndn_exchange b names (bootstrap_interest n) n t
      ≡ ok (reset_node_busy_counter n, told b n fs ds t)
unfolding ndn_exchange reset_node_busy_counter stored_node
ndn_bootstrap_exchange b laws names uris n fs ds t f h k d plain =
    let n' = reset_node_busy_counter n in
    rw
      (request_answered names uris b n plain (report_of b laws n' fs)
        (node_report-report_of b laws n' fs f))
      (rw (answer_handled names uris b n plain (report_of b laws n' fs) t)
        (rw (handled b laws n' fs ds t f h k d) refl))
