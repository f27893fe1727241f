-- ===== src/NodeApp/Report.antt =====
-- What the orchestrator reads from the status of a node.
pub mod Functions
pub mod Tokens
use inc_sim.Base.{
  ℕ, ◌≡◌, refl, ap, ◌∙◌, Bool, true, false, ◌&&◌, List, [], ◌∷◌, ◌++◌, if◌then◌else◌, ltb, arith,
  map,
}
use inc_sim.Base.Text.{Text, text, joined, slashed, ◌<<◌}
use inc_sim.Base.Outcome.{Outcome, ok, err, ◌>>=◌}
use inc_sim.Base.Number.{to_string, int_limit}
use inc_sim.Ndn.{Ndn, Nfd}
use inc_sim.Boost.{Boost, SplitLaws, free_of, free_of-Without, free_of-append, free_of-to_string}
use inc_sim.Computation.{Computation}
use inc_sim.Storage.{DataInfo, ComputeNode, Nodes, add_node_to_table}
use inc_sim.Messages.Bootstrap.{new_node, bootstrap_tokens, bootstrap_phase_handler}
use inc_sim.Node.{IncOrchestrationComputeNode}
use inc_sim.NodeApp.{node_report}
use inc_sim.NodeApp.Report.Functions.{
  then_split, entries, all_reportable, stored_function, reports, functions_report-entries,
  reports-free_of,
}
use inc_sim.NodeApp.Report.Tokens.{
  is_field, stored_data, name_token, core_token, type_token, ram_token, rom_token, links_token,
  runtimes_token, busy_token, data_token, functions_token,
}

module _ {N : Ndn} {F : Nfd N} where
  -- The texts of the node have no `;` and no `=` in them, and its numbers are `int`s.
  abbrev pub is_reportable_node : IncOrchestrationComputeNode N F → Bool
  is_reportable_node n =
      is_field n.node_label
      && is_field n.links
      && is_field n.supported_runtimes
      && is_field n.provided_data
      && ltb n.processor_core int_limit
      && ltb n.ram int_limit
      && ltb n.rom int_limit

  -- What the orchestrator is to keep of a node with the functions `fs` and the data `ds`.
  unfoldable pub stored_node :
      Boost
      → IncOrchestrationComputeNode N F
      → List (Text × Computation N)
      → List (DataInfo N)
      → ComputeNode N
  stored_node b n fs ds =
      let links = b.split b',' n.links in
      let runtimes = b.split b',' n.supported_runtimes in
      let functions = map (stored_function b) fs in
      record (new_node N b) {
        node_name = N.name (b'/' ∷ n.node_label);
        ram = (n.ram, n.ram);
        rom = (n.rom, n.rom);
        cpu = (n.processor_core, n.processor_core);
        links = (links, links);
        runtimes_supported = (runtimes, runtimes);
        data_initial = ds;
        data_current = ds;
        functions_initial = functions;
        functions_current = functions;
      }

  module _ (b : Boost) (laws : SplitLaws b) (n : IncOrchestrationComputeNode N F)
      (fs : List (Text × Computation N)) where
    abbrev pub report_of : Text
    report_of =
        text "name=/"
        << n.node_label
        << text ";processor_core="
        << to_string n.processor_core
        << text ";processor_type="
        << to_string n.processor_speed
        << text ";RAM="
        << to_string n.ram
        << text ";ROM="
        << to_string n.rom
        << text ";links="
        << n.links
        << text ";runtimes="
        << n.supported_runtimes
        << text ";node_busy_counter="
        << to_string n.node_busy_counter
        << text ";data="
        << n.provided_data
        << text ";functions="
        << joined (slashed (reports fs))

    pub node_report-report_of : n.func_map ≡ entries fs → node_report n ≡ ok report_of
    unfolding node_report
    node_report-report_of e = rw e (rw (functions_report-entries fs) refl)

    semicolon_free :
        (key value : Text)
        → free_of b';' key ≡ true
        → free_of b';' value ≡ true
        → free_of b';' (key ++ value) ≡ true
    semicolon_free key value h k = ground (arith, free_of-append b';' key value)

    tokens_of_report :
        is_reportable_node n ≡ true
        → all_reportable fs ≡ true
        → b.split b';' report_of
          ≡ (text "name=/" ++ n.node_label)
            ∷ (text "processor_core=" ++ to_string n.processor_core)
            ∷ (text "processor_type=" ++ to_string n.processor_speed)
            ∷ (text "RAM=" ++ to_string n.ram)
            ∷ (text "ROM=" ++ to_string n.rom)
            ∷ (text "links=" ++ n.links)
            ∷ (text "runtimes=" ++ n.supported_runtimes)
            ∷ (text "node_busy_counter=" ++ to_string n.node_busy_counter)
            ∷ (text "data=" ++ n.provided_data)
            ∷ (text "functions=" ++ joined (slashed (reports fs)))
            ∷ []
    tokens_of_report h k = field (text "name=/") n.node_label refl (ground (arith, h)) (
        number (text "processor_core=") n.processor_core refl (
          number (text "processor_type=") n.processor_speed refl (
            number (text "RAM=") n.ram refl (
              number (text "ROM=") n.rom refl (
                field (text "links=") n.links refl (ground (arith, h)) (
                  field (text "runtimes=") n.supported_runtimes refl (ground (arith, h)) (
                    number (text "node_busy_counter=") n.node_busy_counter refl
                      (field (text "data=") n.provided_data refl (ground (arith, h)) last))))))))
      where
        field :
            (key value : Text) {r : Text} {parts : List Text}
            → free_of b';' key ≡ true
            → free_of b';' value ≡ true
            → b.split b';' r ≡ parts
            → b.split b';' ((key ++ value) ++ (b';' ∷ r)) ≡ (key ++ value) ∷ parts
        field key value {r} {parts} u v e =
            then_split b laws b';' (key ++ value) r parts (semicolon_free key value u v) e

        number :
            (key : Text) (i : ℕ) {r : Text} {parts : List Text}
            → free_of b';' key ≡ true
            → b.split b';' r ≡ parts
            → b.split b';' ((key ++ to_string i) ++ (b';' ∷ r)) ≡ (key ++ to_string i) ∷ parts
        number key i u e = field key (to_string i) u (free_of-to_string b';' i refl) e

        last :
            b.split b';' (text "functions=" ++ joined (slashed (reports fs)))
            ≡ (text "functions=" ++ joined (slashed (reports fs))) ∷ []
        last = laws.split_part b';' (text "functions=" ++ joined (slashed (reports fs))) (
            free_of-Without b';' (text "functions=" ++ joined (slashed (reports fs))) (
              semicolon_free (text "functions=") (joined (slashed (reports fs))) refl
                (reports-free_of b';' refl refl fs refl (λ p c u. ground (arith, u)) k)))

    -- Let the functions of a node be the `fs`, under names that begin with a slash, let no text of it
    -- have a separator of the message in it, let its numbers be `int`s, and let its provided data
    -- stand for the `ds`. Then `BootstrapPhaseHandler`, given what the node reports, makes one call of
    -- `AddNodeToTable` with a node that has exactly the name, resources, links, runtimes, data and
    -- functions of that node, as initial and as current values.
    pub report_round_trip :
        (ds : List (DataInfo N)) (t : Nodes N)
        → n.func_map ≡ entries fs
        → is_reportable_node n ≡ true
        → all_reportable fs ≡ true
        → stored_data N b n.provided_data ≡ ok ds
        → (do report ← node_report n; bootstrap_phase_handler N b report t)
          ≡ ok
              (add_node_to_table
                (N.to_uri (N.name (b'/' ∷ n.node_label)))
                (stored_node b n fs ds)
                t).1
    unfolding bootstrap_phase_handler bootstrap_tokens stored_node
    report_round_trip ds t e h k d = rw (node_report-report_of e) (
        rw (tokens_of_report h k) (
          rw (name_token b laws n.node_label _ (ground (arith, h))) (
            rw (core_token b laws n.processor_core _ (ground (arith, h))) (
              rw (type_token b laws n.processor_speed _) (
                rw (ram_token b laws n.ram _ (ground (arith, h))) (
                  rw (rom_token b laws n.rom _ (ground (arith, h))) (
                    rw (links_token b laws n.links _ (ground (arith, h))) (
                      rw (runtimes_token b laws n.supported_runtimes _ (ground (arith, h))) (
                        rw (busy_token b laws n.node_busy_counter _) (
                          rw (data_token b laws n.provided_data ds _ (ground (arith, h)) d)
                            (rw (functions_token b laws fs _ k) refl)))))))))))
