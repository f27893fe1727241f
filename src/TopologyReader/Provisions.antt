-- ===== src/TopologyReader/Provisions.antt =====
-- The functions that the compute nodes get at the end of `ReadTopology`.
use inc_sim.Base.{
  ◌≡◌, refl, ap, ◌∙◌, false, Option, none, some, List, [], ◌∷◌, inl, inr, Bool-cases, Option-cases,
  if◌then◌else◌, arith,
}
use inc_sim.Base.Text.{Text, text_eq, text_eq_sound}
use inc_sim.Base.Table.{find, emplace, find-emplace}
use inc_sim.Base.Gives.{Succeeds, Succeeds-ok, Succeeds-bind, Succeeds-mono}
use inc_sim.Ndn.{Ndn, Nfd}
use inc_sim.Computation.{Computation}
use inc_sim.Node.{IncOrchestrationComputeNode}
use inc_sim.Node.Functions.{add_new_function}
use inc_sim.TopologyReader.Topology.{add_functions, add_to_nodes, add_to_others}

module _ {N : Ndn} where
  -- The first function of the list with a URI.
  unfoldable pub first_with : Text → List (Computation N) → Option (Computation N)
  first_with k [] = none
  first_with k (f ∷ fs) =
      let rest = first_with k fs in if text_eq (N.to_uri f.computation_name) k then some f else rest

  -- A function as it is added to a node: off, and never asked for.
  abbrev pub unused : Computation N → Computation N
  unused f = record f { enable_computation = false; exec_counter = 0; miss_exec_counter = 0 }

  -- The entry of a URI behind the additions.
  abbrev pub provided :
      Option (Computation N) → Option (Option (Computation N)) → Option (Option (Computation N))
  provided f (some entry) = some entry
  provided none none = none
  provided (some f) none = some (some (unused f))

  provided-none : (entry : Option (Option (Computation N))) → entry ≡ provided none entry
  provided-none none = refl
  provided-none (some entry) = refl

module _ {N : Ndn} {F : Nfd N} where
  -- What the additions make of a node: it keeps the functions it has, and has of each other URI the
  -- first function of the list, off and with its counters at 0; its other members stay.
  pub record Provisioned (fs : List (Computation N)) (n n' : IncOrchestrationComputeNode N F)
      : Type 0 where
    pub functions : (k : Text) → find k n'.func_map ≡ provided (first_with k fs) (find k n.func_map)
    pub kept : n' ≡ record n { func_map = n'.func_map }

  -- The same of each node of a list, with their names.
  abbrev pub AllProvisioned :
      List (Computation N)
      → List (Text × IncOrchestrationComputeNode N F)
      → List (Text × IncOrchestrationComputeNode N F)
      → Type 0
  AllProvisioned fs [] ns = ns ≡ []
  AllProvisioned fs (n ∷ ns) [] = [] ≡ n ∷ ns
  AllProvisioned fs (n ∷ ns) (m ∷ ms) =
      (m.0 ≡ n.0) × Provisioned fs n.1 m.1 × AllProvisioned fs ns ms

  abbrev with_function :
      Computation N → IncOrchestrationComputeNode N F → IncOrchestrationComputeNode N F
  with_function f n = record n {
    func_map = emplace (N.to_uri f.computation_name) (some (unused f)) n.func_map;
  }

  with_function-Provisioned :
      (f : Computation N) (fs : List (Computation N)) (n n' : IncOrchestrationComputeNode N F)
      → Provisioned fs (with_function f n) n'
      → Provisioned (f ∷ fs) n n'
  unfolding first_with
  with_function-Provisioned f fs n n' p = record {
    functions = λ k.
        p.functions k
        ∙ ap (provided (first_with k fs))
            (find-emplace (N.to_uri f.computation_name) k (some (unused f)) n.func_map)
        ∙ elim (Bool-cases (text_eq (N.to_uri f.computation_name) k)) [
          | inl same ↦
              let e = text_eq_sound (N.to_uri f.computation_name) k same in
              elim (Option-cases (find k n.func_map)) [
                | inl missing ↦ ground (arith, same, e, missing)
                | inr (entry, found) ↦ ground (arith, same, e, found)
              ]
          | inr other ↦ rw other refl
        ];
    kept = p.kept;
  }

  add_functions-Provisioned :
      (fs : List (Computation N)) (n : IncOrchestrationComputeNode N F)
      → Succeeds (Provisioned fs n) (add_functions fs n)
  unfolding add_functions add_new_function first_with
  add_functions-Provisioned [] n =
      Succeeds-ok n (record { functions = λ k. provided-none (find k n.func_map); kept = refl })
  add_functions-Provisioned (f ∷ fs) n =
      Succeeds-mono _ (λ n' p. with_function-Provisioned f fs n n' p)
        (add_functions-Provisioned fs (with_function f n))

  add_to_nodes-AllProvisioned :
      (fs : List (Computation N)) (ns : List (Text × IncOrchestrationComputeNode N F))
      → Succeeds (AllProvisioned fs ns) (add_to_nodes fs ns)
  unfolding add_to_nodes
  add_to_nodes-AllProvisioned fs [] = Succeeds-ok [] refl
  add_to_nodes-AllProvisioned fs ((name, n) ∷ ns) =
      let one = add_functions-Provisioned fs n in
      let more = add_to_nodes-AllProvisioned fs ns in
      Succeeds-bind (add_functions fs n) one.value _ one.returns (
        Succeeds-bind (add_to_nodes fs ns) more.value _ more.returns
          (Succeeds-ok ((name, one.value) ∷ more.value) (refl, one.holds, more.holds)))

  -- The loop at the end of `ReadTopology` succeeds, leaves the first compute node as it is, and has each other one keep its name, its other
  -- members and the functions it has, and get for each other URI the first function of the list, off
  -- and with its counters at 0.
  pub add_to_others_lem :
      (fs : List (Computation N)) (n : Text × IncOrchestrationComputeNode N F)
      (ns : List (Text × IncOrchestrationComputeNode N F))
      → Succeeds
          (λ all.
            (rest : List (Text × IncOrchestrationComputeNode N F)) × (all ≡ n ∷ rest)
            × AllProvisioned fs ns rest)
          (add_to_others fs (n ∷ ns))
  unfolding add_to_others
  add_to_others_lem fs n ns =
      let others = add_to_nodes-AllProvisioned fs ns in
      Succeeds-bind (add_to_nodes fs ns) others.value _ others.returns
        (Succeeds-ok (n ∷ others.value) (others.value, refl, others.holds))
