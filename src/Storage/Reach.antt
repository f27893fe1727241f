-- ===== src/Storage/Reach.antt =====
-- What `get_distance` reads behind `calculate_hop_distance`.
use inc_sim.Base.{
  ℕ, ◌≡◌, refl, subst, sym, ap, ◌∙◌, Bool, true, false, not, ◌&&◌, Option, none, some, List, [],
  ◌∷◌, inl, inr, Bool-cases, Option-cases, if◌then◌else◌, arith,
}
use inc_sim.Base.Text.{Text, text_eq, text_eq_iff, text_eq_sound}
use inc_sim.Base.Table.{find}
use inc_sim.Base.Outcome.{ok}
use inc_sim.Base.Gives.{Succeeds, Succeeds-ok, Succeeds-bind}
use inc_sim.Ndn.{Ndn}
use inc_sim.Storage.{ComputeNode, Nodes}
use inc_sim.Storage.Distances.{
  Routing, insert_pair, find_hops, without_first, or_zero, get_distance, has_node_name,
  note_distances, measure, measure_all, calculate_hop_distance,
}

-- A pair of a new name is found, and hides no other one.
find_hops-insert_pair :
    (x k : Text) (n : ℕ) (s : List (Text × ℕ))
    → find_hops x s ≡ none
    → find_hops k (insert_pair x n s) ≡ (if text_eq x k then some n else find_hops k s)
unfolding find_hops insert_pair
find_hops-insert_pair x k n [] h = refl
find_hops-insert_pair x k n ((y, m) ∷ s) h =
    ground
      (arith, h, text_eq_iff y x, text_eq_iff y k, text_eq_iff x k, find_hops-insert_pair x k n s)

abbrev first_of : Option ℕ → Option ℕ → Option ℕ
first_of (some n) o = some n
first_of none o = o

first_of-none : (o : Option ℕ) → first_of o none ≡ o
first_of-none none = refl
first_of-none (some n) = refl

module _ {N : Ndn} (R : Routing N) where
  abbrev uri_of : R.Node → Text
  uri_of node = N.to_uri (R.find_name node)

  abbrev no_uri : Text → List (R.Node × ℕ) → Bool
  no_uri k [] = true
  no_uri k ((dest, hops) ∷ dists) = not (text_eq (uri_of dest) k) && no_uri k dists

  -- No two nodes of the distances have the same URI.
  abbrev pub distinct_uris : List (R.Node × ℕ) → Bool
  distinct_uris [] = true
  distinct_uris ((dest, hops) ∷ dists) = no_uri (uri_of dest) dists && distinct_uris dists

  -- The hops from `src` to the node with a URI, where it is `src` itself or a node of the table.
  abbrev pub hops_to : Nodes N → R.Node → Text → List (R.Node × ℕ) → Option ℕ
  hops_to t src k [] = none
  hops_to t src k ((dest, hops) ∷ dists) =
      let rest = hops_to t src k dists in
      if text_eq (uri_of dest) k
      then (if N.name_eq (R.find_name dest) (R.find_name src)
          then some 0
          else if has_node_name (R.find_name dest) t
          then some hops
          else none)
      else rest

  abbrev AllNew : List (R.Node × ℕ) → List (Text × ℕ) → Type 0
  AllNew [] s = Unit {0}
  AllNew ((dest, hops) ∷ dists) s = (find_hops (uri_of dest) s ≡ none) × AllNew dists s

  AllNew-empty : (dists : List (R.Node × ℕ)) → AllNew dists []
  unfolding find_hops
  AllNew-empty [] = tt
  AllNew-empty ((dest, hops) ∷ dists) = (refl, AllNew-empty dists)

  AllNew-insert_pair :
      (x : Text) (n : ℕ) (dists : List (R.Node × ℕ)) (s : List (Text × ℕ))
      → no_uri x dists ≡ true
      → find_hops x s ≡ none
      → AllNew dists s
      → AllNew dists (insert_pair x n s)
  AllNew-insert_pair x n [] s h e a = tt
  AllNew-insert_pair x n ((dest, hops) ∷ dists) s h e a = (
    ground (
      arith,
      h,
      a.0,
      text_eq_iff x (uri_of dest),
      text_eq_iff (uri_of dest) x,
      find_hops-insert_pair x (uri_of dest) n s e,
    ),
    AllNew-insert_pair x n dists s (ground (arith, h)) e a.1,
  )

  hops_to-none :
      (t : Nodes N) (src : R.Node) (k : Text) (dists : List (R.Node × ℕ))
      → no_uri k dists ≡ true
      → hops_to t src k dists ≡ none
  hops_to-none t src k [] h = refl
  hops_to-none t src k ((dest, hops) ∷ dists) h =
      ground (arith, h, hops_to-none t src k dists (ground (arith, h)))

  -- One distance that is noted with its hops.
  note-one :
      (t : Nodes N) (src : R.Node) (k u : Text) (n : ℕ) (dists : List (R.Node × ℕ))
      (s : List (Text × ℕ))
      → no_uri u dists ≡ true
      → find_hops u s ≡ none
      → find_hops k (note_distances R t src dists (insert_pair u n s))
        ≡ first_of (hops_to t src k dists) (find_hops k (insert_pair u n s))
      → find_hops k (note_distances R t src dists (insert_pair u n s))
        ≡ first_of (if text_eq u k then some n else hops_to t src k dists) (find_hops k s)
  note-one t src k u n dists s h e later = elim (Bool-cases (text_eq u k)) [
    | inl same ↦
        let here = text_eq_sound u k same in
        let gone : hops_to t src k dists ≡ none =
          subst (λ x. hops_to t src x dists ≡ none) here (hops_to-none t src u dists h) in
        ground (arith, same, gone, later, find_hops-insert_pair u k n s e)
    | inr other ↦ ground (arith, other, later, find_hops-insert_pair u k n s e)
  ]

  note-hops_to :
      (t : Nodes N) (src : R.Node) (k : Text) (dists : List (R.Node × ℕ)) (s : List (Text × ℕ))
      → distinct_uris dists ≡ true
      → AllNew dists s
      → find_hops k (note_distances R t src dists s)
        ≡ first_of (hops_to t src k dists) (find_hops k s)
  unfolding note_distances
  note-hops_to t src k [] s d a = refl
  note-hops_to t src k ((dest, hops) ∷ dists) s d a =
      let u = uri_of dest in
      let apart : no_uri u dists ≡ true = ground (arith, d) in
      let others : distinct_uris dists ≡ true = ground (arith, d) in
      elim (Bool-cases (N.name_eq (R.find_name dest) (R.find_name src))) [
        | inl itself ↦ rw itself (
            note-one t src k u 0 dists s apart a.0 (
              note-hops_to t src k dists (insert_pair u 0 s) others
                (AllNew-insert_pair u 0 dists s apart a.0 a.1)))
        | inr another ↦ elim (Bool-cases (has_node_name (R.find_name dest) t)) [
          | inl stored ↦
              rw (another, stored)
                (note-one t src k u hops dists s apart a.0 (
                  note-hops_to t src k dists (insert_pair u hops s) others
                    (AllNew-insert_pair u hops dists s apart a.0 a.1)))
          | inr unknown ↦
              rw (another, unknown)
                (ground (
                  arith,
                  note-hops_to t src k dists s others a.1,
                  hops_to-none t src k dists,
                  text_eq_iff u k,
                  apart,
                ))
        ]
      ]

  abbrev is_found : Option R.Node → Bool
  is_found none = false
  is_found (some node) = true

  -- ns-3 finds the nodes of all entries.
  abbrev pub all_found : Nodes N → Bool
  all_found [] = true
  all_found ((key, n) ∷ t) = is_found (R.find_node (without_first key)) && all_found t

  abbrev with_hops : Nodes N → R.Node → ComputeNode N → ComputeNode N
  with_hops t src n = record n {
    hop_distance = note_distances R t src (R.distances src) n.hop_distance;
  }

  abbrev Measured : Nodes N → Nodes N → Nodes N → Type 0
  Measured t rest rest' =
      (j : Text) (n : ComputeNode N) (src : R.Node)
      → find j rest ≡ some n
      → R.find_node (without_first j) ≡ some src
      → R.has_router src ≡ true
      → find j rest' ≡ some (with_hops t src n)

  measure_returns :
      (t : Nodes N) (key : Text) (n : ComputeNode N)
      → is_found (R.find_node (without_first key)) ≡ true
      → Succeeds
          (λ n'.
            (src : R.Node)
            → R.find_node (without_first key) ≡ some src
            → R.has_router src ≡ true
            → n' ≡ with_hops t src n)
          (measure R t key n)
  unfolding measure
  measure_returns t key n h = elim (Option-cases (R.find_node (without_first key))) [
    | inl missing ↦ cc
    | inr (v, found) ↦ elim (Bool-cases (R.has_router v)) [
      | inl router ↦ rw (measure, found, router) (Succeeds-ok (with_hops t v n) (λ src e r. cc))
      | inr none_there ↦ rw (measure, found, none_there) (Succeeds-ok n (λ src e r. cc))
    ]
  ]

  measure_all-Measured :
      (t rest : Nodes N) → all_found rest ≡ true → Succeeds (Measured t rest) (measure_all R t rest)
  unfolding find measure_all
  measure_all-Measured t [] h = Succeeds-ok [] (λ j n src f. cc)
  measure_all-Measured t ((key, m) ∷ rest) h =
      let one = measure_returns t key m (ground (arith, h)) in
      let more = measure_all-Measured t rest (ground (arith, h)) in
      Succeeds-bind (measure R t key m) one.value _ one.returns (
        Succeeds-bind (measure_all R t rest) more.value _ more.returns (
          Succeeds-ok _ (λ j n src f e r. elim (Bool-cases (text_eq key j)) [
            | inl same ↦
                let stored : some m ≡ some n = ground (arith, f, same) in
                let place : R.find_node (without_first key) ≡ some src =
                  ap (λ k. R.find_node (without_first k)) (text_eq_sound key j same) ∙ e in
                rw same (
                  ap some (one.holds src place r)
                  ∙ ap (λ o. elim o [ none ↦ none | some x ↦ some (with_hops t src x) ]) stored)
            | inr other ↦ rw other (more.holds j n src (ground (arith, f, other)) e r)
          ])))

  -- Let ns-3 find the nodes of all entries of the table, let the node of the entry `src` export a
  -- router, hold no distances yet, and let the nodes that it reaches have different URIs. Then
  -- `calculate_hop_distance` succeeds and returns true, and afterwards `get_distance` from `src` to
  -- another name gives the hops of the routing if the name is the URI of a node that is reached and
  -- that the table has, 0 if it is that of the node itself, and 0 as well for all others.
  pub get_distance_lem :
      (t : Nodes N) (src dest : Text) (n : ComputeNode N) (node : R.Node)
      → all_found t ≡ true
      → find src t ≡ some n
      → n.hop_distance ≡ []
      → R.find_node (without_first src) ≡ some node
      → R.has_router node ≡ true
      → distinct_uris (R.distances node) ≡ true
      → text_eq src dest ≡ false
      → Succeeds
          (λ result.
            (result.0 ≡ true)
            × (get_distance src dest result.1
                ≡ ok (or_zero (hops_to t node dest (R.distances node)))))
          (calculate_hop_distance R t)
  unfolding calculate_hop_distance get_distance find_hops
  get_distance_lem t src dest n node found entry empty place router distinct other =
      let all = measure_all-Measured t t found in
      let dists = R.distances node in
      let hops = hops_to t node dest dists in
      let fresh : AllNew dists n.hop_distance =
        subst (AllNew dists) (sym empty) (AllNew-empty dists) in
      let noted =
        note-hops_to t node dest dists n.hop_distance distinct fresh
        ∙ ap (λ s. first_of hops (find_hops dest s)) empty
        ∙ first_of-none hops in
      Succeeds-bind (measure_all R t t) all.value _ all.returns (
        Succeeds-ok (true, all.value)
          (
            refl,
            rw (other, all.holds src n node entry place router) (ap (λ o. ok (or_zero o)) noted),
          ))
