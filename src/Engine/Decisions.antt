-- ===== src/Engine/Decisions.antt =====
-- What `GetFetchDecisions` decides, without its counter.
use inc_sim.Base.{
  some_in, ◌<◌, ◌≤◌, ◌≡◌, refl, Bool, true, false, not, ◌&&◌, ◌||◌, Option, none, some, List, [],
  ◌∷◌, ◌++◌, if◌then◌else◌, ltb, ◌==◌, length, select, map, arith, any, Option-cases, inl, inr, ap,
  ◌∙◌, subst,
}
use inc_sim.Base.Text.{Text, text}
use inc_sim.Base.Table.{find, update, insert, find-insert_new}
use inc_sim.Base.Number.{u32}
use inc_sim.Base.Outcome.{ok, err, null_pointer}
use inc_sim.Ndn.{Ndn, Nfd, NameParts}
use inc_sim.Computation.{Computation, add_miss_exec_counter}
use inc_sim.Node.{IncOrchestrationComputeNode, check_provided_data_list}
use inc_sim.Node.Functions.{get_function}
use inc_sim.Node.Excluded.{check_exclude_list}
use inc_sim.Engine.{
  NreDecision, nack, fetch, execute, forward, Resolution, missing_data, decide, with_function,
  get_fetch_decisions, extract_function_name, extract_data_names,
}

module _ (N : Ndn) (names : NameParts N) (F : Nfd N) (cache : Bool) (in_store : N.Name → Bool) where
  -- A parameter is there: in the content store, or in the text of the data that the node provides.
  unfoldable pub is_available : IncOrchestrationComputeNode N F → N.Name → Bool
  is_available node p =
      if cache
      then in_store (names.append (N.name (text "/Data")) p)
      else check_provided_data_list (N.to_uri p) node

  -- The names under which what is not there is fetched.
  pub wanted : IncOrchestrationComputeNode N F → List N.Name → List N.Name
  wanted node ps =
      map (names.append (N.name (text "/Data"))) (select (λ p. not (is_available node p)) ps)

  missing_data-wanted :
      (node : IncOrchestrationComputeNode N F) (ps : List N.Name)
      → missing_data N names F cache in_store node ps ≡ wanted node ps
  unfolding missing_data wanted is_available
  missing_data-wanted node [] = refl
  missing_data-wanted node (p ∷ ps) = ground (arith, missing_data-wanted node ps)

  -- How many there are says whether all or none of the parameters are there.
  length-wanted :
      (node : IncOrchestrationComputeNode N F) (ps : List N.Name)
      → (length (wanted node ps) ≤ length ps)
        × ((length (wanted node ps) == 0) ≡ not (any (λ p. not (is_available node p)) ps))
        × ((length (wanted node ps) == length ps) ≡ not (any (is_available node) ps))
  unfolding wanted
  length-wanted node [] = ground arith
  length-wanted node (p ∷ ps) = ground (arith, length-wanted node ps)

  -- The decision for a function with the right number of parameters: to forward what is excluded or
  -- where neither the function nor any parameter is there, to execute where the function and all
  -- parameters are, and else to fetch.
  unfoldable pub decision_of :
      N.Name → Computation N → List N.Name → IncOrchestrationComputeNode N F → NreDecision
  decision_of func_name c ps node =
      if check_exclude_list (N.to_uri func_name) node
        || (not c.enable_computation && not (any (is_available node) ps))
      then forward
      else if c.enable_computation && not (any (λ p. not (is_available node p)) ps)
      then execute
      else fetch

  abbrev pub counted :
      NreDecision
      → N.Name
      → Computation N
      → IncOrchestrationComputeNode N F
      → IncOrchestrationComputeNode N F
  counted forward func_name c node = record node {
    func_map = update (N.to_uri func_name) (λ _. some (add_miss_exec_counter c)) node.func_map;
  }
  counted nack func_name c node = node
  counted fetch func_name c node = node
  counted execute func_name c node = node

  decide-decision_of :
      (func_name : N.Name) (c : Computation N) (ps : List N.Name)
      (node : IncOrchestrationComputeNode N F)
      → length ps ≡ c.param_number
      → length ps < u32
      → decide N names F cache in_store func_name c ps node ≡ record {
        decision = decision_of func_name c ps node;
        fetches =
            (if c.enable_computation
              then []
              else names.append (N.name (text "/Function")) func_name ∷ [])
            ++ wanted node ps;
        node = counted (decision_of func_name c ps node) func_name c node;
      }
  unfolding decide decision_of
  decide-decision_of func_name c ps node h k =
      rw (missing_data-wanted node ps) (ground (arith, h, k, length-wanted node ps))

  get_function-known :
      (name : Text) (node : IncOrchestrationComputeNode N F) (c : Computation N)
      → find name node.func_map ≡ some (some c)
      → get_function name node ≡ (some c, node)
  unfolding get_function
  get_function-known name node c e = rw (e, get_function) refl

  get_function-new :
      (name : Text) (node : IncOrchestrationComputeNode N F)
      → find name node.func_map ≡ none
      → get_function name node
        ≡ (none, record node { func_map = (insert name none node.func_map).1 })
  unfolding get_function
  get_function-new name node e = rw (e, get_function) refl

  two_parts :
      (ps : List N.Name) (f : N.Name)
      → extract_function_name N ps ≡ some f
      → ltb (length ps) 2 ≡ false
  unfolding extract_function_name
  two_parts [] f e = cc
  two_parts (p ∷ []) f e = cc
  two_parts (p ∷ q ∷ ps) f e = ground arith

  module _ (interest : N.Name) (node : IncOrchestrationComputeNode N F) (func_name : N.Name)
      (named : extract_function_name N (names.parts interest) ≡ some func_name) where
    resolves :
        get_fetch_decisions N names F cache in_store interest node
        ≡ ok (
            with_function N names F cache in_store func_name
              (extract_data_names N false (names.parts interest))
              (get_function (N.to_uri func_name) node))
    unfolding get_fetch_decisions
    resolves =
        rw (two_parts (names.parts interest) func_name named, get_fetch_decisions) (rw named refl)

    -- For an interest that names a function which the node has, with the number of parameters that
    -- the function takes, below 2³², `GetFetchDecisions` returns: the decision to forward if the
    -- function is excluded, or disabled with no parameter there, to execute if it is enabled and
    -- all parameters are there, and else to fetch; and the names of just what is not there, the
    -- function first if it is disabled. Only forwarding changes the node, as `AddMissExecCounter`
    -- changes the function.
    pub get_fetch_decisions_lem :
        (c : Computation N)
        → find (N.to_uri func_name) node.func_map ≡ some (some c)
        → let ps = extract_data_names N false (names.parts interest) in
          length ps ≡ c.param_number
          → length ps < u32
          → get_fetch_decisions N names F cache in_store interest node
            ≡ ok (record {
              decision = decision_of func_name c ps node;
              fetches =
                  (if c.enable_computation
                    then []
                    else names.append (N.name (text "/Function")) func_name ∷ [])
                  ++ wanted node ps;
              node = counted (decision_of func_name c ps node) func_name c node;
            })
    unfolding with_function
    get_fetch_decisions_lem c stored h k =
        resolves
        ∙ ap
            (λ x. ok (
              with_function N names F cache in_store func_name
                (extract_data_names N false (names.parts interest)) x))
            (get_function-known (N.to_uri func_name) node c stored)
        ∙ ap ok (
            decide-decision_of func_name c (extract_data_names N false (names.parts interest)) node
              h k)

    -- Where the node does not have the function the decision is to refuse, with nothing to fetch, and
    -- the lookup leaves a null pointer for the function in the node's map.
    pub get_fetch_decisions_unknown :
        find (N.to_uri func_name) node.func_map ≡ none
        → (r : Resolution N names F) × (get_fetch_decisions N names F cache in_store interest node
            ≡ ok r)
          × (r.decision ≡ nack)
          × (r.fetches ≡ [])
          × (find (N.to_uri func_name) r.node.func_map ≡ some none)
    unfolding with_function
    get_fetch_decisions_unknown missing = (
      record {
        decision = nack;
        fetches = [];
        node = record node { func_map = (insert (N.to_uri func_name) none node.func_map).1 };
      },
      resolves
          ∙ ap
              (λ x. ok (
                with_function N names F cache in_store func_name
                  (extract_data_names N false (names.parts interest)) x))
              (get_function-new (N.to_uri func_name) node missing),
      refl,
      refl,
      ground (arith, missing, find-insert_new (N.to_uri func_name) none node.func_map),
    )

  -- For an interest of two or more parts in which no part follows `/Function`, `GetFetchDecisions`
  -- uses a null pointer.
  pub no_function_named :
      (interest : N.Name) (node : IncOrchestrationComputeNode N F)
      → ltb (length (names.parts interest)) 2 ≡ false
      → extract_function_name N (names.parts interest) ≡ none
      → get_fetch_decisions N names F cache in_store interest node ≡ err null_pointer
  unfolding get_fetch_decisions
  no_function_named interest node long unnamed = rw (long, get_fetch_decisions) (rw unnamed refl)

  -- A decision to execute goes with nothing to fetch, one to fetch with something.
  unfoldable pub is_complete : NreDecision → List N.Name → Bool
  is_complete nack fetches = true
  is_complete forward fetches = true
  is_complete execute fetches = not (some_in fetches)
  is_complete fetch fetches = some_in fetches

  some_in-length : (xs : List N.Name) → some_in xs ≡ not (length xs == 0)
  some_in-length [] = refl
  some_in-length (x ∷ xs) = ground arith

  decide-is_complete :
      (func_name : N.Name) (c : Computation N) (ps : List N.Name)
      (node : IncOrchestrationComputeNode N F)
      → length ps < u32
      → let r = decide N names F cache in_store func_name c ps node in
        is_complete r.decision r.fetches ≡ true
  unfolding decide is_complete
  decide-is_complete func_name c ps node k =
      rw (missing_data-wanted node ps)
        (ground (arith, k, length-wanted node ps, some_in-length (wanted node ps)))

  length-extract_data_names :
      (is_data : Bool) (ps : List N.Name) → length (extract_data_names N is_data ps) ≤ length ps
  unfolding extract_data_names
  length-extract_data_names is_data [] = omega arith
  length-extract_data_names is_data (p ∷ ps) = ground (
    arith,
    length-extract_data_names is_data ps,
    length-extract_data_names true ps,
    length-extract_data_names false ps,
  )

  looked_up :
      (f : N.Name) (ps : List N.Name) (x : Option (Computation N) × IncOrchestrationComputeNode N F)
      → length ps < u32
      → let r = with_function N names F cache in_store f ps x in
        is_complete r.decision r.fetches ≡ true
  unfolding with_function is_complete
  looked_up f ps (none, node) k = refl
  looked_up f ps (some c, node) k = decide-is_complete f c ps node k

  -- For every interest of fewer than 2³² parts and every node: where `GetFetchDecisions` returns, a
  -- decision to execute comes with no name to fetch, and a decision to fetch with at least one.
  pub get_fetch_decisions-is_complete :
      (interest : N.Name) (node : IncOrchestrationComputeNode N F) (r : Resolution N names F)
      → length (names.parts interest) < u32
      → get_fetch_decisions N names F cache in_store interest node ≡ ok r
      → is_complete r.decision r.fetches ≡ true
  unfolding get_fetch_decisions is_complete with_function
  get_fetch_decisions-is_complete interest node r k h =
      elim (Option-cases (extract_function_name N (names.parts interest))) [
        | inl e ↦ ground (arith, h, e)
        | inr (f, e) ↦
            let ps = extract_data_names N false (names.parts interest) in
            let q : with_function N names F cache in_store f ps (get_function (N.to_uri f) node)
                ≡ r =
              ground (arith, resolves interest node f e, h) in
            subst (λ x. is_complete x.decision x.fetches ≡ true) q
              (looked_up f ps (get_function (N.to_uri f) node) bound)
      ]
    where
      bound : length (extract_data_names N false (names.parts interest)) < u32
      bound = omega (arith, k, length-extract_data_names false (names.parts interest))
