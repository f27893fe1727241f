-- ===== src/Producer/Unknown.antt =====
-- An interest for a function that the node does not have.
use inc_sim.Base.{◌≡◌, refl, ap, ◌∙◌, Bool, true, false, none, some, List, [], ◌∷◌, arith}
use inc_sim.Base.Text.{Text, text}
use inc_sim.Base.Table.{find, find-insert_new}
use inc_sim.Base.Outcome.{ok, err, null_pointer}
use inc_sim.Ndn.{Ndn, Nfd, NameParts, part_at}
use inc_sim.Boost.{Boost}
use inc_sim.Node.{IncOrchestrationComputeNode}
use inc_sim.Node.Functions.{get_function}
use inc_sim.Engine.{NreDecision, nack, with_function, get_fetch_decisions, extract_function_name}
use inc_sim.Producer.{Job, Producer, use_func}
use inc_sim.Producer.Awaited.{function_keys}
use inc_sim.Producer.Resolve.{on_keys, on_lambda, on_interest, resolve_and_handle_decisions}

module _ {N : Ndn} {F : Nfd N} where
  -- A lookup of an unknown function leaves a null pointer.
  lookup_leaves_null :
      (key : Text) (node : IncOrchestrationComputeNode N F)
      → find key node.func_map ≡ none
      → find key (get_function key node).1.func_map ≡ some none
  unfolding get_function
  lookup_leaves_null key node e = rw (e, get_function) (find-insert_new key none node.func_map e)

  -- The next lookup finds it and changes nothing, and an access to the function is one through it.
  null_is_found :
      (key : Text) (node : IncOrchestrationComputeNode N F)
      → find key node.func_map ≡ some none
      → (get_function key node ≡ (none, node)) × (use_func key node ≡ err null_pointer)
  unfolding get_function use_func
  null_is_found key node e = (rw (e, get_function) refl, rw (e, use_func) refl)

  module _ (names : NameParts N) (b : Boost) (queue_action : Text) (now : N.Double) (cache : Bool)
      (in_store : N.Name → Bool) where
    decision_for_null :
        (interest l fn f : N.Name) (ps : List N.Name) (node : IncOrchestrationComputeNode N F)
        → names.parts interest ≡ l ∷ fn ∷ f ∷ ps
        → N.name_eq l (N.name (text "/Function")) ≡ false
        → N.name_eq fn (N.name (text "/Function")) ≡ true
        → find (N.to_uri f) node.func_map ≡ some none
        → get_fetch_decisions N names F cache in_store interest node
          ≡ ok (record { decision = nack; fetches = []; node = node })
    unfolding get_fetch_decisions extract_function_name with_function
    decision_for_null interest l fn f ps node e other function null =
        rw e (rw other (rw function (rw (null_is_found (N.to_uri f) node null).0 (ground arith))))

    resolve_null :
        (job : Job N) (decision : NreDecision) (p : Producer N F)
        → get_fetch_decisions N names F cache in_store job.interest p.node
          ≡ ok (record { decision = decision; fetches = []; node = p.node })
        → find job.func p.node.func_map ≡ some none
        → resolve_and_handle_decisions names b queue_action now cache in_store job p
          ≡ err null_pointer
    unfolding resolve_and_handle_decisions
    resolve_null job decision p e null = rw e (rw (null_is_found job.func p.node null).1 refl)

    one_function :
        (interest l fn f : N.Name) (ps : List N.Name) (p : Producer N F)
        → names.parts interest ≡ l ∷ fn ∷ f ∷ ps
        → N.name_eq l (N.name (text "/Function")) ≡ false
        → N.name_eq fn (N.name (text "/Function")) ≡ true
        → function_keys N (f ∷ ps) ≡ []
        → on_lambda names b queue_action now cache in_store interest p
          ≡ resolve_and_handle_decisions names b queue_action now cache in_store
              (record { interest = interest; func = N.to_uri f; pending_args = [] })
              (record p { node = (get_function (N.to_uri f) p.node).1 })
    unfolding on_lambda
    one_function interest l fn f ps p e other function last =
        ap (λ ks. on_keys names b queue_action now cache in_store ks interest p)
          (ap (function_keys N) e ∙ keys)
        ∙ (unfold on_keys in refl)
      where
        keys : function_keys N (l ∷ fn ∷ f ∷ ps) ≡ N.to_uri f ∷ []
        keys = unfold function_keys in rw other (rw function (ap (λ r. N.to_uri f ∷ r) last))

    -- Let an interest have the parts `/lambda`, `/Function` and `f`, with no part `/Function` behind
    -- them, and let the node not have the function `f`. Then `OnInterest` of an active app uses a
    -- null pointer: the exclude list is asked for the name of the function before the decision to
    -- refuse is looked at.
    pub on_interest_unknown :
        (interest l fn f : N.Name) (ps : List N.Name) (p : Producer N F)
        → names.parts interest ≡ l ∷ fn ∷ f ∷ ps
        → N.name_eq l (N.name (text "/lambda")) ≡ true
        → N.name_eq l (N.name (text "/Function")) ≡ false
        → N.name_eq fn (N.name (text "/Function")) ≡ true
        → function_keys N (f ∷ ps) ≡ []
        → find (N.to_uri f) p.node.func_map ≡ none
        → on_interest names b queue_action now cache in_store true interest p ≡ err null_pointer
    unfolding on_interest
    on_interest_unknown interest l fn f ps p e lambda other function last unknown =
        let key = N.to_uri f in
        let p' : Producer N F = record p { node = (get_function key p.node).1 } in
        let null = lookup_leaves_null key p.node unknown in
        rw (ap (part_at names 0) e) (
          rw lambda (
            one_function interest l fn f ps p e other function last
            ∙ resolve_null (record { interest = interest; func = key; pending_args = [] }) nack p'
                (decision_for_null interest l fn f ps p'.node e other function null) null))
