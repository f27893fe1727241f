-- ===== src/Producer/Resolve.antt =====
-- `ResolveAndHandleDecisions`, `OnInterest` and `OnData` of NFN-producer-app.cpp: the decision about
-- an interest, the content that is fetched for it, and the data that comes.
use inc_sim.Base.{
  ℕ, zero, suc, Bool, true, not, none, some, List, [], ◌∷◌, ◌++◌, if◌then◌else◌, set, length,
}
use inc_sim.Base.Text.{Text, text, contains}
use inc_sim.Base.Outcome.{Outcome, ok, err, null_pointer, ◌>>=◌, index}
use inc_sim.Ndn.{Ndn, Nfd, NameParts, sub_name}
use inc_sim.Boost.{Boost}
use inc_sim.Node.{IncOrchestrationComputeNode}
use inc_sim.Node.Functions.{enable_function, get_function}
use inc_sim.Node.Excluded.{check_exclude_list}
use inc_sim.Engine.{nack, fetch, execute, forward, get_fetch_decisions}
use inc_sim.Producer.Awaited.{
  has_name, erase_name, find_arg, write_arg, await_all, all_came, function_keys, last_key,
}
use inc_sim.Producer.{
  Job, Producer, data_sent, interest_sent, no_route, forwarded, use_func, delete_pending,
  handle_execute,
}

module _ {N : Ndn} {F : Nfd N} where
  -- One round of the loop over the names to fetch: an interest is sent unless one is out already.
  unfoldable pub fetch_name : N.Name → Producer N F → Producer N F
  unfolding has_name
  fetch_name x p = if has_name N x p.sending_interest_list then p else record p {
    sending_interest_list = x ∷ p.sending_interest_list;
    outputs = p.outputs ++ interest_sent x ∷ [];
  }

  unfoldable pub fetch_names : List N.Name → Producer N F → Producer N F
  unfolding fetch_name
  fetch_names [] p = p
  fetch_names (x ∷ xs) p = fetch_names xs (fetch_name x p)

  -- The branch for the decision to fetch.
  unfoldable pub handle_fetch : List N.Name → Job N → Producer N F → Producer N F
  unfolding fetch_names await_all
  handle_fetch names job p =
      let p' = fetch_names names p in
      record p' {
        pending_content_table =
            record job { pending_args = await_all N names job.pending_args }
            ∷ p'.pending_content_table;
      }

  module _ (names : NameParts N) (b : Boost) (queue_action : Text) (now : N.Double) (cache : Bool)
      (in_store : N.Name → Bool) where
    unfoldable pub resolve_and_handle_decisions : Job N → Producer N F → Outcome (Producer N F)
    unfolding get_fetch_decisions use_func check_exclude_list handle_fetch handle_execute
    resolve_and_handle_decisions job p = do
      result ← get_fetch_decisions N names F cache in_store job.interest p.node
      let p' : Producer N F = record p { node = result.node }
      func ← use_func job.func p'.node
      let decision =
          if check_exclude_list (N.to_uri func.computation_name) p'.node
          then forward
          else result.decision
      elim decision [
        | nack ↦ ok (record p' { outputs = p'.outputs ++ no_route job.interest ∷ [] })
        | fetch ↦ ok (handle_fetch result.fetches job p')
        | forward ↦ ok (record p' { outputs = p'.outputs ++ forwarded job.interest ∷ [] })
        | execute ↦ handle_execute queue_action now job p'
      ]

    abbrev look_up : List Text → IncOrchestrationComputeNode N F → IncOrchestrationComputeNode N F
    look_up [] node = node
    look_up (key ∷ keys) node = look_up keys (get_function key node).1

    -- What follows the lookup of the functions that the name of the interest has: `m_func` is the last
    -- one, and a null pointer if there is none. Each lookup of an unknown one leaves a null pointer.
    unfoldable pub on_keys : List Text → N.Name → Producer N F → Outcome (Producer N F)
    unfolding resolve_and_handle_decisions get_function
    on_keys keys interest p =
        let p' : Producer N F = record p { node = look_up keys p.node } in
        elim (last_key keys) [
          | none ↦
              get_fetch_decisions N names F cache in_store interest p'.node
              >>= (λ result. err null_pointer)
          | some key ↦
              resolve_and_handle_decisions
                (record { interest = interest; func = key; pending_args = [] }) p'
        ]

    -- `OnInterest` for an interest to compute.
    unfoldable pub on_lambda : N.Name → Producer N F → Outcome (Producer N F)
    unfolding on_keys function_keys
    on_lambda interest p = on_keys (function_keys N (names.parts interest)) interest p

    -- `OnInterest` for a function that is to be sent to another node.
    unfoldable pub on_code_drag : N.Name → Producer N F → Outcome (Producer N F)
    unfolding get_function
    on_code_drag interest p =
        let found = get_function (N.to_uri (sub_name names 1 interest)) p.node in
        let p' : Producer N F = record p { node = found.1 } in
        elim found.0 [
          | none ↦ ok p'
          | some func ↦
              if func.enable_computation
              then ok (record p' { outputs = p'.outputs ++ data_sent interest ∷ [] })
              else ok p'
        ]

    unfoldable pub on_interest : Bool → N.Name → Producer N F → Outcome (Producer N F)
    unfolding on_lambda on_code_drag
    on_interest active interest p =
        if not active
        then ok p
        else if N.name_eq (sub_name names 0 interest) (N.name (text "/lambda"))
        then on_lambda interest p
        else if N.name_eq (sub_name names 0 interest) (N.name (text "/Function"))
        then on_code_drag interest p
        else ok (record p { outputs = p.outputs ++ data_sent interest ∷ [] })

    -- Data that is a function has it enabled; anything else is taken as it is.
    unfoldable pub take_data : N.Name → Producer N F → Outcome (Bool × Producer N F)
    unfolding enable_function
    take_data data_name p =
        if contains (text "/Function") (N.to_uri data_name)
        then (do
          r ← enable_function b (N.to_uri (sub_name names 1 data_name)) p.node
          let taken : Bool × Producer N F = (r.0, record p { node = r.1 })
          ok taken)
        else ok (true, p)

    -- The entry at position `i`, which awaits the data, if it did not come before.
    unfoldable pub data_came : N.Name → ℕ → Job N → Producer N F → Outcome (Producer N F)
    unfolding write_arg all_came find_arg resolve_and_handle_decisions
    data_came data_name i entry p = elim (find_arg N data_name entry.pending_args) [
      | none ↦ ok p
      | some came ↦
          let entry' : Job N = record entry {
            pending_args = write_arg N data_name true entry.pending_args;
          } in
          let p' : Producer N F = record p {
            pending_content_table = set p.pending_content_table i entry';
          } in
          if came
          then ok p
          else if all_came N entry'.pending_args
          then resolve_and_handle_decisions entry' p'
          else ok p'
    ]

    -- One round of the loop over the table.
    unfoldable pub on_entry : N.Name → ℕ → Producer N F → Outcome (Producer N F)
    unfolding find_arg take_data data_came
    on_entry data_name i p = do
      entry ← index p.pending_content_table i
      elim (find_arg N data_name entry.pending_args) [
        | none ↦ ok p
        | some came ↦ do
          taken ← take_data data_name p
          (if taken.0
              then data_came data_name i entry taken.1
              else ok (record taken.1 {
                pending_content_table = delete_pending entry taken.1.pending_content_table;
              }))
      ]

    -- The rounds from position `i - 1` down to 0.
    unfoldable pub on_entries : N.Name → ℕ → Producer N F → Outcome (Producer N F)
    unfolding on_entry
    on_entries data_name zero p = ok p
    on_entries data_name (suc i) p = do p' ← on_entry data_name i p; on_entries data_name i p'

    unfoldable pub on_data : Bool → N.Name → Producer N F → Outcome (Producer N F)
    unfolding on_entries erase_name
    on_data active data_name p =
        if not active
        then ok p
        else on_entries data_name (length p.pending_content_table)
            (record p { sending_interest_list = erase_name N data_name p.sending_interest_list })
