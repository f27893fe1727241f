-- ===== src/Producer/Tests.antt =====
-- Tests of the accounts of a node, of what it fetches, of data that comes and of an unknown function.
use inc_sim.Base.{map, ◌≡◌, refl, true, false, none, some, List, [], ◌∷◌, arith, if◌then◌else◌}
use inc_sim.Base.Text.{Text, text, text_eq, text_eq_iff, contains, is_prefix}
use inc_sim.Base.Outcome.{ok, err, null_pointer}
use inc_sim.Base.Table.{find}
use inc_sim.Base.Gives.{Succeeds}
use inc_sim.Ndn.{plain_names}
use inc_sim.Boost.{plain_split, split_text}
use inc_sim.Samples.{compute_node, plain_fib, plain_parts}
use inc_sim.Producer.{Job, Producer}
use inc_sim.Producer.Needs.{Needs, needs_of, sum_ram, sum_cores, all_known}
use inc_sim.Producer.Accounts.{Accounts, CanPush}
use inc_sim.Producer.Awaited.{has_name, find_arg, write_arg, all_came, function_keys, erase_name}
use inc_sim.Producer.Resolve.{handle_fetch, on_interest, on_data, resolve_and_handle_decisions}
use inc_sim.Producer.Fetches.{NameLaws, sent_count, is_awaited, handle_fetch_lem}
use inc_sim.Producer.Arrivals.{arrive, on_data_waits, on_data_ready}
use inc_sim.Producer.Unknown.{on_interest_unknown}
use inc_sim.Producer.Runs.{Event, request, end, events_known, run, run-Accounts}

abbrev idle : Producer plain_names plain_fib
idle = record {
  node = record compute_node { queue_fill = 0 };
  waiting_list = [];
  pending_content_table = [];
  sending_interest_list = [];
  scheduled = [];
  outputs = [];
}

abbrev f1_needs : Text → Needs
f1_needs key = if text_eq (text "/f1") key then some (20, 1) else none

idle-Accounts : Accounts f1_needs 100 4 3 idle
idle-Accounts =
    unfold needs_of find sum_ram sum_cores all_known in
    record {
      needs = λ key. needs key;
      ram = refl;
      cores = refl;
      sized = refl;
      fill = refl;
      within = omega arith;
      running = refl;
      waiting = refl;
    }
  where
    needs : (key : Text) → needs_of key idle.node.func_map ≡ f1_needs key
    needs key = unfold needs_of find in ground arith

abbrev job : Text → Job plain_names
job name = record { interest = name; func = text "/f1"; pending_args = [] }

-- Four executions take all cores, the fifth waits until the second has ended.
abbrev events : List (Event plain_names)
events =
    request 1 (job (text "/a"))
    ∷ request 2 (job (text "/b"))
    ∷ request 3 (job (text "/c"))
    ∷ request 4 (job (text "/d"))
    ∷ request 5 (job (text "/e"))
    ∷ end 6 1
    ∷ end 7 0
    ∷ []

events_known_test : events_known f1_needs events ≡ true
unfolding events_known text_eq
events_known_test = refl

no_push : CanPush (text "forward") 3
unfolding text_eq
no_push = refl

run-Accounts_example : Succeeds (Accounts f1_needs 100 4 3) (run (text "forward") events idle)
run-Accounts_example =
    run-Accounts (text "forward") f1_needs 100 4 3 (omega arith) (omega arith) no_push events idle
      idle-Accounts events_known_test

plain_names-NameLaws : NameLaws plain_names
plain_names-NameLaws = record { name_eq_iff = text_eq_iff }

-- Of `/x` and `/y`, which are to be fetched, `/y` is out already.
abbrev fetching : Producer plain_names plain_fib
fetching = record idle { sending_interest_list = text "/y" ∷ [] }

abbrev content : List Text
content = text "/x" ∷ text "/y" ∷ text "/x" ∷ []

handle_fetch_lem_example :
    let p' = handle_fetch content (job (text "/a")) fetching in
    (sent_count plain_names (text "/x") p'.outputs ≡ 1)
    × (has_name plain_names (text "/x") p'.sending_interest_list ≡ true)
    × ((entry : Job plain_names) × (p'.pending_content_table ≡ entry ∷ [])
        × (is_awaited plain_names (text "/x") entry.pending_args ≡ true))
unfolding has_name text_eq sent_count is_awaited find_arg
handle_fetch_lem_example =
    handle_fetch_lem plain_names-NameLaws (text "/x") content (job (text "/a")) fetching

on_interest_unknown_example :
    on_interest plain_parts plain_split
      (text "nack")
      0
      false
      (λ name. true)
      true
      (text "/lambda/Function/f9/Data/d1")
      idle
    ≡ err null_pointer
unfolding text_eq find split_text function_keys
on_interest_unknown_example =
    on_interest_unknown plain_parts plain_split (text "nack") 0 false (λ name. true)
      (text "/lambda/Function/f9/Data/d1") (text "/lambda") (text "/Function") (text "/f9")
      (text "/Data" ∷ text "/d1" ∷ []) idle refl refl refl refl refl refl

-- An entry that waits for `/x`, and one that waits for `/x` and `/y`.
abbrev waits_one : Job plain_names
waits_one = record (job (text "/a")) { pending_args = (text "/x", false) ∷ [] }

abbrev waits_two : Job plain_names
waits_two = record (job (text "/b")) { pending_args = (text "/x", false) ∷ (text "/y", false) ∷ [] }

abbrev awaiting : List (Job plain_names) → Producer plain_names plain_fib
awaiting table = record idle {
  pending_content_table = table;
  sending_interest_list = text "/x" ∷ text "/y" ∷ [];
}

on_data_waits_example :
    on_data plain_parts plain_split
      (text "nack")
      0
      false
      (λ name. true)
      true
      (text "/x")
      (awaiting (waits_two ∷ []))
    ≡ ok (record (awaiting (waits_two ∷ [])) {
      pending_content_table = map (arrive plain_names (text "/x")) (waits_two ∷ []);
      sending_interest_list =
          erase_name plain_names (text "/x") (awaiting (waits_two ∷ [])).sending_interest_list;
    })
unfolding contains text_eq is_awaited find_arg write_arg all_came is_prefix
on_data_waits_example =
    on_data_waits plain_parts plain_split (text "nack") 0 false (λ name. true) (text "/x")
      (awaiting (waits_two ∷ [])) refl refl

on_data_ready_example :
    on_data plain_parts plain_split
      (text "nack")
      0
      false
      (λ name. true)
      true
      (text "/x")
      (awaiting (waits_one ∷ waits_two ∷ []))
    ≡ resolve_and_handle_decisions plain_parts plain_split
        (text "nack")
        0
        false
        (λ name. true)
        (arrive plain_names (text "/x") waits_one)
        (record (awaiting (waits_one ∷ waits_two ∷ [])) {
          pending_content_table = map (arrive plain_names (text "/x")) (waits_one ∷ waits_two ∷ []);
          sending_interest_list =
              erase_name plain_names
                (text "/x")
                (awaiting (waits_one ∷ waits_two ∷ [])).sending_interest_list;
        })
unfolding contains text_eq is_awaited find_arg write_arg all_came is_prefix
on_data_ready_example =
    on_data_ready plain_parts plain_split (text "nack") 0 false (λ name. true) (text "/x") waits_one
      (waits_two ∷ []) (awaiting (waits_one ∷ waits_two ∷ [])) refl refl refl refl
