-- ===== src/Producer/Arrivals.antt =====
-- Data that comes while every entry of the table that needs it needs other data too.
use inc_sim.Base.{
  ℕ, suc, ◌+◌, ◌≡◌, refl, sym, ap, ◌∙◌, Bool, true, false, ◌&&◌, Option, none, some, List, [], ◌∷◌,
  length, map, any, set, get_elem?, arith,
}
use inc_sim.Base.Turned.{
  turned, get_elem?-turned2, set-turned2, turned-again, length-turned, any-turned, map-turned,
}
use inc_sim.Base.Text.{Text, text, contains}
use inc_sim.Base.Outcome.{Outcome, ok, err, ◌>>=◌}
use inc_sim.Ndn.{Ndn, Nfd, NameParts}
use inc_sim.Boost.{Boost}
use inc_sim.Producer.{Job, Producer}
use inc_sim.Producer.Awaited.{find_arg, write_arg, all_came, erase_name}
use inc_sim.Producer.Fetches.{is_awaited}
use inc_sim.Producer.Resolve.{
  take_data, data_came, on_entry, on_entries, on_data, resolve_and_handle_decisions,
}

>>=-ok {ℓ} : {A : Type ℓ} (call : Outcome A) → (call >>= (λ a. ok a)) ≡ call
>>=-ok (ok a) = refl
>>=-ok (err fault) = refl

module _ (N : Ndn) where
  -- The name is noted as come.
  abbrev pub arrive : N.Name → Job N → Job N
  arrive x entry = record entry { pending_args = write_arg N x true entry.pending_args }

  -- The entry waits for the name and for nothing else.
  abbrev pub is_ready : N.Name → Job N → Bool
  is_ready x entry =
      is_awaited N x entry.pending_args && all_came N (write_arg N x true entry.pending_args)

  write_arg-absent :
      (x : N.Name) (args : List (N.Name × Bool))
      → is_awaited N x args ≡ false
      → write_arg N x true args ≡ args
  unfolding is_awaited find_arg write_arg
  write_arg-absent x [] h = refl
  write_arg-absent x ((y, came) ∷ args) h = ground (arith, write_arg-absent x args)

module _ {N : Ndn} {F : Nfd N} (names : NameParts N) (b : Boost) (queue_action : Text)
    (now : N.Double) (cache : Bool) (in_store : N.Name → Bool) where
  -- An entry that is not ready, at its place: its flag is set, if it has one.
  data_came-waits :
      (x : N.Name) (i : ℕ) (entry : Job N) (p : Producer N F) (came : Bool)
      → find_arg N x entry.pending_args ≡ some came
      → is_ready N x entry ≡ false
      → set p.pending_content_table i entry ≡ p.pending_content_table
      → data_came names b queue_action now cache in_store x i entry p
        ≡ ok (record p { pending_content_table = set p.pending_content_table i (arrive N x entry) })
  unfolding data_came is_awaited
  data_came-waits x i entry p true found waits same =
      let unchanged : arrive N x entry ≡ entry =
        ap (λ args. record entry { pending_args = args })
          (write_arg-absent N x entry.pending_args
            (unfold is_awaited in rw (is_awaited, found) refl)) in
      rw (data_came, found, unchanged, same) refl
  data_came-waits x i entry p false found waits same = ground (arith, found, waits)

  on_entry-waits :
      (x : N.Name) (i : ℕ) (entry : Job N) (p : Producer N F) (found : Option Bool)
      → find_arg N x entry.pending_args ≡ found
      → contains (text "/Function") (N.to_uri x) ≡ false
      → get_elem? p.pending_content_table i ≡ some entry
      → is_ready N x entry ≡ false
      → set p.pending_content_table i entry ≡ p.pending_content_table
      → on_entry names b queue_action now cache in_store x i p
        ≡ ok (record p { pending_content_table = set p.pending_content_table i (arrive N x entry) })
  unfolding on_entry take_data
  on_entry-waits x i entry p none e plain at waits same =
      let unchanged : arrive N x entry ≡ entry =
        ap (λ args. record entry { pending_args = args })
          (write_arg-absent N x entry.pending_args
            (unfold is_awaited in rw (is_awaited, e) refl)) in
      rw (on_entry, at, ◌>>=◌, e, unchanged, same) refl
  on_entry-waits x i entry p (some came) e plain at waits same =
      rw (on_entry, at, ◌>>=◌, e, plain) (data_came-waits x i entry p came e waits same)

  -- The rounds for entries that are not ready, down to the entries in front of them.
  on_entries-waits :
      (x : N.Name) (front before after : List (Job N)) (p : Producer N F)
      → contains (text "/Function") (N.to_uri x) ≡ false
      → p.pending_content_table ≡ turned front (turned before after)
      → any (is_ready N x) before ≡ false
      → on_entries names b queue_action now cache in_store x (length before + length front) p
        ≡ on_entries names b queue_action now cache in_store x (length front) (record p {
          pending_content_table = turned front (turned (map (arrive N x) before) after);
        })
  unfolding on_entries
  on_entries-waits x front [] after p plain table waits =
      let moved : 0 + length front ≡ length front = omega arith in
      ap (λ n. on_entries names b queue_action now cache in_store x n p) moved
      ∙ ap
          (λ t.
            on_entries names b queue_action now cache in_store x (length front)
              (record p { pending_content_table = t }))
          table
  on_entries-waits x front (entry ∷ before) after p plain table waits =
      let i = length before + length front in
      let after' = arrive N x entry ∷ after in
      let later : Producer N F = record p {
        pending_content_table = turned front (turned before after');
      } in
      let moved : suc (length before) + length front ≡ suc i = omega arith in
      let at : get_elem? p.pending_content_table i ≡ some entry =
        rw table (get_elem?-turned2 front before (entry ∷ after)) in
      let written : (e : Job N)
          → set p.pending_content_table i e ≡ turned front (turned before (e ∷ after)) =
        λ e. rw table (set-turned2 front before (entry ∷ after) e) in
      ap (λ n. on_entries names b queue_action now cache in_store x n p) moved
      ∙ rw
          (on_entry-waits x i entry p (find_arg N x entry.pending_args) refl plain at
              (ground (arith, waits)) (written entry ∙ sym table)
            ∙ ap (λ t. ok (record p { pending_content_table = t })) (written (arrive N x entry)))
          (on_entries-waits x front before after' later plain refl (ground (arith, waits)))

  -- Let data whose URI does not contain `/Function` come to an active app, no entry waiting for it
  -- alone. Then `OnData` succeeds: it notes the data as come in every entry that waits for it,
  -- takes its name off the list of interests that are out, and changes nothing else.
  pub on_data_waits :
      (x : N.Name) (p : Producer N F)
      → contains (text "/Function") (N.to_uri x) ≡ false
      → any (is_ready N x) p.pending_content_table ≡ false
      → on_data names b queue_action now cache in_store true x p
        ≡ ok (record p {
          pending_content_table = map (arrive N x) p.pending_content_table;
          sending_interest_list = erase_name N x p.sending_interest_list;
        })
  unfolding on_data
  on_data_waits x p plain waits =
      let table = p.pending_content_table in
      let q : Producer N F = record p {
        sending_interest_list = erase_name N x p.sending_interest_list;
      } in
      let before = turned table [] in
      let size : length table ≡ length before + 0 = omega (arith, length-turned table []) in
      let none_ready : any (is_ready N x) before ≡ false =
        ground (arith, any-turned (is_ready N x) table [], waits) in
      ap (λ n. on_entries names b queue_action now cache in_store x n q) size
      ∙ on_entries-waits x [] before [] q plain (sym (turned-again table [])) none_ready
      ∙ ap (λ t. ok (record q { pending_content_table = t }))
          (sym (map-turned (arrive N x) before []) ∙ ap (map (arrive N x)) (turned-again table []))

  -- The entry at the front, if the data is all that it waits for.
  on_entry-ready :
      (x : N.Name) (entry : Job N) (rest : List (Job N)) (p : Producer N F) (found : Option Bool)
      → find_arg N x entry.pending_args ≡ found
      → contains (text "/Function") (N.to_uri x) ≡ false
      → p.pending_content_table ≡ entry ∷ rest
      → is_ready N x entry ≡ true
      → on_entry names b queue_action now cache in_store x 0 p
        ≡ resolve_and_handle_decisions names b queue_action now cache in_store
            (arrive N x entry)
            (record p { pending_content_table = arrive N x entry ∷ rest })
  unfolding on_entry take_data data_came is_awaited
  on_entry-ready x entry rest p none e plain table ready = ground (arith, e, ready)
  on_entry-ready x entry rest p (some true) e plain table ready = ground (arith, e, ready)
  on_entry-ready x entry rest p (some false) e plain table ready =
      let all : all_came N (write_arg N x true entry.pending_args) ≡ true =
        ground (arith, e, ready) in
      rw (on_entry, table, ◌>>=◌, e, plain, data_came, e, all)
        (ap
          (λ t.
            resolve_and_handle_decisions names b queue_action now cache in_store (arrive N x entry)
              (record p { pending_content_table = set t 0 (arrive N x entry) }))
          table)

  -- Let data whose URI does not contain `/Function` come to an active app, and let the entry at the
  -- front of the table wait for it alone, but no other one. Then `OnData` notes the data as come in
  -- every entry that waits for it, takes its name off the list of interests that are out, and
  -- resolves the interest of the entry at the front.
  pub on_data_ready :
      (x : N.Name) (entry : Job N) (rest : List (Job N)) (p : Producer N F)
      → contains (text "/Function") (N.to_uri x) ≡ false
      → p.pending_content_table ≡ entry ∷ rest
      → is_ready N x entry ≡ true
      → any (is_ready N x) rest ≡ false
      → on_data names b queue_action now cache in_store true x p
        ≡ resolve_and_handle_decisions names b queue_action now cache in_store
            (arrive N x entry)
            (record p {
              pending_content_table = map (arrive N x) (entry ∷ rest);
              sending_interest_list = erase_name N x p.sending_interest_list;
            })
  unfolding on_data on_entries
  on_data_ready x entry rest p plain table ready waits =
      let q : Producer N F = record p {
        sending_interest_list = erase_name N x p.sending_interest_list;
      } in
      let before = turned rest [] in
      let size : length p.pending_content_table ≡ length before + 1 =
        rw table (omega (arith, length-turned rest [])) in
      let none_ready : any (is_ready N x) before ≡ false =
        ground (arith, any-turned (is_ready N x) rest [], waits) in
      let marked : turned (map (arrive N x) before) [] ≡ map (arrive N x) rest =
        sym (map-turned (arrive N x) before []) ∙ ap (map (arrive N x)) (turned-again rest []) in
      let r : Producer N F = record q {
        pending_content_table = entry ∷ turned (map (arrive N x) before) [];
      } in
      ap (λ n. on_entries names b queue_action now cache in_store x n q) size
      ∙ on_entries-waits x (entry ∷ []) before [] q plain
          (table ∙ ap (λ t. entry ∷ t) (sym (turned-again rest []))) none_ready
      ∙ >>=-ok (on_entry names b queue_action now cache in_store x 0 r)
      ∙ on_entry-ready x entry (turned (map (arrive N x) before) []) r
          (find_arg N x entry.pending_args) refl plain refl ready
      ∙ ap
          (λ t.
            resolve_and_handle_decisions names b queue_action now cache in_store (arrive N x entry)
              (record q { pending_content_table = arrive N x entry ∷ t }))
          marked
