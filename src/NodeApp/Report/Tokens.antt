-- ===== src/NodeApp/Report/Tokens.antt =====
-- The tokens of a status, and what `BootstrapPhaseHandler` reads from them.
use inc_sim.Base.{
  ℕ, ◌≡◌, refl, ◌∙◌, Bool, true, false, ◌&&◌, List, [], ◌∷◌, ◌++◌, if◌then◌else◌, ltb, arith, map,
}
use mathlib.Core.List.{append-nil, append_assoc}
use inc_sim.Base.Text.{Text, text, text_eq, joined, slashed}
use inc_sim.Base.Outcome.{Outcome, ok, >>=-eq-ok}
use inc_sim.Base.Number.{to_string, int_limit}
use inc_sim.Ndn.{Ndn}
use inc_sim.Boost.{Boost, SplitLaws, free_of, free_of-Without, free_of-to_string, split-joined}
use inc_sim.Computation.{Computation}
use inc_sim.Storage.{DataInfo, ComputeNode}
use inc_sim.Messages.{advance_one, parse_data, parse_data_list}
use inc_sim.Messages.Bootstrap.{add_data, bootstrap_field, bootstrap_token}
use inc_sim.NodeApp.Report.Functions.{
  read, then_split, all_reportable, stored_function, reports, with_functions,
  parse_functions-reports, reports-free_of, reports-AllWithout,
}

-- Neither of the two separators of fields occurs.
abbrev pub is_field : Text → Bool
is_field s = free_of b';' s && free_of b'=' s

module _ (N : Ndn) (b : Boost) where
  -- The data that a text of provided data stands for.
  abbrev pub stored_data : Text → Outcome (List (DataInfo N))
  stored_data s = if text_eq s (text "null") then ok [] else parse_data_list N b (b.split b',' s)

module _ {N : Ndn} (b : Boost) (laws : SplitLaws b) where
  add_data-parsed :
      (es : List Text) (ds : List (DataInfo N)) (n : ComputeNode N)
      → parse_data_list N b es ≡ ok ds
      → add_data N b es n
        ≡ ok (record n { data_initial = n.data_initial ++ ds; data_current = n.data_current ++ ds })
  unfolding add_data parse_data_list
  add_data-parsed [] ds n h =
      ground (arith, h, append-nil n.data_initial, append-nil n.data_current)
  add_data-parsed (e ∷ es) ds n h =
      let (d, p, q) = >>=-eq-ok (parse_data N b e) _ h in
      let (ds', r, s) = >>=-eq-ok (parse_data_list N b es) _ q in
      let n' = record n {
        data_initial = n.data_initial ++ d ∷ [];
        data_current = n.data_current ++ d ∷ [];
      } in
      rw p (
        add_data-parsed es ds' n' r
        ∙ ground (
          arith,
          s,
          append_assoc n.data_initial (d ∷ []) ds',
          append_assoc n.data_current (d ∷ []) ds',
        ))

  -- A token `key=value`.
  bootstrap_token-field :
      (key value : Text) (n : ComputeNode N)
      → free_of b'=' key ≡ true
      → free_of b'=' value ≡ true
      → bootstrap_token N b (key ++ (b'=' ∷ value)) n ≡ bootstrap_field N b key (key ∷ value ∷ []) n
  unfolding bootstrap_token
  bootstrap_token-field key value n h k =
      rw
        (then_split b laws b'=' key value (value ∷ []) h
          (laws.split_part b'=' value (free_of-Without b'=' value k)))
        refl

  -- The same of a number.
  bootstrap_token-number :
      (key : Text) (k : ℕ) (n : ComputeNode N)
      → free_of b'=' key ≡ true
      → bootstrap_token N b (key ++ (b'=' ∷ to_string k)) n
        ≡ bootstrap_field N b key (key ∷ to_string k ∷ []) n
  bootstrap_token-number key k n h =
      bootstrap_token-field key (to_string k) n h (free_of-to_string b'=' k refl)

  pub name_token :
      (label : Text) (n : ComputeNode N)
      → free_of b'=' label ≡ true
      → bootstrap_token N b (text "name=/" ++ label) n
        ≡ ok (record n { node_name = N.name (b'/' ∷ label) })
  unfolding bootstrap_field text_eq
  name_token label n h = bootstrap_token-field (text "name") (b'/' ∷ label) n refl h ∙ refl

  pub core_token :
      (k : ℕ) (n : ComputeNode N)
      → ltb k int_limit ≡ true
      → bootstrap_token N b (text "processor_core=" ++ to_string k) n
        ≡ ok (record n { cpu = (k, k) })
  unfolding bootstrap_field text_eq
  core_token k n h = bootstrap_token-number (text "processor_core") k n refl ∙ rw (read k h) refl

  pub type_token :
      (k : ℕ) (n : ComputeNode N)
      → bootstrap_token N b (text "processor_type=" ++ to_string k) n ≡ ok n
  unfolding bootstrap_field text_eq
  type_token k n = bootstrap_token-number (text "processor_type") k n refl ∙ refl

  pub ram_token :
      (k : ℕ) (n : ComputeNode N)
      → ltb k int_limit ≡ true
      → bootstrap_token N b (text "RAM=" ++ to_string k) n ≡ ok (record n { ram = (k, k) })
  unfolding bootstrap_field text_eq
  ram_token k n h = bootstrap_token-number (text "RAM") k n refl ∙ rw (read k h) refl

  pub rom_token :
      (k : ℕ) (n : ComputeNode N)
      → ltb k int_limit ≡ true
      → bootstrap_token N b (text "ROM=" ++ to_string k) n ≡ ok (record n { rom = (k, k) })
  unfolding bootstrap_field text_eq
  rom_token k n h = bootstrap_token-number (text "ROM") k n refl ∙ rw (read k h) refl

  pub links_token :
      (v : Text) (n : ComputeNode N)
      → free_of b'=' v ≡ true
      → bootstrap_token N b (text "links=" ++ v) n
        ≡ ok (record n { links = (b.split b',' v, b.split b',' v) })
  unfolding bootstrap_field text_eq
  links_token v n h = bootstrap_token-field (text "links") v n refl h ∙ refl

  pub runtimes_token :
      (v : Text) (n : ComputeNode N)
      → free_of b'=' v ≡ true
      → bootstrap_token N b (text "runtimes=" ++ v) n
        ≡ ok (record n { runtimes_supported = (b.split b',' v, b.split b',' v) })
  unfolding bootstrap_field text_eq
  runtimes_token v n h = bootstrap_token-field (text "runtimes") v n refl h ∙ refl

  pub busy_token :
      (k : ℕ) (n : ComputeNode N)
      → bootstrap_token N b (text "node_busy_counter=" ++ to_string k) n
        ≡ ok (record n { node_busy_counter = (0, 0) })
  unfolding bootstrap_field text_eq
  busy_token k n = bootstrap_token-number (text "node_busy_counter") k n refl ∙ refl

  pub data_token :
      (v : Text) (ds : List (DataInfo N)) (n : ComputeNode N)
      → free_of b'=' v ≡ true
      → stored_data N b v ≡ ok ds
      → bootstrap_token N b (text "data=" ++ v) n
        ≡ ok (record n { data_initial = n.data_initial ++ ds; data_current = n.data_current ++ ds })
  unfolding bootstrap_field text_eq
  data_token v ds n h e =
      bootstrap_token-field (text "data") v n refl h ∙ absent_or_not (text_eq v (text "null")) e
    where
      absent_or_not :
          (absent : Bool)
          → (if absent then ok [] else parse_data_list N b (b.split b',' v)) ≡ ok ds
          → (if absent then ok n else add_data N b (b.split b',' v) n)
            ≡ ok (record n {
              data_initial = n.data_initial ++ ds;
              data_current = n.data_current ++ ds;
            })
      absent_or_not true e = unfold add_data parse_data_list in add_data-parsed [] ds n e
      absent_or_not false e = add_data-parsed (b.split b',' v) ds n e

  pub functions_token :
      (fs : List (Text × Computation N)) (n : ComputeNode N)
      → all_reportable fs ≡ true
      → bootstrap_token N b (text "functions=" ++ joined (slashed (reports fs))) n
        ≡ ok (with_functions (map (stored_function b) fs) n)
  unfolding bootstrap_field text_eq advance_one
  functions_token fs n h =
      bootstrap_token-field (text "functions") (joined (slashed (reports fs))) n refl
        (reports-free_of b'=' refl refl fs refl (λ p c k. ground (arith, k)) h)
      ∙ rw (split-joined b laws [] (reports fs) tt (reports-AllWithout fs h))
          (parse_functions-reports b laws fs n h)
