-- ===== src/Messages/Status/Keeps.antt =====
-- `NodeStatusFetchHandler` keeps what Frame describes, whatever the message.
use inc_sim.Base.{ℕ, ◌≡◌, subst, Bool, false, List, [], ◌∷◌, arith}
use inc_sim.Base.Text.{Text, text, text_eq}
use inc_sim.Base.Outcome.{ok, >>=-eq-ok, index}
use inc_sim.Base.Gives.{Gives, Gives-ok, Gives-if, Gives-bind}
use inc_sim.Ndn.{Ndn}
use inc_sim.Boost.{Boost}
use inc_sim.Storage.{Nodes, DataInfo}
use inc_sim.Storage.NodeInfo.{
  set_node_ram, set_node_rom, set_node_cpu, set_node_busy_counter, set_node_links,
  set_node_runtimes, set_node_data_list,
}
use inc_sim.Storage.Functions.{
  set_func_name, set_func_exe_counter, set_func_interest_counter, set_func_status, set_func_cpu,
  set_func_ram, set_func_rom, set_func_size, set_func_inputs,
}
use inc_sim.Messages.{number_at}
use inc_sim.Messages.Status.{
  status_writes, status_function, status_functions, status_field, status_token, status_tokens,
  node_status_fetch_handler,
}
use inc_sim.Messages.Status.Frame.{
  Kept, Kept-refl, Kept-trans, modify-Kept, modify_func-Kept, set_func_inputs-Kept,
}

module _ {N : Ndn} (id : Text) (s t : Nodes N) (k : Kept s t) where
  keep_ram : (v : ℕ) → Kept s (set_node_ram id v false t).1
  unfolding set_node_ram
  keep_ram v = Kept-trans s t _ k (modify-Kept id _ t (λ n. ground arith))

  keep_rom : (v : ℕ) → Kept s (set_node_rom id v false t).1
  unfolding set_node_rom
  keep_rom v = Kept-trans s t _ k (modify-Kept id _ t (λ n. ground arith))

  keep_cpu : (v : ℕ) → Kept s (set_node_cpu id v false t).1
  unfolding set_node_cpu
  keep_cpu v = Kept-trans s t _ k (modify-Kept id _ t (λ n. ground arith))

  keep_busy : (v : ℕ) → Kept s (set_node_busy_counter id v false t).1
  unfolding set_node_busy_counter
  keep_busy v = Kept-trans s t _ k (modify-Kept id _ t (λ n. ground arith))

  keep_links : (v : List Text) → Kept s (set_node_links id v false t).1
  unfolding set_node_links
  keep_links v = Kept-trans s t _ k (modify-Kept id _ t (λ n. ground arith))

  keep_runtimes : (v : List Text) → Kept s (set_node_runtimes id v false t).1
  unfolding set_node_runtimes
  keep_runtimes v = Kept-trans s t _ k (modify-Kept id _ t (λ n. ground arith))

  keep_data : (v : List (DataInfo N)) → Kept s (set_node_data_list id v false t).1
  unfolding set_node_data_list
  keep_data v = Kept-trans s t _ k (modify-Kept id _ t (λ n. ground arith))

  -- For each setter of a function, by the call that was made.
  module _ (i : ℕ) (r : Bool × Nodes N) where
    keep_func_name : (v : N.Name) → set_func_name id i v false t ≡ ok r → Kept s r.1
    unfolding set_func_name
    keep_func_name v e = Kept-trans s t r.1 k (modify_func-Kept id i _ t r e)

    keep_func_status : (v : Bool) → set_func_status id i v false t ≡ ok r → Kept s r.1
    unfolding set_func_status
    keep_func_status v e = Kept-trans s t r.1 k (modify_func-Kept id i _ t r e)

    keep_func_exe : (v : ℕ) → set_func_exe_counter id i v false t ≡ ok r → Kept s r.1
    unfolding set_func_exe_counter
    keep_func_exe v e = Kept-trans s t r.1 k (modify_func-Kept id i _ t r e)

    keep_func_interest : (v : ℕ) → set_func_interest_counter id i v false t ≡ ok r → Kept s r.1
    unfolding set_func_interest_counter
    keep_func_interest v e = Kept-trans s t r.1 k (modify_func-Kept id i _ t r e)

    keep_func_cpu : (v : ℕ) → set_func_cpu id i v false t ≡ ok r → Kept s r.1
    unfolding set_func_cpu
    keep_func_cpu v e = Kept-trans s t r.1 k (modify_func-Kept id i _ t r e)

    keep_func_ram : (v : ℕ) → set_func_ram id i v false t ≡ ok r → Kept s r.1
    unfolding set_func_ram
    keep_func_ram v e = Kept-trans s t r.1 k (modify_func-Kept id i _ t r e)

    keep_func_rom : (v : ℕ) → set_func_rom id i v false t ≡ ok r → Kept s r.1
    unfolding set_func_rom
    keep_func_rom v e = Kept-trans s t r.1 k (modify_func-Kept id i _ t r e)

    keep_func_size : (v : ℕ) → set_func_size id i v false t ≡ ok r → Kept s r.1
    unfolding set_func_size
    keep_func_size v e = Kept-trans s t r.1 k (modify_func-Kept id i _ t r e)

    keep_func_inputs : (v : List Text) → set_func_inputs id i v false t ≡ ok r → Kept s r.1
    keep_func_inputs v e = Kept-trans s t r.1 k (set_func_inputs-Kept id i v t r e)

-- What is kept when the state of the loop is `r`.
record KeptAfter {N : Ndn} (s : Nodes N) (r : Text × Nodes N) : Type 0 where
  kept : Kept s r.1

ruleset node_rules = (keep_ram, keep_rom, keep_cpu, keep_busy, keep_links, keep_runtimes, keep_data)

ruleset func_rules = (
  keep_func_name, keep_func_status, keep_func_exe, keep_func_interest, keep_func_cpu, keep_func_ram,
  keep_func_rom, keep_func_size, keep_func_inputs,
)

module _ (N : Ndn) (b : Boost) where
  status_writes-Kept :
      (id name : Text) (each : List Text) (i : ℕ) (s t : Nodes N)
      → Kept s t
      → Gives (Kept s) (status_writes N b id name each i t)
  unfolding status_writes
  status_writes-Kept id name each i s t k =
      Gives-bind (set_func_name id i (N.name name) false t) _ λ r1 e1.
        let k1 = keep_func_name id s t k i r1 (N.name name) e1 in
        Gives-bind (index each 1) _ λ v2 _.
          Gives-bind (set_func_status id i (text_eq v2 (text "1")) false r1.1) _ λ r2 e2.
            let k2 = keep_func_status id s r1.1 k1 i r2 (text_eq v2 (text "1")) e2 in
            Gives-bind (number_at N b each 2) _ λ v3 _.
              Gives-bind (set_func_exe_counter id i v3 false r2.1) _ λ r3 e3.
                let k3 = keep_func_exe id s r2.1 k2 i r3 v3 e3 in
                Gives-bind (number_at N b each 3) _ λ v4 _.
                  Gives-bind (set_func_interest_counter id i v4 false r3.1) _ λ r4 e4.
                    let k4 = keep_func_interest id s r3.1 k3 i r4 v4 e4 in
                    Gives-bind (number_at N b each 4) _ λ v5 _.
                      Gives-bind (set_func_cpu id i v5 false r4.1) _ λ r5 e5.
                        let k5 = keep_func_cpu id s r4.1 k4 i r5 v5 e5 in
                        Gives-bind (number_at N b each 5) _ λ v6 _.
                          Gives-bind (set_func_ram id i v6 false r5.1) _ λ r6 e6.
                            let k6 = keep_func_ram id s r5.1 k5 i r6 v6 e6 in
                            Gives-bind (number_at N b each 6) _ λ v7 _.
                              Gives-bind (set_func_rom id i v7 false r6.1) _ λ r7 e7.
                                let k7 = keep_func_rom id s r6.1 k6 i r7 v7 e7 in
                                Gives-bind (number_at N b each 7) _ λ v8 _.
                                  Gives-bind (set_func_size id i v8 false r7.1) _ λ r8 e8.
                                    let k8 = keep_func_size id s r7.1 k7 i r8 v8 e8 in
                                    Gives-bind (index each 8) _ λ v9 _.
                                      Gives-bind (set_func_inputs id i (b.split b',' v9) false r8.1)
                                        _
                                        λ r9 e9.
                                          let k9 =
                                            keep_func_inputs id s r8.1 k8 i r9 (b.split b',' v9)
                                              e9 in
                                          Gives-ok r9.1 k9

  status_functions-Kept :
      (id : Text) (es : List Text) (s t : Nodes N)
      → Kept s t
      → Gives (Kept s) (status_functions N b id es t)
  unfolding status_functions
  status_functions-Kept id [] s t k = Gives-ok t k
  status_functions-Kept id (e ∷ es) s t k =
      Gives-bind (status_function N b id e t) _
        λ u x. status_functions-Kept id es s u ((one e).at u x)
    where
      one : (e : Text) → Gives (Kept s) (status_function N b id e t)
      one e =
          unfold status_function in
          search (Gives-ok, Gives-bind, Gives-if, status_writes-Kept, k) depth 10

  status_functions-keep :
      (id : Text) (es : List Text) (s t u : Nodes N)
      → Kept s t
      → status_functions N b id es t ≡ ok u
      → Kept s u
  status_functions-keep id es s t u k = (status_functions-Kept id es s t k).at u

  Gives-state :
      (id : Text) (s u : Nodes N) → Kept s u → Gives {A = Text × Nodes N} (KeptAfter s) (ok (id, u))
  Gives-state id s u k = Gives-ok (id, u) (record { kept = k })

  status_field-Kept :
      (key : Text) (values : List Text) (id : Text) (s t : Nodes N)
      → Kept s t
      → Gives (KeptAfter s) (status_field N b key values id t)
  unfolding status_field
  status_field-Kept key values id s t k =
      search (Gives-state, Gives-bind, Gives-if, node_rules, status_functions-keep) depth 16

  status_tokens-Kept :
      (xs : List Text) (id : Text) (s t : Nodes N)
      → Kept s t
      → Gives (KeptAfter s) (status_tokens N b xs id t)
  unfolding status_tokens status_token
  status_tokens-Kept [] id s t k = Gives-state id s t k
  status_tokens-Kept (x ∷ xs) id s t k =
      Gives-bind (status_token N b x id t) _
        λ r e. status_tokens-Kept xs r.0 s r.1 (one.at r e).kept
    where
      one : Gives (KeptAfter s) (status_token N b x id t)
      one = Gives-bind (index (b.split b'=' x) 0) _ λ key _. status_field-Kept key _ id s t k

  -- Whatever a status message says, where it is handled without an exception the same nodes are
  -- stored as before, and of each of them the name, the pointer, all default values, both CPU
  -- values, the distances and the number of functions are as before.
  pub status_fetch-Kept :
      (content : Text) (t t' : Nodes N)
      → node_status_fetch_handler N b content t ≡ ok t'
      → Kept t t'
  unfolding node_status_fetch_handler
  status_fetch-Kept content t t' h =
      let (r, e, q) = >>=-eq-ok (status_tokens N b (b.split b';' content) [] t) _ h in
      let p : r.1 ≡ t' = ground (arith, q) in
      subst (Kept t) p
        ((status_tokens-Kept (b.split b';' content) [] t t (Kept-refl t)).at r e).kept
