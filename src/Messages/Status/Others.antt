-- ===== src/Messages/Status/Others.antt =====
-- `NodeStatusFetchHandler` changes no node that the message does not name.
use inc_sim.Base.{ℕ, ◌≡◌, refl, ◌∙◌, subst, Bool, true, false, ◌&&◌, List, [], ◌∷◌, arith, any}
use inc_sim.Base.Text.{Text, text, text_eq}
use inc_sim.Base.Table.{find}
use inc_sim.Base.Outcome.{ok, ◌>>=◌, >>=-eq-ok, index, bad_index}
use inc_sim.Base.Gives.{Gives, Gives-ok, Gives-err, Gives-if, Gives-bind, Gives-when}
use inc_sim.Ndn.{Ndn}
use inc_sim.Boost.{Boost}
use inc_sim.Storage.{Nodes, DataInfo}
use inc_sim.Storage.Calls.{Setter, Setter-Writes}
use inc_sim.Storage.NodeInfo.{
  set_node_ram, set_node_rom, set_node_cpu, set_node_busy_counter, set_node_links,
  set_node_runtimes, set_node_data_list,
}
use inc_sim.Storage.Functions.{
  set_func_name, set_func_exe_counter, set_func_interest_counter, set_func_status, set_func_cpu,
  set_func_ram, set_func_rom, set_func_size, set_func_inputs,
}
use inc_sim.Messages.{number_at}
use inc_sim.Messages.Status.{
  status_writes, status_function, status_functions, status_field, status_token, status_tokens,
  node_status_fetch_handler,
}

-- A token that was split gives the name `j`.
unfoldable pub gives_name : Text → List Text → Bool
gives_name j [] = false
gives_name j (key ∷ []) = false
gives_name j (key ∷ v ∷ vs) = text_eq key (text "name") && text_eq v j

-- Some token gives it.
unfoldable pub names_node : Boost → Text → List Text → Bool
names_node b j tokens = any (λ x. gives_name j (b.split b'=' x)) tokens

-- The node `j` is as in `s`.
pub record Untouched {N : Ndn} (j : Text) (s t : Nodes N) : Type 0 where
  pub same : find j t ≡ find j s

-- So with the state of the loop, and the node `j` is not the one that is written.
pub record Elsewhere {N : Ndn} (j : Text) (s : Nodes N) (r : Text × Nodes N) : Type 0 where
  pub other : text_eq r.0 j ≡ false
  pub kept : Untouched j s r.1

module _ {N : Ndn} (j : Text) (s : Nodes N) where
  Untouched-Setter :
      {id : Text} {t u : Nodes N}
      → text_eq id j ≡ false
      → Setter N id t u
      → Untouched j s t
      → Untouched j s u
  Untouched-Setter h w k = record { same = (Setter-Writes w).others j h ∙ k.same }

  module _ (id : Text) (h : text_eq id j ≡ false) (t : Nodes N) (k : Untouched j s t) where
    state : (u : Nodes N) → Untouched j s u → Gives (Elsewhere j s) (ok (id, u))
    state u q = Gives-ok (id, u) (record { other = h; kept = q })

    other_ram : (v : ℕ) → Gives (Elsewhere j s) (ok (id, (set_node_ram id v false t).1))
    other_ram v = state _ (Untouched-Setter h (Setter.node_ram v false) k)

    other_rom : (v : ℕ) → Gives (Elsewhere j s) (ok (id, (set_node_rom id v false t).1))
    other_rom v = state _ (Untouched-Setter h (Setter.node_rom v false) k)

    other_cpu : (v : ℕ) → Gives (Elsewhere j s) (ok (id, (set_node_cpu id v false t).1))
    other_cpu v = state _ (Untouched-Setter h (Setter.node_cpu v false) k)

    other_busy : (v : ℕ) → Gives (Elsewhere j s) (ok (id, (set_node_busy_counter id v false t).1))
    other_busy v = state _ (Untouched-Setter h (Setter.node_busy v false) k)

    other_links : (v : List Text) → Gives (Elsewhere j s) (ok (id, (set_node_links id v false t).1))
    other_links v = state _ (Untouched-Setter h (Setter.node_links v false) k)

    other_runtimes :
        (v : List Text) → Gives (Elsewhere j s) (ok (id, (set_node_runtimes id v false t).1))
    other_runtimes v = state _ (Untouched-Setter h (Setter.node_runtimes v false) k)

    other_data :
        (v : List (DataInfo N))
        → Gives (Elsewhere j s) (ok (id, (set_node_data_list id v false t).1))
    other_data v = state _ (Untouched-Setter h (Setter.data_list v false) k)

ruleset other_rules =
    (other_ram, other_rom, other_cpu, other_busy, other_links, other_runtimes, other_data)

module _ (N : Ndn) (b : Boost) (j : Text) (s : Nodes N) where
  status_writes-Untouched :
      (id name : Text) (each : List Text) (i : ℕ) (t : Nodes N)
      → text_eq id j ≡ false
      → Untouched j s t
      → Gives (Untouched j s) (status_writes N b id name each i t)
  unfolding status_writes
  status_writes-Untouched id name each i t h k =
      Gives-bind (set_func_name id i (N.name name) false t) _ λ r1 e1.
        let k1 = Untouched-Setter j s h (Setter.func_name i (N.name name) false r1 e1) k in
        Gives-bind (index each 1) _ λ v2 _.
          Gives-bind (set_func_status id i (text_eq v2 (text "1")) false r1.1) _ λ r2 e2.
            let k2 =
              Untouched-Setter j s h (Setter.func_status i (text_eq v2 (text "1")) false r2 e2)
                k1 in
            Gives-bind (number_at N b each 2) _ λ v3 _.
              Gives-bind (set_func_exe_counter id i v3 false r2.1) _ λ r3 e3.
                let k3 = Untouched-Setter j s h (Setter.func_exe_counter i v3 false r3 e3) k2 in
                Gives-bind (number_at N b each 3) _ λ v4 _.
                  Gives-bind (set_func_interest_counter id i v4 false r3.1) _ λ r4 e4.
                    let k4 =
                      Untouched-Setter j s h (Setter.func_interest_counter i v4 false r4 e4) k3 in
                    Gives-bind (number_at N b each 4) _ λ v5 _.
                      Gives-bind (set_func_cpu id i v5 false r4.1) _ λ r5 e5.
                        let k5 = Untouched-Setter j s h (Setter.func_cpu i v5 false r5 e5) k4 in
                        Gives-bind (number_at N b each 5) _ λ v6 _.
                          Gives-bind (set_func_ram id i v6 false r5.1) _ λ r6 e6.
                            let k6 = Untouched-Setter j s h (Setter.func_ram i v6 false r6 e6) k5 in
                            Gives-bind (number_at N b each 6) _ λ v7 _.
                              Gives-bind (set_func_rom id i v7 false r6.1) _ λ r7 e7.
                                let k7 =
                                  Untouched-Setter j s h (Setter.func_rom i v7 false r7 e7) k6 in
                                Gives-bind (number_at N b each 7) _ λ v8 _.
                                  Gives-bind (set_func_size id i v8 false r7.1) _ λ r8 e8.
                                    let k8 =
                                      Untouched-Setter j s h (Setter.func_size i v8 false r8 e8)
                                        k7 in
                                    Gives-bind (index each 8) _ λ v9 _.
                                      Gives-bind (set_func_inputs id i (b.split b',' v9) false r8.1)
                                        _
                                        λ r9 e9. Gives-ok r9.1 (
                                          Untouched-Setter j s h
                                            (Setter.func_inputs i (b.split b',' v9) false r9 e9) k8)

  status_functions-Untouched :
      (id : Text) (es : List Text) (t : Nodes N)
      → text_eq id j ≡ false
      → Untouched j s t
      → Gives (Untouched j s) (status_functions N b id es t)
  unfolding status_functions
  status_functions-Untouched id [] t h k = Gives-ok t k
  status_functions-Untouched id (e ∷ es) t h k =
      Gives-bind (status_function N b id e t) _
        λ u x. status_functions-Untouched id es u h (one.at u x)
    where
      one : Gives (Untouched j s) (status_function N b id e t)
      one =
          unfold status_function in
          search (Gives-ok, Gives-bind, Gives-if, status_writes-Untouched, h, k) depth 10

  status_functions-same :
      (id : Text) (es : List Text) (t u : Nodes N)
      → text_eq id j ≡ false
      → Untouched j s t
      → status_functions N b id es t ≡ ok u
      → Untouched j s u
  status_functions-same id es t u h k = (status_functions-Untouched id es t h k).at u

  named :
      (key : Text) (rest : List Text) (v : Text) (t : Nodes N)
      → gives_name j (key ∷ rest) ≡ false
      → text_eq key (text "name") ≡ true
      → index (key ∷ rest) 1 ≡ ok v
      → Untouched j s t
      → Gives (Elsewhere j s) (ok (v, t))
  unfolding gives_name
  named key [] v t n e x k = absurd (ground (arith, x))
  named key (w ∷ rest) v t n e x k =
      Gives-ok (v, t) (record { other = ground (arith, n, e, x); kept = k })

  status_field-Elsewhere :
      (key : Text) (rest : List Text) (id : Text) (t : Nodes N)
      → gives_name j (key ∷ rest) ≡ false
      → text_eq id j ≡ false
      → Untouched j s t
      → Gives (Elsewhere j s) (status_field N b key (key ∷ rest) id t)
  unfolding status_field
  status_field-Elsewhere key rest id t n h k =
      Gives-when (text_eq key (text "name")) _ _
        (λ e. Gives-bind (index (key ∷ rest) 1) _ λ v x. named key rest v t n e x k)
        λ _. search (state, other_rules, Gives-bind, Gives-if, status_functions-same) depth 16

  status_tokens-Elsewhere :
      (xs : List Text) (id : Text) (t : Nodes N)
      → names_node b j xs ≡ false
      → text_eq id j ≡ false
      → Untouched j s t
      → Gives (Elsewhere j s) (status_tokens N b xs id t)
  unfolding status_tokens status_token names_node
  status_tokens-Elsewhere [] id t n h k = Gives-ok (id, t) (record { other = h; kept = k })
  status_tokens-Elsewhere (x ∷ xs) id t n h k = Gives-bind (status_token N b x id t) _ λ r e.
      let q = (token (b.split b'=' x) (ground (arith, n))).at r e in
      status_tokens-Elsewhere xs r.0 r.1 (ground (arith, n)) q.other q.kept
    where
      token :
          (values : List Text)
          → gives_name j values ≡ false
          → Gives (Elsewhere j s) (do key ← index values 0; status_field N b key values id t)
      token [] m = Gives-err bad_index
      token (key ∷ rest) m = status_field-Elsewhere key rest id t m h k

module _ (N : Ndn) (b : Boost) where
  -- Where a status message is handled without an exception, a node whose name is not empty and that
  -- no token of the message gives as `name` is stored, or not stored, exactly as before.
  pub status_fetch-others :
      (content j : Text) (t t' : Nodes N)
      → text_eq [] j ≡ false
      → names_node b j (b.split b';' content) ≡ false
      → node_status_fetch_handler N b content t ≡ ok t'
      → find j t' ≡ find j t
  unfolding node_status_fetch_handler
  status_fetch-others content j t t' some_name unnamed h =
      let (r, e, q) = >>=-eq-ok (status_tokens N b (b.split b';' content) [] t) _ h in
      let p : r.1 ≡ t' = ground (arith, q) in
      subst (λ u. find j u ≡ find j t) p
        ((status_tokens-Elsewhere N b j t (b.split b';' content) [] t unnamed some_name
            (record { same = refl })).at
          r e).kept.same
