-- ===== src/Storage/FuncValues.antt =====
-- What the function getters of node-info-storage.cpp read after its function setters.
use inc_sim.Base.{
  ℕ, suc, ◌≡◌, refl, sym, ap, ◌∙◌, Bool, true, some, List, [], ◌∷◌, ◌++◌, if◌then◌else◌, arith, set,
  get_elem?, zero,
}
use mathlib.Core.List.{append-nil, append_assoc}
use inc_sim.Base.Text.{Text}
use inc_sim.Base.Table.{find}
use inc_sim.Base.Outcome.{ok, err, no_return}
use inc_sim.Ndn.{Ndn}
use inc_sim.Storage.{FunctionInfo, ComputeNode, Nodes, push_all}
use inc_sim.Storage.Writes.{
  get_elem?-set, push_all-eq-append, written, modify_func-at, read_func-written,
}
use inc_sim.Storage.Functions.{
  functions, get_func_info, set_func_info, push_inputs, get_func_inputs, set_func_inputs,
  get_func_exe_counter, set_func_exe_counter, get_func_interest_counter, set_func_interest_counter,
}

module _ {N : Ndn} where
  -- For a stored function `setFuncInfo` succeeds and `getFuncInfo` then returns the whole record
  -- that was set, but in the initial list with the input list that was there before.
  pub func_info_set_get :
      (id : Text) (i : ℕ) (new : FunctionInfo N) (d : Bool) (t : Nodes N) (n : ComputeNode N)
      (g : FunctionInfo N)
      → find id t ≡ some n
      → get_elem? (functions d n) i ≡ some g
      → (t' : Nodes N) × (set_func_info id i new d t ≡ ok (true, t'))
        × (get_func_info id i d t'
            ≡ ok (if d then record new { input_data_list = g.input_data_list } else new))
  unfolding set_func_info get_func_info
  func_info_set_get id i new d t n g stored there =
      let f : FunctionInfo N → FunctionInfo N = λ h. record new {
        input_data_list = if d then h.input_data_list else push_all [] new.input_data_list;
      } in
      (
        written id i f d t n g,
        modify_func-at id i f d t n g stored there,
        read_func-written id i f d t n g stored there (err no_return) (λ h. h)
            ∙ ground (arith, push_all-eq-append [] new.input_data_list),
      )

  set_self :
      (gs : List (FunctionInfo N)) (i : ℕ) (g : FunctionInfo N)
      → get_elem? gs i ≡ some g
      → set gs i g ≡ gs
  set_self [] i g e = refl
  set_self (x ∷ gs) zero g e = ground (arith, e)
  set_self (x ∷ gs) (suc i) g e = ap (λ l. x ∷ l) (set_self gs i g e)

  set-set :
      (gs : List (FunctionInfo N)) (i : ℕ) (g h : FunctionInfo N)
      → set (set gs i g) i h ≡ set gs i h
  set-set [] i g h = refl
  set-set (x ∷ gs) zero g h = refl
  set-set (x ∷ gs) (suc i) g h = ap (λ l. x ∷ l) (set-set gs i g h)

  -- The loop appends to one function's inputs.
  pub push_inputs-eq-set :
      (i : ℕ) (vs : List Text) (gs : List (FunctionInfo N)) (g : FunctionInfo N)
      → get_elem? gs i ≡ some g
      → push_inputs i vs gs ≡ ok (set gs i (record g { input_data_list = g.input_data_list ++ vs }))
  unfolding push_inputs
  push_inputs-eq-set i [] gs g e = ap ok (
      sym (set_self gs i g e)
      ∙ ap (λ l. set gs i (record g { input_data_list = l })) (sym (append-nil g.input_data_list)))
  push_inputs-eq-set i (v ∷ vs) gs g e =
      let h : FunctionInfo N = record g { input_data_list = g.input_data_list ++ v ∷ [] } in
      rw e (
        push_inputs-eq-set i vs (set gs i h) h (get_elem?-set gs i g h e)
        ∙ ap ok (
            set-set gs i h _
            ∙ ap (λ l. set gs i (record g { input_data_list = l }))
                (append_assoc g.input_data_list (v ∷ []) vs)))

  module _ (id : Text) (i : ℕ) (d : Bool) (t : Nodes N) (n : ComputeNode N) (g : FunctionInfo N)
      (stored : find id t ≡ some n) (there : get_elem? (functions d n) i ≡ some g) where
    -- For a stored function `setFuncInputs` succeeds, and its inputs then read as the old ones
    -- followed by the new ones: nothing is replaced.
    pub func_inputs_appended :
        (vs : List Text)
        → (t' : Nodes N) × (set_func_inputs id i vs d t ≡ ok (true, t'))
          × (get_func_inputs id i d t' ≡ ok (g.input_data_list ++ vs))
    unfolding set_func_inputs get_func_inputs
    func_inputs_appended vs =
        let f : FunctionInfo N → FunctionInfo N =
          λ h. record h { input_data_list = h.input_data_list ++ vs } in
        (
          written id i f d t n g,
          rw (stored, set_func_inputs) (rw (push_inputs-eq-set i vs (functions d n) g there) refl),
          read_func-written id i f d t n g stored there (err no_return) (λ h. h.input_data_list),
        )

    -- For a stored function the setters of its counters succeed. A current counter reads back as
    -- set, a default counter reads 0 whatever was to be set.
    pub func_counters_set_get :
        (v : ℕ)
        → (t' u' : Nodes N) × (set_func_exe_counter id i v d t ≡ ok (true, t'))
          × (get_func_exe_counter id i d t' ≡ ok (if d then 0 else v))
          × (set_func_interest_counter id i v d t ≡ ok (true, u'))
          × (get_func_interest_counter id i d u' ≡ ok (if d then 0 else v))
    unfolding set_func_exe_counter get_func_exe_counter set_func_interest_counter
        get_func_interest_counter
    func_counters_set_get v =
        let e : FunctionInfo N → FunctionInfo N =
          λ h. record h { func_exe_counter = if d then 0 else v } in
        let f : FunctionInfo N → FunctionInfo N =
          λ h. record h { func_interest_counter = if d then 0 else v } in
        (
          written id i e d t n g,
          written id i f d t n g,
          modify_func-at id i e d t n g stored there,
          read_func-written id i e d t n g stored there (ok 0) (λ h. h.func_exe_counter),
          modify_func-at id i f d t n g stored there,
          read_func-written id i f d t n g stored there (ok 0) (λ h. h.func_interest_counter),
        )
