-- ===== src/Messages/Status/Frame.antt =====
-- What a status message leaves alone in the table of nodes.

use inc_sim.Base.{
  ℕ, ◌≡◌, refl, ◌∙◌, subst, Bool, true, false, some, List, [], ◌∷◌, ◌++◌, arith, Bool-cases,
  Option-cases, inl, inr, length, set, length-set, get_elem?,
}
use inc_sim.Base.Text.{Text, text_eq, text_eq_iff}
use inc_sim.Base.Table.{find, update, keys, keys-update, find-update, find-update_ne}
use inc_sim.Base.Outcome.{ok, >>=-eq-ok}
use inc_sim.Ndn.{Ndn}
use inc_sim.Storage.{FunctionInfo, ComputeNode, Nodes, modify}
use inc_sim.Storage.Functions.{functions, with_functions, modify_func, set_func_inputs, push_inputs}
use inc_sim.Storage.Writes.{modify_func-eq-ok}

-- What a status message never changes of a stored node: its name and pointer, all that was given at
-- bootstrap, both CPU values, the distances, and how many functions there are.
pub record StatusKeeps {N : Ndn} (n n' : ComputeNode N) : Type 0 where
  pub node_name : n'.node_name ≡ n.node_name
  pub node_ptr : n'.node_ptr ≡ n.node_ptr
  pub ram : n'.ram.0 ≡ n.ram.0
  pub rom : n'.rom.0 ≡ n.rom.0
  pub cpu : n'.cpu ≡ n.cpu
  pub busy : n'.node_busy_counter.0 ≡ n.node_busy_counter.0
  pub links : n'.links.0 ≡ n.links.0
  pub runtimes : n'.runtimes_supported.0 ≡ n.runtimes_supported.0
  pub data_initial : n'.data_initial ≡ n.data_initial
  pub functions_initial : n'.functions_initial ≡ n.functions_initial
  pub how_many : length n'.functions_current ≡ length n.functions_current
  pub distances : n'.hop_distance ≡ n.hop_distance

-- The same nodes are stored, and of each of them that much is kept.
pub record Kept {N : Ndn} (t u : Nodes N) : Type 0 where
  pub same_keys : keys u ≡ keys t
  pub nodes :
      (j : Text) (n : ComputeNode N)
      → find j t ≡ some n
      → (n' : ComputeNode N) × (find j u ≡ some n') × StatusKeeps n n'

module _ {N : Ndn} where
  StatusKeeps-refl : (n : ComputeNode N) → StatusKeeps n n
  StatusKeeps-refl n = ground arith

  pub Kept-refl : (t : Nodes N) → Kept t t
  Kept-refl t = record { same_keys = refl; nodes = λ j n e. (n, e, StatusKeeps-refl n) }

  StatusKeeps-trans : (n m l : ComputeNode N) → StatusKeeps n m → StatusKeeps m l → StatusKeeps n l
  StatusKeeps-trans n m l a b = ground arith

  pub Kept-trans : (t u v : Nodes N) → Kept t u → Kept u v → Kept t v
  Kept-trans t u v a b = record {
    same_keys = b.same_keys ∙ a.same_keys;
    nodes = λ j n e.
        let (m, f, k) = a.nodes j n e in
        let (l, g, q) = b.nodes j m f in (l, g, StatusKeeps-trans n m l k q);
  }

  -- A write that keeps this much of the node it meets.
  pub update-Kept :
      (id : Text) (f : ComputeNode N → ComputeNode N) (t : Nodes N) (m : ComputeNode N)
      → find id t ≡ some m
      → StatusKeeps m (f m)
      → Kept t (update id f t)
  update-Kept id f t m stored k = record { same_keys = keys-update id f t; nodes = node }
    where
      node :
          (j : Text) (n : ComputeNode N)
          → find j t ≡ some n
          → (n' : ComputeNode N) × (find j (update id f t) ≡ some n') × StatusKeeps n n'
      node j n e = elim (Bool-cases (text_eq id j)) [
        | inl hit ↦
            let p : id ≡ j = (text_eq_iff id j).0 hit in
            let q : m ≡ n = cc (p, stored, e) in
            (
              f m,
              find-update id j f m t stored ∙ ground (arith, hit),
              subst (λ x. StatusKeeps x (f m)) q k,
            )
        | inr miss ↦ (n, find-update_ne id j f t miss ∙ e, StatusKeeps-refl n)
      ]

  pub modify-Kept :
      (id : Text) (f : ComputeNode N → ComputeNode N) (t : Nodes N)
      → ((n : ComputeNode N) → StatusKeeps n (f n))
      → Kept t (modify id f t).1
  unfolding modify
  modify-Kept id f t k = elim (Option-cases (find id t)) [
    | inl e ↦ rw (e, modify) (Kept-refl t)
    | inr (n, e) ↦ rw (e, modify) (update-Kept id f t n e (k n))
  ]

  pub modify_func-Kept :
      (id : Text) (i : ℕ) (f : FunctionInfo N → FunctionInfo N) (t : Nodes N) (r : Bool × Nodes N)
      → modify_func id i f false t ≡ ok r
      → Kept t r.1
  modify_func-Kept id i f t r h = elim (modify_func-eq-ok id i f false t r h) [
    | inl e ↦ rw e (Kept-refl t)
    | inr (n, g, stored, _, e) ↦ rw e (
        update-Kept id (with_functions false (set (functions false n) i (f g))) t n stored
          (ground (arith, length-set n.functions_current i (f g))))
  ]

  length-push_inputs :
      (i : ℕ) (vs : List Text) (gs hs : List (FunctionInfo N))
      → push_inputs i vs gs ≡ ok hs
      → length hs ≡ length gs
  unfolding push_inputs
  length-push_inputs i [] gs hs h = ground arith
  length-push_inputs i (v ∷ vs) gs hs h = elim (Option-cases (get_elem? gs i)) [
    | inl e ↦ absurd (ground (arith, e))
    | inr (g, e) ↦
        let g' : FunctionInfo N = record g { input_data_list = g.input_data_list ++ v ∷ [] } in
        length-push_inputs i vs (set gs i g') hs (rw e at h) ∙ length-set gs i g'
  ]

  pub set_func_inputs-Kept :
      (id : Text) (i : ℕ) (vs : List Text) (t : Nodes N) (r : Bool × Nodes N)
      → set_func_inputs id i vs false t ≡ ok r
      → Kept t r.1
  unfolding set_func_inputs
  set_func_inputs-Kept id i vs t r h = elim (Option-cases (find id t)) [
    | inl e ↦ let q : r ≡ (false, t) = ground (arith, e) in rw q (Kept-refl t)
    | inr (n, e) ↦
        let split : (gs : List (FunctionInfo N)) × (push_inputs i vs n.functions_current ≡ ok gs)
            × (ok (true, update id (with_functions false gs) t) ≡ ok r) =
          >>=-eq-ok (push_inputs i vs n.functions_current) _ (rw (e, set_func_inputs) at h) in
        let q : r ≡ (true, update id (with_functions false split.0) t) = ground (arith, split.2) in
        rw q (
          update-Kept id (with_functions false split.0) t n e
            (ground (arith, length-push_inputs i vs n.functions_current split.0 split.1)))
  ]
