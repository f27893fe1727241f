-- ===== src/Storage/Writes.antt =====
-- The laws of the shapes that the setters share.
use inc_sim.Base.{
  ℕ, ◌≡◌, refl, Bool, true, false, some, List, [], ◌∷◌, ◌++◌, arith, Option-cases, set, get_elem?,
  inl, inr, ◌⊎◌, ◌∙◌, suc, zero,
}
use mathlib.Core.List.{append_assoc, append-nil}
use inc_sim.Base.Text.{Text, text_eq, text_eq_refl}
use inc_sim.Base.Table.{
  find, update, keys, IsSorted, find-update, find-update_ne, keys-update, update-IsSorted,
}
use inc_sim.Base.Outcome.{Outcome, ok}
use inc_sim.Ndn.{Ndn}
use inc_sim.Storage.{FunctionInfo, ComputeNode, Nodes, push_all, modify}
use inc_sim.Storage.Functions.{functions, with_functions, read_func, modify_func}

pub push_all-eq-append {ℓ} : {A : Type ℓ} (xs ys : List A) → push_all xs ys ≡ xs ++ ys
unfolding push_all
push_all-eq-append xs [] = simp append-nil
push_all-eq-append xs (y ∷ ys) = push_all-eq-append (xs ++ y ∷ []) ys ∙ append_assoc xs (y ∷ []) ys

-- What a write at one key leaves alone: the keys, and what is stored at every other key.
pub record Writes (N : Ndn) (id : Text) (t u : Nodes N) : Type 0 where
  pub same_keys : keys u ≡ keys t
  pub others : (j : Text) → text_eq id j ≡ false → find j u ≡ find j t
  pub sorted : IsSorted t → IsSorted u

module _ {N : Ndn} where
  pub Writes-refl : (id : Text) (t : Nodes N) → Writes N id t t
  Writes-refl id t = record { same_keys = refl; others = λ j h. refl; sorted = λ s. s }

  pub update-Writes :
      (id : Text) (f : ComputeNode N → ComputeNode N) (t : Nodes N) → Writes N id t (update id f t)
  update-Writes id f t = record {
    same_keys = keys-update id f t;
    others = λ j h. find-update_ne id j f t h;
    sorted = update-IsSorted id f t;
  }

  pub modify-Writes :
      (id : Text) (f : ComputeNode N → ComputeNode N) (t : Nodes N)
      → Writes N id t (modify id f t).1
  unfolding modify
  modify-Writes id f t = elim (Option-cases (find id t)) [
    | inl e ↦ rw (e, modify) (Writes-refl id t)
    | inr (n, e) ↦ rw (e, modify) (update-Writes id f t)
  ]

  -- A checked write that succeeds either met an unknown node, or wrote at a valid index.
  pub modify_func-eq-ok :
      (id : Text) (i : ℕ) (f : FunctionInfo N → FunctionInfo N) (d : Bool) (t : Nodes N)
      (r : Bool × Nodes N)
      → modify_func id i f d t ≡ ok r
      → (r ≡ (false, t))
        ⊎ ((n : ComputeNode N) × (g : FunctionInfo N) × (find id t ≡ some n)
            × (get_elem? (functions d n) i ≡ some g)
            × (r ≡ (true, update id (with_functions d (set (functions d n) i (f g))) t)))
  unfolding modify_func
  modify_func-eq-ok id i f d t r h = elim (Option-cases (find id t)) [
    | inl e ↦ inl (ground (arith, e))
    | inr (n, e) ↦ elim (Option-cases (get_elem? (functions d n) i)) [
      | inl x ↦ absurd (ground (arith, e, x))
      | inr (g, x) ↦ inr (n, g, e, x, ground (arith, e, x))
    ]
  ]

  pub modify_func-Writes :
      (id : Text) (i : ℕ) (f : FunctionInfo N → FunctionInfo N) (d : Bool) (t : Nodes N)
      (r : Bool × Nodes N)
      → modify_func id i f d t ≡ ok r
      → Writes N id t r.1
  modify_func-Writes id i f d t r h = elim (modify_func-eq-ok id i f d t r h) [
    | inl e ↦ rw e (Writes-refl id t)
    | inr (n, g, _, _, e) ↦
        rw e (update-Writes id (with_functions d (set (functions d n) i (f g))) t)
  ]

  pub get_elem?-set :
      (gs : List (FunctionInfo N)) (i : ℕ) (g h : FunctionInfo N)
      → get_elem? gs i ≡ some g
      → get_elem? (set gs i h) i ≡ some h
  get_elem?-set [] i g h e = cc
  get_elem?-set (x ∷ gs) zero g h e = refl
  get_elem?-set (x ∷ gs) (suc i) g h e = get_elem?-set gs i g h e

  abbrev pub written :
      Text
      → ℕ
      → (FunctionInfo N → FunctionInfo N)
      → Bool
      → Nodes N
      → ComputeNode N
      → FunctionInfo N
      → Nodes N
  written id i f d t n g = update id (with_functions d (set (functions d n) i (f g))) t

  pub functions-with_functions :
      (d : Bool) (gs : List (FunctionInfo N)) (n : ComputeNode N)
      → functions d (with_functions d gs n) ≡ gs
  functions-with_functions true gs n = refl
  functions-with_functions false gs n = refl

  module _ (id : Text) (i : ℕ) (f : FunctionInfo N → FunctionInfo N) (d : Bool) (t : Nodes N)
      (n : ComputeNode N) (g : FunctionInfo N) (stored : find id t ≡ some n)
      (there : get_elem? (functions d n) i ≡ some g) where
    pub modify_func-at : modify_func id i f d t ≡ ok (true, written id i f d t n g)
    unfolding modify_func
    modify_func-at = rw (stored, modify_func) (rw there refl)

    pub find-written :
        find id (written id i f d t n g) ≡ some (with_functions d (set (functions d n) i (f g)) n)
    find-written = ground (
      arith,
      find-update id id (with_functions d (set (functions d n) i (f g))) n t stored,
      text_eq_refl id,
    )

    pub read_func-written {ℓ} :
        {A : Type ℓ} (z : Outcome A) (h : FunctionInfo N → A)
        → read_func z id i h d (written id i f d t n g) ≡ ok (h (f g))
    unfolding read_func
    read_func-written z h =
        rw (find-written, read_func)
          (rw functions-with_functions (rw (get_elem?-set (functions d n) i g (f g) there) refl))
