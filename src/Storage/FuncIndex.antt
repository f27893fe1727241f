-- ===== src/Storage/FuncIndex.antt =====
-- The search of `getFuncIndex` in node-info-storage.cpp.
use inc_sim.Base.{
  ℕ, suc, ◌+◌, ◌<◌, ◌≡◌, refl, sym, subst, Bool, true, false, some, List, [], ◌∷◌, arith,
  Bool-cases, inl, inr, get_elem?, zero,
}
use inc_sim.Base.Text.{Text, text_eq, text_eq_iff}
use inc_sim.Base.Table.{find}
use inc_sim.Base.Outcome.{ok}
use inc_sim.Ndn.{Ndn}
use inc_sim.Storage.{FunctionInfo, ComputeNode, Nodes, read_node}
use inc_sim.Storage.Functions.{functions, func_index, get_func_index}

module _ {N : Ndn} where
  -- The function at position `j`, if there is one, has another name.
  abbrev pub Differs : Text → List (FunctionInfo N) → ℕ → Type 0
  Differs name gs j =
      (g : FunctionInfo N) → get_elem? gs j ≡ some g → text_eq name (N.to_uri g.func_name) ≡ false

  -- Where a search for a name ends: at the first function of that name, or nowhere.
  pub data Finds (name : Text) (gs : List (FunctionInfo N)) : Bool × ℕ → Type 0 where
    at_first :
        (i : ℕ) (g : FunctionInfo N)
        → get_elem? gs i ≡ some g
        → N.to_uri g.func_name ≡ name
        → ((j : ℕ) → j < i → Differs name gs j)
        → Finds name gs (true, i)
    nowhere : ((j : ℕ) → Differs name gs j) → Finds name gs (false, 0)

  -- `Finds`, shifted by the position at which the loop starts.
  data FindsFrom (name : Text) (gs : List (FunctionInfo N)) (k : ℕ) : Bool × ℕ → Type 0 where
    at_first :
        (i m : ℕ) (g : FunctionInfo N)
        → m ≡ k + i
        → get_elem? gs i ≡ some g
        → N.to_uri g.func_name ≡ name
        → ((j : ℕ) → j < i → Differs name gs j)
        → FindsFrom name gs k (true, m)
    nowhere : ((j : ℕ) → Differs name gs j) → FindsFrom name gs k (false, 0)

  FindsFrom-cons :
      (name : Text) (g : FunctionInfo N) (gs : List (FunctionInfo N)) (k : ℕ) (r : Bool × ℕ)
      → text_eq name (N.to_uri g.func_name) ≡ false
      → FindsFrom name gs (k + 1) r
      → FindsFrom name (g ∷ gs) k r
  FindsFrom-cons name g gs k r miss (FindsFrom.at_first i m f e there same before) =
      FindsFrom.at_first (suc i) m f (omega arith) there same λ j h. earlier j h
    where
      earlier : (j : ℕ) → j < suc i → Differs name (g ∷ gs) j
      earlier zero h = λ f' e'. ground (arith, e', miss)
      earlier (suc j) h = before j (omega arith)
  FindsFrom-cons name g gs k r miss (FindsFrom.nowhere none_there) = FindsFrom.nowhere absent
    where
      absent : (j : ℕ) → Differs name (g ∷ gs) j
      absent zero = λ f' e'. ground (arith, e', miss)
      absent (suc j) = none_there j

  func_index-FindsFrom :
      (name : Text) (gs : List (FunctionInfo N)) (k : ℕ)
      → FindsFrom name gs k (func_index name gs k)
  unfolding func_index
  func_index-FindsFrom name [] k = FindsFrom.nowhere (λ j g e. cc)
  func_index-FindsFrom name (g ∷ gs) k = elim (Bool-cases (text_eq name (N.to_uri g.func_name))) [
    | inl e ↦ rw e (
        FindsFrom.at_first zero k g (omega arith) refl
          (sym ((text_eq_iff name (N.to_uri g.func_name)).0 e)) (λ j h. absurd (omega arith)))
    | inr e ↦ rw e (FindsFrom-cons name g gs k _ e (func_index-FindsFrom name gs (k + 1)))
  ]

  Finds-of_FindsFrom :
      (name : Text) (gs : List (FunctionInfo N)) (r : Bool × ℕ)
      → FindsFrom name gs 0 r
      → Finds name gs r
  Finds-of_FindsFrom name gs r (FindsFrom.at_first i m g e there same before) =
      let q : i ≡ m = omega arith in
      subst (λ x. Finds name gs (true, x)) q (Finds.at_first i g there same before)
  Finds-of_FindsFrom name gs r (FindsFrom.nowhere h) = Finds.nowhere h

  -- For a stored node `getFuncIndex` returns the position of the first function whose URI is the
  -- name, or `(false, 0)` if there is none.
  pub get_func_index-Finds :
      (id name : Text) (d : Bool) (t : Nodes N) (n : ComputeNode N)
      → find id t ≡ some n
      → (r : Bool × ℕ) × (get_func_index id name d t ≡ ok r) × Finds name (functions d n) r
  unfolding get_func_index
  get_func_index-Finds id name d t n stored = (
    func_index name (functions d n) 0,
    rw (stored, get_func_index, read_node),
    Finds-of_FindsFrom name (functions d n) _ (func_index-FindsFrom name (functions d n) 0),
  )
