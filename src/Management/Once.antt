-- ===== src/Management/Once.antt =====
-- `CheckAtleastOnceEnabled`: whether a function is enabled on another node, so that a node may switch
-- it off.
use inc_sim.Base.{
  ◌≡◌, refl, Bool, true, false, not, ◌&&◌, ◌||◌, List, [], ◌∷◌, ◌++◌, if◌then◌else◌, arith, any,
  ◌⊎◌, inl, inr,
}
use inc_sim.Base.Text.{Text, text_eq, text_eq_iff, text_eq_refl}
use inc_sim.Ndn.{Ndn}
use inc_sim.Storage.{FunctionInfo, Nodes}

-- `m_excluded_list`: pairs of a node and a function.
abbrev pub Excluded : Type 0
Excluded = List (Text × Text)

-- `find(begin, end, make_pair(node, func)) != end`
unfoldable pub pair_in : Text → Text → Excluded → Bool
pair_in node func [] = false
pair_in node func ((m, g) ∷ ps) =
    if text_eq m node && text_eq g func then true else pair_in node func ps

module _ (N : Ndn) (compute_node_name func_name : Text) (excluded : Excluded) where
  -- The inner loop, for the functions of the node `key`.
  unfoldable pub enabled_at : Text → List (FunctionInfo N) → Bool
  unfolding pair_in
  enabled_at key [] = false
  enabled_at key (f ∷ fs) =
      if N.name_eq f.func_name (N.name func_name)
        && (not (text_eq key compute_node_name)
            && (f.status && not (pair_in key func_name excluded)))
      then true
      else enabled_at key fs

  unfoldable pub check_atleast_once_enabled : Nodes N → Bool × Excluded
  unfolding enabled_at
  check_atleast_once_enabled [] = (false, excluded)
  check_atleast_once_enabled ((key, n) ∷ t) =
      if enabled_at key n.functions_current
      then (true, excluded ++ (compute_node_name, func_name) ∷ [])
      else check_atleast_once_enabled t

module _ (N : Ndn) where
  -- Calls of the check, each for a node and a function, from a list of exclusions.
  unfoldable pub check_run : List (Text × Text) → Nodes N → Excluded → Excluded
  check_run [] t ex = ex
  check_run ((c, g) ∷ calls) t ex = check_run calls t (check_atleast_once_enabled N c g ex t).1

  abbrev runs : Text → List (FunctionInfo N) → Bool
  runs g fs = any (λ f. N.name_eq f.func_name (N.name g) && f.status) fs

  -- The function is enabled on a node for which it is not excluded.
  unfoldable pub remains : Text → Excluded → Nodes N → Bool
  remains g ex [] = false
  remains g ex ((key, n) ∷ t) =
      if not (pair_in key g ex) && runs g n.functions_current then true else remains g ex t

  -- Some node is excluded for the function.
  unfoldable pub is_excluded : Text → Excluded → Bool
  is_excluded g ex = any (λ p. text_eq p.1 g) ex

  unfoldable pub OneRemains : Nodes N → Excluded → Type 0
  OneRemains t ex = (h : Text) → is_excluded h ex ≡ true → remains h ex t ≡ true

  pair_in-append :
      (key h c g : Text) (ex : Excluded)
      → pair_in key h (ex ++ (c, g) ∷ []) ≡ (pair_in key h ex || (text_eq c key && text_eq g h))
  unfolding pair_in
  pair_in-append key h c g [] = ground arith
  pair_in-append key h c g ((m, k) ∷ ex) = ground (arith, pair_in-append key h c g ex)

  is_excluded-append :
      (h c g : Text) (ex : Excluded)
      → is_excluded h (ex ++ (c, g) ∷ []) ≡ (is_excluded h ex || text_eq g h)
  unfolding is_excluded
  is_excluded-append h c g [] = ground arith
  is_excluded-append h c g ((m, k) ∷ ex) = ground (arith, is_excluded-append h c g ex)

  enabled_at-runs :
      (c g : Text) (ex : Excluded) (key : Text) (fs : List (FunctionInfo N))
      → enabled_at N c g ex key fs ≡ (runs g fs && (not (text_eq key c) && not (pair_in key g ex)))
  unfolding enabled_at
  enabled_at-runs c g ex key [] = refl
  enabled_at-runs c g ex key (f ∷ fs) = ground (arith, enabled_at-runs c g ex key fs)

  -- Exclusions for another function do not matter.
  remains-other :
      (h c g : Text) (ex : Excluded) (t : Nodes N)
      → text_eq g h ≡ false
      → remains h (ex ++ (c, g) ∷ []) t ≡ remains h ex t
  unfolding remains
  remains-other h c g ex [] e = refl
  remains-other h c g ex ((key, n) ∷ t) e =
      ground (arith, pair_in-append key h c g ex, remains-other h c g ex t e, e)

  check_remains :
      (c g : Text) (ex : Excluded) (t : Nodes N)
      → (check_atleast_once_enabled N c g ex t ≡ (false, ex))
        ⊎ ((check_atleast_once_enabled N c g ex t ≡ (true, ex ++ (c, g) ∷ []))
            × (remains g (ex ++ (c, g) ∷ []) t ≡ true))
  unfolding check_atleast_once_enabled remains
  check_remains c g ex [] = inl refl
  check_remains c g ex ((key, n) ∷ t) = ground (
    arith,
    enabled_at-runs c g ex key n.functions_current,
    pair_in-append key g c g ex,
    text_eq_iff c key,
    text_eq_iff key c,
    check_remains c g ex t,
  )

  check-OneRemains :
      (c g : Text) (ex : Excluded) (t : Nodes N)
      → OneRemains t ex
      → OneRemains t (check_atleast_once_enabled N c g ex t).1
  unfolding OneRemains
  check-OneRemains c g ex t one = elim (check_remains c g ex t) [
    | inl e ↦ rw e one
    | inr (e, r) ↦ rw e λ h x.
        ground (
          arith,
          r,
          x,
          one h,
          text_eq_iff g h,
          is_excluded-append h c g ex,
          remains-other h c g ex t,
        )
  ]

  -- `CheckAtleastOnceEnabled` returns `true` exactly if the function is enabled on a node that is
  -- neither excluded for it nor the given one; then the given node is excluded for the function, and
  -- else the list of exclusions stays.
  pub check_atleast_once_enabled_lem :
      (c g : Text) (ex : Excluded) (t : Nodes N)
      → check_atleast_once_enabled N c g ex t
        ≡ (if remains g ((c, g) ∷ ex) t then (true, ex ++ (c, g) ∷ []) else (false, ex))
  unfolding check_atleast_once_enabled remains
  check_atleast_once_enabled_lem c g ex [] = refl
  check_atleast_once_enabled_lem c g ex ((key, n) ∷ t) = ground (
    arith,
    enabled_at-runs c g ex key n.functions_current,
    text_eq_refl g,
    text_eq_iff c key,
    text_eq_iff key c,
    pair_in-cons key c g ex,
    check_atleast_once_enabled_lem c g ex t,
  )
    where
      pair_in-cons :
          (key c g : Text) (ex : Excluded)
          → pair_in key g ((c, g) ∷ ex) ≡ ((text_eq c key && text_eq g g) || pair_in key g ex)
      pair_in-cons key c g ex = unfold pair_in in ground arith

  -- Whatever calls of `CheckAtleastOnceEnabled` are made while the table of nodes stays: for every
  -- function for which some node is excluded, a node that is not excluded for it has it enabled, if
  -- that held of the exclusions at the beginning.
  pub check_run-OneRemains :
      (calls : List (Text × Text)) (t : Nodes N) (ex : Excluded)
      → OneRemains t ex
      → OneRemains t (check_run calls t ex)
  unfolding check_run
  check_run-OneRemains [] t ex one = one
  check_run-OneRemains ((c, g) ∷ calls) t ex one =
      check_run-OneRemains calls t (check_atleast_once_enabled N c g ex t).1
        (check-OneRemains c g ex t one)
