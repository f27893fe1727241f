-- ===== src/Management/Loops.antt =====
-- The loops of `FunctionSwitchHandler` over the functions of a node, as selections.
use inc_sim.Base.{
  some_in, ◌≡◌, refl, sym, Bool, true, not, ◌&&◌, ◌||◌, List, [], ◌∷◌, ◌++◌, ltb, ◌==◌, arith,
  select,
}
use mathlib.Core.List.{append-nil, append_assoc}
use inc_sim.Base.Text.{Text}
use inc_sim.Ndn.{Ndn}
use inc_sim.Storage.{FunctionInfo}
use inc_sim.Management.Passes.{Disabling, disable_loop, Enabling, enable_loop}

module _ {N : Ndn} where
  -- The URIs of the functions, one behind the other.
  unfoldable pub names : List (FunctionInfo N) → Text
  names [] = []
  names (f ∷ fs) = N.to_uri f.func_name ++ names fs

  unfoldable pub uris : List (FunctionInfo N) → List Text
  uris [] = []
  uris (f ∷ fs) = N.to_uri f.func_name ∷ uris fs

  -- On, and not run since the last reset.
  abbrev pub is_idle : FunctionInfo N → Bool
  is_idle f = f.status && f.func_exe_counter == 0

  -- On, and run more than eight times.
  abbrev pub is_overloaded : FunctionInfo N → Bool
  is_overloaded f = f.status && ltb 8 f.func_exe_counter

  -- Off, and passing a test.
  abbrev pub off_and : (FunctionInfo N → Bool) → FunctionInfo N → Bool
  off_and test f = not f.status && test f

  pub names-append : (fs gs : List (FunctionInfo N)) → names (fs ++ gs) ≡ names fs ++ names gs
  unfolding names
  names-append [] gs = refl
  names-append (f ∷ fs) gs =
      rw (names-append fs gs) (sym (append_assoc (N.to_uri f.func_name) (names fs) (names gs)))

  pub some_in-append :
      (fs gs : List (FunctionInfo N)) → some_in (fs ++ gs) ≡ (some_in fs || some_in gs)
  some_in-append [] gs = refl
  some_in-append (f ∷ fs) gs = refl

  -- The request gets the names of the functions that pass the test, and the flag is set by the first.
  pub enable_loop-select :
      (test : FunctionInfo N → Bool) (fs : List (FunctionInfo N)) (s : Enabling N)
      → enable_loop N test fs s ≡ record {
        interest = s.interest ++ names (select (off_and test) fs);
        flag = s.flag || some_in (select (off_and test) fs);
      }
  unfolding enable_loop names
  enable_loop-select test [] s = ground (arith, append-nil s.interest)
  enable_loop-select test (f ∷ fs) s =
      let u : Text = N.to_uri f.func_name in
      ground (
        arith,
        enable_loop-select test fs s,
        enable_loop-select test fs (record { interest = s.interest ++ u; flag = true }),
        append_assoc s.interest u (names (select (off_and test) fs)),
      )

  -- So with the idle functions, and with the overloaded ones for the list of busy functions.
  pub disable_loop-select :
      (fs : List (FunctionInfo N)) (s : Disabling N)
      → disable_loop N fs s ≡ record {
        interest = s.interest ++ names (select is_idle fs);
        flag = s.flag || some_in (select is_idle fs);
        busy = s.busy ++ uris (select is_overloaded fs);
      }
  unfolding disable_loop names uris
  disable_loop-select [] s = ground (arith, append-nil s.interest, append-nil s.busy)
  disable_loop-select (f ∷ fs) s =
      let u : Text = N.to_uri f.func_name in
      ground (
        arith,
        disable_loop-select fs s,
        disable_loop-select fs (record s { interest = s.interest ++ u; flag = true }),
        disable_loop-select fs (record s { busy = s.busy ++ u ∷ [] }),
        append_assoc s.interest u (names (select is_idle fs)),
        append_assoc s.busy (u ∷ []) (uris (select is_overloaded fs)),
      )
