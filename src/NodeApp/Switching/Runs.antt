-- ===== src/NodeApp/Switching/Runs.antt =====
-- The loops of the two apps, and what the handlers answer.
use inc_sim.Base.{
  ◌≡◌, refl, sym, ap, ◌∙◌, Bool, true, false, Option, none, some, List, [], ◌∷◌, ◌++◌,
  if◌then◌else◌, arith, map,
}
use mathlib.Core.List.{append_assoc, append-nil}
use inc_sim.Base.Text.{Text, text, text_eq, slashed}
use inc_sim.Base.Table.{Table, find}
use inc_sim.Base.Outcome.{Outcome, ok, ◌>>=◌}
use inc_sim.Base.Gives.{Succeeds, Succeeds-ok, Succeeds-bind, Succeeds-mono}
use inc_sim.Ndn.{Ndn, Nfd}
use inc_sim.Boost.{Boost}
use inc_sim.Computation.{Computation, enable, disable}
use inc_sim.Node.Excluded.{member, count}
use inc_sim.NodeApp.Switch.{
  Switching, switch_on, udp_switch_all, udp_switch_one, ndn_switch_all, ndn_switch_one,
}
use inc_sim.NodeApp.Switching.{
  switch_entry, is_usable, is_known, last_known, known, all_usable, event_of, IsRun,
}
use inc_sim.NodeApp.Switching.Calls.{switch_on-IsRun, switch_off-IsRun}

module _ {N : Ndn} where
  -- Switching twice is switching once, and neither test changes by it.
  switch_entry_twice :
      (on : Bool) (o : Option (Option (Computation N)))
      → (switch_entry on (switch_entry on o) ≡ switch_entry on o)
        × (is_usable (switch_entry on o) ≡ is_usable o)
        × (is_known (switch_entry on o) ≡ is_known o)
  unfolding switch_entry is_usable is_known enable disable
  switch_entry_twice true none = (refl, refl, refl)
  switch_entry_twice true (some none) = (refl, refl, refl)
  switch_entry_twice true (some (some c)) = (refl, refl, refl)
  switch_entry_twice false none = (refl, refl, refl)
  switch_entry_twice false (some none) = (refl, refl, refl)
  switch_entry_twice false (some (some c)) = (refl, refl, refl)

module _ {N : Ndn} (m m' : Table (Option (Computation N)))
    (same : (j : Text)
      → (is_usable (find j m') ≡ is_usable (find j m))
        × (is_known (find j m') ≡ is_known (find j m))) where
  last_known_same :
      (flag : Option Bool) (xs : List Text) → last_known m' flag xs ≡ last_known m flag xs
  unfolding last_known
  last_known_same flag [] = refl
  last_known_same flag (x ∷ xs) =
      last_known_same (some (is_known (find x m'))) xs ∙ rw (same x).1 refl

  known_same : (xs : List Text) → known m' xs ≡ known m xs
  known_same [] = refl
  known_same (x ∷ xs) = rw (same x).1 (rw (known_same xs) refl)

  all_usable_same : (xs : List Text) → all_usable m' xs ≡ all_usable m xs
  all_usable_same [] = refl
  all_usable_same (x ∷ xs) = rw (same x).0 (rw (all_usable_same xs) refl)

events_cons {ℓ} :
    {E : Type ℓ} (f : Text → E) (is_first : Bool) (x : Text) (fs es : List E) (xs : List Text)
    → fs ≡ es ++ map f (if is_first then x ∷ [] else [])
    → fs ++ map f xs ≡ es ++ map f (if is_first then x ∷ xs else xs)
events_cons f true x fs es xs e = ap (λ l. l ++ map f xs) e ∙ append_assoc es (f x ∷ []) (map f xs)
events_cons f false x fs es xs e = ap (λ l. l ++ map f xs) (e ∙ append-nil es)

module _ {N : Ndn} {F : Nfd N} where
  -- After the first round the tests give what they gave before.
  same_tests :
      (on : Bool) (x : Text) (a b : Switching N F) (j : Text)
      → IsRun on (x ∷ []) a b
      → (is_usable (find j b.node.func_map) ≡ is_usable (find j a.node.func_map))
        × (is_known (find j b.node.func_map) ≡ is_known (find j a.node.func_map))
  unfolding member
  same_tests on x a b j first =
      let twice = switch_entry_twice on (find j a.node.func_map) in
      ground (arith, first.switched.functions j, twice.1, twice.2)

  IsRun-cons :
      (on : Bool) (x : Text) (xs : List Text) (a b c : Switching N F)
      → IsRun on (x ∷ []) a b
      → IsRun on xs b c
      → IsRun on (x ∷ xs) a c
  IsRun-cons on x xs a b c first rest =
      let same = λ (j : Text). same_tests on x a b j first in
      record {
        switched = record {
          functions = λ j.
              unfold member in
              ground (
                arith,
                first.switched.functions j,
                rest.switched.functions j,
                (switch_entry_twice on (find j a.node.func_map)).0,
              );
          excluded = λ j.
              unfold count in ground (arith, first.switched.excluded j, rest.switched.excluded j);
        };
        flag =
            rest.flag
            ∙ last_known_same a.node.func_map b.node.func_map same b.flag xs
            ∙ ap (λ f. last_known a.node.func_map f xs) first.flag
            ∙ (unfold last_known in refl);
        events =
            rest.events
            ∙ ap (λ names. b.events ++ map (event_of on) names)
                (known_same a.node.func_map b.node.func_map same xs)
            ∙ events_cons (event_of on) (is_known (find x a.node.func_map)) x b.events a.events
                (known a.node.func_map xs) first.events;
      }

  IsRun-nil : (on : Bool) (s : Switching N F) → IsRun on [] s s
  IsRun-nil on s = record {
    switched = record {
      functions = λ j. unfold member in refl;
      excluded = λ j. unfold count in ground arith;
    };
    flag = unfold last_known in refl;
    events = sym (append-nil s.events);
  }

  -- A loop that takes its first name, and then the others.
  IsRun-bind :
      (on : Bool) (x : Text) (xs : List Text) (s : Switching N F) (step : Outcome (Switching N F))
      (loop : Switching N F → Outcome (Switching N F))
      → Succeeds (IsRun on (x ∷ []) s) step
      → all_usable s.node.func_map xs ≡ true
      → ((s' : Switching N F)
          → all_usable s'.node.func_map xs ≡ true
          → Succeeds (IsRun on xs s') (loop s'))
      → Succeeds (IsRun on (x ∷ xs) s) (step >>= loop)
  IsRun-bind on x xs s step loop first u rest =
      let s' = first.value in
      let same =
        all_usable_same s.node.func_map s'.node.func_map (λ j. same_tests on x s s' j first.holds)
          xs in
      Succeeds-bind step s' loop first.returns (
        Succeeds-mono (loop s') (λ a r. IsRun-cons on x xs s s' a first.holds r)
          (rest s' (same ∙ u)))

  module _ (b : Boost) where
    udp_switch_one-IsRun :
        (on : Bool) (t : Text) (s : Switching N F)
        → is_usable (find (b'/' ∷ t) s.node.func_map) ≡ true
        → Succeeds
            (IsRun on ((b'/' ∷ t) ∷ []) s)
            (udp_switch_one b (if on then text "Enable" else text "Disable") t s)
    unfolding udp_switch_one text_eq
    udp_switch_one-IsRun true t s u = switch_on-IsRun b (b'/' ∷ t) s u
    udp_switch_one-IsRun false t s u = switch_off-IsRun b (b'/' ∷ t) s u

    pub udp_switch_all-IsRun :
        (on : Bool) (ts : List Text) (s : Switching N F)
        → all_usable s.node.func_map (slashed ts) ≡ true
        → Succeeds
            (IsRun on (slashed ts) s)
            (udp_switch_all b (if on then text "Enable" else text "Disable") ts s)
    unfolding udp_switch_all
    udp_switch_all-IsRun on [] s u = Succeeds-ok s (IsRun-nil on s)
    udp_switch_all-IsRun on (t ∷ ts) s u =
        IsRun-bind on (b'/' ∷ t) (slashed ts) s _ _ (udp_switch_one-IsRun on t s (ground arith))
          (ground arith) (λ s' u'. udp_switch_all-IsRun on ts s' u')

    ndn_switch_one-IsRun :
        (on : Bool) (x : Text) (s : Switching N F)
        → is_usable (find x s.node.func_map) ≡ true
        → Succeeds
            (IsRun on (x ∷ []) s)
            (ndn_switch_one b (if on then text "/Enable" else text "/Disable") x s)
    unfolding ndn_switch_one text_eq
    ndn_switch_one-IsRun true x s u =
        let call = switch_on-IsRun b x s u in
        Succeeds-bind (switch_on b x s) call.value ok call.returns (Succeeds-ok _ call.holds)
    ndn_switch_one-IsRun false x s u = switch_off-IsRun b x s u

    pub ndn_switch_all-IsRun :
        (on : Bool) (ps : List N.Name) (s : Switching N F)
        → all_usable s.node.func_map (map N.to_uri ps) ≡ true
        → Succeeds
            (IsRun on (map N.to_uri ps) s)
            (ndn_switch_all b (if on then text "/Enable" else text "/Disable") ps s)
    unfolding ndn_switch_all
    ndn_switch_all-IsRun on [] s u = Succeeds-ok s (IsRun-nil on s)
    ndn_switch_all-IsRun on (p ∷ ps) s u =
        IsRun-bind on (N.to_uri p) (map N.to_uri ps) s _ _
          (ndn_switch_one-IsRun on (N.to_uri p) s (ground arith)) (ground arith)
          (λ s' u'. ndn_switch_all-IsRun on ps s' u')
