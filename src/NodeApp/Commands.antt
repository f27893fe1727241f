-- ===== src/NodeApp/Commands.antt =====
-- A command of the orchestrator at the node it is for.
pub mod Udp
pub mod NamedData
use inc_sim.Base.{
  ℕ, ◌≡◌, refl, sym, ap, ◌∙◌, subst, Bool, true, false, Option, none, some, List, [], ◌∷◌, ◌++◌,
  if◌then◌else◌, arith, map,
}
use mathlib.Core.List.{append_assoc, append-nil}
use inc_sim.Base.Text.{Text, text, text_eq, contains, contains_infix, joined, slashed}
use inc_sim.Base.Table.{Table, find}
use inc_sim.Base.Outcome.{Outcome, ok, err, ◌>>=◌, or_fault, uninitialized}
use inc_sim.Base.Gives.{Succeeds, Succeeds-ok, Succeeds-bind, Succeeds-mono}
use inc_sim.Ndn.{Ndn, Nfd, NameParts}
use inc_sim.Boost.{Boost, SplitLaws, Without, AllWithout, split-joined}
use inc_sim.Computation.{Computation}
use inc_sim.Storage.{FunctionInfo}
use inc_sim.Management.Loops.{names, uris}
use inc_sim.Management.Commands.{Command, render}
use inc_sim.Node.{IncOrchestrationComputeNode}
use inc_sim.NodeApp.{Answer}
use inc_sim.NodeApp.Switch.{
  Switching, all_but_last, udp_switch_all, ndn_switch_all, function_parts,
  ndn_function_switch_handler, udp_function_switch_handler, switch_tokens, finish,
  orchestration_request_resolution, orchestrator_request_resolution,
}
use inc_sim.NodeApp.Switching.{is_known, last_known, known, all_usable, event_of, IsSwitched, IsRun}
use inc_sim.NodeApp.Switching.Runs.{udp_switch_all-IsRun, ndn_switch_all-IsRun}

abbrev pub operation : Bool → Text
operation on = if on then text "Enable" else text "Disable"

-- The parts of a command.
abbrev pub command_parts : Text → Bool → List Text → List Text
command_parts label on parts =
    text "Orchestrator" ∷ label ∷ text "FunctionSwitch" ∷ operation on ∷ parts

module _ {N : Ndn} where
  names-joined : (fs : List (FunctionInfo N)) → names fs ≡ joined (uris fs)
  unfolding names uris
  names-joined [] = refl
  names-joined (f ∷ fs) = ap (λ s. N.to_uri f.func_name ++ s) (names-joined fs)

  -- The text of a command for the node `/label` and functions with the parts as their names.
  pub render-joined :
      (c : Command N) (label : Text) (parts : List Text)
      → c.node ≡ b'/' ∷ label
      → uris c.functions ≡ slashed parts
      → render c ≡ joined (slashed (command_parts label c.on parts))
  unfolding render
  render-joined c label parts e f =
      rw (e, names-joined c.functions, f)
        (ap (λ r. text "/Orchestrator/" ++ r)
          (append_assoc label (text "/FunctionSwitch/" ++ operation c.on) (joined (slashed parts))))

  -- The node has the function that is named last.
  unfoldable pub success : Table (Option (Computation N)) → List Text → Bool
  success m [] = false
  success m (x ∷ []) = is_known (find x m)
  success m (x ∷ y ∷ ys) = success m (y ∷ ys)

  pub last_known-success :
      (m : Table (Option (Computation N))) (flag : Option Bool) (x : Text) (xs : List Text)
      → last_known m flag (x ∷ xs) ≡ some (success m (x ∷ xs))
  unfolding last_known success
  last_known-success m flag x [] = refl
  last_known-success m flag x (y ∷ ys) = last_known-success m (some (is_known (find x m))) y ys

module _ {N : Ndn} {F : Nfd N} where
  -- The answer after a loop over the names: they are switched, there is one callback for each that the
  -- node has, and the text says whether the node has the last one.
  pub record IsAnswer (on : Bool) (names : List Text) (n : IncOrchestrationComputeNode N F)
      (a : Answer N F) : Type 0 where
    pub switched : IsSwitched on names n a.node
    pub events : a.events ≡ map (event_of on) (known n.func_map names)
    pub payload :
        a.payload
        ≡ (if success n.func_map names then text "operation success" else text "operation failed")

  pub finish-IsAnswer :
      (on : Bool) (names : List Text) (flag : Option Bool) (n : IncOrchestrationComputeNode N F)
      (s : Switching N F)
      → last_known n.func_map flag names ≡ some (success n.func_map names)
      → IsRun on names (record { flag = flag; events = []; node = n }) s
      → Succeeds (IsAnswer on names n) (finish s)
  unfolding finish
  finish-IsAnswer on names flag n s e r =
      Succeeds-bind (or_fault s.flag uninitialized) (success n.func_map names) _
        (ap (λ f. or_fault f uninitialized) (r.flag ∙ e))
        (Succeeds-ok _ (record { switched = r.switched; events = r.events; payload = refl }))

  module _ (b : Boost) (on : Bool) (n : IncOrchestrationComputeNode N F) where
    pub udp_function_switch-IsAnswer :
        (s t u v p : Text) (ps : List Text) (packet_data : Text)
        → b.split b'/' packet_data ≡ s ∷ t ∷ u ∷ v ∷ operation on ∷ p ∷ ps
        → all_usable n.func_map (slashed (all_but_last (p ∷ ps))) ≡ true
        → Succeeds
            (IsAnswer on (slashed (all_but_last (p ∷ ps))) n)
            (udp_function_switch_handler b packet_data n)
    unfolding udp_function_switch_handler switch_tokens
    udp_function_switch-IsAnswer s t u v p ps packet_data e usable =
        let tokens = all_but_last (p ∷ ps) in
        let start : Switching N F = record { flag = some false; events = []; node = n } in
        let run = udp_switch_all-IsRun b on tokens start usable in
        Succeeds-bind (switch_tokens (b.split b'/' packet_data)) (operation on, tokens) _
          (ap switch_tokens e)
          (Succeeds-bind (udp_switch_all b (operation on) tokens start) run.value finish run.returns
            (finish-IsAnswer on (slashed tokens) (some false) n run.value (known_or_not tokens)
              run.holds))
      where
        known_or_not :
            (ts : List Text)
            → last_known n.func_map (some false) (slashed ts)
              ≡ some (success n.func_map (slashed ts))
        known_or_not [] = unfold last_known success in refl
        known_or_not (t ∷ ts) = last_known-success n.func_map (some false) (b'/' ∷ t) (slashed ts)
