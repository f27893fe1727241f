-- ===== src/NodeApp/Commands/NamedData.antt =====
-- A command of the orchestrator that reaches the node as the name of an interest.
use inc_sim.Base.{
  ◌≡◌, refl, ap, ◌∙◌, subst, Bool, true, false, none, List, [], ◌∷◌, arith, map, if◌then◌else◌,
}
use inc_sim.Base.Text.{Text, text, text_eq, joined, slashed}
use inc_sim.Base.Gives.{Succeeds, Succeeds-bind}
use inc_sim.Ndn.{Ndn, Nfd, NameParts, UriLaws, part_at, sub_name, all_plain_parts}
use inc_sim.Boost.{Boost}
use inc_sim.Management.Loops.{uris}
use inc_sim.Management.Commands.{Command, render}
use inc_sim.Node.{IncOrchestrationComputeNode}
use inc_sim.NodeApp.Switch.{
  ndn_switch_all, ndn_function_switch_handler, orchestrator_request_resolution, function_parts,
  finish, Switching,
}
use inc_sim.NodeApp.Switching.{all_usable, IsRun}
use inc_sim.NodeApp.Switching.Runs.{ndn_switch_all-IsRun}
use inc_sim.NodeApp.Commands.{
  operation, command_parts, render-joined, IsAnswer, finish-IsAnswer, last_known-success,
}

abbrev switch_word : Bool → Text
switch_word on = if on then text "/Enable" else text "/Disable"

module _ {N : Ndn} (names : NameParts N) (laws : UriLaws N names) where
  uris_of_parts :
      (ps : List Text)
      → all_plain_parts ps ≡ true
      → map N.to_uri (map N.name (slashed ps)) ≡ slashed ps
  uris_of_parts [] h = refl
  uris_of_parts (p ∷ ps) h =
      rw (laws.uri_of_part p (ground arith))
        (ap (λ r. (b'/' ∷ p) ∷ r) (uris_of_parts ps (ground arith)))

  operation_of_command : (on : Bool) → N.to_uri (N.name (b'/' ∷ operation on)) ≡ switch_word on
  operation_of_command true = laws.uri_of_part (text "Enable") refl
  operation_of_command false = laws.uri_of_part (text "Disable") refl

  parts_of_command :
      (on : Bool) (label : Text) (ps : List Text)
      → all_plain_parts (label ∷ ps) ≡ true
      → names.parts (N.name (joined (slashed (command_parts label on ps))))
        ≡ map N.name (slashed (command_parts label on ps))
  parts_of_command on label ps plain =
      laws.parts_of_uri (command_parts label on ps) (all_of_them on)
    where
      all_of_them : (on : Bool) → all_plain_parts (command_parts label on ps) ≡ true
      all_of_them true = plain
      all_of_them false = plain

module _ {N : Ndn} {F : Nfd N} (names : NameParts N) (laws : UriLaws N names) (b : Boost)
    (on : Bool) (label p : Text) (ps : List Text) (interest : N.Name)
    (n : IncOrchestrationComputeNode N F) where
  -- The interest has the parts of a command, and the node no null pointer for one of its functions.
  module _
      (parts : names.parts interest ≡ map N.name (slashed (command_parts label on (p ∷ ps)))) where
    ndn_function_switch-IsAnswer :
        all_plain_parts (p ∷ ps) ≡ true
        → all_usable n.func_map (slashed (p ∷ ps)) ≡ true
        → Succeeds
            (IsAnswer on (slashed (p ∷ ps)) n)
            (ndn_function_switch_handler names b interest n)
    unfolding ndn_function_switch_handler function_parts
    ndn_function_switch-IsAnswer plain usable =
        let functions = map N.name (slashed (p ∷ ps)) in
        let start : Switching N F = record { flag = none; events = []; node = n } in
        let same = uris_of_parts names laws (p ∷ ps) plain in
        let run =
          ndn_switch_all-IsRun b on functions start (ap (all_usable n.func_map) same ∙ usable) in
        Succeeds-bind
          (ndn_switch_all b (N.to_uri (sub_name names 3 interest))
            (function_parts (names.parts interest)) start)
          run.value finish
          (ap (λ o. ndn_switch_all b o (function_parts (names.parts interest)) start)
              (ap (λ l. N.to_uri (part_at names 3 l)) parts ∙ operation_of_command names laws on)
            ∙ ap (λ l. ndn_switch_all b (switch_word on) (function_parts l) start) parts
            ∙ run.returns)
          (finish-IsAnswer on (slashed (p ∷ ps)) none n run.value
            (last_known-success n.func_map none (b'/' ∷ p) (slashed ps))
            (subst (λ l. IsRun on l start run.value) same run.holds))

    ndn_dispatch :
        orchestrator_request_resolution names b interest n
        ≡ ndn_function_switch_handler names b interest n
    unfolding orchestrator_request_resolution text_eq
    ndn_dispatch = rw (ap (part_at names 2) parts) (
        rw (laws.part_eq (text "FunctionSwitch") (text "BootstrapInfo") refl refl) (
          rw (laws.part_eq (text "FunctionSwitch") (text "NodeStatusFetch") refl refl) (
            rw (laws.part_eq (text "FunctionSwitch") (text "FunctionStatus") refl refl)
              (rw (laws.part_eq (text "FunctionSwitch") (text "FunctionSwitch") refl refl) refl))))

-- Let a command of the orchestrator be for the label of the node, name at least one function, and
-- let the label and the names each be a slash and one plain part, of letters, digits, `-` and `_`.
-- Let the map of the node hold no null pointer under one of the names. Then the NDN app answers the
-- interest of the command as one that names all these functions: they are switched, the others are
-- kept, and one callback is made for each of them that the node has.
pub ndn_command_lem :
    {N : Ndn} {F : Nfd N} (names : NameParts N) (laws : UriLaws N names) (b : Boost)
    (n : IncOrchestrationComputeNode N F) (c : Command N) (label p : Text) (ps : List Text)
    → c.node ≡ b'/' ∷ label
    → uris c.functions ≡ slashed (p ∷ ps)
    → all_plain_parts (label ∷ p ∷ ps) ≡ true
    → all_usable n.func_map (slashed (p ∷ ps)) ≡ true
    → Succeeds
        (IsAnswer c.on (slashed (p ∷ ps)) n)
        (orchestrator_request_resolution names b (N.name (render c)) n)
ndn_command_lem {N} {F} names laws b n c label p ps e f plain usable =
    let interest = N.name (render c) in
    let parts =
      ap (λ r. names.parts (N.name r)) (render-joined c label (p ∷ ps) e f)
      ∙ parts_of_command names laws c.on label (p ∷ ps) plain in
    rw (ndn_dispatch names laws b c.on label p ps interest n parts) (
      ndn_function_switch-IsAnswer names laws b c.on label p ps interest n parts (ground arith)
        usable)
