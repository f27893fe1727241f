-- ===== src/NodeApp/Commands/Udp.antt =====
-- A command of the orchestrator that reaches the node in a UDP packet.
use inc_sim.Base.{◌≡◌, refl, subst, sym, Bool, true, false, List, [], ◌∷◌, ◌++◌}
use inc_sim.Base.Text.{Text, text, text_eq, contains_infix, joined, slashed}
use inc_sim.Base.Gives.{Succeeds}
use inc_sim.Ndn.{Ndn, Nfd}
use inc_sim.Boost.{Boost, SplitLaws, AllWithout, split-joined, free_of, free_of-Without}
use inc_sim.Management.Loops.{uris}
use inc_sim.Management.Commands.{Command, render}
use inc_sim.Node.{IncOrchestrationComputeNode}
use inc_sim.NodeApp.Switch.{
  all_but_last, udp_function_switch_handler, orchestration_request_resolution,
}
use inc_sim.NodeApp.Switching.{all_usable}
use inc_sim.NodeApp.Commands.{
  operation, command_parts, render-joined, IsAnswer, udp_function_switch-IsAnswer,
}

words-AllWithout :
    (label : Text) (on : Bool) (parts : List Text)
    → AllWithout b'/' (label ∷ parts)
    → AllWithout b'/' (command_parts label on parts)
words-AllWithout label on parts w = (
  free_of-Without b'/' (text "Orchestrator") refl,
  (
    w.0,
    (
      free_of-Without b'/' (text "FunctionSwitch") refl,
      (free_of-Without b'/' (operation on) (one_word on), w.1),
    ),
  ),
)
  where
    one_word : (on : Bool) → free_of b'/' (operation on) ≡ true
    one_word true = refl
    one_word false = refl

module _ {N : Ndn} {F : Nfd N} where
  udp_dispatch :
      (b : Boost) (label : Text) (on : Bool) (parts : List Text)
      (n : IncOrchestrationComputeNode N F)
      → (let packet = joined (slashed (command_parts label on parts)) in
          orchestration_request_resolution b packet n ≡ udp_function_switch_handler b packet n)
  unfolding orchestration_request_resolution text_eq
  udp_dispatch b label on parts n =
      rw
        (contains_infix (text "/Orchestrator/" ++ label) (text "/FunctionSwitch")
          (joined (slashed (operation on ∷ parts))))
        refl

  module _ (b : Boost) (laws : SplitLaws b) (n : IncOrchestrationComputeNode N F) where
    -- Let a command of the orchestrator be for a label, name at least one function, and let the
    -- label and the names each be a slash and one part without slashes. Let the map of the node hold
    -- no null pointer under one of the names but the last. Then the UDP app answers the text of the
    -- command as one that names all these functions but the last: these are switched, the functions
    -- with other names are kept, and one callback is made for each of these that the node has. A
    -- command that names one function switches none.
    pub udp_command_lem :
        (c : Command N) (label p : Text) (ps : List Text)
        → c.node ≡ b'/' ∷ label
        → uris c.functions ≡ slashed (p ∷ ps)
        → AllWithout b'/' (label ∷ p ∷ ps)
        → all_usable n.func_map (slashed (all_but_last (p ∷ ps))) ≡ true
        → Succeeds
            (IsAnswer c.on (slashed (all_but_last (p ∷ ps))) n)
            (orchestration_request_resolution b (render c) n)
    udp_command_lem c label p ps e f w usable =
        subst
          (λ packet.
            Succeeds (IsAnswer c.on (slashed (all_but_last (p ∷ ps))) n)
              (orchestration_request_resolution b packet n))
          (sym (render-joined c label (p ∷ ps) e f))
          (subst (Succeeds (IsAnswer c.on (slashed (all_but_last (p ∷ ps))) n))
            (sym (udp_dispatch b label c.on (p ∷ ps) n))
            (udp_function_switch-IsAnswer b c.on n [] (text "Orchestrator") label
              (text "FunctionSwitch") p ps (joined (slashed (command_parts label c.on (p ∷ ps))))
              (split-joined b laws [] (command_parts label c.on (p ∷ ps)) tt
                (words-AllWithout label c.on (p ∷ ps) w))
              usable))
