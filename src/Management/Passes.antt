-- ===== src/Management/Passes.antt =====
-- `FunctionSwitchHandler`, its three passes over the nodes and their loops over the functions.
use inc_sim.Base.{
  ◌/◌, Bool, true, false, not, ◌&&◌, ◌||◌, List, [], ◌∷◌, ◌++◌, if◌then◌else◌, ltb, ◌==◌, any,
}
use mathlib.Core.List.{reverse}
use inc_sim.Base.Text.{Text, text, text_eq}
use inc_sim.Ndn.{Ndn}
use inc_sim.Storage.{FunctionInfo, ComputeNode, Nodes}
use inc_sim.Management.{Clock, int_above, Message, send, request, sum_exe_counter}

module _ (N : Ndn) where
  -- The variables of the loop of the first pass: the request, `disable_flag`, and the functions that
  -- were found busy.
  pub record Disabling : Type 0 where
    pub interest : Text
    pub flag : Bool
    pub busy : List Text

  unfoldable pub disable_loop : List (FunctionInfo N) → Disabling → Disabling
  disable_loop [] s = s
  disable_loop (f ∷ fs) s =
      let s' : Disabling =
        if f.status && f.func_exe_counter == 0
        then record s { interest = s.interest ++ N.to_uri f.func_name; flag = true }
        else s in
      let s'' : Disabling =
        if f.status && ltb 8 f.func_exe_counter
        then record s' { busy = s'.busy ++ N.to_uri f.func_name ∷ [] }
        else s' in
      disable_loop fs s''

  -- A request under construction, and whether it names a function.
  pub record Enabling : Type 0 where
    pub interest : Text
    pub flag : Bool

  -- The loops that enable: the functions that are off and pass a test are named.
  unfoldable pub enable_loop : (FunctionInfo N → Bool) → List (FunctionInfo N) → Enabling → Enabling
  enable_loop test [] s = s
  enable_loop test (f ∷ fs) s =
      let s' : Enabling =
        if not f.status && test f
        then record { interest = s.interest ++ N.to_uri f.func_name; flag = true }
        else s in
      enable_loop test fs s'

  -- The second and third pass go over the nodes backwards.
  unfoldable pub for_each_node : (Text → ComputeNode N → List Message) → Nodes N → List Message
  for_each_node visit [] = []
  for_each_node visit ((key, n) ∷ t) = visit key n ++ for_each_node visit t

  module _ (C : Clock) (interval : C.Time) where
    -- The threshold has the integer quotient 4/5 for a factor, as the source writes it.
    unfoldable pub is_busy : ComputeNode N → Bool
    unfolding sum_exe_counter
    is_busy n =
        C.lt (C.times (C.times (C.third interval) n.cpu.0) (4 / 5))
          (C.of_int (sum_exe_counter n.functions_current 0))

    -- Nothing ran on the node, or less than half of the threshold.
    unfoldable pub is_free : ComputeNode N → Bool
    unfolding sum_exe_counter
    is_free n =
        let sum = sum_exe_counter n.functions_current 0 in
        sum == 0 || C.lt (C.of_int sum) (C.halved (C.times (C.third interval) n.cpu.0))

  -- `m_storage_handler`'s nodes come in ascending order of their keys.
  module _ (C : Clock) (interval : C.Time) (model : Text) where
    unfoldable pub disable_node : Text → ComputeNode N → List Text → List Message × List Text
    unfolding disable_loop is_busy
    disable_node key n busy =
        if is_busy C interval n
        then (let s =
              disable_loop n.functions_current
                (record { interest = request key (text "Disable"); flag = false; busy = busy }) in
            (send model s.flag s.interest, s.busy))
        else ([], busy)

    unfoldable pub disable_pass : Nodes N → List Text → List Message × List Text
    unfolding disable_node
    disable_pass [] busy = ([], busy)
    disable_pass ((key, n) ∷ t) busy =
        let (sent, busy') = disable_node key n busy in
        let (more, busy'') = disable_pass t busy' in (sent ++ more, busy'')

    unfoldable pub enable_node : List Text → Text → ComputeNode N → List Message
    unfolding enable_loop is_free
    enable_node busy key n =
        let s =
          enable_loop (λ f. int_above 5 f.func_interest_counter) n.functions_current
            (record { interest = request key (text "Enable"); flag = false }) in
        let s' =
          if is_free C interval n
          then enable_loop (λ f. any (λ b. text_eq b (N.to_uri f.func_name)) busy)
              n.functions_current s
          else s in
        send model s'.flag s'.interest

    unfoldable pub missed_node : Text → ComputeNode N → List Message
    unfolding enable_loop
    missed_node key n =
        let s =
          enable_loop (λ f. int_above 10 f.func_interest_counter) n.functions_current
            (record { interest = request key (text "Enable"); flag = false }) in
        send model s.flag s.interest

    unfoldable pub function_switch_handler : Nodes N → List Message
    unfolding disable_pass enable_node missed_node for_each_node
    function_switch_handler t =
        let (sent, busy) = disable_pass t [] in
        sent
        ++ (for_each_node (enable_node busy) (reverse t) ++ for_each_node missed_node (reverse t))
