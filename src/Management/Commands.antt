-- ===== src/Management/Commands.antt =====
-- The messages of `FunctionSwitchHandler` as commands: for each node, a list of functions to switch
-- on or off.
pub mod Reasons
use inc_sim.Base.{
  some_in, ℕ, ◌+◌, ◌≡◌, refl, sym, ap, ◌∙◌, Bool, true, false, not, ◌&&◌, ◌||◌, List, [], ◌∷◌, ◌++◌,
  map, if◌then◌else◌, ltb, ◌==◌, arith, select, Bool-cases, inl, inr, any,
}
use mathlib.Core.List.{append-nil, append_assoc, reverse}
use inc_sim.Base.Text.{Text, text, text_eq}
use inc_sim.Ndn.{Ndn}
use inc_sim.Storage.{FunctionInfo, ComputeNode, Nodes}
use inc_sim.Management.{Clock, ClockLaws, int_above, Message, send, request, sum_exe_counter}
use inc_sim.Management.Passes.{
  disable_loop, enable_loop, is_busy, disable_node, disable_pass, is_free, enable_node, missed_node,
  for_each_node, function_switch_handler,
}
use inc_sim.Management.Loops.{
  names, uris, is_idle, is_overloaded, off_and, names-append, some_in-append, enable_loop-select,
  disable_loop-select,
}

pub record Command (N : Ndn) : Type 0 where
  pub node : Text
  pub on : Bool
  pub functions : List (FunctionInfo N)

module _ {N : Ndn} where
  unfoldable pub render : Command N → Text
  render c = request c.node (if c.on then text "Enable" else text "Disable") ++ names c.functions

  -- The messages for commands: one each, but for a command that names no function.
  unfoldable pub messages : Text → List (Command N) → List Message
  messages model [] = []
  messages model (c ∷ cs) = send model (some_in c.functions) (render c) ++ messages model cs

  pub messages-append :
      (model : Text) (cs ds : List (Command N))
      → messages model (cs ++ ds) ≡ messages model cs ++ messages model ds
  unfolding messages
  messages-append model [] ds = refl
  messages-append model (c ∷ cs) ds = rw (messages-append model cs ds) (
      sym (
        append_assoc (send model (some_in c.functions) (render c)) (messages model cs)
          (messages model ds)))

  -- Something ran on the node, in 32 bits and as an `int`.
  abbrev pub has_run : ComputeNode N → Bool
  has_run n = int_above 0 (sum_exe_counter n.functions_current 0)

  -- A node on which something ran is to switch off what is idle.
  pub disable_commands : Nodes N → List (Command N)
  disable_commands [] = []
  disable_commands ((key, n) ∷ t) =
      let rest = disable_commands t in
      if has_run n
      then record { node = key; on = false; functions = select is_idle n.functions_current } ∷ rest
      else rest

  -- The overloaded functions of such nodes.
  pub busy_functions : Nodes N → List Text
  busy_functions [] = []
  busy_functions ((key, n) ∷ t) =
      let rest = busy_functions t in
      if has_run n then uris (select is_overloaded n.functions_current) ++ rest else rest

  abbrev pub missed_over : ℕ → FunctionInfo N → Bool
  missed_over k f = int_above k f.func_interest_counter

  abbrev pub named_in : List Text → FunctionInfo N → Bool
  named_in busy f = any (λ b. text_eq b (N.to_uri f.func_name)) busy

  module _ (C : Clock) (interval : C.Time) where
    -- Every node is to switch on what was missed more than five times, and a free node what is busy
    -- elsewhere.
    pub enable_commands : List Text → Nodes N → List (Command N)
    enable_commands busy [] = []
    enable_commands busy ((key, n) ∷ t) =
        record {
          node = key;
          on = true;
          functions =
              select (off_and (missed_over 5)) n.functions_current
              ++ (if is_free N C interval n
                  then select (off_and (named_in busy)) n.functions_current
                  else []);
        }
        ∷ enable_commands busy t

  -- And once more what was missed more than ten times.
  pub missed_commands : Nodes N → List (Command N)
  missed_commands [] = []
  missed_commands ((key, n) ∷ t) =
      record {
        node = key;
        on = true;
        functions = select (off_and (missed_over 10)) n.functions_current;
      }
      ∷ missed_commands t

  module _ (C : Clock) (interval : C.Time) where
    pub plan : Nodes N → List (Command N)
    plan t =
        disable_commands t
        ++ (enable_commands C interval (busy_functions t) (reverse t)
            ++ missed_commands (reverse t))

  module _ (C : Clock) (laws : ClockLaws C) (interval : C.Time) where
    -- Under the laws of times a node counts as busy exactly if the sum of its execution counters is a
    -- positive `int`, whatever the interval and its cores: the factor 4/5 is 0 in integers.
    pub is_busy-has_run : (n : ComputeNode N) → is_busy N C interval n ≡ has_run n
    unfolding is_busy
    is_busy-has_run n =
        ap (λ x. C.lt x (C.of_int (sum_exe_counter n.functions_current 0)))
          (laws.times_zero (C.times (C.third interval) n.cpu.0))
        ∙ laws.lt_of_int (sum_exe_counter n.functions_current 0)

    disable_node-select :
        (model key : Text) (n : ComputeNode N) (busy : List Text)
        → disable_node N C interval model key n busy ≡ (
            if has_run n
            then (
              send model
                  (some_in (select is_idle n.functions_current))
                  (request key (text "Disable") ++ names (select is_idle n.functions_current)),
              busy ++ uris (select is_overloaded n.functions_current),
            )
            else ([], busy))
    unfolding disable_node
    disable_node-select model key n busy =
        rw (is_busy-has_run n, disable_node)
          (rw
            (disable_loop-select n.functions_current
              (record { interest = request key (text "Disable"); flag = false; busy = busy }))
            refl)

    disable_pass-commands :
        (model : Text) (t : Nodes N) (busy : List Text)
        → disable_pass N C interval model t busy
          ≡ (messages model (disable_commands t), busy ++ busy_functions t)
    unfolding disable_pass disable_commands busy_functions messages render
    disable_pass-commands model [] busy = ground (arith, append-nil busy)
    disable_pass-commands model ((key, n) ∷ t) busy =
        let more = uris (select is_overloaded n.functions_current) in
        elim (Bool-cases (has_run n)) [
          | inl e ↦ ground (
            arith,
            e,
            disable_node-select model key n busy,
            disable_pass-commands model t (busy ++ more),
            append_assoc busy more (busy_functions t),
          )
          | inr e ↦
              ground
                (arith, e, disable_node-select model key n busy, disable_pass-commands model t busy)
        ]

    enable_pass-commands :
        (model : Text) (busy : List Text) (t : Nodes N)
        → for_each_node N (enable_node N C interval model busy) t
          ≡ messages model (enable_commands C interval busy t)
    unfolding for_each_node enable_node enable_commands messages render
    enable_pass-commands model busy [] = refl
    enable_pass-commands model busy ((key, n) ∷ t) =
        let fs = n.functions_current in
        let missed = select (off_and (missed_over 5)) fs in
        let needed = select (off_and (named_in busy)) fs in
        let head = request key (text "Enable") in
        ground (
          arith,
          enable_loop-select (missed_over 5) fs (record { interest = head; flag = false }),
          enable_loop-select (named_in busy) fs
              (record { interest = head ++ names missed; flag = some_in missed }),
          some_in-append missed needed,
          names-append missed needed,
          append-nil missed,
          append_assoc head (names missed) (names needed),
          enable_pass-commands model busy t,
        )

    missed_pass-commands :
        (model : Text) (t : Nodes N)
        → for_each_node N (missed_node N C interval model) t ≡ messages model (missed_commands t)
    unfolding for_each_node missed_node missed_commands messages render
    missed_pass-commands model [] = refl
    missed_pass-commands model ((key, n) ∷ t) = ground (
      arith,
      enable_loop-select (missed_over 10) n.functions_current
          (record { interest = request key (text "Enable"); flag = false }),
      missed_pass-commands model t,
    )

    -- Under the laws of times, the handler sends exactly the messages of the plan, in its order: the
    -- idle functions of every node on which something ran are switched off, whatever the interval and
    -- the cores; then, from the last node to the first, what was missed more than five times or is
    -- busy elsewhere is switched on; then what was missed more than ten times.
    pub function_switch_handler-plan :
        (model : Text) (t : Nodes N)
        → function_switch_handler N C interval model t ≡ messages model (plan C interval t)
    unfolding function_switch_handler plan
    function_switch_handler-plan model t =
        let busy = busy_functions t in
        let enables = enable_commands C interval busy (reverse t) in
        ground (
          arith,
          disable_pass-commands model t [],
          enable_pass-commands model busy (reverse t),
          missed_pass-commands model (reverse t),
          messages-append model (disable_commands t) (enables ++ missed_commands (reverse t)),
          messages-append model enables (missed_commands (reverse t)),
        )
