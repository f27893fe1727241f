-- ===== src/Management/Commands/Reasons.antt =====
-- Why the commands of `FunctionSwitchHandler` name the functions they name.
use inc_sim.Base.{
  ◌≡◌, refl, Bool, true, ◌&&◌, ◌||◌, List, [], ◌∷◌, ◌++◌, inl, inr, Bool-cases, if◌then◌else◌,
  arith, select,
}
use mathlib.Core.List.{reverse, reverse_aux, Memᴰ}
use inc_sim.Base.Text.{Text}
use inc_sim.Ndn.{Ndn}
use inc_sim.Storage.{FunctionInfo, ComputeNode, Nodes}
use inc_sim.Management.{Clock, ClockLaws}
use inc_sim.Management.Passes.{is_free, function_switch_handler}
use inc_sim.Management.Loops.{is_idle, off_and}
use inc_sim.Management.Commands.{
  Command, messages, has_run, missed_over, named_in, disable_commands, busy_functions,
  enable_commands, missed_commands, plan, function_switch_handler-plan,
}

-- All elements have a property.
abbrev pub AllOf {ℓ κ} : {A : Type ℓ} → (A → Type κ) → List A → Type κ
AllOf P [] = Unit
AllOf P (x ∷ xs) = P x × AllOf P xs

AllOf-append {ℓ κ} :
    {A : Type ℓ} (P : A → Type κ) (xs ys : List A) → AllOf P xs → AllOf P ys → AllOf P (xs ++ ys)
AllOf-append P [] ys h k = k
AllOf-append P (x ∷ xs) ys h k = (h.0, AllOf-append P xs ys h.1 k)

-- What was selected from a part of a list is in the list, and passes every weaker test.
AllOf-select {ℓ} :
    {A : Type ℓ} (p q : A → Bool) (all part : List A)
    → ((x : A) → p x ≡ true → q x ≡ true)
    → ((x : A) → Memᴰ x part → Memᴰ x all)
    → AllOf (λ x. Memᴰ x all × (q x ≡ true)) (select p part)
AllOf-select p q all [] w inside = tt
AllOf-select p q all (x ∷ part) w inside =
    let more = AllOf-select p q all part w (λ y m. inside y (Memᴰ.tail m)) in
    elim (Bool-cases (p x)) [
      | inl passes ↦ rw passes ((inside x (Memᴰ.head refl), w x passes), more)
      | inr fails ↦ rw fails more
    ]

-- A list turned around has the elements of the list.
of_reverse_aux {ℓ} :
    {A : Type ℓ} (all part done : List A)
    → ((x : A) → Memᴰ x part → Memᴰ x all)
    → ((x : A) → Memᴰ x done → Memᴰ x all)
    → (x : A) → Memᴰ x (reverse_aux part done)
    → Memᴰ x all
of_reverse_aux all [] done p d x m = d x m
of_reverse_aux {A = A} all (y ∷ part) done p d x m =
    of_reverse_aux all part (y ∷ done) (λ z k. p z (Memᴰ.tail k)) both x m
  where
    both : (z : A) → Memᴰ z (y ∷ done) → Memᴰ z all
    both z (Memᴰ.head e) = p z (Memᴰ.head e)
    both z (Memᴰ.tail k) = d z k

module _ {N : Ndn} (C : Clock) (interval : C.Time) (t : Nodes N) where
  -- The reason to name a function of a node. To switch it on: it is off, and was missed more than five
  -- times, or the node is free and it is busy on a node on which something ran. To switch it off: it
  -- is on and did not run, and something else ran on the node.
  abbrev pub has_reason : Bool → ComputeNode N → FunctionInfo N → Bool
  has_reason on n f =
      if on
      then off_and
          (λ g. missed_over 5 g || (is_free N C interval n && named_in (busy_functions t) g)) f
      else has_run n && is_idle f

  -- A command is for a node of the table, and names functions that this node has, each with a reason.
  pub record Justified (c : Command N) : Type 0 where
    pub entry : ComputeNode N
    pub stored : Memᴰ (c.node, entry) t
    pub reasons :
        AllOf (λ f. Memᴰ f entry.functions_current × (has_reason c.on entry f ≡ true)) c.functions

  disable_commands-Justified :
      (part : Nodes N)
      → ((e : Text × ComputeNode N) → Memᴰ e part → Memᴰ e t)
      → AllOf Justified (disable_commands part)
  unfolding disable_commands
  disable_commands-Justified [] inside = tt
  disable_commands-Justified ((key, n) ∷ part) inside =
      let more = disable_commands-Justified part (λ e m. inside e (Memᴰ.tail m)) in
      elim (Bool-cases (has_run n)) [
        | inl ran ↦ rw ran (
          record {
            entry = n;
            stored = inside (key, n) (Memᴰ.head refl);
            reasons =
                AllOf-select is_idle (λ f. has_run n && is_idle f) n.functions_current
                  n.functions_current (λ f e. rw ran e) (λ f m. m);
          },
          more,
        )
        | inr idle ↦ rw idle more
      ]

  busy_reasons :
      (n : ComputeNode N)
      → AllOf
          (λ f. Memᴰ f n.functions_current × (has_reason true n f ≡ true))
          (if is_free N C interval n
            then select (off_and (named_in (busy_functions t))) n.functions_current
            else [])
  busy_reasons n = elim (Bool-cases (is_free N C interval n)) [
    | inl free ↦ rw free (
        AllOf-select (off_and (named_in (busy_functions t)))
          (off_and (λ g. missed_over 5 g || (true && named_in (busy_functions t) g)))
          n.functions_current n.functions_current (λ f e. ground (arith, e)) (λ f m. m))
    | inr taken ↦ rw taken tt
  ]

  enable_commands-Justified :
      (part : Nodes N)
      → ((e : Text × ComputeNode N) → Memᴰ e part → Memᴰ e t)
      → AllOf Justified (enable_commands C interval (busy_functions t) part)
  unfolding enable_commands
  enable_commands-Justified [] inside = tt
  enable_commands-Justified ((key, n) ∷ part) inside = (
    record {
      entry = n;
      stored = inside (key, n) (Memᴰ.head refl);
      reasons =
          (AllOf-append (λ f. Memᴰ f n.functions_current × (has_reason true n f ≡ true))
            (select (off_and (missed_over 5)) n.functions_current)
            (if is_free N C interval n
              then select (off_and (named_in (busy_functions t))) n.functions_current
              else [])
            (AllOf-select (off_and (missed_over 5)) (has_reason true n) n.functions_current
              n.functions_current (λ f e. ground (arith, e)) (λ f m. m))
            (busy_reasons n));
    },
    enable_commands-Justified part (λ e m. inside e (Memᴰ.tail m)),
  )

  missed_commands-Justified :
      (part : Nodes N)
      → ((e : Text × ComputeNode N) → Memᴰ e part → Memᴰ e t)
      → AllOf Justified (missed_commands part)
  unfolding missed_commands
  missed_commands-Justified [] inside = tt
  missed_commands-Justified ((key, n) ∷ part) inside = (
    record {
      entry = n;
      stored = inside (key, n) (Memᴰ.head refl);
      reasons =
          AllOf-select (off_and (missed_over 10)) (has_reason true n) n.functions_current
            n.functions_current (λ f e. ground (arith, e)) (λ f m. m);
    },
    missed_commands-Justified part (λ e m. inside e (Memᴰ.tail m)),
  )

-- Under the laws of times, everything the handler sends is the messages of commands, each for a node of
-- the table and naming functions that this node has. A function that is named to be switched off is on
-- and did not run, while something ran on its node. One that is named to be switched on is off, and
-- was missed more than five times, or is busy on a node on which something ran while its own is free.
pub function_switch_handler-Justified :
    {N : Ndn} (C : Clock) (laws : ClockLaws C) (interval : C.Time) (model : Text) (t : Nodes N)
    → (cs : List (Command N)) × (function_switch_handler N C interval model t ≡ messages model cs)
      × AllOf (Justified C interval t) cs
unfolding plan
function_switch_handler-Justified C laws interval model t =
    let enables = enable_commands C interval (busy_functions t) (reverse t) in
    let misses = missed_commands (reverse t) in
    let turned = of_reverse_aux t t [] (λ e m. m) (λ e m. elim m [ ]) in
    (
      plan C interval t,
      function_switch_handler-plan C laws interval model t,
      AllOf-append (Justified C interval t) (disable_commands t) (enables ++ misses)
          (disable_commands-Justified C interval t t (λ e m. m))
          (AllOf-append (Justified C interval t) enables misses
            (enable_commands-Justified C interval t (reverse t) turned)
            (missed_commands-Justified C interval t (reverse t) turned)),
    )
