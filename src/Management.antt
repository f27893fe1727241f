-- ===== src/Management.antt =====
-- apps/orchestration/orchestration_management_app/orchestration-management-app.cpp: which functions
-- the orchestrator switches off and on.
pub mod Passes
pub mod Loops
pub mod Commands
pub mod Once
mod Tests
use inc_sim.Base.{
  ℕ, ◌+◌, ◌*◌, ◌/◌, ◌%◌, ◌≡◌, Bool, true, false, not, ◌&&◌, ◌||◌, List, [], ◌∷◌, ◌++◌,
  if◌then◌else◌, ltb, leb, ◌==◌,
}
use inc_sim.Base.Number.{u32, int_limit}
use inc_sim.Base.Text.{Text, text, text_eq}
use inc_sim.Ndn.{Ndn}
use inc_sim.Storage.{FunctionInfo}

-- What the code takes of `ns3::Time`. An `int` stands for itself by its bit pattern.
pub record Clock : Type 1 where
  pub Time : Type 0
  -- `t / 3.0`
  pub third : Time → Time
  -- `t * k`
  pub times : Time → ℕ → Time
  -- `t / 2`
  pub halved : Time → Time
  -- the time that an `int` is converted to
  pub of_int : ℕ → Time
  -- `a < b`
  pub lt : Time → Time → Bool

-- `0 < i` for the `int` of a bit pattern, and `k < i` for a `k` of at least 0.
abbrev pub int_above : ℕ → ℕ → Bool
int_above k i = ltb k i && ltb i int_limit

-- What the documentation of `Time` says: a time multiplied by 0 is the zero time, and integers keep
-- their order as times.
pub record ClockLaws (C : Clock) : Type 0 where
  pub times_zero : (t : C.Time) → C.times t 0 ≡ C.of_int 0
  pub lt_of_int : (i : ℕ) → C.lt (C.of_int 0) (C.of_int i) ≡ int_above 0 i

-- The integers below 2³² as times: a time is its nanoseconds, with those of a negative `int` counted
-- as 0.
abbrev pub nanoseconds : Clock
nanoseconds = record {
  Time = ℕ;
  third = λ t. t / 3;
  times = λ t k. t * k;
  halved = λ t. t / 2;
  of_int = λ i. if ltb i int_limit then i else 0;
  lt = ltb;
}

pub data Message : Type 0 where
  -- `SendOrchestrationRequest` and `SendOnceWithFill`
  in_band out_of_band : Text → Message

-- What is sent under a communication model, where the flag is set.
unfoldable pub send : Text → Bool → Text → List Message
send communication_model flag content =
    (if text_eq communication_model (text "In-Band")
      then (if flag then in_band content ∷ [] else [])
      else [])
    ++ (if text_eq communication_model (text "Out-of-Band")
        then (if flag then out_of_band content ∷ [] else [])
        else [])

abbrev pub request : Text → Text → Text
request node action = text "/Orchestrator" ++ (node ++ (text "/FunctionSwitch/" ++ action))

module _ {N : Ndn} where
  -- `sum_exe_counter = sum_exe_counter + f_it->func_exe_counter`, in 32 bits
  unfoldable pub sum_exe_counter : List (FunctionInfo N) → ℕ → ℕ
  sum_exe_counter [] sum = sum
  sum_exe_counter (f ∷ fs) sum = sum_exe_counter fs ((sum + f.func_exe_counter) % u32)
