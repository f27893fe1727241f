-- ===== src/Computation.antt =====
-- apps/inc_functions_template/INC-Computation.{hpp,cpp}: a function that a node can run.
pub mod Inputs
use inc_sim.Base.{ℕ, ◌+◌, ◌%◌, Bool, true, false, List, [], ◌∷◌, ◌++◌, if◌then◌else◌}
use inc_sim.Base.Number.{u32}
use inc_sim.Base.Text.{Text, text, text_eq, contains}
use inc_sim.Ndn.{Ndn}

-- The members `m_num_instructions`, `m_result_size` and `m_node_busy_counter` are not kept: no code
-- decides by them.
pub record Computation (N : Ndn) : Type 0 where
  pub computation_name : N.Name
  pub enable_computation : Bool
  pub ram : ℕ
  pub rom : ℕ
  pub cpu : ℕ
  pub exec_counter : ℕ
  pub miss_exec_counter : ℕ
  pub param_number : ℕ
  pub func_size : ℕ
  pub exec_time : N.Double
  pub runtime_requirements : List Text
  pub input_list : Text

-- `value` joins a list that is kept as one text: it replaces the text `null`, and is appended behind
-- a comma unless the text contains it already.
unfoldable pub add_to_text_list : Text → Text → Text
add_to_text_list value list =
    if text_eq list (text "null")
    then value
    else if contains value list
    then list
    else list ++ (b',' ∷ value)

module _ {N : Ndn} where
  -- `INC_Computation(ram, rom, cpu)`. The parameter number has no value before it is set.
  unfoldable pub new_computation : ℕ → ℕ → ℕ → ℕ → Computation N
  new_computation ram rom cpu param_number = record {
    computation_name = N.name (text "/func");
    enable_computation = false;
    ram = ram;
    rom = rom;
    cpu = cpu;
    exec_counter = 0;
    miss_exec_counter = 0;
    param_number = param_number;
    func_size = 0;
    exec_time = N.zero_double;
    runtime_requirements = [];
    input_list = text "null";
  }

  -- `Execute` and `IncreaseCounter`
  unfoldable pub execute : Computation N → Computation N
  execute c = record c { exec_counter = (c.exec_counter + 1) % u32 }

  unfoldable pub reset_miss_exec_counter : Computation N → Computation N
  reset_miss_exec_counter c = record c { miss_exec_counter = 0 }

  unfoldable pub add_miss_exec_counter : Computation N → Computation N
  add_miss_exec_counter c =
      if c.enable_computation
      then c
      else record c { miss_exec_counter = (c.miss_exec_counter + 1) % u32 }

  unfoldable pub enable : Computation N → Computation N
  unfolding reset_miss_exec_counter
  enable c = record (reset_miss_exec_counter c) { enable_computation = true }

  unfoldable pub disable : Computation N → Computation N
  disable c = record c { enable_computation = false }

  unfoldable pub set_input_list : Text → Computation N → Computation N
  set_input_list value c = record c { input_list = value }

  unfoldable pub add_to_input_list : Text → Computation N → Computation N
  unfolding add_to_text_list
  add_to_input_list value c = record c { input_list = add_to_text_list value c.input_list }
