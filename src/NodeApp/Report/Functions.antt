-- ===== src/NodeApp/Report/Functions.antt =====
-- The part of a status about the functions, and what `BootstrapPhaseHandler` reads from it.
use inc_sim.Base.{
  ℕ, ◌≡◌, refl, ap, ◌∙◌, Bool, true, false, ◌&&◌, Option, none, some, List, [], ◌∷◌, ◌++◌,
  if◌then◌else◌, ltb, ltb→lt, ◌==◌, arith, map,
}
use mathlib.Core.List.{append-nil, append_assoc}
use inc_sim.Base.Text.{Text, text, text_eq, joined, slashed}
use inc_sim.Base.Table.{Table}
use inc_sim.Base.Outcome.{ok}
use inc_sim.Base.Number.{to_string, stoi, stoi-to_string, int_limit, is_digit}
use inc_sim.Ndn.{Ndn}
use inc_sim.Boost.{
  Boost, SplitLaws, free_of, free_of-Without, free_of-append, free_of-to_string, AllWithout,
}
use inc_sim.Computation.{Computation}
use inc_sim.Storage.{FunctionInfo, ComputeNode}
use inc_sim.Messages.Bootstrap.{parse_inputs, parse_function, parse_functions}
use inc_sim.NodeApp.{flag_text, function_report, functions_report}

-- A number that is an `int`.
pub read : (k : ℕ) → ltb k int_limit ≡ true → stoi (to_string k) ≡ ok k
read k h = stoi-to_string k (ltb→lt k int_limit h)

-- None of the separators of a status occurs.
abbrev pub is_inner : Text → Bool
is_inner s = free_of b';' s && free_of b'=' s && free_of b'/' s && free_of b':' s

-- A separated part is the first of a split.
pub then_split :
    (b : Boost)
    → SplitLaws b
    → (c : ℕ) (s r : Text) (parts : List Text) → free_of c s ≡ true
    → b.split c r ≡ parts
    → b.split c (s ++ (c ∷ r)) ≡ s ∷ parts
then_split b laws c s r parts h e =
    laws.split_more c s r (free_of-Without c s h) ∙ ap (λ l. s ∷ l) e

colon_free_flag : (x : Bool) → free_of b':' (flag_text x) ≡ true
colon_free_flag true = refl
colon_free_flag false = refl

flag-text_eq : (x : Bool) → text_eq (flag_text x) (text "1") ≡ x
unfolding text_eq
flag-text_eq true = refl
flag-text_eq false = refl

module _ {N : Ndn} where
  -- The functions `/p` of a node.
  abbrev pub entries : List (Text × Computation N) → Table (Option (Computation N))
  entries [] = []
  entries ((p, c) ∷ fs) = (b'/' ∷ p, some c) ∷ entries fs

  -- The name and the inputs have no separators in them, and the numbers are `int`s.
  abbrev pub is_reportable : Text × Computation N → Bool
  is_reportable (p, c) =
      is_inner p
      && is_inner c.input_list
      && ltb c.exec_counter int_limit
      && ltb c.miss_exec_counter int_limit
      && ltb c.cpu int_limit
      && ltb c.ram int_limit
      && ltb c.rom int_limit
      && ltb c.func_size int_limit

  abbrev pub all_reportable : List (Text × Computation N) → Bool
  all_reportable [] = true
  all_reportable (f ∷ fs) = is_reportable f && all_reportable fs

  -- The reports one behind the other.
  unfoldable pub reports : List (Text × Computation N) → List Text
  reports [] = []
  reports ((p, c) ∷ fs) = function_report p c ∷ reports fs

  pub functions_report-entries :
      (fs : List (Text × Computation N))
      → functions_report (entries fs) ≡ ok (joined (slashed (reports fs)))
  unfolding functions_report reports function_report
  functions_report-entries [] = refl
  functions_report-entries ((p, c) ∷ fs) = rw (functions_report-entries fs) refl

  -- What the functions are appended to.
  abbrev pub with_functions : List (FunctionInfo N) → ComputeNode N → ComputeNode N
  with_functions fs n = record n {
    functions_initial = n.functions_initial ++ fs;
    functions_current = n.functions_current ++ fs;
  }

  module _ (b : Boost) where
    -- A function of a node as the orchestrator keeps it.
    unfoldable pub stored_function : Text × Computation N → FunctionInfo N
    stored_function (p, c) = record {
      func_name = N.name (b'/' ∷ p);
      exec_time = none;
      func_exe_counter = c.exec_counter;
      func_interest_counter = c.miss_exec_counter;
      cores = c.cpu;
      ram = c.ram;
      rom = c.rom;
      size_bytes = c.func_size;
      input_data_list =
          if text_eq c.input_list (text "null") then [] else b.split b',' c.input_list;
      status = c.enable_computation;
    }

  module _ (b : Boost) (laws : SplitLaws b) where
    fields_of :
        (p : Text) (c : Computation N)
        → is_reportable (p, c) ≡ true
        → b.split b':' (function_report p c)
          ≡ p
            ∷ flag_text c.enable_computation
            ∷ to_string c.exec_counter
            ∷ to_string c.miss_exec_counter
            ∷ to_string c.cpu
            ∷ to_string c.ram
            ∷ to_string c.rom
            ∷ to_string c.func_size
            ∷ c.input_list
            ∷ []
    unfolding function_report
    fields_of p c h = then_split b laws b':' p _ _ (ground (arith, h)) (
        then_split b laws b':' _ _ _ (colon_free_flag c.enable_computation) (
          number c.exec_counter (
            number c.miss_exec_counter (
              number c.cpu (
                number c.ram (
                  number c.rom (
                    number c.func_size (
                      laws.split_part b':' c.input_list
                        (free_of-Without b':' c.input_list (ground (arith, h)))))))))))
      where
        number :
            (k : ℕ) {r : Text} {parts : List Text}
            → b.split b':' r ≡ parts
            → b.split b':' (to_string k ++ (b':' ∷ r)) ≡ to_string k ∷ parts
        number k {r} {parts} e =
            then_split b laws b':' (to_string k) r parts (free_of-to_string b':' k refl) e

    parse_function_report :
        (p : Text) (c : Computation N)
        → is_reportable (p, c) ≡ true
        → parse_function N b (function_report p c) ≡ ok (stored_function b (p, c))
    unfolding parse_function stored_function parse_inputs
    parse_function_report p c h = rw (fields_of p c h) (
        simp (
          read c.exec_counter (ground (arith, h)),
          read c.miss_exec_counter (ground (arith, h)),
          read c.cpu (ground (arith, h)),
          read c.ram (ground (arith, h)),
          read c.rom (ground (arith, h)),
          read c.func_size (ground (arith, h)),
          flag-text_eq,
        ))

    pub parse_functions-reports :
        (fs : List (Text × Computation N)) (n : ComputeNode N)
        → all_reportable fs ≡ true
        → parse_functions N b (reports fs) n ≡ ok (with_functions (map (stored_function b) fs) n)
    unfolding parse_functions reports
    parse_functions-reports [] n h =
        rw (append-nil n.functions_initial) (rw (append-nil n.functions_current) refl)
    parse_functions-reports ((p, c) ∷ fs) n h =
        let f = stored_function b (p, c) in
        rw (parse_function_report p c (ground (arith, h))) (
          parse_functions-reports fs (with_functions (f ∷ []) n) (ground (arith, h))
          ∙ rw (append_assoc n.functions_initial (f ∷ []) (map (stored_function b) fs))
              (rw (append_assoc n.functions_current (f ∷ []) (map (stored_function b) fs)) refl))

flag-free_of : (sep : ℕ) (x : Bool) → is_digit sep ≡ false → free_of sep (flag_text x) ≡ true
flag-free_of sep true d = ground arith
flag-free_of sep false d = ground arith

module _ (sep : ℕ) (digit : is_digit sep ≡ false) (colon : (b':' == sep) ≡ false) where
  colon-free_of :
      (s r : Text)
      → free_of sep s ≡ true
      → free_of sep r ≡ true
      → free_of sep (s ++ (b':' ∷ r)) ≡ true
  colon-free_of s r h k = ground (arith, free_of-append sep s (b':' ∷ r))

  number-free_of :
      (k : ℕ) (r : Text) → free_of sep r ≡ true → free_of sep (to_string k ++ (b':' ∷ r)) ≡ true
  number-free_of k r h = colon-free_of (to_string k) r (free_of-to_string sep k digit) h

  -- What is neither a digit nor a colon, nor stands in the name or the inputs, is not in a report.
  report-free_of :
      {N : Ndn} (p : Text) (c : Computation N)
      → free_of sep p ≡ true
      → free_of sep c.input_list ≡ true
      → free_of sep (function_report p c) ≡ true
  unfolding function_report
  report-free_of p c f g = colon-free_of p _ f (
      colon-free_of (flag_text c.enable_computation) _ (flag-free_of sep c.enable_computation digit)
        (number-free_of c.exec_counter _ (
          number-free_of c.miss_exec_counter _ (
            number-free_of c.cpu _
              (number-free_of c.ram _ (number-free_of c.rom _ (number-free_of c.func_size _ g)))))))

  pub reports-free_of :
      {N : Ndn} (fs : List (Text × Computation N))
      → (b'/' == sep) ≡ false
      → ((p : Text) (c : Computation N)
          → is_reportable (p, c) ≡ true
          → (free_of sep p && free_of sep c.input_list) ≡ true)
      → all_reportable fs ≡ true
      → free_of sep (joined (slashed (reports fs))) ≡ true
  unfolding reports
  reports-free_of [] slash free h = refl
  reports-free_of ((p, c) ∷ fs) slash free h = ground (
    arith,
    free p c,
    report-free_of p c,
    reports-free_of fs slash free,
    free_of-append sep (function_report p c) (joined (slashed (reports fs))),
  )

pub reports-AllWithout :
    {N : Ndn} (fs : List (Text × Computation N))
    → all_reportable fs ≡ true
    → AllWithout b'/' (reports fs)
unfolding reports
reports-AllWithout [] h = tt
reports-AllWithout ((p, c) ∷ fs) h = (
  free_of-Without b'/' (function_report p c)
      (report-free_of b'/' refl refl p c (ground (arith, h)) (ground (arith, h))),
  reports-AllWithout fs (ground (arith, h)),
)
