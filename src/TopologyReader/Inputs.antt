-- ===== src/TopologyReader/Inputs.antt =====
-- The inputs that the functions get from the section of the consumers.
use inc_sim.Base.{
  ◌≡◌, refl, sym, ap, ◌∙◌, ◌||◌, List, [], ◌∷◌, ◌++◌, map, inl, inr, Bool-cases, if◌then◌else◌,
  arith,
}
use inc_sim.Base.Text.{Text, text, text_eq}
use inc_sim.Boost.{Boost}
use inc_sim.Ndn.{Ndn, Nfd}
use inc_sim.Computation.{Computation, add_to_text_list, add_to_input_list}
use inc_sim.TopologyReader.{Directory, Reader, add_inputs}
use inc_sim.TopologyReader.Input.{line_buffer, read_word}
use inc_sim.TopologyReader.Sections.{
  is_blank, status_line, status_section, input_line, input_section,
}

-- The function that a line of the section names, and the text of its inputs.
abbrev pub request_of : Text → Text × Text
request_of line =
    let node = read_word (line_buffer line) in
    let func = read_word node.1 in let inputs = read_word func.1 in (func.0, inputs.0)

-- The lines behind the heading of the section.
unfoldable pub behind_status : List Text → List Text
behind_status [] = []
behind_status (line ∷ lines) =
    let rest = behind_status lines in if text_eq line (text "consumer section") then lines else rest

-- Texts that are added to a list one after the other.
unfoldable pub add_all : List Text → Text → Text
unfolding add_to_text_list
add_all [] list = list
add_all (x ∷ xs) list = add_all xs (add_to_text_list x list)

add_all-append :
    (xs ys : List Text) (list : Text) → add_all (xs ++ ys) list ≡ add_all ys (add_all xs list)
unfolding add_all
add_all-append [] ys list = refl
add_all-append (x ∷ xs) ys list = add_all-append xs ys (add_to_text_list x list)

module _ (N : Ndn) (b : Boost) where
  -- What one line asks of the functions with a name, `null` being no inputs.
  abbrev asked_by : N.Name → Text → List Text
  asked_by name line =
      if is_blank line || text_eq (request_of line).1 (text "null")
      then []
      else if N.name_eq name (N.name (request_of line).0)
      then b.split b',' (request_of line).1
      else []

  -- What the lines up to the heading of the data ask of the functions with a name, in their order.
  unfoldable pub asked_of : N.Name → List Text → List Text
  asked_of name [] = []
  asked_of name (line ∷ lines) =
      let rest = asked_of name lines in
      if text_eq line (text "initial data section") then [] else asked_by name line ++ rest

-- A function with texts added to its list of inputs.
abbrev pub with_inputs : {N : Ndn} → List Text → Computation N → Computation N
with_inputs xs f = record f { input_list = add_all xs f.input_list }

module _ {N : Ndn} where
  with_none : (fs : List (Computation N)) → fs ≡ map (λ f. with_inputs [] f) fs
  unfolding add_all
  with_none [] = refl
  with_none (f ∷ fs) = ap (λ l. f ∷ l) (with_none fs)

  with_both :
      (first then_ : N.Name → List Text) (fs : List (Computation N))
      → map
          (λ f. with_inputs (then_ f.computation_name) f)
          (map (λ f. with_inputs (first f.computation_name) f) fs)
        ≡ map (λ f. with_inputs (first f.computation_name ++ then_ f.computation_name) f) fs
  with_both first then_ [] = refl
  with_both first then_ (f ∷ fs) =
      let both =
        add_all-append (first f.computation_name) (then_ f.computation_name) f.input_list in
      ap
        (λ l.
          (record f { input_list = l })
          ∷ map (λ g. with_inputs (then_ g.computation_name) g)
              (map (λ g. with_inputs (first g.computation_name) g) fs))
        (sym both)
      ∙ ap (λ l. with_inputs (first f.computation_name ++ then_ f.computation_name) f ∷ l)
          (with_both first then_ fs)

  add_inputs-with_inputs : (xs : List Text) (f : Computation N) → add_inputs xs f ≡ with_inputs xs f
  unfolding add_inputs add_all add_to_input_list
  add_inputs-with_inputs [] f = refl
  add_inputs-with_inputs (x ∷ xs) f = add_inputs-with_inputs xs (add_to_input_list x f)

  module _ (b : Boost) where
    input_line-asked_by :
        (line : Text) (fs : List (Computation N))
        → input_line b line fs ≡ map (λ f. with_inputs (asked_by N b f.computation_name line) f) fs
    unfolding input_line add_all
    input_line-asked_by line fs =
        elim (Bool-cases (is_blank line || text_eq (request_of line).1 (text "null"))) [
          | inl idle ↦ rw idle (with_none fs)
          | inr asks ↦ rw asks (each fs)
        ]
      where
        func : N.Name
        func = N.name (request_of line).0

        inputs : List Text
        inputs = b.split b',' (request_of line).1

        each :
            (fs : List (Computation N))
            → map (λ f. if N.name_eq f.computation_name func then add_inputs inputs f else f) fs
              ≡ map
                  (λ f. with_inputs (if N.name_eq f.computation_name func then inputs else []) f)
                  fs
        each [] = refl
        each (f ∷ fs) = elim (Bool-cases (N.name_eq f.computation_name func)) [
          | inl same ↦
              rw (same, add_inputs-with_inputs inputs f)
                (ap (λ l. with_inputs inputs f ∷ l) (each fs))
          | inr other ↦ rw other (ap (λ l. f ∷ l) (each fs))
        ]

    -- Every function keeps its place and its other members; to its list of inputs is added, in order,
    -- what the lines up to the heading of the data ask of functions with its name.
    pub input_section-asked_of :
        (lines : List Text) (fs : List (Computation N))
        → input_section b lines fs
          ≡ map (λ f. with_inputs (asked_of N b f.computation_name lines) f) fs
    unfolding input_section asked_of
    input_section-asked_of [] fs = with_none fs
    input_section-asked_of (line ∷ lines) fs =
        elim (Bool-cases (text_eq line (text "initial data section"))) [
          | inl heading ↦ rw heading (with_none fs)
          | inr going ↦ rw going (
              input_section-asked_of lines (input_line b line fs)
              ∙ ap (map (λ f. with_inputs (asked_of N b f.computation_name lines) f))
                  (input_line-asked_by line fs)
              ∙ with_both (λ name. asked_by N b name line) (λ name. asked_of N b name lines) fs)
        ]

module _ {N : Ndn} {F : Nfd N} {D : Directory} where
  pub status_section-behind :
      (lines : List Text) (r : Reader N F D) → (status_section lines r).0 ≡ behind_status lines
  unfolding status_section behind_status
  status_section-behind [] r = refl
  status_section-behind (line ∷ lines) r =
      ground (arith, status_section-behind lines (status_line line r))
