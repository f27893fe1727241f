-- ===== src/TopologyReader/Statuses.antt =====
-- The functions that are on at first: what `m_initial_func_status` holds behind its section.
use inc_sim.Base.{
  ◌≡◌, refl, sym, ap, ◌∙◌, false, Option, none, some, List, [], ◌∷◌, ◌++◌, inl, inr, Bool-cases,
  Option-cases, if◌then◌else◌, arith,
}
use mathlib.Core.List.{append-nil, append_assoc}
use inc_sim.Base.Text.{Text, text, text_eq, text_eq_sound}
use inc_sim.Base.Table.{Table, find, insert, update, find-insert_new, find-insert_ne, find-update}
use inc_sim.Ndn.{Ndn, Nfd}
use inc_sim.TopologyReader.{Directory, Reader}
use inc_sim.TopologyReader.Input.{line_buffer, read_word}
use inc_sim.TopologyReader.Sections.{is_blank, push_status, status_line, status_section}

-- The node and the function of a line.
abbrev pub status_of : Text → Text × Text
status_of line =
    let node = read_word (line_buffer line) in let func = read_word node.1 in (node.0, func.0)

-- The functions that the lines up to the next heading say for a node.
unfoldable pub said_for : Text → List Text → List Text
said_for k [] = []
said_for k (line ∷ lines) =
    let rest = said_for k lines in
    if text_eq line (text "consumer section")
    then []
    else if is_blank line
    then rest
    else if text_eq (status_of line).0 k
    then (status_of line).1 ∷ rest
    else rest

abbrev listed : Option (List Text) → List Text
listed none = []
listed (some funcs) = funcs

-- The functions of a node, none for a node that has no entry.
unfoldable pub functions_of : Text → Table (List Text) → List Text
unfolding find
functions_of k t = listed (find k t)

push_status-none :
    (node func : Text) (t : Table (List Text))
    → find node t ≡ none
    → push_status node func t ≡ (insert node (func ∷ []) t).1
unfolding push_status
push_status-none node func t h = rw (push_status, h) refl

push_status-some :
    (node func : Text) (funcs : List Text) (t : Table (List Text))
    → find node t ≡ some funcs
    → push_status node func t ≡ update node (λ fs. fs ++ func ∷ []) t
unfolding push_status
push_status-some node func funcs t h = rw (push_status, h) refl

functions_of-push_status :
    (node func k : Text) (t : Table (List Text))
    → functions_of k (push_status node func t)
      ≡ functions_of k t ++ (if text_eq node k then func ∷ [] else [])
unfolding functions_of
functions_of-push_status node func k t = elim (Option-cases (find node t)) [
  | inl missing ↦ ground (
    arith,
    push_status-none node func t missing,
    find-insert_new node (func ∷ []) t missing,
    find-insert_ne node k (func ∷ []) t,
    text_eq_sound node k,
    append-nil (listed (find k t)),
  )
  | inr (funcs, found) ↦ ground (
    arith,
    push_status-some node func funcs t found,
    find-update node k (λ fs. fs ++ func ∷ []) funcs t found,
    text_eq_sound node k,
    append-nil (listed (find k t)),
  )
]

-- What one line says.
abbrev one_for : Text → Text → List Text
one_for k line =
    if is_blank line
    then []
    else if text_eq (status_of line).0 k
    then (status_of line).1 ∷ []
    else []

said_for-one :
    (line : Text) (lines : List Text) (k : Text)
    → text_eq line (text "consumer section") ≡ false
    → said_for k (line ∷ lines) ≡ one_for k line ++ said_for k lines
unfolding said_for
said_for-one line lines k going = ground (arith, going)

module _ {N : Ndn} {F : Nfd N} {D : Directory} where
  functions_of-status_line :
      (line : Text) (r : Reader N F D) (k : Text)
      → functions_of k (status_line line r).initial_func_status
        ≡ functions_of k r.initial_func_status ++ one_for k line
  unfolding status_line
  functions_of-status_line line r k = elim (Bool-cases (is_blank line)) [
    | inl blank ↦ rw blank (sym (append-nil (functions_of k r.initial_func_status)))
    | inr content ↦
        rw content
          (functions_of-push_status (status_of line).0 (status_of line).1 k r.initial_func_status)
  ]

  -- Behind the section of the status, the functions in the entry of every node are what they were,
  -- followed by those that the lines up to the heading `consumer section` say for the node, in their
  -- order; a node with no entry counts as having none.
  pub status_section_lem :
      (lines : List Text) (r : Reader N F D) (k : Text)
      → functions_of k (status_section lines r).1.initial_func_status
        ≡ functions_of k r.initial_func_status ++ said_for k lines
  unfolding status_section said_for
  status_section_lem [] r k = sym (append-nil (functions_of k r.initial_func_status))
  status_section_lem (line ∷ lines) r k =
      elim (Bool-cases (text_eq line (text "consumer section"))) [
        | inl heading ↦ rw heading (sym (append-nil (functions_of k r.initial_func_status)))
        | inr going ↦
            let one = functions_of-status_line line r k in
            let before = functions_of k r.initial_func_status in
            let step : status_section (line ∷ lines) r ≡ status_section lines (status_line line r) =
              rw going refl in
            ap (λ s. functions_of k s.1.initial_func_status) step
            ∙ status_section_lem lines (status_line line r) k
            ∙ ap (λ l. l ++ said_for k lines) one
            ∙ append_assoc before (one_for k line) (said_for k lines)
            ∙ ap (λ l. before ++ l) (sym (said_for-one line lines k going))
      ]
