-- ===== src/TopologyReader/Sections.antt =====
-- The loops of `ReadTopology` over the sections of a file.
use inc_sim.Base.{map, Bool, false, ◌&&◌, ◌||◌, none, some, List, [], ◌∷◌, ◌++◌, if◌then◌else◌}
use inc_sim.Base.Text.{Text, text, text_eq, contains}
use inc_sim.Base.Table.{Table, find, insert, update}
use inc_sim.Base.Outcome.{Outcome, ok, err, aborted, or_fault, ◌>>=◌}
use inc_sim.Boost.{Boost}
use inc_sim.Ndn.{Ndn, Nfd}
use inc_sim.Computation.{Computation}
use inc_sim.Node.{IncOrchestrationComputeNode}
use inc_sim.TopologyReader.Input.{line_buffer, read_word}
use inc_sim.TopologyReader.{
  Directory, Reader, Section, NodeLine, is_comment, is_empty, read_link, read_node, read_function,
  add_inputs,
}

-- A line that is skipped.
abbrev pub is_blank : Text → Bool
is_blank line = is_empty line || is_comment line

-- The lines behind the line `router`.
unfoldable pub behind_router : List Text → List Text
behind_router [] = []
behind_router (line ∷ lines) =
    let rest = behind_router lines in if text_eq line (text "router") then lines else rest

-- `processedLinks[from]` contains `to`; the sets of the map are kept as pairs.
unfoldable pub is_processed : Text → Text → List (Text × Text) → Bool
is_processed from to [] = false
is_processed from to ((a, b) ∷ ps) = (text_eq a from && text_eq b to) || is_processed from to ps

-- The headings behind the links.
unfoldable pub ends_links : Text → Bool
ends_links line =
    text_eq line (text "functions")
    || text_eq line (text "initial function status")
    || text_eq line (text "consumer section")

-- The entry of a node in `m_initial_func_status` gets one more function.
unfoldable pub push_status : Text → Text → Table (List Text) → Table (List Text)
unfolding find insert update
push_status node func t = elim (find node t) [
  | none ↦ (insert node (func ∷ []) t).1
  | some funcs ↦ update node (λ fs. fs ++ func ∷ []) t
]

module _ {N : Ndn} {F : Nfd N} {D : Directory} where
  -- A line of the links, for `processedLinks` and the reader: a link that was read in the other
  -- direction is left out.
  unfoldable pub link_line :
      Text → List (Text × Text) × Reader N F D → Outcome (List (Text × Text) × Reader N F D)
  unfolding read_link is_processed
  link_line line (processed, r) =
      let link = read_link line in
      if is_blank line || is_processed link.to link.from processed
      then ok (processed, r)
      else if D.has link.from r.names && D.has link.to r.names
      then ok
          ((link.from, link.to) ∷ processed, record r { links_list = r.links_list ++ link ∷ [] })
      else err aborted

  unfoldable pub link_section :
      List Text → List (Text × Text) × Reader N F D → Outcome (Section N F D)
  unfolding link_line ends_links
  link_section [] (processed, r) = ok (record { reader = r; lines = []; cur_section = text "link" })
  link_section (line ∷ lines) (processed, r) =
      if ends_links line
      then ok (record { reader = r; lines = lines; cur_section = line })
      else link_line line (processed, r) >>= (λ next. link_section lines next)

  unfoldable pub status_line : Text → Reader N F D → Reader N F D
  unfolding push_status read_word
  status_line line r =
      let node = read_word (line_buffer line) in
      let func = read_word node.1 in
      if is_blank line
      then r
      else record r { initial_func_status = push_status node.0 func.0 r.initial_func_status }

  unfoldable pub status_section : List Text → Reader N F D → List Text × Reader N F D
  unfolding status_line
  status_section [] r = ([], r)
  status_section (line ∷ lines) r =
      let rest = status_section lines (status_line line r) in
      if text_eq line (text "consumer section") then (lines, r) else rest

  module _ (to_double : Text → (N.Double × Bool) × Text) where
    module _ (b : Boost) where
      unfoldable pub function_line : Text → Reader N F D → Outcome (Reader N F D)
      unfolding read_function
      function_line line r = if is_blank line then ok r else do
        f ← read_function to_double b line
        ok (record r { function_list = r.function_list ++ f ∷ [] })

      unfoldable pub function_section :
          List Text → Reader N F D → Outcome (List Text × Reader N F D)
      unfolding function_line
      function_section [] r = ok ([], r)
      function_section (line ∷ lines) r =
          if text_eq line (text "initial function status")
          then ok (lines, r)
          else function_line line r >>= (λ r'. function_section lines r')

    -- `CreateIncComputeNode` gives the object `blank`, whose members have their first values.
    module _ (blank : IncOrchestrationComputeNode N F) where
      -- `CreateIncComputeNode` with the setters behind it, and `CreateNode`.
      unfoldable pub create_node : NodeLine → Reader N F D → Outcome (Reader N F D)
      unfolding contains
      create_node line r =
          if contains (text "orchestrator") line.name || contains (text "compute") line.name
          then (do
            names ← or_fault (D.add line.name r.names) aborted
            ok (record r {
              names = names;
              compute_nodes =
                  r.compute_nodes
                  ++ (
                    line.name,
                    record blank {
                      processor_core = line.processor_core;
                      processor_speed = line.processor_speed;
                      ram = line.ram;
                      rom = line.rom;
                      links = line.links;
                      supported_runtimes = line.runtimes;
                      queue_size = line.queue;
                    },
                  )
                    ∷ [];
            }))
          else if contains (text "consumer") line.name
          then (do
            names ← or_fault (D.add line.name r.names) aborted
            ok (record r { names = names; consumer_nodes = r.consumer_nodes ++ line.name ∷ [] }))
          else ok r

      unfoldable pub node_line : Text → Reader N F D → Outcome (Reader N F D)
      unfolding create_node read_node
      node_line line r =
          let node = read_node to_double line in
          if is_comment line || is_empty node.name then ok r else create_node node r

      unfoldable pub node_section : List Text → Reader N F D → Outcome (List Text × Reader N F D)
      unfolding node_line
      node_section [] r = ok ([], r)
      node_section (line ∷ lines) r =
          if text_eq line (text "links")
          then ok (lines, r)
          else node_line line r >>= (λ r'. node_section lines r')

module _ {N : Ndn} (b : Boost) where
  -- The loop over the functions for a line of the consumer section.
  unfoldable pub input_line : Text → List (Computation N) → List (Computation N)
  unfolding add_inputs read_word
  input_line line fs =
      let node = read_word (line_buffer line) in
      let func = read_word node.1 in
      let inputs = read_word func.1 in
      if is_blank line || text_eq inputs.0 (text "null")
      then fs
      else map
          (λ f.
            if N.name_eq f.computation_name (N.name func.0)
            then add_inputs (b.split b',' inputs.0) f
            else f)
          fs

  unfoldable pub input_section : List Text → List (Computation N) → List (Computation N)
  unfolding input_line
  input_section [] fs = fs
  input_section (line ∷ lines) fs =
      let rest = input_section lines (input_line line fs) in
      if text_eq line (text "initial data section") then fs else rest
