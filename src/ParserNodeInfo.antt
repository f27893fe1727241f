-- ===== src/ParserNodeInfo.antt =====
-- utils/dataset_generation/parser-node-info.{hpp,cpp} and hier-parser-node-info.cpp: what is read of a
-- topology file for the consumers, and the prefixes of their interests. A file is the list of what
-- `getline` gives.
pub mod Columns
pub mod Rows
pub mod Groups
pub mod Prefixes
mod Tests
use inc_sim.Base.{
  ℕ, suc, ◌≡◌, Bool, true, false, Option, none, some, List, [], ◌∷◌, ◌++◌, map, if◌then◌else◌, ◌==◌,
}
use inc_sim.Base.Text.{Text, text, text_eq}
use inc_sim.Base.Outcome.{Outcome, ok, err, out_of_range, ◌>>=◌, at}
use inc_sim.Boost.{Boost}

-- `consumer_node_struct`
pub record ConsumerNode : Type 0 where
  pub name : Text
  pub function_prefix : List Text
  pub data_prefix_provided : List Text
  pub request_frequency : List Text
  pub start_time : List Text
  pub stop_time : List Text
  pub lifetime : List Text
  pub data_size : List Text
  pub freshness : List Text

-- `compute_node_struct`, whose other members are not set.
pub record ComputeNodeInfo : Type 0 where
  pub name : Text
  pub node_prefix : Text

-- What one line of the consumer section says.
pub record Request : Type 0 where
  pub name : Text
  pub prefix : Text
  pub frequency : Text
  pub lifetime : Text
  pub start_time : Text
  pub stop_time : Text

-- What one line of the data section says.
pub record Provided : Type 0 where
  pub name : Text
  pub prefixes : List Text
  pub size : Text
  pub freshness : Text

abbrev pub new_node : Text → ConsumerNode
new_node name = record {
  name = name;
  function_prefix = [];
  data_prefix_provided = [];
  request_frequency = [];
  start_time = [];
  stop_time = [];
  lifetime = [];
  data_size = [];
  freshness = [];
}

-- The `push_back`s of a line, to the entry of its consumer.
abbrev pub push_request : Request → ConsumerNode → ConsumerNode
push_request r n = record n {
  function_prefix = n.function_prefix ++ r.prefix ∷ [];
  request_frequency = n.request_frequency ++ r.frequency ∷ [];
  lifetime = n.lifetime ++ r.lifetime ∷ [];
  start_time = n.start_time ++ r.start_time ∷ [];
  stop_time = n.stop_time ++ r.stop_time ∷ [];
}

abbrev pub push_provided : Provided → ConsumerNode → ConsumerNode
push_provided r n = record n {
  data_prefix_provided = n.data_prefix_provided ++ r.prefixes;
  data_size = n.data_size ++ r.size ∷ [];
  freshness = n.freshness ++ r.freshness ∷ [];
}

-- The loop over `m_consumer_nodes`: the first entry of the name is changed, or a new one is added.
unfoldable pub change_node :
    Text → (ConsumerNode → ConsumerNode) → List ConsumerNode → List ConsumerNode
change_node name f [] = f (new_node name) ∷ []
change_node name f (n ∷ ns) =
    let rest = change_node name f ns in if text_eq n.name name then f n ∷ ns else n ∷ rest

-- A line that is skipped: empty, or a comment.
unfoldable pub is_skipped : Text → Bool
is_skipped [] = true
is_skipped (c ∷ s) = c == b'#'

-- The lines behind the line `consumer section`.
unfoldable pub behind_section : List Text → List Text
behind_section [] = []
behind_section (line ∷ lines) =
    let rest = behind_section lines in
    if text_eq line (text "consumer section") then lines else rest

-- The name of a function, with what the loop over its inputs appends up to an input `null`.
unfoldable pub input_prefix : Bool → List Text → Text
input_prefix first [] = []
input_prefix first (x ∷ xs) =
    let rest = input_prefix false xs in
    if text_eq x (text "null")
    then []
    else (if first then text "/Data" else []) ++ (text "/" ++ (x ++ rest))

-- Up to `end () - 1`.
abbrev pub but_last : List Text → List Text
but_last [] = []
but_last (x ∷ []) = []
but_last (x ∷ y ∷ xs) = x ∷ but_last (y ∷ xs)

module _ (b : Boost) where
  unfoldable pub generate_func_first_prefix : Text → Text → Text
  unfolding input_prefix
  generate_func_first_prefix func_name inputs_list =
      text "/lambda/Function/" ++ (func_name ++ input_prefix true (b.split b',' inputs_list))

  unfoldable pub generate_data_first_prefix : Text → Text → Text
  unfolding input_prefix
  generate_data_first_prefix func_name inputs_list =
      text "/lambda"
      ++ (input_prefix true (but_last (b.split b',' inputs_list))
          ++ (text "/Function/" ++ func_name))

  unfoldable pub generate_data_prefix : Text → List Text
  generate_data_prefix data_list =
      map (λ x. text "/Data" ++ (text "/" ++ x)) (but_last (b.split b',' data_list))

  -- `generate_data_prefix` of hier-parser-node-info.cpp, pushed as one prefix.
  unfoldable pub hier_generate_data_prefix : Text → List Text
  hier_generate_data_prefix data_name = (text "/Data" ++ (text "/" ++ data_name)) ∷ []

  unfoldable pub read_request : Text → Outcome Request
  unfolding generate_func_first_prefix
  read_request line = do
    let row = b.split b'\t' line
    name ← at row 0
    function_name ← at row 1
    input_arguments ← at row 2
    frequency ← at row 3
    lifetime ← at row 4
    start_time ← at row 5
    stop_time ← at row 6
    ok (record {
      name = name;
      prefix = generate_func_first_prefix function_name input_arguments;
      frequency = frequency;
      lifetime = lifetime;
      start_time = start_time;
      stop_time = stop_time;
    })

  -- The parameter is the `generate_data_prefix` of the parser.
  unfoldable pub read_provided : (Text → List Text) → Text → Outcome Provided
  read_provided data_prefix line = do
    let row = b.split b'\t' line
    name ← at row 0
    data_list ← at row 1
    size ← at row 2
    freshness ← at row 3
    ok (record {
      name = name;
      prefixes = data_prefix data_list;
      size = size;
      freshness = freshness;
    })

  unfoldable pub data_section :
      (Text → List Text) → List Text → List ConsumerNode → Outcome (List ConsumerNode)
  unfolding is_skipped read_provided change_node
  data_section data_prefix [] nodes = ok nodes
  data_section data_prefix (line ∷ lines) nodes =
      if is_skipped line then data_section data_prefix lines nodes else do
        r ← read_provided data_prefix line
        data_section data_prefix lines (change_node r.name (push_provided r) nodes)

  unfoldable pub consumer_section :
      (Text → List Text) → List Text → List ConsumerNode → Outcome (List ConsumerNode)
  unfolding is_skipped read_request change_node data_section
  consumer_section data_prefix [] nodes = ok nodes
  consumer_section data_prefix (line ∷ lines) nodes =
      if is_skipped line
      then consumer_section data_prefix lines nodes
      else if text_eq line (text "initial data section")
      then data_section data_prefix lines nodes
      else do
        r ← read_request line
        consumer_section data_prefix lines (change_node r.name (push_request r) nodes)

  -- `update_consumer_info`, for the contents of the file and `m_consumer_nodes`.
  unfoldable pub update_consumer_info :
      (Text → List Text) → List Text → List ConsumerNode → Outcome (List ConsumerNode)
  unfolding behind_section consumer_section
  update_consumer_info data_prefix lines nodes =
      consumer_section data_prefix (behind_section lines) nodes

  -- `update_consumer_info` of hier-parser-node-info.cpp, whose data section has one name in a line.
  unfoldable pub hier_update_consumer_info :
      List Text → List ConsumerNode → Outcome (List ConsumerNode)
  unfolding update_consumer_info hier_generate_data_prefix
  hier_update_consumer_info lines nodes = update_consumer_info hier_generate_data_prefix lines nodes

-- The entry of a node other than the first.
abbrev pub compute_node : Text → ComputeNodeInfo
compute_node name = record { name = name; node_prefix = text "/Orchestrator/" ++ name }

-- `update_compute_info`, for the names of the nodes and `m_compute_nodes`.
unfoldable pub update_compute_info :
    List Text → List ComputeNodeInfo → Outcome (List ComputeNodeInfo)
update_compute_info [] nodes = err out_of_range
update_compute_info (first ∷ others) nodes = ok (
    nodes
    ++ (record { name = first; node_prefix = text "/Orchestrator" } ∷ map compute_node others))
