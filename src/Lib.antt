-- ===== src/Lib.antt =====
-- incSIM simulates in-network computing on named-data networks. Compute nodes hold functions that
-- can be enabled and disabled; an orchestrator keeps what the nodes report in a table and decides
-- by it which functions to switch; consumers ask for results; a topology file says what there is.
-- This library models the orchestrator, the state of a compute node, how a node resolves interests
-- and runs functions, the consumers, and the readers of topology files.
--
-- The parts and the files that model them:
--
--   apps/orchestration/storage/node-info-storage.{hpp,cpp}: Storage. The table `m_nodeInfoTable`
--     is a list of entries in the order of the map's iterators (Base/Table). A getter or setter
--     `getNodeRAM` is `get_node_ram`: Storage/NodeInfo has those of a node, Storage/Functions
--     those of its functions. Storage/Writes has the laws of the shapes the setters share,
--     Storage/Distances has the hop distances and Storage/Reach what is read of them,
--     Storage/Calls the setters, Storage/History sequences of all calls, Storage/NodeValues,
--     FuncIndex and FuncValues what the getters read.
--   apps/orchestration/orchestration_communication_app/message_handler.cpp: Messages.
--     `BootstrapPhaseHandler` is `bootstrap_phase_handler` in Messages/Bootstrap,
--     `NodeStatusFetchHandler` is `node_status_fetch_handler` in Messages/Status; both write to
--     the table by the operations of Storage.
--   apps/orchestration/orchestration_communication_app, the UDP and the NDN app: Communication.
--     `HandleRead` and `OnData` are `udp_handle_read` and `on_data`; the send buffer with the
--     three `SetFill` is in Communication/Fill, the scheduling of packets in
--     Communication/Transmit. Communication/Exchange puts a node, its app, the orchestrator's app
--     and the table together.
--   apps/orchestration/orchestration_management_app/orchestration-management-app.cpp: Management.
--     `FunctionSwitchHandler` is `function_switch_handler` in Management/Passes, a function from
--     the table to the messages it sends; Management/Loops and Management/Commands describe it
--     without its loops; Management/Once has `CheckAtleastOnceEnabled`.
--   model/inc-orchestration-compute-node.{h,cc}: Node. The queue is in Node/Queue, the functions
--     and the forwarding entries in Node/Functions, the exclude list in Node/Excluded, the
--     provided data in Node.
--   apps/inc_compute_node_apps/node_orchestration_udp_app and node_orchestration_ndn_app: NodeApp.
--     The texts of a status are in NodeApp, `FunctionSwitchHandler` and the choice of the handler
--     for both apps in NodeApp/Switch. NodeApp/Switching describes a switch without its loops,
--     NodeApp/Commands takes the commands of Management to the node, NodeApp/Report takes a status
--     to the reader in Messages.
--   apps/inc_compute_node_apps/inc_compute_app/NFN-interest-resolution-engine.cpp: Engine.
--     `GetFetchDecisions` is `get_fetch_decisions`; Engine/Names is about what it reads from a
--     name, Engine/Decisions about what it decides.
--   apps/inc_compute_node_apps/inc_compute_app/NFN-producer-app.cpp: Producer. The booking of
--     resources, `DoExecution`, `ScheduledExecutionEnd` and the branch for the decision to execute
--     (`handle_execute`) are in Producer, `OnInterest`, `OnData` and `ResolveAndHandleDecisions` in
--     Producer/Resolve. The calls that the simulator is to make are part of the state;
--     Producer/Runs takes them in any order, Producer/Accounts says what they keep, Producer/Fetches
--     is about the content that is fetched, Producer/Arrivals about the data that comes,
--     Producer/Unknown about functions that are missing.
--   apps/inc_compute_node_apps/inc_compute_app/inc-consumer-base-app.{hpp,cpp} and
--     inc-consumer-app.cpp: Consumer. Its containers of sequence numbers are in Consumer/Sets.
--     `SendPacket`, `OnTimeout`, `CheckRetxTimeout` and `OnData` are steps on the state of the
--     app, which holds what it has scheduled; Consumer/Events takes them in any order,
--     Consumer/Outstanding says what is pending, Consumer/Runs what sequences of them keep.
--     Consumer/Timeouts describes the check without its loop, Consumer/Ready is about what is
--     scheduled, Consumer/Delays about the delays that are traced.
--   utils/dataset_generation/parser-node-info.{hpp,cpp} and hier-parser-node-info.cpp:
--     ParserNodeInfo. A file is the list of its lines. ParserNodeInfo/Rows reads them without
--     changing an entry, ParserNodeInfo/Columns and Groups say what the entries hold then, and
--     ParserNodeInfo/Prefixes takes the prefixes of interests to the engine that reads them.
--   utils/topology/inc-annotated-topology-reader.{hpp,cpp}: TopologyReader. Extraction from a
--     stream is in TopologyReader/Input, the loops of `ReadTopology` over the sections of a file are
--     in TopologyReader/Sections, what it does with them in TopologyReader/Topology.
--     TopologyReader/Links, Statuses, Inputs and Provisions describe the loops without their state,
--     TopologyReader/Completion the end of the reading.
--   apps/inc_functions_template/INC-Computation.{hpp,cpp}: Computation.
--
-- Base has what all share: text as a list of bytes, the outcome of a call that can throw or is
-- undefined (Base/Outcome), `std::stoi` (Base/Number) and postconditions of such calls
-- (Base/Gives). Samples has concrete nodes for the tests, which stand in the modules called Tests.
--
-- Code of other projects is a parameter: the names of ndn-cxx and the forwarding table of NFD
-- (Ndn), the lookup in its content store (an argument in Engine), the splitting of Boost (Boost),
-- the directory of names of ns-3 (TopologyReader.Directory), the conversion of a `double` (an
-- argument there), the global routing of ndnSIM (Storage.Distances.Routing), the times of ns-3
-- (Management.Clock, and with the round-trip estimator of ndnSIM Consumer.Estimator). What is
-- assumed of times is in `ClockLaws` and `EstimatorLaws`, of URIs in `UriLaws` and `NameLaws`, of
-- the split in `SplitLaws`; Samples and the tests show instances that meet them.
--
-- Numbers of 32 bits are natural numbers, with `% 2 ^ 32` where the code adds; what is read by
-- `std::stoi` is within them. An `int` is its bit pattern. The loops go over lists, but for the
-- one of `SetFill`, which has fuel: a theorem says that more than the size of the buffer is
-- enough. Printing a number has as many digits as fuel as the number says.
--
-- Not modelled: the printing of the storage, the scheduling of the orchestrator, the members of a
-- compute node by which nothing decides, `ForwardInterest` of the producer app, of which a call is
-- an output, sockets and the encoding of packets, logging, the tracers, the data producer, the
-- generators of topology files, and what the reader of topologies does to objects of the simulator
-- besides creating nodes and links. The order in which a node lists its functions is that of the
-- model's list; the code's map is unordered, and the theorems hold for every order.
pub mod Base
pub mod Ndn
pub mod Boost
pub mod Computation
pub mod Node
pub mod Engine
pub mod NodeApp
pub mod Producer
pub mod Consumer
pub mod ParserNodeInfo
pub mod TopologyReader
pub mod Storage
pub mod Messages
pub mod Management
pub mod Communication
pub mod Samples
