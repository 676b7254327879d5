-- ===== src/Lib.antt =====
-- A model of the media framework, from its state store down to its buffers, and the theorems that
-- hold of it. Paths are from the root of the repository; a function of the model has the name of the
-- function that it translates.
--
-- The parts and how they interact. A command (src/control/command.cpp) writes the desired state of a
-- pipeline into a state store (src/control/state_store.cpp). The reconciler
-- (src/control/pipeline_reconciler.cpp) reads it, starts or stops the pipeline and writes the actual
-- state. A pipeline (src/media/pipeline.cpp) owns nodes (src/media/node.cpp) and a graph of them
-- (src/media/graph.cpp), whose topological order is the order of its starts, ticks and drains. An
-- executor (include/eavp/media/executor.hpp) calls its ticks. Nodes exchange values through ports
-- (include/eavp/media/port.hpp) over bounded queues (include/eavp/media/queue.hpp). The backend nodes
-- (src/media/backend_node.cpp) drive a processor or an encoder. A registry of providers
-- (src/media/backend_registry.cpp) chooses it: it matches a request, which is about a configuration
-- (src/media/video_codec.cpp) and picture formats (src/media/video_format.cpp), against the capabilities
-- of each provider (src/media/capability.cpp), and negotiates with a best one. The reference provider
-- (src/media/reference_backend.cpp) is one such. The values are frames and packets
-- (include/eavp/media/frame.hpp, src/media/media_packet.cpp), whose bytes are in buffers
-- (src/media/buffer.cpp). On Linux an event loop (src/platform/linux/linux_event_loop.cpp) tells which
-- pipelines can go on. Health and metrics (src/management) are kept beside all this.
--
-- Which file models which part:
--   Base: the names that all modules share, lists measured by native numbers, Boolean tests.
--   Status: include/eavp/base/status.hpp and result.hpp.
--   StringMap, StringSet: std::map and std::set with string keys, as sorted association lists and lists.
--   Text: the state keys.
--   Control/StateStore: the store; Laws has its theorems.
--   Control/Reconciler: commands and reconciler; Shows has the theorem on what the actual
--     state shows, with Called and Keys.
--   Media/Graph: add_node, connect and topological_order. Kahn has the invariant of the loop, Order the
--     orders, Connect the insertion of an edge, Reach what calls build.
--   Media/Node: the life cycle over the hooks of a subclass; LifeCycle has its theorems.
--   Media/Pipeline: the state and the building of a pipeline; Start, Drain (stop and cancel) and Tick its
--     operations; Formed, Start/AllRun and the children of Drain the theorems.
--   Media/Queue, Media/Port: queues and ports; the children have the theorems.
--   Media/Flow: early returns and exceptions of a method, with rules in Flow/Rules.
--   Media/BackendNode: on_tick, and in Stop the other hooks; Balance and Stop/Keeps have the theorems.
--   Media/Buffer: planes and slices; Mapped has mappings and alignments.
--   Media/VideoFormat: src/media/video_format.cpp; Planes and Ranges have the theorems.
--   Media/VideoFormat/Colour: the colour tags of a picture.
--   Time, Media/Codec: include/eavp/base/time.hpp and src/media/video_codec.cpp.
--   Media/Frame: audio formats, frames and packets; Audio has the theorem on audio frames.
--   Media/Capability: formats and plane layouts of src/media/capability.cpp. Sizes has its arithmetic,
--     Request the requests, Processor, Encoder and Provider the three classes that match; Aligned, Actual
--     and Made lead to the theorems of Encoder/Stable, Processor/Settled and Provider/ZeroCopy.
--   Media/Registry: the registry; Order is about its scores, Best and Register have the theorems.
--   Media/Reference: the calls of the two reference backends; Formats has what they accept and offer,
--     Encode what they emit; Ran, Finish, Payload and Offer have the theorems, the last on what the
--     provider negotiates.
--   Platform/CaptureConfig: src/platform/linux/v4l2_capture_config.cpp and alsa_capture_config.cpp; Layout
--     has the theorem.
--   Platform/EventLoop: src/platform/linux/linux_event_loop.cpp; Events has the sets of events, Register
--     and Wait the registration and the wait, with theorems in Register/Atomic and Wait/Ready;
--     Register/Outcome says how a registration ends, and Descriptors, Tokens and Epoll lead there.
--   Management/Health, Management/Metrics: src/management.
--
-- State is a record that an operation takes and returns. A pointer to a node is the id of the node, since
-- the ids of a pipeline are unique; a shared queue is an index into a store of queues; a null pointer is
-- `none`. A hook, a backend or a storage is code of a subclass and a parameter; it returns or throws, and
-- an exception passes through or is caught as the code says. Numbers of type std::size_t and std::uint64_t
-- are natural numbers whose additions are taken modulo 2 ^ 64 where the code lets them wrap: std::size_t
-- has 64 bits here, as on the targets of 64 bits, except in Platform/CaptureConfig, whose greatest
-- std::size_t is a parameter.
--
-- Bounds and fuel. The loop of topological_order has as much fuel as there are nodes, the loop of stop as
-- many rounds as there are nodes from drain_index_ on, a wait as many as it may be interrupted, and
-- greatest_common_divisor one more than its second argument, which falls in each round.
--
-- The overloads for processors and for encoders of the capabilities, of the registry and of the reference
-- backends are one function here, over a record of what they differ in. The bytes that a plane holds when
-- it is mapped are a parameter of the encoder, and its packet has the bytes of its payload as its buffer.
-- std::sort may leave candidates of equal scores in any order, and here the later one comes first.
--
-- Not modelled: failed allocations of the program itself and the catch clauses for them; mutexes, so that
-- each method of a store or a manager runs alone; doubles, which are a parameter with its equality; the
-- moves and the file descriptors of handles. A backend node on a null backend is not ticked, as its
-- prepare fails. Enumerators outside an enumeration are left out, and so are the strong ids, which wrap a
-- text. The calls of the system and of the wait sources that an event loop makes return, so that the catch
-- clauses of the loop are left out. The other files under src/platform are not modelled: they call the
-- system.
pub mod Base
pub mod Status
pub mod StringMap
pub mod StringSet
pub mod Time
pub mod Text
pub mod Control
pub mod Management
pub mod Media
pub mod Platform
