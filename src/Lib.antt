-- ===== src/Lib.antt =====
-- CAFE: a message bus for agents, and the core of the LLM service and of the agent runtime that talk to
-- it.
--
-- Clients hold sessions on the bus and publish chunks into them. The bus keeps each session's
-- history, replays it to subscribers, forwards what comes later, and tells followers which sessions
-- exist. Ephemeral sessions go away some time after their last counted subscriber left. The LLM
-- service makes a prompt of a session's history. The agent runtime attaches a pipeline of steps to
-- sessions: chunks trigger steps, which call evaluators by JSON-RPC requests in the session, and whose
-- completion triggers further steps.
--
-- The parts, their files and the code:
--   Chunk, Chunk/Keys, Tags, Envelope: cafe-types/src/{chunk,annotation,tags,error,envelope,session}.rs.
--     A chunk's annotations are a map to JSON values; the messages are data types with the source's
--     variants.
--   Codec: cafe-types/src/codec.rs (JsonLineCodec, BincodeLengthPrefixCodec) and `Frames::next_msg`
--     with the reading loop of cafe-bus/src/client.rs.
--   Session: cafe-bus/src/session.rs, `SessionState` with one function per method. `sent` stands for
--     the broadcast sender.
--   Registry: cafe-bus/src/registry.rs, `SessionRegistry`. `events` stands for the event sender; the
--     task of `schedule_deletion` is a `Timer`, and `fire` is what it does when it wakes.
--   Filter, Bus, Handlers/*, Client: cafe-bus/src/client.rs. `Bus` is the state that connections
--     share, `Conn` the variables of one connection; `handle` is one round of `client_loop`, with a
--     function for each message; `handshake` and `greet` are the starts of `handle_connection` and
--     `handle_client`, `disconnect` is their common end. Client/Run lets connections, timers and
--     event-following tasks take turns (`Step`, `Reach`).
--   Llm, Llm/Config: cafe-llm/src/context.rs. Llm/Service: preparation and answer of an `llm.invoke` in
--     cafe-llm/src/evaluator.rs, with `LlmBackend` as a parameter; what the loop over the tokens sees, in
--     which order, is an argument. Llm/Router: cafe-llm/src/backends/router.rs, the queries of the catalog in
--     cafe-types/src/models.rs, and what cafe-llm/src/bus_client.rs puts into it.
--   Rpc: cafe-types/src/{jsonrpc,tools,schema}.rs and the accessors of chunk.rs that read their types
--     out of annotations. `Serde` is `serde_json` at these types.
--   Agent: cafe-agent-runtime/src. Agent/Steps, Agent/Dispatch and Agent/Executor are executor.rs
--     (`on_trigger` with its work queue, `dispatch_rpc`, `build_rpc_params`), Agent/Tools is
--     tool_detector.rs and tool_executor.rs, Agent/Config is config.rs, Agent/SessionLoop is
--     session_loop.rs, Agent/Loader and Agent/Lifecycle are loader.rs and lifecycle.rs, and
--     Agent/Attachment is the part of main.rs that records pipelines and attaches them to sessions.
--     Agent/Network is the bus as the runtime sees it: the calls made so far are a log, and every answer
--     is an arbitrary function of that log.
--   BinaryStore: cafe-binary-store/src/{storage,jwt}.rs. Sdk: cafe-sdk/src/bus/{reconnect,wait}.rs;
--     Sdk/Negotiation is the negotiation of the codec in cafe-sdk/src/bus/mod.rs.
--     Routes: cafe-server/src/route_registry.rs.
--   Platform: what is taken from `serde_json` and `Debug`. Base and Map: shared helpers; a HashMap is
--     an association list whose order stands for the order of iteration.
--   Examples: a concrete platform, JSON library and bus, and the theorems at them.
--
-- Modelling choices. `Instant` is a number of nanoseconds; adding a duration fails past 2^63 seconds,
-- which is a panic of the source and `none` here; identifiers and times of new chunks come from a
-- `Stamp`. The messages handed to a writer are a log, `outbox`; encoding them succeeds, and whether a
-- write succeeds is an argument (`Env.accepts`). The part of a handler under the registry's lock is
-- atomic, as is the whole handler in `Step`. A broadcast channel is the list of what was sent and the
-- receivers' positions; what a receiver yields, lagging included, is an argument of the forwarding
-- functions. Bytes and string lengths are natural numbers, with the source's truncation to 32 bits
-- where it casts. In the agent runtime, what a receiver yields before its timeout is a list of
-- messages with the way in which the wait ends. The binary store's file system does not fail, and the
-- sum of an offset and a length there wraps at 2^64. Three loops run on fuel: `Codec.messages`, for which
-- one more than the number of messages is proved to be enough; the work queue of `on_trigger`, where an
-- item needs one round and those of what it pushes, at most one completion for each step, one level
-- deeper (`weight`); and `reconnect_loop`, which needs one unit for each run.
--
-- Not modelled: sockets, start-up and logging; the serde attributes; the HTTP of the LLM back ends, `llm.prompt`
-- and the event loop of cafe-llm; the transports and the HTTP client of the SDK; the HTTP handlers of the server;
-- schema discovery, the scheduler and the file watcher of the agent runtime; the clean-up and the
-- database of the binary store; the JavaScript agent runtime, the session store, the user interfaces, the
-- bridges, and the parts in other languages.
pub mod Base
pub mod Map
pub mod Platform
pub mod Chunk
pub mod Tags
pub mod Envelope
pub mod Session
pub mod Registry
pub mod Filter
pub mod Bus
pub mod Handlers
pub mod Codec
pub mod Client
pub mod Llm
pub mod Rpc
pub mod Agent
pub mod BinaryStore
pub mod Sdk
pub mod Routes
mod Examples
