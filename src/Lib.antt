-- ===== src/Lib.antt =====
-- The SSE gateway: a model of its Rust crates.
--
-- The program keeps open HTTP responses, one per client, and pushes server-sent events to them. A
-- client connects to a channel; messages come from a message source or over HTTP, go to the live
-- clients of their channel or to all, and are stored so that a client that reconnects with the id of
-- its last event is sent what it missed.
--
-- Parts and files. A function is named as in Rust; an operation on a shared object takes and returns
-- the object's state.
--   Event, Connection: crates/sse-gateway/src/event.rs and connection.rs. A fresh uuid and a clock
--     reading are arguments.
--   Manager: crates/sse-gateway/src/manager.rs, the table of connections and the index of channels.
--     Manager/Index and Manager/Senders hold its invariants, Manager/Delivery, Manager/Broadcast,
--     Manager/Cleanup and Manager/Count what the operations do. Manager/Heartbeats: the heartbeats, and
--     the task of `Gateway::run` that sends them.
--   Storage: crates/sse-gateway/src/storage.rs. Storage/Trait is the trait as a record,
--     Storage/Memory and Storage/Noop are the implementations.
--   Source, Source/Loop: crates/sse-gateway/src/source.rs, messages, the trait, and the no-op and the
--     channel source.
--   Auth: crates/sse-gateway/src/auth.rs, what an auth callback reads of a request.
--   Handler: crates/sse-gateway/src/handler.rs, frames and `send_message`; Handler/Stats: `get_stats`,
--     which System/Shown compares with the sessions. Session: `sse_connect` and the end of a stream.
--     Session/Stream: what a client reads of it, with the heartbeats between the events.
--     A `tokio::spawn` of a store is a task in the `World` that runs later.
--   Gateway: crates/sse-gateway/src/gateway.rs, the dispatcher; Gateway/Builder is the builder.
--   System: `Gateway::run` as a relation of steps: a client that connects, is answered, goes away or
--     does so before it is answered, a message over HTTP or of the source, a task that runs, a
--     cleanup. System/Sound is the invariant of the table, the channels and the sessions, System/Safety
--     and System/Reading follow from it, System/Tasks and System/Filled are about the tasks and what
--     they leave in the memory storage, System/Race and System/Reorder are two interleavings.
--     System/Allowed is about the auth callback.
--     System/Run is `Gateway::run` around these steps, from its start to its return: the port, the
--     accepted requests and the messages that wait for their tasks.
--     System/Waiting is another relation, of deliveries that wait: `send_to_channel` await by await
--     with the locks of the table, and streams that are opened, read and dropped meanwhile. A send of
--     a request is given up when its client goes away, one of the dispatcher's tasks is not.
--     System/Waiting/Stuck and System/Waiting/Endless are about a send that no move ends, and
--     System/Waiting/Deadlock about a client that leaves with a full channel.
--   Redis: crates/sse-gateway-redis/src/storage.rs. Redis/Storage/Flush is the pipeline of a batch,
--     Redis/Storage/Batch the loop of the batch task, with what it keeps and what it flushes below it;
--     Redis/Storage/Entries is the way back.
--   Redis/PubSub: crates/sse-gateway-redis/src/pubsub.rs. Gcp: crates/sse-gateway-gcp/src/lib.rs.
--   Server: src/main.rs. Server/Instances is the announcement of an instance, and
--     Server/Instances/Alive and Server/Instances/Expiry what a server whose hashes expire says of it.
--     Server/Instances/Listing lists the instances. Server/Channels is the mapping of channels to
--     instances, Server/Push and Server/Status are the HTTP handlers. Server/Direct is the direct push
--     source; Server/Direct/Ends is about its loop, Server/Direct/Balance about its callbacks in a run
--     of System. Server/Start is `main`: the environment, and the gateway that is built.
--   Examples: the programs of examples/. Examples/Auth is the auth callback of auth.rs,
--     Examples/Webhook, Examples/DirectPush and Examples/Timer the sources of webhook_source.rs,
--     direct_push_source.rs and custom_source.rs.
--   Bench: examples/benchmark.rs. Bench/Stats is its configuration and its statistics, over the sort
--     of Bench/Sort; Bench/Frames is the receiver that takes events out of a response, and
--     Bench/EndToEnd what the benchmark of the end-to-end latency makes of them.
--   Std: the parts of Rust's standard library that the code uses, on texts as lists of bytes.
--   Extern: interfaces of the crates the program calls: dashmap, tokio's mpsc and broadcast,
--     serde_json, axum's event frames, a Redis server's keys and its hashes. Their laws are documented
--     behaviour; Extern/Samples, Tests/Servers and Tests/Instances have a value of each.
--   Prelude: texts, lists and Boolean tests. Tests: runs, and the theorems at concrete inputs.
--
-- Bounds. Counters are 64 bits wide and wrap around. A loop is on a list; the rounds of a `select!`
-- loop are the list of what each round sees. Only the loops of the direct push, webhook and timer
-- sources and the heartbeat task run on fuel, over rounds without an end: one more than the rounds
-- before the one that ends them are enough. The receiver of the benchmark takes frames out of its
-- buffer in as many rounds as it has bytes; Bench/Frames/Drain shows that more change nothing. A
-- duration of the benchmark is in nanoseconds, and a percentile is the division of whole numbers,
-- which its floating point is as long as the number of latencies times 100 has 53 bits.
--
-- Concurrency. In System the steps of all clients and tasks come in any order, and a background task
-- runs at any time after it was spawned. A connect request is two steps, before and after it awaits
-- the storage; its uuid is one that the table does not hold. An operation of the manager, the storage
-- or the dispatcher is one step there: a message goes to all its clients before another step. In the
-- program other tasks run between the sends of a delivery, so two clients may be sent two messages in
-- different orders; what is said of System is about runs without that. System/Waiting has what other
-- tasks do while a send to a channel waits for room. Of a broadcast, which holds its guards in the same
-- way, it has nothing.
--
-- Not modelled: which heartbeats a slow stream loses, and the keep-alive comments; the dashboard's
-- page; the error type, which nothing raises; the listening sockets, which signals there are, logging,
-- and how a Redis server is reached; the requests that the benchmark sends and what it prints; and
-- the examples that only call the library.
mod Prelude
pub mod Extern
pub mod Event
pub mod Connection
pub mod Manager
pub mod Std
pub mod Source
pub mod Auth
pub mod Handler
pub mod Session
pub mod Gateway
pub mod Redis
pub mod System
pub mod Server
pub mod Gcp
pub mod Storage
pub mod Bench
pub mod Examples
mod Tests
