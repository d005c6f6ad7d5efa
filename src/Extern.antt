-- ===== src/Extern.antt =====
-- The crates that the gateway calls, as interfaces: operations and the documented laws that the code
-- relies on. Each is an instance argument of the definitions that use it.
pub mod Broadcast
pub mod DashMap
pub mod Mpsc
pub mod Room
pub mod Json
pub mod SseFrame
pub mod Samples
pub mod Keyspace
pub mod Hashes
