-- ===== src/Storage.antt =====
-- storage.rs: the storage trait and its two implementations in the core crate
-- (crates/sse-gateway/src/storage.rs).
pub mod Trait
pub mod Memory
pub mod Noop
