-- ===== src/Redis.antt =====
-- The Redis adapters (crates/sse-gateway-redis/src).
pub mod Command
pub mod Storage
pub mod PubSub
