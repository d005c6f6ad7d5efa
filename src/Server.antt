-- ===== src/Server.antt =====
-- The gateway binary (src/main.rs).
pub mod Instances
pub mod Channels
pub mod Direct
pub mod Push
pub mod Status
pub mod Start
