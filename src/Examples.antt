-- ===== src/Examples.antt =====
-- The programs of examples/ that have logic of their own.
pub mod Auth
pub mod Webhook
pub mod DirectPush
pub mod Timer
