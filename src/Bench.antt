-- ===== src/Bench.antt =====
-- The benchmark client, examples/benchmark.rs.
pub mod Sort
pub mod Stats
pub mod Frames
pub mod EndToEnd
