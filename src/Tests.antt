-- ===== src/Tests.antt =====
-- Concrete runs, and each theorem at an input that meets its hypotheses.
mod Fixtures
mod Managers
mod Batches
mod Queries
mod Streams
mod Sessions
mod Servers
mod Systems
mod Instances
mod Direct
mod Bench
mod Examples
mod Reads
mod Waiting
mod Runs
