-- ===== src/Pipeline.antt =====
-- The crate `ma-pipeline`: the channel between ingest and aggregator, the retry schedule, and the
-- aggregator that owns the books.
pub mod Channel
pub mod Backoff
pub mod Messages
pub mod Metrics
pub mod Aggregator
pub mod View
pub mod Tape
pub mod Snapshot
pub mod Ingest
