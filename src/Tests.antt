-- ===== src/Tests.antt =====
-- Concrete books, streams, channels and clusters, and the theorems at them.
pub mod Data
mod Books
mod Streams
mod Pipelines
mod Clusters
mod Venues
mod Feeds
mod Touches
mod Aggregators
mod Gateways
mod Tapes
mod Ingests
