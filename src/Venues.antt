-- ===== src/Venues.antt =====
-- crates/ma-venues: the venues' protocols and the book that each of them keeps.
pub mod Sync
pub mod Wire
pub mod Bitstamp
pub mod Rfc3339
pub mod Coinbase
pub mod Kraken
