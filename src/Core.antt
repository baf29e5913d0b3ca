-- ===== src/Core.antt =====
-- The crate `ma-core`: prices, time, events, the order book.
pub mod Decimal
pub mod Time
pub mod Event
pub mod Levels
pub mod Book
pub mod Audit
pub mod Cross
pub mod Window
pub mod CrossWindows
