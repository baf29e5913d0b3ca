-- ===== src/Coord.antt =====
-- crates/ma-coord: which node of the cluster runs which stream, and for how long it may.
pub mod Assign
pub mod Lease
