-- ===== src/Server.antt =====
-- The crate `ma-server`, of which the gateway's merge of several nodes' snapshots is modelled.
pub mod Gateway
