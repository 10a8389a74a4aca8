-- ===== src/Cluster.antt =====
-- The crate crates/hier-kv-gateway-cluster, as far as it is modelled.
pub mod SharedState
pub mod Member
pub mod Messages
pub mod Gossip
pub mod CkfRelay
