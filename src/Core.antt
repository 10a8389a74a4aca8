-- ===== src/Core.antt =====
-- The crate crates/hier-kv-gateway-core, as far as it is modelled.
pub mod Backend
pub mod BlockHashes
pub mod KvEvent
pub mod Metrics
