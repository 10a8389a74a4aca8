-- ===== src/Api.antt =====
-- The crate crates/hier-kv-gateway-api, as far as it is modelled.
pub mod Coalescer
