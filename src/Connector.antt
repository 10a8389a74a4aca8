-- ===== src/Connector.antt =====
-- The crate crates/hier-kv-gateway-connector, as far as it is modelled: its resilience primitives.
pub mod Resilience
