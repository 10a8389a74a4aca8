-- ===== src/Routing.antt =====
-- The crate crates/hier-kv-gateway-routing, as far as it is modelled.
pub mod RoundRobin
pub mod TenantScheduler
pub mod PrefixHistory
