-- ===== src/Metadata.antt =====
-- The crate crates/hier-kv-gateway-metadata, as far as it is modelled.
pub mod LocalCkf
pub mod CkfProducer
pub mod CkfConsumer
pub mod CuckooFilter
pub mod TopologyGraph
pub mod RoutingHistory
pub mod LoadStats
pub mod ModelRegistry
pub mod KvIndex
pub mod Store
pub mod RadixTree
