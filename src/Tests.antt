-- ===== src/Tests.antt =====
-- The theorems applied at concrete inputs, and runs of the definitions.
pub mod Data
mod Blocks
mod Identifiers
mod Metadata
mod Connector
mod Cluster
mod KvEstimate
mod Routing
mod Admission
mod Cuckoo
mod Gossip
mod Relay
mod Store
