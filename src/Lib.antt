-- ===== src/Lib.antt =====
-- The core of the gateway in crates/: the metadata that routing reads, the strategies over it, the
-- state that instances share and the resilience of the calls to the backends.
--
-- The parts, and the modules that model them:
--   Ids                    crates/hier-kv-gateway-core/src/ids.rs, the identifiers, compared by
--                          content, and the text of a backend's identifier
--   Core                   kv_event.rs, metrics.rs and backend.rs of the same crate: cache events and
--                          the hashes of blocks, load metrics, what a backend registers
--   Metadata/RadixTree     crates/hier-kv-gateway-metadata/src/radix_tree.rs: `apply_event`,
--                          `find_matches` and the other operations of the tree of the worker thread
--   Metadata/LoadStats     load_stats.rs of that crate: the latest metrics and the ring of samples
--   Metadata/RoutingHistory  routing_history.rs of that crate: the affinity of sessions
--   Metadata/TopologyGraph  topology_graph.rs of that crate: regions and their round-trip times
--   Metadata/CuckooFilter  cuckoo_filter.rs of that crate: buckets of fingerprints packed in words
--   Metadata/CkfProducer   ckf_producer.rs of that crate: the filter of a pool, its snapshots and deltas
--   Metadata/CkfConsumer   ckf_consumer.rs of that crate: the filters of other regions
--   Metadata/LocalCkf      local_ckf.rs of that crate: the filters of the local backends
--   Metadata/ModelRegistry  model_registry.rs of that crate: the models that each backend serves
--   Metadata/KvIndex       kv_index.rs of that crate: the tree and the filters behind one entry point
--   Metadata/Store         store.rs of that crate: the registered backends and all of the metadata
--   Routing/PrefixHistory  crates/hier-kv-gateway-routing/src/prefix_history.rs
--   Routing/RoundRobin     round_robin.rs of that crate
--   Routing/TenantScheduler  tenant_scheduler.rs of that crate and core/src/tenant.rs: admission
--   Api/Coalescer          crates/hier-kv-gateway-api/src/coalescer.rs: one forward for equal requests
--   Cluster/SharedState    crates/hier-kv-gateway-cluster/src/shared_state.rs, the local store
--   Cluster/Member         member.rs and region_view.rs of that crate
--   Cluster/Messages       messages.rs of that crate
--   Cluster/Gossip         gossip.rs of that crate: the engine (Cluster/Gossip/Engine) and its rounds
--   Cluster/CkfRelay       ckf_relay.rs of that crate: the filters of the pools, published as messages
--   Connector/Resilience   crates/hier-kv-gateway-connector/src/resilience.rs: back-off and breakers
--   KvEstimate             spec.rs and estimate.rs of crates/hier-kv-gateway-kv-estimate/src
-- The functions keep the names of the methods. Backends publish cache events, which the radix tree
-- takes in behind a channel (Metadata/RadixTree/Worker), and a cuckoo filter of their pool, whose
-- snapshots and deltas the relay sends to other regions. The gossip engines exchange these and
-- other messages, and keep the member list by the pings that they hear and the timeouts of their
-- probes. The store holds the index, the registry of models, the load, the topology and the
-- sessions. Routing asks how much of a request a backend holds, remembers the dispatch in the
-- prefix history, and the connector's breakers tell which backends may be asked. Equal requests
-- share one forward in the coalescer, and the scheduler of tenants decides on their admission.
--
-- A method of a shared object is a function from the state to the new state and its result. Clocks
-- are arguments, a call on a `DashMap` is one step, and a sequence of calls stands for an
-- interleaving of the threads. `DashMap` is the interface Interface/DashMap with the documented
-- laws of a map, filled by association lists in Interface/DashMap/Assoc; the hash of xxhash-rust,
-- the order of an unstable sort and floating point are parameters. Machine integers are natural
-- numbers, with the wrap-around or the saturation of the source written out, except for the
-- counters of overlaps, items and references, which count elements that memory holds. A panic is
-- the value `none`. What an engine or the relay sends is a list that the operation returns, since
-- a failure of the transport is only logged; an answer that the code uses is an argument. The
-- background tasks of an engine are counted, and each round of a task is one step;
-- Cluster/Gossip/Detector/Steps also takes the probe round apart. A call of the tree's worker runs
-- as many rounds of it as requests wait, and one for itself. The recursions follow the lists and
-- trees of the source; the evictions of a cuckoo insertion run the 500 rounds of the source and
-- fail after them, and the loop over the blocks of a prompt is given a round for each token, which
-- is enough as a block has at least one.
--
-- Not modelled: the Redis store, the transports, the handler that the program gives to the gossip
-- engine, the scoring strategies and the routing engine, the configuration but that of the tenants
-- and of the cluster, the HTTP interface with the key of a request, the clients of the backends,
-- and all input and output. They are network calls, glue or floating point, as are `kv_confidence`
-- of the index and the encoding of `LoadPayload`. The atomic reads and writes of a lane that
-- overlap are not modelled either.
pub mod Api
pub mod Prelude
pub mod Ids
pub mod HashMap
pub mod HashSet
pub mod Interface
pub mod Connector
pub mod Core
pub mod Metadata
pub mod Cluster
pub mod KvEstimate
pub mod Routing
mod Tests
