-- ===== src/Cluster/CkfRelay.antt =====
-- crates/hier-kv-gateway-cluster/src/ckf_relay.rs: the relay publishes the filters of the pools.
-- A failure of the transport's `broadcast` is only logged, so an operation returns the messages that
-- it broadcasts. `xxh3` is the hash of the filter and `sort` the order of a delta. `P` is the map of
-- the producers. The consumer that the relay holds for others has no part in its operations.
pub mod Publication
pub mod Pending
use hier_kv_gateway.Prelude.{
  ℕ, ◌+◌, ◌-◌, ◌==◌, Bool, true, false, Option, none, some, List, [], ◌∷◌, ◌++◌, if◌then◌else◌, ltb,
  leb, map, length,
}
use hier_kv_gateway.Ids.{BackendId, PoolId, PoolId_discrete, RegionId}
use hier_kv_gateway.HashMap.{keys}
use hier_kv_gateway.Interface.DashMap.{DashMap}
use hier_kv_gateway.Core.KvEvent.{KvCacheEvent}
use hier_kv_gateway.Metadata.CuckooFilter.{CkfSnapshot, CkfDelta, buckets_per_lane}
use hier_kv_gateway.Metadata.CkfProducer.{CkfProducer, snapshot, delta}
use hier_kv_gateway.Metadata.CkfProducer as Producer
use hier_kv_gateway.Cluster.Messages.{ClusterMessage, ckf_barrier_snapshot, ckf_delta}

abbrev pub default_publication_threshold : ℕ
default_publication_threshold = 16

abbrev pub default_publication_delay_ms : ℕ
default_publication_delay_ms = 1

-- The background tasks that run are counted.
pub record KvRelay (P : Type 0) : Type 0 where
  pub self_region : RegionId
  pub producers : P
  pub publication_threshold : ℕ
  pub publication_delay_ms : ℕ
  pub pending_count : ℕ
  pub running : Bool
  pub flush_tasks : ℕ

-- `or_default` of an entry.
abbrev pub or_new : Option CkfProducer → CkfProducer
or_new none = Producer.new
or_new (some p) = p

module _ {P : Type 0} (d : DashMap P PoolId_discrete CkfProducer) where
  abbrev pub with_params : RegionId → ℕ → ℕ → KvRelay P
  with_params self_region publication_threshold publication_delay_ms = record {
    self_region = self_region;
    producers = d.empty;
    publication_threshold = publication_threshold;
    publication_delay_ms = publication_delay_ms;
    pending_count = 0;
    running = false;
    flush_tasks = 0;
  }

  abbrev pub new : RegionId → KvRelay P
  new self_region =
      with_params self_region default_publication_threshold default_publication_delay_ms

  unfoldable pub pool_count : KvRelay P → ℕ
  pool_count r = length (d.entries r.producers)

  unfoldable pub producer_snapshot : PoolId → KvRelay P → Option ℕ
  producer_snapshot pool r = elim (d.get pool r.producers) [
    | none ↦ none
    | some p ↦ some p.num_items
  ]

unfoldable pub start : {P : Type 0} → KvRelay P → KvRelay P
start r = if r.running then r else record r { running = true; flush_tasks = r.flush_tasks + 1 }

unfoldable pub stop : {P : Type 0} → KvRelay P → KvRelay P
stop r = record r { running = false }

-- The message for what `delta` gives.
abbrev pub delta_message : {F J : Type 0} → PoolId → Option CkfDelta → List (ClusterMessage F J)
delta_message pool none = []
delta_message pool (some x) = ckf_delta pool x.sequence x.prev_sequence x.buckets ∷ []

module _ {F J P : Type 0} (d : DashMap P PoolId_discrete CkfProducer)
    (sort : List (ℕ × ℕ) → List (ℕ × ℕ)) where
  -- One pool of the loop of `flush`.
  unfoldable pub flush_pool : PoolId → P → P × List (ClusterMessage F J)
  flush_pool pool producers = elim (d.get pool producers) [
    | none ↦ (producers, [])
    | some p ↦ (let r = delta sort p in (d.insert pool r.0 producers, delta_message pool r.1))
  ]

  unfoldable pub flush_pools : List PoolId → P → P × List (ClusterMessage F J)
  unfolding flush_pool
  flush_pools [] producers = (producers, [])
  flush_pools (pool ∷ pools) producers =
      let first = flush_pool pool producers in
      let rest = flush_pools pools first.0 in (rest.0, first.1 ++ rest.1)

  unfoldable pub flush : KvRelay P → KvRelay P × List (ClusterMessage F J)
  unfolding flush_pools
  flush r =
      let flushed = flush_pools (keys (d.entries r.producers)) r.producers in
      (record r { pending_count = 0; producers = flushed.0 }, flushed.1)

  unfoldable pub apply_event :
      (List ℕ → ℕ → ℕ)
      → PoolId
      → KvCacheEvent
      → BackendId
      → KvRelay P
      → KvRelay P × List (ClusterMessage F J)
  unfolding flush
  apply_event xxh3 pool event backend r =
      let p = Producer.apply_event xxh3 (or_new (d.get pool r.producers)) event backend in
      let after = record r {
        producers = d.insert pool p r.producers;
        pending_count = r.pending_count + 1;
      } in
      if leb r.publication_threshold (r.pending_count + 1) then flush after else (after, [])

  unfoldable pub publish_barrier : PoolId → KvRelay P → KvRelay P × List (ClusterMessage F J)
  publish_barrier pool r = elim (d.get pool r.producers) [
    | none ↦ (r, [])
    | some p ↦
        (let s = snapshot p in
          (
            record r { producers = d.insert pool s.0 r.producers },
            ckf_barrier_snapshot pool s.1.sequence s.1.buckets buckets_per_lane ∷ [],
          ))
  ]

  -- A tick of the interval that one of the background tasks waits for. The task reads `running`
  -- when it comes back to the head of its loop.
  unfoldable pub tick : KvRelay P → KvRelay P × List (ClusterMessage F J)
  unfolding flush
  tick r =
      let left = if r.running then r.flush_tasks else r.flush_tasks - 1 in
      if r.flush_tasks == 0
      then (r, [])
      else if ltb 0 r.pending_count
      then flush (record r { flush_tasks = left })
      else (record r { flush_tasks = left }, [])
