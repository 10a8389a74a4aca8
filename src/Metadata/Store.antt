-- ===== src/Metadata/Store.antt =====
-- crates/hier-kv-gateway-metadata/src/store.rs: the one entry point of the metadata. The locks of the
-- two indexes are left out: each operation takes one at a time and holds it to its end. `none` is a
-- panic of a part. Reads of the clock are the argument `now`.
pub mod Listing
pub mod Registry
pub mod Removal
use hier_kv_gateway.Prelude.{
  ℕ, Bool, true, false, Option, none, some, List, [], ◌∷◌, ◌++◌, not, keep, dec→Bool, length, map,
  String,
}
use hier_kv_gateway.Ids.{
  BackendId, BackendId_discrete, RegionId, RegionId_discrete, IndexerDomainId,
  IndexerDomainId_discrete, SessionId, SessionId_discrete,
}
use hier_kv_gateway.HashMap.{lookup, insert, remove}
use hier_kv_gateway.Interface.DashMap.{DashMap}
use hier_kv_gateway.Core.Backend.{BackendInfo, ModelInstance}
use hier_kv_gateway.Core.KvEvent.{KvCacheEvent}
use hier_kv_gateway.Core.Metrics.{BackendMetrics}
use hier_kv_gateway.Metadata.KvIndex.{KvIndex}
use hier_kv_gateway.Metadata.KvIndex as Index
use hier_kv_gateway.Metadata.LoadStats.{LoadStats, RingBuffer}
use hier_kv_gateway.Metadata.LoadStats as Load
use hier_kv_gateway.Metadata.LocalCkf.{unassign_lane}
use hier_kv_gateway.Metadata.ModelRegistry as Models
use hier_kv_gateway.Metadata.RadixTree.Worker.{Reply, remove_query, drop_handle}
use hier_kv_gateway.Metadata.RoutingHistory.{SessionAffinity}
use hier_kv_gateway.Metadata.RoutingHistory as History
use hier_kv_gateway.Metadata.TopologyGraph.{TopologyGraph, RegionInfo, LatencyEstimate}
use hier_kv_gateway.Metadata.TopologyGraph as Topology

abbrev pub is_empty : {A : Type 0} → List A → Bool
is_empty [] = true
is_empty (x ∷ xs) = false

abbrev pub or_default : {A : Type 0} → Option (List A) → List A
or_default none = []
or_default (some l) = l

-- The lists of an index by region or by domain.
module _ {K : Type 0} (dec : Discrete K) where
  abbrev pub listed : K → List (K × List BackendId) → List BackendId
  listed k index = or_default (lookup dec k index)

  unfoldable pub push_to : K → BackendId → List (K × List BackendId) → List (K × List BackendId)
  push_to k b index = insert dec k (listed k index ++ b ∷ []) index

  unfoldable pub drop_from : K → BackendId → List (K × List BackendId) → List (K × List BackendId)
  drop_from k b index = elim (lookup dec k index) [
    | none ↦ index
    | some l ↦
        (let left = keep (λ c. not (dec→Bool (BackendId_discrete c b))) l in
          elim (is_empty left) [ true ↦ remove dec k index | false ↦ insert dec k left index ])
  ]

-- The types of the maps of the parts: models, load, its history, sessions and backends.
pub record MetadataStore (F A L R S B : Type 0) : Type 0 where
  pub kv_index : KvIndex
  pub models : A
  pub load : LoadStats L R
  pub topology : TopologyGraph F
  pub history : S
  pub backends : B
  pub by_region : List (RegionId × List BackendId)
  pub by_domain : List (IndexerDomainId × List BackendId)

module _ {F A L R S B : Type 0} (da : DashMap A BackendId_discrete (List ModelInstance))
    (dl : DashMap L BackendId_discrete (BackendMetrics F))
    (dr : DashMap R BackendId_discrete (RingBuffer (BackendMetrics F)))
    (ds : DashMap S SessionId_discrete SessionAffinity)
    (db : DashMap B BackendId_discrete BackendInfo) where
  abbrev pub Store : Type 0
  Store = MetadataStore F A L R S B

  unfoldable pub new : Store
  new = record {
    kv_index = Index.new;
    models = da.empty;
    load = Load.new dl dr;
    topology = Topology.new;
    history = ds.empty;
    backends = db.empty;
    by_region = [];
    by_domain = [];
  }

  unfoldable pub register_backend : BackendInfo → Store → Store
  register_backend info s = record s {
    backends = db.insert info.id info s.backends;
    models = Models.register da info.id info.models s.models;
    by_region = push_to RegionId_discrete info.region info.id s.by_region;
    by_domain = push_to IndexerDomainId_discrete info.indexer_domain info.id s.by_domain;
  }

  -- The two indexes without the backend of `info`.
  abbrev pub without : Option BackendInfo → Store → Store
  without none s = s
  without (some info) s = record s {
    by_region = drop_from RegionId_discrete info.region info.id s.by_region;
    by_domain = drop_from IndexerDomainId_discrete info.indexer_domain info.id s.by_domain;
  }

  unfoldable pub unregister_backend : BackendId → Store → Store
  unregister_backend backend_id s =
      let t = without (db.get backend_id s.backends) s in
      record t {
        backends = db.remove backend_id s.backends;
        models = Models.unregister da backend_id s.models;
        load = Load.remove dl dr backend_id s.load;
      }

  unfoldable pub backends_all : Store → List BackendInfo
  backends_all s = map (λ e. e.1) (db.entries s.backends)

  unfoldable pub backends_by_region : RegionId → Store → List BackendId
  backends_by_region region s = listed RegionId_discrete region s.by_region

  unfoldable pub backends_by_domain : IndexerDomainId → Store → List BackendId
  backends_by_domain domain s = listed IndexerDomainId_discrete domain s.by_domain

  unfoldable pub backend_get : BackendId → Store → Option BackendInfo
  backend_get backend s = db.get backend s.backends

  unfoldable pub backends_len : Store → ℕ
  backends_len s = length (db.entries s.backends)

  -- The future is run to its end, where it drops its clone of the handle of the tree.
  unfoldable pub kv_remove_backend : BackendId → Store → Store
  kv_remove_backend backend s =
      let k = s.kv_index in
      record s {
        kv_index = record k {
          local_ckf = unassign_lane backend k.local_ckf;
          radix = drop_handle (Index.call (remove_query backend) k.radix).0;
        };
      }

  unfoldable pub kv_apply_event :
      (List ℕ → ℕ → ℕ) → KvCacheEvent → BackendId → Store → Option (Reply × Store)
  kv_apply_event xxh3 event backend s = elim (Index.kv_apply_event xxh3 event backend s.kv_index) [
    | none ↦ none
    | some r ↦ some (r.0, record s { kv_index = r.1 })
  ]

  unfoldable pub kv_find_local_overlap :
      (List ℕ → ℕ → ℕ) → List ℕ → BackendId → Store → Option (ℕ × Store)
  kv_find_local_overlap xxh3 hashes backend s =
      elim (Index.kv_find_local_overlap xxh3 hashes backend s.kv_index) [
        | none ↦ none
        | some r ↦ some (r.0, record s { kv_index = r.1 })
      ]

  unfoldable pub kv_find_all_local_overlap :
      (List ℕ → ℕ → ℕ) → List ℕ → Store → List (BackendId × ℕ)
  kv_find_all_local_overlap xxh3 hashes s = Index.kv_find_all_local_overlap xxh3 hashes s.kv_index

  unfoldable pub kv_find_global_overlap : (List ℕ → ℕ → ℕ) → List ℕ → RegionId → Store → Option ℕ
  kv_find_global_overlap xxh3 hashes region s =
      Index.kv_find_global_overlap xxh3 hashes region s.kv_index

  unfoldable pub model_match_score : BackendId → String → Store → ℕ
  model_match_score backend model_name s = Models.model_match_score da backend model_name s.models

  unfoldable pub model_find_backends : String → Store → List BackendId
  model_find_backends model_name s = Models.model_find_backends da model_name s.models

  unfoldable pub model_get_instances : BackendId → Store → List ModelInstance
  model_get_instances backend s = Models.get_instances da backend s.models

  unfoldable pub load_get_metrics : BackendId → Store → Option (BackendMetrics F)
  load_get_metrics backend s = Load.get dl dr backend s.load

  unfoldable pub load_update : BackendId → BackendMetrics F → Store → Option Store
  load_update backend metrics s = elim (Load.update dl dr backend metrics s.load) [
    | none ↦ none
    | some l ↦ some (record s { load = l })
  ]

  unfoldable pub load_freshness : ℕ → BackendId → Store → Option ℕ
  load_freshness now backend s = Load.freshness dl dr now backend s.load

  unfoldable pub topo_rtt_ms : F → F → RegionId → RegionId → Store → F
  topo_rtt_ms zero_ms infinity from to s = Topology.rtt_ms zero_ms infinity s.topology from to

  unfoldable pub topo_get_region : RegionId → Store → Option (RegionInfo F)
  topo_get_region region s = Topology.get_region s.topology region

  unfoldable pub topo_update_latency : RegionId → RegionId → LatencyEstimate F → Store → Store
  topo_update_latency a b estimate s = record s {
    topology = Topology.update_latency a b estimate s.topology;
  }

  unfoldable pub topo_add_region : RegionInfo F → Store → Store
  topo_add_region info s = record s { topology = Topology.add_region info s.topology }

  unfoldable pub session_get : SessionId → Store → Option SessionAffinity
  session_get session s = History.get ds session s.history

  unfoldable pub session_set : ℕ → SessionId → BackendId → ℕ → Store → Store
  session_set now session backend kv_overlap_at_route s = record s {
    history = History.set ds now session backend kv_overlap_at_route s.history;
  }

  unfoldable pub session_evict_expired : ℕ → ℕ → Store → Store × ℕ
  session_evict_expired now ttl s =
      let r = History.evict_expired ds now ttl s.history in (record s { history = r.0 }, r.1)
