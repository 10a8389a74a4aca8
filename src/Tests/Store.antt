-- ===== src/Tests/Store.antt =====
-- The store of crates/hier-kv-gateway-metadata and its index at concrete inputs.
use hier_kv_gateway.Prelude.{
  ℕ, ◌≡◌, ◌<◌, ◌↔◌, refl, none, some, List, [], ◌∷◌, length, In, All, arith, ◌%◌, true, false,
}
use hier_kv_gateway.Ids.{
  BackendId, BackendId_discrete, SessionId, SessionId_discrete, IndexerDomainId,
}
use hier_kv_gateway.HashMap.{lookup}
use hier_kv_gateway.Interface.DashMap.{DashMap}
use hier_kv_gateway.Interface.DashMap.Assoc.{assoc_map}
use hier_kv_gateway.Core.Backend.{BackendInfo, ModelInstance, vllm_engine, http, healthy, fp16}
use hier_kv_gateway.Core.KvEvent.{KvCacheEvent, stored_event, clear_event}
use hier_kv_gateway.Core.Metrics.{BackendMetrics}
use hier_kv_gateway.Metadata.KvIndex.{
  KvIndex, kv_apply_event, kv_find_local_overlap, kv_remove_backend, is_applied,
}
use hier_kv_gateway.Metadata.KvIndex as Index
use hier_kv_gateway.Metadata.KvIndex.Ready.{IsReady, kv_apply_event-IsReady}
use hier_kv_gateway.Metadata.KvIndex.Removal.{kv_find_local_overlap-removed}
use hier_kv_gateway.Metadata.LoadStats.{RingBuffer}
use hier_kv_gateway.Metadata.LocalCkf.{assign_lane}
use hier_kv_gateway.Metadata.ModelRegistry as Models
use hier_kv_gateway.Metadata.ModelRegistry.{model_find_backends, model_match_score}
use hier_kv_gateway.Metadata.ModelRegistry.Matches.{Offers, model_find_backends_lem}
use hier_kv_gateway.Metadata.RadixTree.{apply_event, empty_tree}
use hier_kv_gateway.Metadata.RadixTree.Valid.Runs.{empty_tree-IsValid}
use hier_kv_gateway.Metadata.RadixTree.Worker.{Reply, applied}
use hier_kv_gateway.Metadata.RoutingHistory.{SessionAffinity}
use hier_kv_gateway.Metadata.Store.{
  MetadataStore, backend_get, backends_by_region, backends_by_domain, new,
}
use hier_kv_gateway.Metadata.Store as Store
use hier_kv_gateway.Metadata.Store.Registry.{
  StoreCall, registered, unregistered, store_calls, listed_iff,
}
use hier_kv_gateway.Metadata.Store.Removal.{kv_apply_events, kv_apply_events-kv_remove_backend}
use hier_kv_gateway.Tests.Data.{backend_a, backend_b, worker, edge}

abbrev da : DashMap (List (BackendId × List ModelInstance)) BackendId_discrete (List ModelInstance)
da = assoc_map BackendId_discrete

-- The numbers of the metrics are natural.
abbrev dl : DashMap (List (BackendId × BackendMetrics ℕ)) BackendId_discrete (BackendMetrics ℕ)
dl = assoc_map BackendId_discrete

abbrev dr :
    DashMap
      (List (BackendId × RingBuffer (BackendMetrics ℕ)))
      BackendId_discrete
      (RingBuffer (BackendMetrics ℕ))
dr = assoc_map BackendId_discrete

abbrev ds : DashMap (List (SessionId × SessionAffinity)) SessionId_discrete SessionAffinity
ds = assoc_map SessionId_discrete

abbrev db : DashMap (List (BackendId × BackendInfo)) BackendId_discrete BackendInfo
db = assoc_map BackendId_discrete

-- A hash that is easy to compute.
abbrev h : List ℕ → ℕ → ℕ
h bytes seed = seed % 65536

abbrev llama : ModelInstance
llama = record {
  model_name = "llama_three";
  model_architecture = "llama";
  quantization = fp16;
  max_context_len = 8192;
  supports_tool_calling = true;
  supports_streaming = true;
}

model_find_backends_lem_example :
    (In backend_a (model_find_backends da "llama" ((backend_a, llama ∷ []) ∷ []))
      ↔ (0 < model_match_score da backend_a "llama" ((backend_a, llama ∷ []) ∷ [])))
    × (In backend_a (model_find_backends da "llama" ((backend_a, llama ∷ []) ∷ []))
        ↔ Offers (Models.or_default (da.get backend_a ((backend_a, llama ∷ []) ∷ []))) "llama")
model_find_backends_lem_example =
    model_find_backends_lem da backend_a "llama" ((backend_a, llama ∷ []) ∷ [])

abbrev event : KvCacheEvent
event = stored_event worker (1 ∷ 2 ∷ []) none []

new-IsReady : IsReady Index.new
unfolding lookup
new-IsReady = ((refl, refl), λ b l e. ground (arith, e))

kv_apply_event-IsReady_example :
    (k : KvIndex) × (kv_apply_event h event backend_a Index.new ≡ some (applied, k))
    × IsReady k
    × (k.radix.tree ≡ apply_event empty_tree backend_a event)
    × (k.local_ckf.backend_lanes ≡ (assign_lane backend_a Index.new.local_ckf).1.backend_lanes)
kv_apply_event-IsReady_example = kv_apply_event-IsReady h event backend_a Index.new new-IsReady

kv_find_local_overlap-removed_example :
    IsReady (kv_remove_backend backend_a Index.new)
    × (k : KvIndex) × (kv_find_local_overlap h
          (1 ∷ 2 ∷ [])
          backend_a
          (kv_remove_backend backend_a Index.new)
        ≡ some (0, k))
    × IsReady k
kv_find_local_overlap-removed_example =
    kv_find_local_overlap-removed h (1 ∷ 2 ∷ []) backend_a Index.new new-IsReady empty_tree-IsValid

abbrev domain : IndexerDomainId
domain = record { value = 4 }

abbrev info_of : BackendId → BackendInfo
info_of b = record {
  id = b;
  backend_type = vllm_engine;
  endpoint = record { url = "http"; protocol = http };
  models = llama ∷ [];
  region = edge;
  indexer_domain = domain;
  capabilities = record {
    supports_kv_events = true;
    supports_batching = true;
    max_batch_size = 8;
    gpu_count = 1;
    gpu_memory_gb = 80;
  };
  kv_config = record { block_size = 16; cache_namespace = "n"; max_kv_blocks = 100 };
  status = healthy;
}

abbrev calls : List StoreCall
calls =
    registered (info_of backend_a) ∷ registered (info_of backend_b) ∷ unregistered backend_a ∷ []

abbrev Maps : Type 0
Maps =
    MetadataStore ℕ (List (BackendId × List ModelInstance)) (List (BackendId × BackendMetrics ℕ))
      (List (BackendId × RingBuffer (BackendMetrics ℕ))) (List (SessionId × SessionAffinity))
      (List (BackendId × BackendInfo))

abbrev fresh : Maps
fresh = new da dl dr ds db

abbrev store : Maps
store = store_calls da dl dr ds db calls fresh

listed_iff_example :
    (In backend_a (backends_by_region da dl dr ds db edge store) ↔ (
      (info : BackendInfo) × (backend_get da dl dr ds db backend_a store ≡ some info)
      × (info.region ≡ edge)))
    × (In backend_a (backends_by_domain da dl dr ds db domain store) ↔ (
        (info : BackendInfo) × (backend_get da dl dr ds db backend_a store ≡ some info)
        × (info.indexer_domain ≡ domain)))
listed_iff_example =
    listed_iff da dl dr ds db (λ b. edge) (λ b. domain) calls backend_a edge domain
      ((refl, refl), ((refl, refl), (tt, tt)))

fresh-IsReady : IsReady fresh.kv_index
unfolding new
fresh-IsReady = new-IsReady

kv_apply_events-kv_remove_backend_example :
    (rs : List Reply) × (kv_apply_events da dl dr ds db h
        ((event, backend_b) ∷ (clear_event worker, backend_a) ∷ [])
        (Store.kv_remove_backend da dl dr ds db backend_a fresh)
      ≡ some rs)
    × (length rs ≡ 2)
    × All (λ r. is_applied r ≡ false) rs
kv_apply_events-kv_remove_backend_example =
    kv_apply_events-kv_remove_backend da dl dr ds db h backend_a
      ((event, backend_b) ∷ (clear_event worker, backend_a) ∷ []) fresh fresh-IsReady
