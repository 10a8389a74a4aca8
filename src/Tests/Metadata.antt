-- ===== src/Tests/Metadata.antt =====
-- The crate crates/hier-kv-gateway-metadata at concrete inputs.
use hier_kv_gateway.Prelude.{ℕ, ◌+◌, ◌≡◌, none, some, List, [], ◌∷◌, ◌++◌, ◌&&◌, not, length, arith}
use hier_kv_gateway.Ids.{BackendId, BackendId_discrete}
use hier_kv_gateway.Interface.DashMap.Assoc.{assoc_map}
use hier_kv_gateway.Core.KvEvent.{KvCacheEvent, stored_event, removed_event}
use hier_kv_gateway.Core.Metrics.{BackendMetrics, pos}
use hier_kv_gateway.Metadata.RadixTree.{TreeState, empty_tree, apply_event, find_matches}
use hier_kv_gateway.Metadata.RadixTree.Valid.{IsValid}
use hier_kv_gateway.Metadata.RadixTree.Valid.Runs.{
  apply_events, apply_events-IsValid, empty_tree-IsValid,
}
use hier_kv_gateway.Metadata.RadixTree.View.{holds}
use hier_kv_gateway.Metadata.RadixTree.View.Matches.{leading, holds_first, find_matches-leading}
use hier_kv_gateway.Metadata.RadixTree.View.Removal.{taken, holds-removed}
use hier_kv_gateway.Metadata.RadixTree.Worker.{event_query, matches_query, started}
use hier_kv_gateway.Metadata.RadixTree.Worker.Order.{
  Action, requested, worked, act_all, requests, asks, answers, act_all-replies,
}
use hier_kv_gateway.Metadata.LoadStats.{LoadStats, RingBuffer, ring_capacity, new, get, history_of}
use hier_kv_gateway.Metadata.LoadStats.Ring.{last_of}
use hier_kv_gateway.Metadata.LoadStats.Updates.{update_all, samples, latest_or, update_all_lem}
use hier_kv_gateway.Tests.Data.{backend_a, backend_b, worker}

-- Two backends that share the first block.
abbrev events : List (BackendId × KvCacheEvent)
events =
    (backend_a, stored_event worker (1 ∷ 2 ∷ 3 ∷ []) none [])
    ∷ (backend_b, stored_event worker (1 ∷ 5 ∷ []) none [])
    ∷ []

abbrev shared_tree : TreeState
shared_tree = apply_events empty_tree events

shared_tree-IsValid : IsValid 2 shared_tree.root
shared_tree-IsValid = apply_events-IsValid empty_tree events empty_tree-IsValid (omega arith)

apply_events-IsValid_example : IsValid (0 + length events) (apply_events empty_tree events).root
apply_events-IsValid_example =
    apply_events-IsValid empty_tree events empty_tree-IsValid (omega arith)

find_matches-leading_example :
    find_matches shared_tree (1 ∷ 2 ∷ 9 ∷ []) backend_a
    ≡ leading 3 (holds_first backend_a (1 ∷ 2 ∷ 9 ∷ []) shared_tree.root)
find_matches-leading_example = find_matches-leading shared_tree (1 ∷ 2 ∷ 9 ∷ []) backend_a

holds-removed_example :
    holds backend_a
      (1 ∷ 2 ∷ [])
      (apply_event shared_tree backend_a (removed_event worker (2 ∷ []))).root
    ≡ (holds backend_a (1 ∷ 2 ∷ []) shared_tree.root
        && not (taken backend_a backend_a (2 ∷ []) 1 (2 ∷ [])))
holds-removed_example =
    holds-removed shared_tree backend_a backend_a worker (2 ∷ []) 1 (2 ∷ []) shared_tree-IsValid

-- Metrics with this number of active requests; `f64` is left as a number.
abbrev metrics : ℕ → BackendMetrics ℕ
metrics n = record {
  active_requests = n;
  queue_depth = 0;
  active_decode_blocks = 0;
  active_prefill_tokens = 0;
  kv_used_blocks = 0;
  kv_total_blocks = 0;
  gpu_utilization = 0;
  gpu_memory_used_mb = 0;
  gpu_memory_total_mb = 0;
  latency = record { p50_ms = 0; p99_ms = 0; p999_ms = 0; sample_count = 0 };
  timestamp = pos n;
}

abbrev updates : List (BackendId × BackendMetrics ℕ)
updates = (backend_a, metrics 1) ∷ (backend_b, metrics 2) ∷ (backend_a, metrics 3) ∷ []

update_all_lem_example :
    (s : LoadStats
      (List (BackendId × BackendMetrics ℕ))
      (List (BackendId × RingBuffer (BackendMetrics ℕ))))
    × (update_all
          (assoc_map BackendId_discrete)
          (assoc_map BackendId_discrete)
          updates
          (new (assoc_map BackendId_discrete) (assoc_map BackendId_discrete))
        ≡ some s)
    × (history_of (assoc_map BackendId_discrete) (assoc_map BackendId_discrete) backend_a s
        ≡ some (last_of ring_capacity (samples backend_a updates)))
    × (get (assoc_map BackendId_discrete) (assoc_map BackendId_discrete) backend_a s
        ≡ latest_or none (samples backend_a updates))
update_all_lem_example =
    update_all_lem (assoc_map BackendId_discrete) (assoc_map BackendId_discrete) updates backend_a

-- Three requests, the last of them made while the first two are served.
abbrev actions : List Action
actions =
    requested 0 (event_query backend_a (stored_event worker (1 ∷ 2 ∷ []) none []))
    ∷ requested 1 (matches_query (1 ∷ 2 ∷ []) backend_a)
    ∷ worked
    ∷ requested 2 (matches_query (1 ∷ []) backend_b)
    ∷ worked
    ∷ []

act_all-replies_example :
    (act_all actions started).replies
      ++ answers (act_all actions started).tree (asks (act_all actions started).queue)
    ≡ answers empty_tree (requests actions)
act_all-replies_example = act_all-replies actions
