-- ===== src/Tests/Relay.antt =====
-- crates/hier-kv-gateway-cluster/src/ckf_relay.rs at concrete inputs.
use hier_kv_gateway.Prelude.{ℕ, ◌≡◌, none, List, [], ◌∷◌, ◌%◌, ◌≤◌, arith}
use hier_kv_gateway.Ids.{PoolId, PoolId_discrete}
use hier_kv_gateway.Interface.DashMap.{DashMap}
use hier_kv_gateway.Interface.DashMap.Assoc.{assoc_map}
use hier_kv_gateway.Core.KvEvent.{KvCacheEvent, stored_event}
use hier_kv_gateway.Metadata.CkfProducer.{CkfProducer}
use hier_kv_gateway.Cluster.CkfRelay.{KvRelay, with_params, flush, tick, apply_event, start}
use hier_kv_gateway.Cluster.CkfRelay.Publication.{all_changes, without_marks, flush_lem}
use hier_kv_gateway.Cluster.CkfRelay.Pending.{
  RelayCall, relay_call, applied, started, relay_calls, NoneMarked, tick-NoneMarked,
}
use hier_kv_gateway.Tests.Data.{backend_a, worker, edge}

abbrev Pools : Type 0
Pools = List (PoolId × CkfProducer)

abbrev d : DashMap Pools PoolId_discrete CkfProducer
d = assoc_map PoolId_discrete

-- A hash that is easy to compute.
abbrev h : List ℕ → ℕ → ℕ
h bytes seed = seed % 65536

abbrev pool : PoolId
pool = record { domain = record { value = 1 }; region = edge }

abbrev stored : KvCacheEvent
stored = stored_event worker (5 ∷ 6 ∷ []) none []

abbrev calls : List RelayCall
calls = started ∷ applied pool stored backend_a ∷ []

abbrev relay : KvRelay Pools
relay = relay_calls ℕ ℕ d (λ l. l) h calls (with_params d edge 16 1)

flush_lem_example :
    ((flush {F = ℕ} {J = ℕ} d (λ l. l) relay).1 ≡ all_changes (λ l. l) (d.entries relay.producers))
    × ((flush {F = ℕ} {J = ℕ} d (λ l. l) relay).0.pending_count ≡ 0)
    × ((p : PoolId)
        → d.get p (flush {F = ℕ} {J = ℕ} d (λ l. l) relay).0.producers
          ≡ without_marks (d.get p relay.producers))
flush_lem_example = flush_lem ℕ ℕ d (λ l. l) relay

one_task : 1 ≤ relay.flush_tasks
unfolding relay_calls relay_call apply_event flush start
one_task = omega arith

tick-NoneMarked_example :
    ((tick {F = ℕ} {J = ℕ} d (λ l. l) relay).1 ≡ all_changes (λ l. l) (d.entries relay.producers))
    × ((tick {F = ℕ} {J = ℕ} d (λ l. l) relay).0.pending_count ≡ 0)
    × NoneMarked ℕ ℕ d (λ l. l) h (tick {F = ℕ} {J = ℕ} d (λ l. l) relay).0.producers
tick-NoneMarked_example = tick-NoneMarked ℕ ℕ d (λ l. l) h calls edge 16 1 one_task
