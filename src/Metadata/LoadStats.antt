-- ===== src/Metadata/LoadStats.antt =====
-- crates/hier-kv-gateway-metadata/src/load_stats.rs: the latest metrics of each backend and a ring
-- buffer of its last samples. The `Arc`, the `ArcSwap` and the mutex around a value are left out:
-- each is read or written whole. `none` is a panic: an index out of bounds.
pub mod Ring
pub mod Updates
use hier_kv_gateway.Prelude.{
  ℕ, zero, suc, ◌+◌, ◌-◌, ◌%◌, Option, none, some, List, [], ◌∷◌, ◌++◌, if◌then◌else◌, ltb, length,
  get_elem?, set, gather,
}
use hier_kv_gateway.Ids.{BackendId, BackendId_discrete}
use hier_kv_gateway.Core.Metrics.{ℤ, pos, negsuc, BackendMetrics}
use hier_kv_gateway.Interface.DashMap.{DashMap}

abbrev pub ring_capacity : ℕ
ring_capacity = 60

pub record RingBuffer (T : Type 0) : Type 0 where
  pub buf : List T
  pub head : ℕ
  pub len : ℕ
  pub capacity : ℕ

module _ {T : Type 0} where
  abbrev pub new_ring : ℕ → RingBuffer T
  new_ring capacity = record { buf = []; head = 0; len = 0; capacity = capacity }

  unfoldable pub push : RingBuffer T → T → Option (RingBuffer T)
  push r item =
      if ltb (length r.buf) r.capacity
      then some (record r { buf = r.buf ++ item ∷ []; len = length (r.buf ++ item ∷ []) })
      else elim (get_elem? r.buf r.head) [
        | none ↦ none
        | some old ↦ some (record r {
          buf = set r.buf r.head item;
          head = (r.head + 1) % r.capacity;
          len = r.capacity;
        })
      ]

  unfoldable pub snapshot : RingBuffer T → Option (List T)
  snapshot r =
      if ltb (length r.buf) r.capacity
      then some r.buf
      else gather r.buf r.capacity r.head r.capacity 0

unfoldable pub metrics_timestamp : {F : Type 0} → BackendMetrics F → ℕ
metrics_timestamp m = elim m.timestamp [ pos n ↦ n | negsuc n ↦ 0 ]

pub record LoadStats (M H : Type 0) : Type 0 where
  pub latest : M
  pub history : H

abbrev pub or_new : {T : Type 0} → Option (RingBuffer T) → RingBuffer T
or_new none = new_ring ring_capacity
or_new (some r) = r

module _ {F M H : Type 0} (dm : DashMap M BackendId_discrete (BackendMetrics F))
    (dh : DashMap H BackendId_discrete (RingBuffer (BackendMetrics F))) where
  unfoldable pub new : LoadStats M H
  new = record { latest = dm.empty; history = dh.empty }

  unfoldable pub get : BackendId → LoadStats M H → Option (BackendMetrics F)
  get backend s = dm.get backend s.latest

  unfoldable pub update : BackendId → BackendMetrics F → LoadStats M H → Option (LoadStats M H)
  update backend metrics s = elim (push (or_new (dh.get backend s.history)) metrics) [
    | none ↦ none
    | some r ↦ some (record {
      latest = dm.insert backend metrics s.latest;
      history = dh.insert backend r s.history;
    })
  ]

  unfoldable pub freshness : ℕ → BackendId → LoadStats M H → Option ℕ
  freshness now backend s = elim (dm.get backend s.latest) [
    | none ↦ none
    | some m ↦ some (now - metrics_timestamp m)
  ]

  unfoldable pub history_of : BackendId → LoadStats M H → Option (List (BackendMetrics F))
  history_of backend s = elim (dh.get backend s.history) [ none ↦ some [] | some r ↦ snapshot r ]

  unfoldable pub remove : BackendId → LoadStats M H → LoadStats M H
  remove backend s = record {
    latest = dm.remove backend s.latest;
    history = dh.remove backend s.history;
  }
