-- ===== src/Core/KvEvent.antt =====
-- crates/hier-kv-gateway-core/src/kv_event.rs: the events that a backend publishes of its cache.
use hier_kv_gateway.Prelude.{ℕ, Option, List}

-- `WorkerWithRank` of ids.rs.
pub record WorkerWithRank : Type 0 where
  pub worker_id : ℕ
  pub dp_rank : ℕ

pub data KvCacheEvent : Type 0 where
  stored_event : WorkerWithRank → List ℕ → Option ℕ → List ℕ → KvCacheEvent
  removed_event : WorkerWithRank → List ℕ → KvCacheEvent
  clear_event : WorkerWithRank → KvCacheEvent
  reset_event : WorkerWithRank → ℕ → KvCacheEvent
