-- ===== src/Core/Metrics.antt =====
-- crates/hier-kv-gateway-core/src/metrics.rs: the load of a backend. `F` is the type of `f64`.
use hier_kv_gateway.Prelude.{ℕ}

-- `i64`
pub data ℤ : Type 0 where
  pos : ℕ → ℤ
  negsuc : ℕ → ℤ

pub record LatencyStats (F : Type 0) : Type 0 where
  pub p50_ms : F
  pub p99_ms : F
  pub p999_ms : F
  pub sample_count : ℕ

pub record BackendMetrics (F : Type 0) : Type 0 where
  pub active_requests : ℕ
  pub queue_depth : ℕ
  pub active_decode_blocks : ℕ
  pub active_prefill_tokens : ℕ
  pub kv_used_blocks : ℕ
  pub kv_total_blocks : ℕ
  pub gpu_utilization : F
  pub gpu_memory_used_mb : ℕ
  pub gpu_memory_total_mb : ℕ
  pub latency : LatencyStats F
  pub timestamp : ℤ
