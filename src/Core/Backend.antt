-- ===== src/Core/Backend.antt =====
-- crates/hier-kv-gateway-core/src/backend.rs: what is known of a backend.
use hier_kv_gateway.Prelude.{ℕ, String, Bool, List}
use hier_kv_gateway.Ids.{BackendId, RegionId, IndexerDomainId}

pub data BackendType : Type 0 where
  llm_d_cluster : BackendType
  vllm_engine : BackendType
  llama_cpp_engine : BackendType
  generic_open_ai : BackendType
  dynamo_engine : BackendType
  sglang_engine : BackendType

pub data Protocol : Type 0 where
  http : Protocol
  grpc : Protocol
  nats : Protocol

pub record Endpoint : Type 0 where
  pub url : String
  pub protocol : Protocol

pub data Quantization : Type 0 where
  fp16 : Quantization
  bf16 : Quantization
  int8 : Quantization
  int4 : Quantization
  awq : Quantization
  gptq : Quantization

pub record ModelInstance : Type 0 where
  pub model_name : String
  pub model_architecture : String
  pub quantization : Quantization
  pub max_context_len : ℕ
  pub supports_tool_calling : Bool
  pub supports_streaming : Bool

pub record BackendCapabilities : Type 0 where
  pub supports_kv_events : Bool
  pub supports_batching : Bool
  pub max_batch_size : ℕ
  pub gpu_count : ℕ
  pub gpu_memory_gb : ℕ

pub record KvConfig : Type 0 where
  pub block_size : ℕ
  pub cache_namespace : String
  pub max_kv_blocks : ℕ

pub data BackendStatus : Type 0 where
  healthy : BackendStatus
  degraded : BackendStatus
  unhealthy : BackendStatus
  unknown : BackendStatus

pub record BackendInfo : Type 0 where
  pub id : BackendId
  pub backend_type : BackendType
  pub endpoint : Endpoint
  pub models : List ModelInstance
  pub region : RegionId
  pub indexer_domain : IndexerDomainId
  pub capabilities : BackendCapabilities
  pub kv_config : KvConfig
  pub status : BackendStatus
