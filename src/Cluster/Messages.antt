-- ===== src/Cluster/Messages.antt =====
-- crates/hier-kv-gateway-cluster/src/messages.rs: what instances send each other. `F` is the type of
-- a floating-point number and `J` that of a JSON value.
use hier_kv_gateway.Prelude.{ℕ, String, List}
use hier_kv_gateway.Ids.{InstanceId, RegionId, PoolId, SessionId}
use hier_kv_gateway.Metadata.TopologyGraph.{LatencyEstimate}
use hier_kv_gateway.Cluster.Member.{MetaDigest}

pub record LoadPayload : Type 0 where
  pub v : ℕ
  pub data_base64 : String

pub record MetaEntry (J : Type 0) : Type 0 where
  pub key : String
  pub value : J
  pub version : ℕ

pub data MetaKey : Type 0 where
  kv_state : MetaKey
  model_state : MetaKey
  load_state : MetaKey
  topology_state : MetaKey
  members_key : MetaKey

abbrev pub as_str : MetaKey → String
as_str kv_state = "kv_state"
as_str model_state = "model_state"
as_str load_state = "load_state"
as_str topology_state = "topology_state"
as_str members_key = "members"

-- The buckets of a snapshot are the function that reads them, and their number stands beside it.
pub data ClusterMessage (F J : Type 0) : Type 0 where
  ping : InstanceId → RegionId → MetaDigest → ℕ → ClusterMessage F J
  pong : InstanceId → RegionId → MetaDigest → ℕ → ClusterMessage F J
  meet : InstanceId → RegionId → String → ClusterMessage F J
  sync_request : InstanceId → List String → ClusterMessage F J
  sync_response : List (MetaEntry J) → ClusterMessage F J
  ckf_barrier_snapshot : PoolId → ℕ → (ℕ → ℕ) → ℕ → ClusterMessage F J
  ckf_delta : PoolId → ℕ → ℕ → List (ℕ × ℕ) → ClusterMessage F J
  metrics_broadcast : RegionId → LoadPayload → ClusterMessage F J
  topology_update : RegionId → RegionId → LatencyEstimate F → ClusterMessage F J
  session_affinity_broadcast : SessionId → RegionId → String → ClusterMessage F J

-- A call of the transport: `send` to an address, or `broadcast`.
pub data Outgoing (F J : Type 0) : Type 0 where
  sent_to : String → ClusterMessage F J → Outgoing F J
  broadcasted : ClusterMessage F J → Outgoing F J
