-- ===== src/Cluster/Gossip.antt =====
-- crates/hier-kv-gateway-cluster/src/gossip.rs: the gossip engine. A failure of the transport's
-- `send` or `broadcast` is only logged, so an operation returns the list of its calls of them. All
-- reads of the clock in one operation give the same `now`, in Unix milliseconds. `probe_round`
-- is a round without a message between its scan and its marks; Cluster/Gossip/Detector/Steps has the
-- marks one by one. `shuffle` is the `rand`
-- crate's. `M` is the member list's map and `H` the state behind the handler.
pub mod Engine
pub mod Probe
pub mod Heartbeat
pub mod Detector
pub mod Stopping
pub mod Sends
pub mod Joining
use hier_kv_gateway.Prelude.{
  ℕ, ◌-◌, ◌*◌, ◌^◌, min, max, Bool, true, false, Option, none, some, List, [], ◌∷◌, ◌++◌,
  if◌then◌else◌, ltb, not, String, map, take, keep, dec→Bool,
}
use hier_kv_gateway.Ids.{InstanceId, InstanceId_discrete, RegionId, PoolId, SessionId}
use hier_kv_gateway.Interface.DashMap.{DashMap}
use hier_kv_gateway.Metadata.TopologyGraph.{LatencyEstimate}
use hier_kv_gateway.Cluster.Messages.{
  ClusterMessage, LoadPayload, MetaEntry, Outgoing, sent_to, broadcasted, ping, pong, meet,
  sync_request, sync_response, ckf_barrier_snapshot, ckf_delta, metrics_broadcast, topology_update,
  session_affinity_broadcast,
}
use hier_kv_gateway.Cluster.Member.{
  ClusterMember, MetaDigest, alive, suspect, dead, new_member, upsert, get, all_members,
  alive_members, mark_suspect, mark_dead,
}

-- The trait: a method that acts on the handler's state returns the new state.
pub record GossipHandler (F J H : Type 0) : Type 0 where
  pub current_meta_digest : H → MetaDigest
  pub handle_sync_request : List String → H → List (MetaEntry J)
  pub apply_sync_response : List (MetaEntry J) → H → H
  pub handle_metrics_broadcast : RegionId → LoadPayload → H → H
  pub handle_ckf_barrier_snapshot : PoolId → ℕ → (ℕ → ℕ) → ℕ → H → H
  pub handle_ckf_delta : PoolId → ℕ → ℕ → List (ℕ × ℕ) → H → H
  pub handle_topology_update : RegionId → RegionId → LatencyEstimate F → H → H
  pub handle_session_affinity : SessionId → RegionId → String → H → H

abbrev pub default_digest : MetaDigest
default_digest = record {
  kv_version = 0;
  model_version = 0;
  load_version = 0;
  topology_version = 0;
  members_version = 0;
}

-- `NoopGossipHandler`
abbrev pub noop_handler : {F J : Type 0} → GossipHandler F J Unit
noop_handler = record {
  current_meta_digest = λ h. default_digest;
  handle_sync_request = λ keys h. [];
  apply_sync_response = λ entries h. h;
  handle_metrics_broadcast = λ region payload h. h;
  handle_ckf_barrier_snapshot = λ pool sequence buckets num_buckets h. h;
  handle_ckf_delta = λ pool sequence prev_sequence dirty h. h;
  handle_topology_update = λ from to estimate h. h;
  handle_session_affinity = λ session region instance h. h;
}

abbrev pub default_gossip_fanout : ℕ
default_gossip_fanout = 3

pub record ClusterConfig : Type 0 where
  pub bind_addr : String
  pub seed_peers : List String
  pub gossip_interval_ms : ℕ
  pub probe_timeout_ms : ℕ
  pub suspect_timeout_secs : ℕ
  pub gossip_fanout : ℕ
  pub probe_interval_ms : ℕ

abbrev pub unwrap_or : Option String → String → String
unwrap_or none s = s
unwrap_or (some t) s = t

-- `x.saturating_mul(1000)` on `u64`.
abbrev pub suspect_timeout_ms : ℕ → ℕ
suspect_timeout_ms secs = min (secs * 1000) (2 ^ 64 - 1)

-- `find` by the identifier.
unfoldable pub find_member : InstanceId → List ClusterMember → Option ClusterMember
find_member sender [] = none
find_member sender (m ∷ ms) =
    if dec→Bool (InstanceId_discrete m.instance_id sender) then some m else find_member sender ms

-- The members that a round of `gossip_loop` pings.
abbrev pub targets :
    (List ClusterMember → List ClusterMember) → ℕ → List ClusterMember → List ClusterMember
targets shuffle fanout [] = []
targets shuffle fanout (m ∷ ms) = take fanout (shuffle (m ∷ ms))

module _ {F J : Type 0} where
  unfoldable pub message_sender_is_self : ClusterMessage F J → InstanceId → Bool
  message_sender_is_self (ping sender region digest timestamp) self_id =
      dec→Bool (InstanceId_discrete sender self_id)
  message_sender_is_self (pong sender region digest timestamp) self_id =
      dec→Bool (InstanceId_discrete sender self_id)
  message_sender_is_self (meet sender region addr) self_id =
      dec→Bool (InstanceId_discrete sender self_id)
  message_sender_is_self (sync_request sender keys) self_id =
      dec→Bool (InstanceId_discrete sender self_id)
  message_sender_is_self _ self_id = false

  -- A reply to a member, if it is known.
  abbrev pub reply_to : Option ClusterMember → ClusterMessage F J → List (Outgoing F J)
  reply_to none msg = []
  reply_to (some m) msg = sent_to m.addr msg ∷ []

  abbrev pub reply_or_broadcast : Option ClusterMember → ClusterMessage F J → List (Outgoing F J)
  reply_or_broadcast none msg = broadcasted msg ∷ []
  reply_or_broadcast (some m) msg = sent_to m.addr msg ∷ []

module _ {M : Type 0} (d : DashMap M InstanceId_discrete ClusterMember) where
  unfoldable pub ensure_member : ℕ → InstanceId → RegionId → Option String → MetaDigest → M → M
  ensure_member now instance_id region addr digest members = elim (get d instance_id members) [
    | some existing ↦
        upsert d
          (record {
            instance_id = instance_id;
            region = region;
            addr = unwrap_or addr existing.addr;
            last_pong_unix = now;
            status = alive;
            meta_digest = digest;
          })
          members
    | none ↦ upsert d (new_member now instance_id region (unwrap_or addr "") digest) members
  ]

  -- One member of the scan of `probe_loop`.
  unfoldable pub probe_member : ℕ → InstanceId → ℕ → ℕ → ClusterMember → M → M
  probe_member now self_id probe_timeout suspect_timeout member members =
      if dec→Bool (InstanceId_discrete member.instance_id self_id)
      then members
      else elim member.status [
        | alive ↦
            if ltb member.last_pong_unix (now - probe_timeout)
            then mark_suspect d member.instance_id members
            else members
        | suspect ↦
            if ltb member.last_pong_unix (now - suspect_timeout)
            then mark_dead d member.instance_id members
            else members
        | dead ↦ members
      ]

  unfoldable pub probe_all : ℕ → InstanceId → ℕ → ℕ → List ClusterMember → M → M
  unfolding probe_member
  probe_all now self_id probe_timeout suspect_timeout [] members = members
  probe_all now self_id probe_timeout suspect_timeout (m ∷ ms) members =
      probe_all now self_id probe_timeout suspect_timeout ms
        (probe_member now self_id probe_timeout suspect_timeout m members)

  -- One round of `probe_loop`.
  unfoldable pub probe_round : ℕ → InstanceId → ℕ → ℕ → M → M
  unfolding probe_all
  probe_round now self_id probe_timeout_ms suspect_timeout_secs members =
      probe_all now self_id probe_timeout_ms (suspect_timeout_ms suspect_timeout_secs)
        (all_members d members) members

  module _ {F J H : Type 0} (g : GossipHandler F J H) where
    -- One round of `gossip_loop`.
    unfoldable pub gossip_round :
        (List ClusterMember → List ClusterMember) → ℕ → InstanceId → ℕ → M → H → List (Outgoing F J)
    gossip_round shuffle now self_id fanout members handler =
        let candidates =
          keep (λ m. not (dec→Bool (InstanceId_discrete m.instance_id self_id)))
            (alive_members d members) in
        map (λ m. sent_to m.addr (ping self_id m.region (g.current_meta_digest handler) now))
          (targets shuffle fanout candidates)
