-- ===== src/Cluster/Gossip/Engine.antt =====
-- crates/hier-kv-gateway-cluster/src/gossip.rs: the messages that an engine handles, its start and
-- its stop, and its three background tasks. The answer of the transport's `start` and `stop` is
-- the argument `answer`: whether it succeeds.
use hier_kv_gateway.Prelude.{
  ℕ, zero, suc, ◌+◌, ◌-◌, max, Bool, true, false, Option, none, some, List, [], ◌∷◌, if◌then◌else◌,
  String, map,
}
use hier_kv_gateway.Ids.{InstanceId, InstanceId_discrete, RegionId}
use hier_kv_gateway.Interface.DashMap.{DashMap}
use hier_kv_gateway.Cluster.Messages.{
  ClusterMessage, Outgoing, sent_to, broadcasted, ping, pong, meet, sync_request, sync_response,
  ckf_barrier_snapshot, ckf_delta, metrics_broadcast, topology_update, session_affinity_broadcast,
}
use hier_kv_gateway.Cluster.Member.{ClusterMember, new_member, upsert, get, all_members}
use hier_kv_gateway.Cluster.Gossip.{
  GossipHandler, ClusterConfig, default_gossip_fanout, message_sender_is_self, find_member,
  reply_to, reply_or_broadcast, ensure_member, probe_round, gossip_round,
}

-- The tasks that run are counted: `start` spawns one of each kind.
pub record GossipEngine (M H : Type 0) : Type 0 where
  pub self_id : InstanceId
  pub self_region : RegionId
  pub self_addr : String
  pub members : M
  pub config : ClusterConfig
  pub running : Bool
  pub handler : H
  pub gossip_tasks : ℕ
  pub probe_tasks : ℕ
  pub message_tasks : ℕ

abbrev pub new :
    {M H : Type 0} → InstanceId → RegionId → String → M → ClusterConfig → H → GossipEngine M H
new self_id self_region self_addr members config handler = record {
  self_id = self_id;
  self_region = self_region;
  self_addr = self_addr;
  members = members;
  config = config;
  running = false;
  handler = handler;
  gossip_tasks = 0;
  probe_tasks = 0;
  message_tasks = 0;
}

module _ {F J M H : Type 0} (d : DashMap M InstanceId_discrete ClusterMember)
    (g : GossipHandler F J H) where
  -- The members, the handler's state and the calls of the transport.
  abbrev pub Handled : Type 0
  Handled = M × H × List (Outgoing F J)

  unfoldable pub dispatch_message : ℕ → InstanceId → RegionId → ClusterMessage F J → M → H → Handled
  dispatch_message now self_id self_region (ping sender region digest timestamp) members handler =
      let members' = ensure_member d now sender region none digest members in
      let answer = pong self_id self_region (g.current_meta_digest handler) now in
      (members', handler, reply_to (get d sender members') answer)
  dispatch_message now self_id self_region (pong sender region digest timestamp) members handler =
      (ensure_member d now sender region none digest members, handler, [])
  dispatch_message now self_id self_region (meet sender region addr) members handler =
      let digest = g.current_meta_digest handler in
      let members' = ensure_member d now sender region (some addr) digest members in
      (
        members',
        handler,
        sent_to addr (pong self_id self_region digest now)
            ∷ broadcasted (ping self_id self_region digest now)
            ∷ [],
      )
  dispatch_message now self_id self_region (sync_request sender keys) members handler =
      let response = sync_response (g.handle_sync_request keys handler) in
      (members, handler, reply_or_broadcast (find_member sender (all_members d members)) response)
  dispatch_message now self_id self_region (sync_response entries) members handler =
      (members, g.apply_sync_response entries handler, [])
  dispatch_message now self_id self_region (metrics_broadcast region payload) members handler =
      (members, g.handle_metrics_broadcast region payload handler, [])
  dispatch_message now self_id self_region (ckf_barrier_snapshot pool sequence buckets n) members
        handler =
      (members, g.handle_ckf_barrier_snapshot pool sequence buckets n handler, [])
  dispatch_message now self_id self_region (ckf_delta pool sequence prev dirty) members handler =
      (members, g.handle_ckf_delta pool sequence prev dirty handler, [])
  dispatch_message now self_id self_region (topology_update from to estimate) members handler =
      (members, g.handle_topology_update from to estimate handler, [])
  dispatch_message now self_id self_region (session_affinity_broadcast session region instance)
        members handler =
      (members, g.handle_session_affinity session region instance handler, [])

  unfoldable pub handle_message :
      ℕ → ClusterMessage F J → GossipEngine M H → GossipEngine M H × List (Outgoing F J)
  handle_message now (ping sender region digest timestamp) e =
      let members' = ensure_member d now sender region none digest e.members in
      let answer = pong e.self_id e.self_region (g.current_meta_digest e.handler) now in
      (record e { members = members' }, reply_to (get d sender members') answer)
  handle_message now (pong sender region digest timestamp) e =
      (record e { members = ensure_member d now sender region none digest e.members }, [])
  handle_message now (meet sender region addr) e =
      let digest = g.current_meta_digest e.handler in
      (
        record e { members = ensure_member d now sender region (some addr) digest e.members },
        sent_to addr (pong e.self_id e.self_region digest now)
            ∷ broadcasted (ping e.self_id e.self_region digest now)
            ∷ [],
      )
  handle_message now (sync_request sender keys) e =
      let response = sync_response (g.handle_sync_request keys e.handler) in
      (e, reply_or_broadcast (find_member sender (all_members d e.members)) response)
  handle_message now (sync_response entries) e =
      (record e { handler = g.apply_sync_response entries e.handler }, [])
  handle_message now (metrics_broadcast region payload) e =
      (record e { handler = g.handle_metrics_broadcast region payload e.handler }, [])
  handle_message now (ckf_barrier_snapshot pool sequence buckets n) e =
      (record e { handler = g.handle_ckf_barrier_snapshot pool sequence buckets n e.handler }, [])
  handle_message now (ckf_delta pool sequence prev dirty) e =
      (record e { handler = g.handle_ckf_delta pool sequence prev dirty e.handler }, [])
  handle_message now (topology_update from to estimate) e =
      (record e { handler = g.handle_topology_update from to estimate e.handler }, [])
  handle_message now (session_affinity_broadcast session region instance) e =
      (record e { handler = g.handle_session_affinity session region instance e.handler }, [])

  -- Whether it succeeds. `running` is set before the transport starts.
  unfoldable pub start : ℕ → Bool → GossipEngine M H → GossipEngine M H × Bool
  start now answer e =
      if e.running
      then (e, true)
      else if answer
      then (
        record e {
          running = true;
          members =
              upsert d
                (new_member now e.self_id e.self_region e.self_addr
                  (g.current_meta_digest e.handler))
                e.members;
          gossip_tasks = e.gossip_tasks + 1;
          probe_tasks = e.probe_tasks + 1;
          message_tasks = e.message_tasks + 1;
        },
        true,
      )
      else (record e { running = true }, false)

  unfoldable pub stop : Bool → GossipEngine M H → GossipEngine M H × Bool
  stop answer e = if e.running then (record e { running = false }, answer) else (e, true)

  unfoldable pub join_cluster : List String → GossipEngine M H → List (Outgoing F J)
  join_cluster seed_peers e =
      map (λ seed. sent_to seed (meet e.self_id e.self_region e.self_addr)) seed_peers

  -- The answer is the one of `send`.
  unfoldable pub meet_peer : String → Bool → GossipEngine M H → Bool × List (Outgoing F J)
  meet_peer peer_addr answer e =
      (answer, sent_to peer_addr (meet e.self_id e.self_region e.self_addr) ∷ [])

  -- A task reads `running` when it comes back to the head of its loop.
  abbrev pub left : Bool → ℕ → ℕ
  left running tasks = if running then tasks else tasks - 1

  -- A tick of the interval that one of the gossip tasks waits for.
  unfoldable pub gossip_loop :
      (List ClusterMember → List ClusterMember)
      → ℕ
      → GossipEngine M H
      → GossipEngine M H × List (Outgoing F J)
  gossip_loop shuffle now e = elim e.gossip_tasks [
    | zero ↦ (e, [])
    | suc n ↦ (
      record e { gossip_tasks = left e.running (suc n) },
      gossip_round d g shuffle now e.self_id (max e.config.gossip_fanout default_gossip_fanout)
          e.members e.handler,
    )
  ]

  unfoldable pub probe_loop : ℕ → GossipEngine M H → GossipEngine M H
  probe_loop now e = elim e.probe_tasks [
    | zero ↦ e
    | suc n ↦ record e {
      probe_tasks = left e.running (suc n);
      members =
          probe_round d now e.self_id e.config.probe_timeout_ms e.config.suspect_timeout_secs
            e.members;
    }
  ]

  -- What `recv` gives to one of the message tasks: `none` when the channel is closed.
  unfoldable pub message_loop :
      ℕ → Option (ClusterMessage F J) → GossipEngine M H → GossipEngine M H × List (Outgoing F J)
  unfolding dispatch_message
  message_loop now received e = elim e.message_tasks [
    | zero ↦ (e, [])
    | suc n ↦ elim received [
      | none ↦ (record e { message_tasks = n }, [])
      | some msg ↦
          if message_sender_is_self msg e.self_id
          then (record e { message_tasks = left e.running (suc n) }, [])
          else (let r = dispatch_message now e.self_id e.self_region msg e.members e.handler in
              (
                record e { message_tasks = left e.running (suc n); members = r.0; handler = r.1 },
                r.2,
              ))
    ]
  ]
