-- ===== src/Cluster/Gossip/Detector.antt =====
-- The failure detector that the loops of a started engine implement: what the engine thinks of one
-- instance is its status and the time of its last heartbeat. A round of probes is one step here, and
-- several in Cluster/Gossip/Detector/Steps.
pub mod Refinement
pub mod Doubts
pub mod Silence
pub mod Steps
pub mod Timeouts
use hier_kv_gateway.Prelude.{
  ℕ, zero, suc, ◌-◌, ◌≤◌, ◌≡◌, refl, sym, ap, ◌∙◌, Bool, true, false, Option, none, some, List, [],
  ◌∷◌, if◌then◌else◌, ltb, ite, arith, Bool-cases, inl, inr, dec→Bool,
}
use hier_kv_gateway.Ids.{InstanceId, RegionId, InstanceId_discrete}
use hier_kv_gateway.Interface.DashMap.{DashMap}
use hier_kv_gateway.Cluster.Messages.{
  ClusterMessage, ping, pong, meet, sync_request, sync_response, ckf_barrier_snapshot, ckf_delta,
  metrics_broadcast, topology_update, session_affinity_broadcast,
}
use hier_kv_gateway.Cluster.Member.{ClusterMember, MemberStatus, alive, suspect, dead, get}
use hier_kv_gateway.Cluster.Gossip.{
  GossipHandler, message_sender_is_self, suspect_timeout_ms, probe_round,
}
use hier_kv_gateway.Cluster.Gossip.Engine.{
  GossipEngine, dispatch_message, gossip_loop, probe_loop, message_loop,
}
use hier_kv_gateway.Cluster.Gossip.Probe.{IsKeyed, probed, scanned, get-probe_round}
use hier_kv_gateway.Cluster.Gossip.Heartbeat.{
  get-ensure_member, ensure_member-IsKeyed, probe_round-IsKeyed,
}

-- What the loops do, one after the other: the clock's time comes first.
pub data LoopEvent (F J : Type 0) : Type 0 where
  gossip_tick : ℕ → (List ClusterMember → List ClusterMember) → LoopEvent F J
  probe_tick : ℕ → LoopEvent F J
  received : ℕ → ClusterMessage F J → LoopEvent F J

-- The instance whose heartbeat a message is.
abbrev pub heartbeat_of : {F J : Type 0} → ClusterMessage F J → Option InstanceId
heartbeat_of (ping sender region digest timestamp) = some sender
heartbeat_of (pong sender region digest timestamp) = some sender
heartbeat_of (meet sender region addr) = some sender
heartbeat_of _ = none

-- Nothing is known of an instance that is not a member.
abbrev pub Opinion : Type 0
Opinion = Option (MemberStatus × ℕ)

abbrev pub opinion : Option ClusterMember → Opinion
opinion none = none
opinion (some m) = some (m.status, m.last_pong_unix)

-- The specification. A heartbeat gives life, a probe after too long a silence takes it in two steps.
unfoldable pub doubt : ℕ → ℕ → ℕ → Opinion → Opinion
doubt now pt st none = none
doubt now pt st (some (alive, t)) = if ltb t (now - pt) then some (suspect, t) else some (alive, t)
doubt now pt st (some (suspect, t)) = if ltb t (now - st) then some (dead, t) else some (suspect, t)
doubt now pt st (some (dead, t)) = some (dead, t)

abbrev pub hear : ℕ → InstanceId → Option InstanceId → Opinion → Opinion
hear now i none o = o
hear now i (some sender) o = ite (InstanceId_discrete sender i) (some (alive, now)) o

module _ {F J : Type 0} where
  unfoldable pub detect : ℕ → ℕ → InstanceId → LoopEvent F J → Opinion → Opinion
  unfolding doubt
  detect pt st i (gossip_tick now shuffle) o = o
  detect pt st i (probe_tick now) o = doubt now pt st o
  detect pt st i (received now msg) o = hear now i (heartbeat_of msg) o

  unfoldable pub detect_all : ℕ → ℕ → InstanceId → List (LoopEvent F J) → Opinion → Opinion
  unfolding detect
  detect_all pt st i [] o = o
  detect_all pt st i (ev ∷ evs) o = detect_all pt st i evs (detect pt st i ev o)

-- The engine runs, and so does a task of each kind.
abbrev pub IsStarted : {M H : Type 0} → GossipEngine M H → Type 0
IsStarted e =
    (e.running ≡ true) × (1 ≤ e.gossip_tasks) × (1 ≤ e.probe_tasks) × (1 ≤ e.message_tasks)

module _ {F J M H : Type 0} (d : DashMap M InstanceId_discrete ClusterMember)
    (g : GossipHandler F J H) where
  unfoldable pub loop_event : LoopEvent F J → GossipEngine M H → GossipEngine M H
  loop_event (gossip_tick now shuffle) e = (gossip_loop d g shuffle now e).0
  loop_event (probe_tick now) e = probe_loop d g now e
  loop_event (received now msg) e = (message_loop d g now (some msg) e).0

  unfoldable pub loop_events : List (LoopEvent F J) → GossipEngine M H → GossipEngine M H
  unfolding loop_event
  loop_events [] e = e
  loop_events (ev ∷ evs) e = loop_events evs (loop_event ev e)
