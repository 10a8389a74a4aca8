-- ===== src/Cluster/Gossip/Detector/Refinement.antt =====
-- The loops of a started engine implement the failure detector.
use hier_kv_gateway.Prelude.{
  ℕ, ◌≡◌, refl, sym, ap, ◌∙◌, true, Option, none, some, List, [], ◌∷◌, if◌then◌else◌, arith,
  Bool-cases, inl, inr,
}
use hier_kv_gateway.Ids.{InstanceId, RegionId, InstanceId_discrete}
use hier_kv_gateway.Interface.DashMap.{DashMap}
use hier_kv_gateway.Cluster.Messages.{
  ClusterMessage, ping, pong, meet, sync_request, sync_response, ckf_barrier_snapshot, ckf_delta,
  metrics_broadcast, topology_update, session_affinity_broadcast,
}
use hier_kv_gateway.Cluster.Member.{ClusterMember, get}
use hier_kv_gateway.Cluster.Gossip.{
  GossipHandler, message_sender_is_self, suspect_timeout_ms, probe_round,
}
use hier_kv_gateway.Cluster.Gossip.Engine.{
  GossipEngine, dispatch_message, gossip_loop, probe_loop, message_loop,
}
use hier_kv_gateway.Cluster.Gossip.Probe.{IsKeyed, probed, get-probe_round}
use hier_kv_gateway.Cluster.Gossip.Heartbeat.{
  get-ensure_member, ensure_member-IsKeyed, probe_round-IsKeyed,
}
use hier_kv_gateway.Cluster.Gossip.Detector.{
  LoopEvent, gossip_tick, probe_tick, received, heartbeat_of, Opinion, opinion, doubt, hear, detect,
  detect_all, loop_event, loop_events, IsStarted,
}

opinion-probed :
    (now pt st : ℕ) (self_id i : InstanceId) (o : Option ClusterMember)
    → ¬ (i ≡ self_id)
    → opinion (probed now self_id pt st i o) ≡ doubt now pt st (opinion o)
unfolding probed doubt
opinion-probed now pt st self_id i none n = ground (arith, n)
opinion-probed now pt st self_id i (some m) n = ground (arith, n)

module _ {F J M H : Type 0} (d : DashMap M InstanceId_discrete ClusterMember)
    (g : GossipHandler F J H) where
  pub probe_loop-started :
      (now : ℕ) (e : GossipEngine M H)
      → IsStarted e
      → probe_loop d g now e ≡ record e {
        members =
            probe_round d now e.self_id e.config.probe_timeout_ms e.config.suspect_timeout_secs
              e.members;
      }
  unfolding probe_loop
  probe_loop-started now e (r, a, b, c) = ground (arith, r, b)

  pub gossip_loop-started :
      (shuffle : List ClusterMember → List ClusterMember) (now : ℕ) (e : GossipEngine M H)
      → IsStarted e
      → (gossip_loop d g shuffle now e).0 ≡ e
  unfolding gossip_loop
  gossip_loop-started shuffle now e (r, a, b, c) = ground (arith, r, a)

  pub message_loop-started :
      (now : ℕ) (msg : ClusterMessage F J) (e : GossipEngine M H)
      → IsStarted e
      → (message_loop d g now (some msg) e).0 ≡ (
          let r = dispatch_message d g now e.self_id e.self_region msg e.members e.handler in
          if message_sender_is_self msg e.self_id
          then e
          else record e { members = r.0; handler = r.1 })
  unfolding message_loop
  message_loop-started now msg e (r, a, b, c) = ground (arith, r, c)

  -- A message leaves the members or makes a heartbeat of its sender.
  pub get-dispatch_message :
      (now : ℕ) (self_id : InstanceId) (region : RegionId) (msg : ClusterMessage F J) (s : M)
      (h : H) (i : InstanceId)
      → opinion (get d i (dispatch_message d g now self_id region msg s h).0)
        ≡ hear now i (heartbeat_of msg) (opinion (get d i s))
  unfolding dispatch_message
  get-dispatch_message now self_id region (ping sender r digest timestamp) s h i =
      ground (arith, get-ensure_member d now sender r none digest i s)
  get-dispatch_message now self_id region (pong sender r digest timestamp) s h i =
      ground (arith, get-ensure_member d now sender r none digest i s)
  get-dispatch_message now self_id region (meet sender r addr) s h i =
      ground (arith, get-ensure_member d now sender r (some addr) (g.current_meta_digest h) i s)
  get-dispatch_message now self_id region (sync_request sender keys) s h i = refl
  get-dispatch_message now self_id region (sync_response entries) s h i = refl
  get-dispatch_message now self_id region (ckf_barrier_snapshot pool sequence buckets n) s h i =
      refl
  get-dispatch_message now self_id region (ckf_delta pool sequence prev dirty) s h i = refl
  get-dispatch_message now self_id region (metrics_broadcast r payload) s h i = refl
  get-dispatch_message now self_id region (topology_update from to estimate) s h i = refl
  get-dispatch_message now self_id region (session_affinity_broadcast session r x) s h i = refl

  dispatch_message-IsKeyed :
      (now : ℕ) (self_id : InstanceId) (region : RegionId) (msg : ClusterMessage F J) (s : M)
      (h : H)
      → IsKeyed d s
      → IsKeyed d (dispatch_message d g now self_id region msg s h).0
  unfolding dispatch_message
  dispatch_message-IsKeyed now self_id region (ping sender r digest timestamp) s h k =
      ensure_member-IsKeyed d now sender r none digest s k
  dispatch_message-IsKeyed now self_id region (pong sender r digest timestamp) s h k =
      ensure_member-IsKeyed d now sender r none digest s k
  dispatch_message-IsKeyed now self_id region (meet sender r addr) s h k =
      ensure_member-IsKeyed d now sender r (some addr) (g.current_meta_digest h) s k
  dispatch_message-IsKeyed now self_id region (sync_request sender keys) s h k = k
  dispatch_message-IsKeyed now self_id region (sync_response entries) s h k = k
  dispatch_message-IsKeyed now self_id region (ckf_barrier_snapshot pool sequence buckets n) s h k =
      k
  dispatch_message-IsKeyed now self_id region (ckf_delta pool sequence prev dirty) s h k = k
  dispatch_message-IsKeyed now self_id region (metrics_broadcast r payload) s h k = k
  dispatch_message-IsKeyed now self_id region (topology_update from to estimate) s h k = k
  dispatch_message-IsKeyed now self_id region (session_affinity_broadcast session r x) s h k = k

  -- A message of the instance itself is no heartbeat of another.
  pub hear_self :
      (now : ℕ) (self_id i : InstanceId) (msg : ClusterMessage F J) (o : Opinion)
      → ¬ (i ≡ self_id)
      → message_sender_is_self msg self_id ≡ true
      → hear now i (heartbeat_of msg) o ≡ o
  unfolding message_sender_is_self
  hear_self now self_id i (ping sender r digest timestamp) o n h = ground (arith, n, h)
  hear_self now self_id i (pong sender r digest timestamp) o n h = ground (arith, n, h)
  hear_self now self_id i (meet sender r addr) o n h = ground (arith, n, h)
  hear_self now self_id i (sync_request sender keys) o n h = refl
  hear_self now self_id i (sync_response entries) o n h = refl
  hear_self now self_id i (ckf_barrier_snapshot pool sequence buckets m) o n h = refl
  hear_self now self_id i (ckf_delta pool sequence prev dirty) o n h = refl
  hear_self now self_id i (metrics_broadcast r payload) o n h = refl
  hear_self now self_id i (topology_update from to estimate) o n h = refl
  hear_self now self_id i (session_affinity_broadcast session r x) o n h = refl

  -- The engine with other members and another state of the handler.
  abbrev pub with_members : GossipEngine M H → M → H → GossipEngine M H
  with_members e s h = record e { members = s; handler = h }

  -- What an event makes of the engine.
  abbrev Made : InstanceId → LoopEvent F J → GossipEngine M H → GossipEngine M H → Type 0
  Made i ev e f =
      (s : M) × (h : H) × (f ≡ with_members e s h)
      × IsKeyed d s
      × (opinion (get d i s)
          ≡ detect e.config.probe_timeout_ms (suspect_timeout_ms e.config.suspect_timeout_secs) i ev
              (opinion (get d i e.members)))

  loop_event-Made :
      (i : InstanceId) (ev : LoopEvent F J) (e : GossipEngine M H)
      → IsStarted e
      → IsKeyed d e.members
      → ¬ (i ≡ e.self_id)
      → Made i ev e (loop_event d g ev e)
  unfolding loop_event detect
  loop_event-Made i (gossip_tick now shuffle) e r k n =
      (e.members, e.handler, gossip_loop-started shuffle now e r, k, refl)
  loop_event-Made i (probe_tick now) e r k n =
      let pt = e.config.probe_timeout_ms in
      let st = e.config.suspect_timeout_secs in
      (
        probe_round d now e.self_id pt st e.members,
        e.handler,
        probe_loop-started now e r,
        probe_round-IsKeyed d now e.self_id pt st e.members k,
        ap opinion (get-probe_round d now e.self_id pt st i e.members k)
            ∙ opinion-probed now pt (suspect_timeout_ms st) e.self_id i (get d i e.members) n,
      )
  loop_event-Made i (received now msg) e r k n =
      let x = dispatch_message d g now e.self_id e.self_region msg e.members e.handler in
      let same = message_loop-started now msg e r in
      elim (Bool-cases (message_sender_is_self msg e.self_id)) [
        | inl q ↦ (
          e.members,
          e.handler,
          same ∙ ap (λ b. if b then e else with_members e x.0 x.1) q,
          k,
          sym (hear_self now e.self_id i msg (opinion (get d i e.members)) n q),
        )
        | inr q ↦ (
          x.0,
          x.1,
          same ∙ ap (λ b. if b then e else with_members e x.0 x.1) q,
          dispatch_message-IsKeyed now e.self_id e.self_region msg e.members e.handler k,
          get-dispatch_message now e.self_id e.self_region msg e.members e.handler i,
        )
      ]

  -- If the engine has started, every member stands under its own identifier, and `i` is another
  -- instance: whatever ticks and messages the loops take, in any order, the status and the time of
  -- the last heartbeat that the engine holds of `i` are those of the failure detector, which reads
  -- of the events only the probes' times and the heartbeats of `i`.
  pub opinion-loop_events :
      (i : InstanceId) (evs : List (LoopEvent F J)) (e : GossipEngine M H)
      → IsStarted e
      → IsKeyed d e.members
      → ¬ (i ≡ e.self_id)
      → opinion (get d i (loop_events d g evs e).members)
        ≡ detect_all e.config.probe_timeout_ms
            (suspect_timeout_ms e.config.suspect_timeout_secs)
            i
            evs
            (opinion (get d i e.members))
  unfolding loop_events detect_all
  opinion-loop_events i [] e r k n = refl
  opinion-loop_events i (ev ∷ evs) e r k n =
      let (s, h, p, k', q) = loop_event-Made i ev e r k n in
      let pt = e.config.probe_timeout_ms in
      let st = suspect_timeout_ms e.config.suspect_timeout_secs in
      ap (λ f. opinion (get d i (loop_events d g evs f).members)) p
      ∙ opinion-loop_events i evs (with_members e s h) r k' n
      ∙ ap (detect_all pt st i evs) q
