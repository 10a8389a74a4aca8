-- ===== src/Cluster/Gossip/Detector/Timeouts.antt =====
-- What the timeouts of the configuration promise of a started engine.
use hier_kv_gateway.Prelude.{
  ℕ, ◌+◌, ◌<◌, ◌≡◌, ap, ◌∙◌, false, Option, none, some, List, ◌∷◌, ◌++◌, arith,
}
use hier_kv_gateway.Ids.{InstanceId, InstanceId_discrete}
use hier_kv_gateway.Interface.DashMap.{DashMap}
use hier_kv_gateway.Cluster.Member.{ClusterMember, MemberStatus, alive, dead, get}
use hier_kv_gateway.Cluster.Gossip.{GossipHandler, suspect_timeout_ms}
use hier_kv_gateway.Cluster.Gossip.Engine.{GossipEngine}
use hier_kv_gateway.Cluster.Gossip.Probe.{IsKeyed}
use hier_kv_gateway.Cluster.Gossip.Detector.{
  LoopEvent, probe_tick, opinion, detect_all, loop_events, IsStarted,
}
use hier_kv_gateway.Cluster.Gossip.Detector.Refinement.{opinion-loop_events}
use hier_kv_gateway.Cluster.Gossip.Detector.Doubts.{is_dead}
use hier_kv_gateway.Cluster.Gossip.Detector.Silence.{
  AnswersWithin, IsSilent, detect_all-alive, detect_all-not_dead, detect_all-two_probes,
}

-- The member behind an opinion.
opinion-some :
    (o : Option ClusterMember) (s : MemberStatus) (t : ℕ)
    → opinion o ≡ some (s, t)
    → (m : ClusterMember) × (o ≡ some m) × (m.status ≡ s) × (m.last_pong_unix ≡ t)
opinion-some none s t e = ground (arith, e)
opinion-some (some m) s t e = (m, ground arith, ground (arith, e), ground (arith, e))

module _ {F J M H : Type 0} (d : DashMap M InstanceId_discrete ClusterMember)
    (g : GossipHandler F J H) where
  -- What is known of `i` after the events.
  abbrev pub after : InstanceId → List (LoopEvent F J) → GossipEngine M H → Option ClusterMember
  after i evs e = get d i (loop_events d g evs e).members

  -- If the engine has started, every member stands under its own identifier, `i` is another
  -- instance and an alive member, and every probe comes at most `probe_timeout_ms` after the last
  -- heartbeat of `i` before it: `i` is an alive member after the events.
  pub alive_after :
      (i : InstanceId) (evs : List (LoopEvent F J)) (e : GossipEngine M H) (m : ClusterMember)
      → IsStarted e
      → IsKeyed d e.members
      → ¬ (i ≡ e.self_id)
      → get d i e.members ≡ some m
      → m.status ≡ alive
      → AnswersWithin e.config.probe_timeout_ms i m.last_pong_unix evs
      → (n : ClusterMember) × (after i evs e ≡ some n) × (n.status ≡ alive)
  alive_after i evs e m r k n p a h =
      let pt = e.config.probe_timeout_ms in
      let st = suspect_timeout_ms e.config.suspect_timeout_secs in
      let (u, q) = detect_all-alive pt st i m.last_pong_unix evs h in
      let (l, x, y, z) = opinion-some (after i evs e) alive u (
        opinion-loop_events d g i evs e r k n
        ∙ ap (λ o. detect_all pt st i evs (opinion o)) p
        ∙ ap (λ s. detect_all pt st i evs (some (s, m.last_pong_unix))) a
        ∙ q) in
      (l, x, y)

  -- If the engine has started, every member stands under its own identifier, `i` is another
  -- instance and a member that is not dead, and every probe comes at most the suspect timeout after
  -- the last heartbeat of `i` before it: `i` is a member that is not dead after the events.
  pub not_dead_after :
      (i : InstanceId) (evs : List (LoopEvent F J)) (e : GossipEngine M H) (m : ClusterMember)
      → IsStarted e
      → IsKeyed d e.members
      → ¬ (i ≡ e.self_id)
      → get d i e.members ≡ some m
      → is_dead m.status ≡ false
      → AnswersWithin (suspect_timeout_ms e.config.suspect_timeout_secs) i m.last_pong_unix evs
      → (n : ClusterMember) × (after i evs e ≡ some n) × (is_dead n.status ≡ false)
  not_dead_after i evs e m r k n p a h =
      let pt = e.config.probe_timeout_ms in
      let st = suspect_timeout_ms e.config.suspect_timeout_secs in
      let (s, u, q, b) = detect_all-not_dead pt st i m.status m.last_pong_unix evs h a in
      let (l, x, y, z) = opinion-some (after i evs e) s u (
        opinion-loop_events d g i evs e r k n
        ∙ ap (λ o. detect_all pt st i evs (opinion o)) p
        ∙ q) in
      (l, x, ap is_dead y ∙ b)

  -- If the engine has started, every member stands under its own identifier, `i` is another
  -- instance and a member, no message is a heartbeat of `i`, and each round of probes is one step:
  -- after a probe that comes later than `probe_timeout_ms` after its last heartbeat and any further
  -- probe that comes later than the suspect timeout after it, `i` is dead, with any ticks and messages
  -- before, between and after the two. Both timeouts count from the last heartbeat, so that `i` may be
  -- a suspect for a shorter time than the suspect timeout.
  pub dead_after :
      (i : InstanceId) (xs ys zs : List (LoopEvent F J)) (n1 n2 : ℕ) (e : GossipEngine M H)
      (m : ClusterMember)
      → IsStarted e
      → IsKeyed d e.members
      → ¬ (i ≡ e.self_id)
      → get d i e.members ≡ some m
      → IsSilent i xs
      → IsSilent i ys
      → IsSilent i zs
      → m.last_pong_unix + e.config.probe_timeout_ms < n1
      → m.last_pong_unix + suspect_timeout_ms e.config.suspect_timeout_secs < n2
      → (n : ClusterMember) × (after i (xs ++ (probe_tick n1 ∷ (ys ++ (probe_tick n2 ∷ zs)))) e
          ≡ some n)
        × (n.status ≡ dead)
        × (n.last_pong_unix ≡ m.last_pong_unix)
  dead_after i xs ys zs n1 n2 e m r k n p hx hy hz b c =
      let pt = e.config.probe_timeout_ms in
      let st = suspect_timeout_ms e.config.suspect_timeout_secs in
      let evs = xs ++ (probe_tick n1 ∷ (ys ++ (probe_tick n2 ∷ zs))) in
      opinion-some (after i evs e) dead m.last_pong_unix (
        opinion-loop_events d g i evs e r k n
        ∙ ap (λ o. detect_all pt st i evs (opinion o)) p
        ∙ detect_all-two_probes pt st i m.status m.last_pong_unix n1 n2 xs ys zs hx hy hz b c)
