-- ===== src/Cluster/Gossip/Detector/Steps.antt =====
-- The loops of a started engine in single steps: the probe loop copies the members and then marks
-- them one after the other, and messages may come in between.
use hier_kv_gateway.Prelude.{
  ℕ, Bool-cases, inl, inr, ◌-◌, ◌≡◌, refl, sym, ap, ◌∙◌, Option, none, some, List, [], ◌∷◌,
  if◌then◌else◌, ltb, arith, map, ite,
}
use hier_kv_gateway.Ids.{InstanceId, InstanceId_discrete}
use hier_kv_gateway.Interface.DashMap.{DashMap}
use hier_kv_gateway.Cluster.Messages.{ClusterMessage}
use hier_kv_gateway.Cluster.Member.{
  ClusterMember, MemberStatus, alive, suspect, dead, get, all_members, modify, mark_suspect,
  mark_dead,
}
use hier_kv_gateway.Cluster.Member.History.{altered, get-modify}
use hier_kv_gateway.Cluster.Gossip.{
  GossipHandler, message_sender_is_self, suspect_timeout_ms, probe_member, probe_all, probe_round,
}
use hier_kv_gateway.Cluster.Gossip.Engine.{
  GossipEngine, dispatch_message, gossip_loop, probe_loop, message_loop,
}
use hier_kv_gateway.Cluster.Gossip.Detector.{heartbeat_of, Opinion, opinion, hear, IsStarted}
use hier_kv_gateway.Cluster.Gossip.Detector.Refinement.{
  with_members, probe_loop-started, gossip_loop-started, message_loop-started, get-dispatch_message,
  hear_self,
}

-- A step of a loop. A mark is by the copy of a member that the round took.
pub data LoopStep (F J : Type 0) : Type 0 where
  gossiped : ℕ → (List ClusterMember → List ClusterMember) → LoopStep F J
  marked : ℕ → ClusterMember → LoopStep F J
  heard : ℕ → ClusterMessage F J → LoopStep F J

-- The specification of a mark: the copy decides on the status, and the time of the last heartbeat
-- stays, though it may be later than the copy's.
abbrev pub marked_status : ℕ → ℕ → ℕ → ClusterMember → MemberStatus → MemberStatus
marked_status now pt st copied s = elim copied.status [
  | alive ↦ if ltb copied.last_pong_unix (now - pt) then suspect else s
  | suspect ↦ if ltb copied.last_pong_unix (now - st) then dead else s
  | dead ↦ s
]

abbrev pub judge : ℕ → ℕ → ℕ → ClusterMember → Opinion → Opinion
judge now pt st copied none = none
judge now pt st copied (some (s, t)) = some (marked_status now pt st copied s, t)

abbrev with_status : MemberStatus → Opinion → Opinion
with_status status none = none
with_status status (some (s, t)) = some (status, t)

module _ {F J : Type 0} where
  unfoldable pub follow : ℕ → ℕ → InstanceId → LoopStep F J → Opinion → Opinion
  follow pt st i (gossiped now shuffle) o = o
  follow pt st i (marked now copied) o =
      ite (InstanceId_discrete copied.instance_id i) (judge now pt st copied o) o
  follow pt st i (heard now msg) o = hear now i (heartbeat_of msg) o

  unfoldable pub follow_all : ℕ → ℕ → InstanceId → List (LoopStep F J) → Opinion → Opinion
  unfolding follow
  follow_all pt st i [] o = o
  follow_all pt st i (x ∷ xs) o = follow_all pt st i xs (follow pt st i x o)

module _ {M : Type 0} (d : DashMap M InstanceId_discrete ClusterMember) where
  -- What `modify` of a status does to the opinion.
  opinion-modify :
      (status : MemberStatus) (j i : InstanceId) (s : M)
      → opinion (get d i (modify d (λ m. record m { status = status }) j s))
        ≡ ite
            (InstanceId_discrete j i)
            (with_status status (opinion (get d i s)))
            (opinion (get d i s))
  unfolding get
  opinion-modify status j i s =
      ap opinion (get-modify d (λ m. record m { status = status }) i j s)
      ∙ by_key (InstanceId_discrete j i) (d.get i s)
    where
      by_key :
          (q : Dec (j ≡ i)) (o : Option ClusterMember)
          → opinion (ite q (altered (λ m. record m { status = status }) o) o)
            ≡ ite q (with_status status (opinion o)) (opinion o)
      by_key (yes q) none = refl
      by_key (yes q) (some m) = refl
      by_key (no q) o = refl

  ite_same : {A B : Type 0} (q : Dec A) (x : B) → x ≡ ite q x x
  ite_same (yes q) x = refl
  ite_same (no q) x = refl

  judge-as :
      (now pt st : ℕ) (m : ClusterMember) (o : Opinion)
      → judge now pt st m o ≡ elim m.status [
        | alive ↦ if ltb m.last_pong_unix (now - pt) then with_status suspect o else o
        | suspect ↦ if ltb m.last_pong_unix (now - st) then with_status dead o else o
        | dead ↦ o
      ]
  judge-as now pt st m o = ground arith

  opinion-probe_member :
      (now : ℕ) (self_id : InstanceId) (pt st : ℕ) (m : ClusterMember) (i : InstanceId) (s : M)
      → ¬ (i ≡ self_id)
      → opinion (get d i (probe_member d now self_id pt st m s))
        ≡ ite
            (InstanceId_discrete m.instance_id i)
            (judge now pt st m (opinion (get d i s)))
            (opinion (get d i s))
  unfolding probe_member mark_suspect mark_dead
  opinion-probe_member now self_id pt st m i s n = elim (InstanceId_discrete m.instance_id i) [
    | yes p ↦ ground (
      arith,
      p,
      n,
      judge-as now pt st m (opinion (get d i s)),
      opinion-modify suspect m.instance_id i s,
      opinion-modify dead m.instance_id i s,
    )
    | no p ↦
        ground (
          arith,
          p,
          opinion-modify suspect m.instance_id i s,
          opinion-modify dead m.instance_id i s,
        )
  ]

module _ {F J M H : Type 0} (d : DashMap M InstanceId_discrete ClusterMember)
    (g : GossipHandler F J H) where
  unfoldable pub loop_step : LoopStep F J → GossipEngine M H → GossipEngine M H
  loop_step (gossiped now shuffle) e = (gossip_loop d g shuffle now e).0
  loop_step (marked now copied) e = record e {
    members =
        probe_member d now e.self_id e.config.probe_timeout_ms
          (suspect_timeout_ms e.config.suspect_timeout_secs) copied e.members;
  }
  loop_step (heard now msg) e = (message_loop d g now (some msg) e).0

  unfoldable pub loop_steps : List (LoopStep F J) → GossipEngine M H → GossipEngine M H
  unfolding loop_step
  loop_steps [] e = e
  loop_steps (x ∷ xs) e = loop_steps xs (loop_step x e)

  -- A step changes the members and the handler's state alone, and the opinion as specified.
  abbrev Stepped : InstanceId → LoopStep F J → GossipEngine M H → Type 0
  Stepped i x e =
      (s : M) × (h : H) × (loop_step x e ≡ with_members d g e s h)
      × (opinion (get d i s)
          ≡ follow e.config.probe_timeout_ms (suspect_timeout_ms e.config.suspect_timeout_secs) i x
              (opinion (get d i e.members)))

  loop_step-Stepped :
      (i : InstanceId) (x : LoopStep F J) (e : GossipEngine M H)
      → IsStarted e
      → ¬ (i ≡ e.self_id)
      → Stepped i x e
  unfolding loop_step follow
  loop_step-Stepped i (gossiped now shuffle) e r n =
      (e.members, e.handler, gossip_loop-started d g shuffle now e r, refl)
  loop_step-Stepped i (marked now copied) e r n =
      let pt = e.config.probe_timeout_ms in
      let st = suspect_timeout_ms e.config.suspect_timeout_secs in
      (
        probe_member d now e.self_id pt st copied e.members,
        e.handler,
        refl,
        opinion-probe_member d now e.self_id pt st copied i e.members n,
      )
  loop_step-Stepped i (heard now msg) e r n =
      let x = dispatch_message d g now e.self_id e.self_region msg e.members e.handler in
      let same = message_loop-started d g now msg e r in
      elim (Bool-cases (message_sender_is_self msg e.self_id)) [
        | inl q ↦ (
          e.members,
          e.handler,
          same ∙ ap (λ b. if b then e else with_members d g e x.0 x.1) q,
          sym (hear_self d g now e.self_id i msg (opinion (get d i e.members)) n q),
        )
        | inr q ↦ (
          x.0,
          x.1,
          same ∙ ap (λ b. if b then e else with_members d g e x.0 x.1) q,
          get-dispatch_message d g now e.self_id e.self_region msg e.members e.handler i,
        )
      ]

  opinion_after :
      (i : InstanceId) (xs : List (LoopStep F J)) (e : GossipEngine M H)
      → IsStarted e
      → ¬ (i ≡ e.self_id)
      → opinion (get d i (loop_steps xs e).members)
        ≡ follow_all e.config.probe_timeout_ms
            (suspect_timeout_ms e.config.suspect_timeout_secs)
            i
            xs
            (opinion (get d i e.members))
  unfolding loop_steps follow_all
  opinion_after i [] e r n = refl
  opinion_after i (x ∷ xs) e r n =
      let (s, h, p, q) = loop_step-Stepped i x e r n in
      let pt = e.config.probe_timeout_ms in
      let st = suspect_timeout_ms e.config.suspect_timeout_secs in
      ap (λ f. opinion (get d i (loop_steps xs f).members)) p
      ∙ opinion_after i xs (with_members d g e s h) r n
      ∙ ap (follow_all pt st i xs) q

  marks :
      (now : ℕ) (l : List ClusterMember) (e : GossipEngine M H)
      → loop_steps (map (marked now) l) e ≡ record e {
        members =
            probe_all d now e.self_id e.config.probe_timeout_ms
              (suspect_timeout_ms e.config.suspect_timeout_secs)
              l
              e.members;
      }
  unfolding loop_steps probe_all
  marks now [] e = refl
  marks now (m ∷ l) e = marks now l (loop_step (marked now m) e)

  -- If the engine has started and `i` is another instance: whatever gossip rounds, messages and
  -- single marks of the probe loop come, in any order and with any copies, the status and the time of
  -- the last heartbeat that the engine holds of `i` follow from the heartbeats of `i` and the marks by
  -- copies of `i` alone. A heartbeat makes `i` alive at its time. A mark goes by the status and the
  -- heartbeat of its copy, so that it also overrides a heartbeat that came after the copy: past the
  -- probe timeout an alive copy makes `i` a suspect, and past the suspect timeout, counted from the
  -- last heartbeat as well, a suspect copy makes it dead. A round of the probe loop is the marks by
  -- the copies of all members.
  pub opinion-loop_steps :
      (i : InstanceId) (now : ℕ) (xs : List (LoopStep F J)) (e : GossipEngine M H)
      → IsStarted e
      → ¬ (i ≡ e.self_id)
      → (opinion (get d i (loop_steps xs e).members)
          ≡ follow_all e.config.probe_timeout_ms
              (suspect_timeout_ms e.config.suspect_timeout_secs)
              i
              xs
              (opinion (get d i e.members)))
        × (probe_loop d g now e ≡ loop_steps (map (marked now) (all_members d e.members)) e)
  unfolding probe_round
  opinion-loop_steps i now xs e r n = (
    opinion_after i xs e r n,
    probe_loop-started d g now e r ∙ sym (marks now (all_members d e.members) e),
  )
