-- ===== src/Cluster/Gossip/Stopping.antt =====
-- The tasks of an engine that is stopped, and started again.
use hier_kv_gateway.Prelude.{
  ℕ, suc, ◌+◌, ◌≤◌, ◌≡◌, refl, ap, ◌∙◌, Bool, true, false, some, List, [], ◌∷◌, arith,
}
use hier_kv_gateway.Ids.{InstanceId_discrete}
use hier_kv_gateway.Interface.DashMap.{DashMap}
use hier_kv_gateway.Cluster.Messages.{ClusterMessage}
use hier_kv_gateway.Cluster.Member.{ClusterMember}
use hier_kv_gateway.Cluster.Gossip.{GossipHandler}
use hier_kv_gateway.Cluster.Gossip.Engine.{
  GossipEngine, start, stop, gossip_loop, probe_loop, message_loop,
}
use hier_kv_gateway.Cluster.Gossip.Detector.{
  LoopEvent, gossip_tick, probe_tick, received, loop_event, loop_events,
}

module _ {F J : Type 0} where
  abbrev pub gossip_ticks : List (LoopEvent F J) → ℕ
  gossip_ticks [] = 0
  gossip_ticks (gossip_tick now shuffle ∷ evs) = suc (gossip_ticks evs)
  gossip_ticks (probe_tick now ∷ evs) = gossip_ticks evs
  gossip_ticks (received now msg ∷ evs) = gossip_ticks evs

  abbrev pub probe_ticks : List (LoopEvent F J) → ℕ
  probe_ticks [] = 0
  probe_ticks (gossip_tick now shuffle ∷ evs) = probe_ticks evs
  probe_ticks (probe_tick now ∷ evs) = suc (probe_ticks evs)
  probe_ticks (received now msg ∷ evs) = probe_ticks evs

  abbrev pub messages : List (LoopEvent F J) → ℕ
  messages [] = 0
  messages (gossip_tick now shuffle ∷ evs) = messages evs
  messages (probe_tick now ∷ evs) = messages evs
  messages (received now msg ∷ evs) = suc (messages evs)

module _ {F J M H : Type 0} (d : DashMap M InstanceId_discrete ClusterMember)
    (g : GossipHandler F J H) where
  -- The tasks that are left.
  abbrev pub HasTasks : ℕ → ℕ → ℕ → GossipEngine M H → Type 0
  HasTasks a b c e =
      (e.running ≡ false) × (e.gossip_tasks ≤ a) × (e.probe_tasks ≤ b) × (e.message_tasks ≤ c)

  gossip_loop-HasTasks :
      (shuffle : List ClusterMember → List ClusterMember) (now a b c : ℕ) (e : GossipEngine M H)
      → HasTasks (suc a) b c e
      → HasTasks a b c (gossip_loop d g shuffle now e).0
  unfolding gossip_loop
  gossip_loop-HasTasks shuffle now a b c e (r, x, y, z) = ground (arith, r, x, y, z)

  probe_loop-HasTasks :
      (now a b c : ℕ) (e : GossipEngine M H)
      → HasTasks a (suc b) c e
      → HasTasks a b c (probe_loop d g now e)
  unfolding probe_loop
  probe_loop-HasTasks now a b c e (r, x, y, z) = ground (arith, r, x, y, z)

  message_loop-HasTasks :
      (now a b c : ℕ) (msg : ClusterMessage F J) (e : GossipEngine M H)
      → HasTasks a b (suc c) e
      → HasTasks a b c (message_loop d g now (some msg) e).0
  unfolding message_loop
  message_loop-HasTasks now a b c msg e (r, x, y, z) = ground (arith, r, x, y, z)

  loop_events-HasTasks :
      (evs : List (LoopEvent F J)) (e : GossipEngine M H)
      → HasTasks (gossip_ticks evs) (probe_ticks evs) (messages evs) e
      → HasTasks 0 0 0 (loop_events d g evs e)
  unfolding loop_events loop_event
  loop_events-HasTasks [] e h = h
  loop_events-HasTasks (gossip_tick now shuffle ∷ evs) e h =
      loop_events-HasTasks evs (gossip_loop d g shuffle now e).0
        (gossip_loop-HasTasks shuffle now (gossip_ticks evs) (probe_ticks evs) (messages evs) e h)
  loop_events-HasTasks (probe_tick now ∷ evs) e h =
      loop_events-HasTasks evs (probe_loop d g now e)
        (probe_loop-HasTasks now (gossip_ticks evs) (probe_ticks evs) (messages evs) e h)
  loop_events-HasTasks (received now msg ∷ evs) e h =
      loop_events-HasTasks evs (message_loop d g now (some msg) e).0
        (message_loop-HasTasks now (gossip_ticks evs) (probe_ticks evs) (messages evs) msg e h)

  loop_event-idle :
      (ev : LoopEvent F J) (e : GossipEngine M H) → HasTasks 0 0 0 e → loop_event d g ev e ≡ e
  unfolding loop_event gossip_loop probe_loop message_loop
  loop_event-idle (gossip_tick now shuffle) e (r, x, y, z) = ground (arith, x)
  loop_event-idle (probe_tick now) e (r, x, y, z) = ground (arith, y)
  loop_event-idle (received now msg) e (r, x, y, z) = ground (arith, z)

  loop_events-idle :
      (evs : List (LoopEvent F J)) (e : GossipEngine M H)
      → HasTasks 0 0 0 e
      → loop_events d g evs e ≡ e
  unfolding loop_events
  loop_events-idle [] e h = refl
  loop_events-idle (ev ∷ evs) e h =
      ap (loop_events d g evs) (loop_event-idle ev e h) ∙ loop_events-idle evs e h

  -- After `stop` of a running engine: once its gossip tasks have had a tick each, its probe tasks
  -- a tick each and its message tasks a message each, in any order, every task has ended, and
  -- whatever ticks and messages follow change nothing.
  pub loop_events-stop :
      (answer : Bool) (evs more : List (LoopEvent F J)) (e : GossipEngine M H)
      → e.running ≡ true
      → e.gossip_tasks ≤ gossip_ticks evs
      → e.probe_tasks ≤ probe_ticks evs
      → e.message_tasks ≤ messages evs
      → HasTasks 0 0 0 (loop_events d g evs (stop d g answer e).0)
        × (loop_events d g more (loop_events d g evs (stop d g answer e).0)
            ≡ loop_events d g evs (stop d g answer e).0)
  unfolding stop
  loop_events-stop answer evs more e r x y z =
      let stopped : (stop d g answer e).0 ≡ record e { running = false } = ground (arith, r) in
      let ended = loop_events-HasTasks evs (stop d g answer e).0 (ground (arith, r, x, y, z)) in
      (ended, loop_events-idle more (loop_events d g evs (stop d g answer e).0) ended)

  -- A running engine that is stopped and at once started again has one more task of each kind than
  -- before.
  pub start-stop :
      (now : ℕ) (answer : Bool) (e : GossipEngine M H)
      → e.running ≡ true
      → let f = (start d g now true (stop d g answer e).0).0 in
        (f.gossip_tasks ≡ e.gossip_tasks + 1)
        × (f.probe_tasks ≡ e.probe_tasks + 1)
        × (f.message_tasks ≡ e.message_tasks + 1)
  unfolding start stop
  start-stop now answer e r = ground (arith, r)

  -- After a `start` whose transport fails, `start` reports success whatever the transport would
  -- answer, and the engine has the tasks that it had before the first of the two.
  pub start-start :
      (now later : ℕ) (answer : Bool) (e : GossipEngine M H)
      → e.running ≡ false
      → (start d g now false e).1 ≡ false
        × (start d g later answer (start d g now false e).0 ≡ (record e { running = true }, true))
  unfolding start
  start-start now later answer e r = ground (arith, r)
