-- ===== src/Tests/Gossip.antt =====
-- crates/hier-kv-gateway-cluster/src/gossip.rs at concrete inputs.
use Prim.Native.String.{len}
use hier_kv_gateway.Prelude.{
  ℕ, map, ◌≡◌, ◌≢◌, refl, true, false, some, List, [], ◌∷◌, ◌++◌, length, ◌≤◌, arith, ap, In, inl,
  inr,
}
use hier_kv_gateway.Ids.{InstanceId, InstanceId_discrete}
use hier_kv_gateway.HashMap.{lookup}
use hier_kv_gateway.Interface.DashMap.{DashMap}
use hier_kv_gateway.Interface.DashMap.Assoc.{assoc_map}
use hier_kv_gateway.Cluster.Messages.{ClusterMessage, Outgoing, sent_to, ping, pong}
use hier_kv_gateway.Cluster.Member.{
  ClusterMember, new_member, get, alive, suspect, dead, alive_members, all_members,
}
use hier_kv_gateway.Cluster.Gossip.{
  GossipHandler, ClusterConfig, default_digest, noop_handler, suspect_timeout_ms, gossip_round,
}
use hier_kv_gateway.Cluster.Gossip.Engine.{
  GossipEngine, start, stop, handle_message, join_cluster, probe_loop,
}
use hier_kv_gateway.Cluster.Gossip.Probe.{IsKeyed, known_addr}
use hier_kv_gateway.Cluster.Gossip.Detector.{
  LoopEvent, gossip_tick, probe_tick, received, opinion, loop_events, IsStarted,
}
use hier_kv_gateway.Cluster.Gossip.Detector.Steps.{
  LoopStep, heard, marked, follow, follow_all, loop_steps, opinion-loop_steps,
}
use hier_kv_gateway.Cluster.Gossip.Detector.Timeouts.{after, alive_after, dead_after}
use hier_kv_gateway.Cluster.Gossip.Stopping.{HasTasks, loop_events-stop, start-start}
use hier_kv_gateway.Cluster.Gossip.Sends.{gossip_round_lem}
use hier_kv_gateway.Cluster.Gossip.Joining.{known, join_lem}
use hier_kv_gateway.Tests.Data.{edge, cloud}

abbrev Members : Type 0
Members = List (InstanceId × ClusterMember)

abbrev d : DashMap Members InstanceId_discrete ClusterMember
d = assoc_map InstanceId_discrete

-- Numbers stand for floating point and for JSON values.
abbrev g : GossipHandler ℕ ℕ Unit
g = noop_handler

abbrev one : InstanceId
one = record { name = "one" }

abbrev three : InstanceId
three = record { name = "three" }

three≢one : three ≢ one
three≢one p = omega (arith, ap (λ i. len i.name) p)

abbrev config : ClusterConfig
config = record {
  bind_addr = "h:1";
  seed_peers = [];
  gossip_interval_ms = 1000;
  probe_timeout_ms = 500;
  suspect_timeout_secs = 2;
  gossip_fanout = 3;
  probe_interval_ms = 500;
}

abbrev peer : ClusterMember
peer = new_member 1000 three cloud "h:3" default_digest

abbrev members : Members
members = (three, peer) ∷ []

members-IsKeyed : IsKeyed d members
unfolding get lookup
members-IsKeyed i m e = ground (arith, e)

abbrev engine : GossipEngine Members Unit
engine = record {
  self_id = one;
  self_region = edge;
  self_addr = "h:1";
  members = members;
  config = config;
  running = true;
  handler = tt;
  gossip_tasks = 1;
  probe_tasks = 1;
  message_tasks = 1;
}

engine-IsStarted : IsStarted engine
engine-IsStarted = (refl, omega arith, omega arith, omega arith)

known_peer : get d three members ≡ some peer
unfolding get lookup
known_peer = ground arith

abbrev heartbeat : LoopEvent ℕ ℕ
heartbeat = received 1400 (pong three cloud default_digest 1390)

abbrev events : List (LoopEvent ℕ ℕ)
events = gossip_tick 1100 (λ l. l) ∷ probe_tick 1300 ∷ heartbeat ∷ probe_tick 1800 ∷ []

-- The heartbeat of 1400 comes between the copy of the member and its mark of 1600.
abbrev steps : List (LoopStep ℕ ℕ)
steps = heard 1400 (pong three cloud default_digest 1390) ∷ marked 1600 peer ∷ []

lost_heartbeat :
    follow_all 500 (suspect_timeout_ms 2) three steps (some (alive, 1000)) ≡ some (suspect, 1400)
unfolding follow_all follow
lost_heartbeat = ground arith

opinion-loop_steps_example :
    (opinion (get d three (loop_steps d g steps engine).members)
      ≡ follow_all 500 (suspect_timeout_ms 2) three steps (opinion (get d three members)))
    × (probe_loop d g 1600 engine
        ≡ loop_steps d g (map (marked 1600) (all_members d members)) engine)
opinion-loop_steps_example =
    opinion-loop_steps d g three 1600 steps engine engine-IsStarted three≢one

alive_after_example :
    (n : ClusterMember) × (after d g three events engine ≡ some n) × (n.status ≡ alive)
alive_after_example =
    alive_after d g three events engine peer engine-IsStarted members-IsKeyed three≢one known_peer
      refl (omega arith, (ground arith, tt))

dead_after_example :
    (n : ClusterMember) × (after d g three
        ((gossip_tick 1100 (λ l. l) ∷ []) ++ (probe_tick 1600 ∷ ([] ++ (probe_tick 3001 ∷ []))))
        engine
      ≡ some n)
    × (n.status ≡ dead)
    × (n.last_pong_unix ≡ 1000)
dead_after_example =
    dead_after d g three (gossip_tick 1100 (λ l. l) ∷ []) [] [] 1600 3001 engine peer
      engine-IsStarted members-IsKeyed three≢one known_peer tt tt tt (omega arith) (omega arith)

loop_events-stop_example :
    HasTasks d g 0 0 0 (loop_events d g events (stop d g true engine).0)
    × (loop_events d g events (loop_events d g events (stop d g true engine).0)
        ≡ loop_events d g events (stop d g true engine).0)
loop_events-stop_example =
    loop_events-stop d g true events events engine refl (omega arith) (omega arith) (omega arith)

abbrev idle : GossipEngine Members Unit
idle = record engine { running = false; gossip_tasks = 0; probe_tasks = 0; message_tasks = 0 }

start-start_example :
    ((start d g 10 false idle).1 ≡ false)
    × (start d g 20 true (start d g 10 false idle).0 ≡ (record idle { running = true }, true))
start-start_example = start-start d g 10 20 true idle refl

gossip_round_lem_example :
    (length (gossip_round d g (λ l. l) 1100 one 3 members tt) ≤ 3)
    × ((o : Outgoing ℕ ℕ)
        → In o (gossip_round d g (λ l. l) 1100 one 3 members tt)
        → (m : ClusterMember) × In m (alive_members d members)
          × (m.instance_id ≢ one)
          × (o ≡ sent_to m.addr (ping one m.region default_digest 1100)))
gossip_round_lem_example = gossip_round_lem d g (λ l. l) 1100 one 3 members tt (λ m l i. i)

abbrev joining : GossipEngine Members Unit
joining = record engine { self_id = three; self_region = cloud; self_addr = "h:3"; members = [] }

join_lem_example :
    (msg : ClusterMessage ℕ ℕ) × (reply : ClusterMessage ℕ ℕ) × In
      (sent_to "h:1" msg)
      (join_cluster d g ("h:2" ∷ "h:1" ∷ []) joining)
    × (known d g (handle_message d g 1000 msg engine).0 three ≡ some peer)
    × In (sent_to "h:3" reply) (handle_message d g 1000 msg engine).1
    × (known d g (handle_message d g 1500 reply joining).0 one
        ≡ some (record {
          instance_id = one;
          region = engine.self_region;
          addr = known_addr (known d g joining one);
          last_pong_unix = 1500;
          status = alive;
          meta_digest = default_digest;
        }))
join_lem_example = join_lem d g 1000 1500 "h:1" ("h:2" ∷ "h:1" ∷ []) joining engine (inr (inl refl))
