-- ===== src/Cluster/Gossip/Joining.antt =====
-- Two engines: one joins the cluster through the other.
use hier_kv_gateway.Prelude.{
  ℕ, ◌≡◌, refl, sym, ap, ◌∙◌, Option, none, some, List, [], ◌∷◌, String, if_pos, In, inl, inr,
}
use hier_kv_gateway.Ids.{InstanceId, InstanceId_discrete}
use hier_kv_gateway.Interface.DashMap.{DashMap}
use hier_kv_gateway.Cluster.Messages.{ClusterMessage, sent_to, pong, meet}
use hier_kv_gateway.Cluster.Member.{ClusterMember, alive, get}
use hier_kv_gateway.Cluster.Gossip.{GossipHandler, ensure_member}
use hier_kv_gateway.Cluster.Gossip.Engine.{GossipEngine, handle_message, join_cluster}
use hier_kv_gateway.Cluster.Gossip.Probe.{known_addr}
use hier_kv_gateway.Cluster.Gossip.Heartbeat.{ensured, get-ensure_member}

module _ {F J M H : Type 0} (d : DashMap M InstanceId_discrete ClusterMember)
    (g : GossipHandler F J H) where
  -- What an engine knows of an instance.
  abbrev pub known : GossipEngine M H → InstanceId → Option ClusterMember
  known e i = get d i e.members

  get-ensured :
      (now : ℕ) (e : GossipEngine M H) (m : ClusterMember) (addr : Option String)
      (o : Option ClusterMember)
      → o ≡ known e m.instance_id
      → m ≡ ensured now m.instance_id m.region addr m.meta_digest o
      → get d m.instance_id
          (ensure_member d now m.instance_id m.region addr m.meta_digest e.members)
        ≡ some m
  get-ensured now e m addr o p q =
      get-ensure_member d now m.instance_id m.region addr m.meta_digest m.instance_id e.members
      ∙ if_pos (InstanceId_discrete m.instance_id m.instance_id) refl _ _
      ∙ ap (λ o. some (ensured now m.instance_id m.region addr m.meta_digest o)) (sym p)
      ∙ ap {A = ClusterMember} {B = Option ClusterMember} (λ m. some m) (sym q)

  -- The message that `join_cluster` of `e` sends.
  abbrev meeting : GossipEngine M H → ClusterMessage F J
  meeting e = meet e.self_id e.self_region e.self_addr

  In-join_cluster :
      (seed : String) (seeds : List String) (e : GossipEngine M H)
      → In seed seeds
      → In (sent_to seed (meeting e)) (join_cluster d g seeds e)
  unfolding join_cluster
  In-join_cluster seed [] e h = absurd h
  In-join_cluster seed (s ∷ seeds) e (inl p) = inl (ap (λ t. sent_to t (meeting e)) p)
  In-join_cluster seed (s ∷ seeds) e (inr h) = inr (In-join_cluster seed seeds e h)

  -- For every seed of `join_cluster` of `a`, a message goes to the seed. When `b` handles it, `b`
  -- knows `a` as an alive member of the region of `a` under the address of `a`, with the digest of `b`
  -- itself, and replies to that address. When `a` handles the reply, `a` knows `b` as an alive member
  -- of the region of `b`, under the address that `a` knew of it before, or an empty one.
  pub join_lem :
      (now later : ℕ) (seed : String) (seeds : List String) (a b : GossipEngine M H)
      → In seed seeds
      → (msg : ClusterMessage F J) × (reply : ClusterMessage F J) × In
          (sent_to seed msg)
          (join_cluster d g seeds a)
        × (known (handle_message d g now msg b).0 a.self_id
            ≡ some (record {
              instance_id = a.self_id;
              region = a.self_region;
              addr = a.self_addr;
              last_pong_unix = now;
              status = alive;
              meta_digest = g.current_meta_digest b.handler;
            }))
        × In (sent_to a.self_addr reply) (handle_message d g now msg b).1
        × (known (handle_message d g later reply a).0 b.self_id
            ≡ some (record {
              instance_id = b.self_id;
              region = b.self_region;
              addr = known_addr (known a b.self_id);
              last_pong_unix = later;
              status = alive;
              meta_digest = g.current_meta_digest b.handler;
            }))
  unfolding handle_message
  join_lem now later seed seeds a b h = (
    meeting a,
    pong b.self_id b.self_region (g.current_meta_digest b.handler) now,
    In-join_cluster seed seeds a h,
    get-ensured now b _ (some a.self_addr) (known b a.self_id) refl refl,
    inl refl,
    get-ensured later a _ none (known a b.self_id) refl refl,
  )
