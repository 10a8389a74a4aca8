-- ===== src/Cluster/Gossip/Heartbeat.antt =====
-- What a heartbeat does to the records of the members, and the identifiers that members stand under.
use hier_kv_gateway.Prelude.{ℕ, ◌≡◌, Option, none, some, ite, arith, Option-cases, inl, inr, String}
use hier_kv_gateway.Ids.{InstanceId, InstanceId_discrete, RegionId}
use hier_kv_gateway.Interface.DashMap.{DashMap}
use hier_kv_gateway.Cluster.Member.{ClusterMember, MetaDigest, alive, upsert, get}
use hier_kv_gateway.Cluster.Gossip.{unwrap_or, ensure_member, probe_round, suspect_timeout_ms}
use hier_kv_gateway.Cluster.Gossip.Probe.{IsKeyed, known_addr, probed, scanned, get-probe_round}

-- The record that a heartbeat leaves: the address is kept where the message has none.
abbrev pub ensured :
    ℕ → InstanceId → RegionId → Option String → MetaDigest → Option ClusterMember → ClusterMember
ensured now instance_id region addr digest o = record {
  instance_id = instance_id;
  region = region;
  addr = unwrap_or addr (known_addr o);
  last_pong_unix = now;
  status = alive;
  meta_digest = digest;
}

scanned-instance_id :
    (now pt st : ℕ) (m : ClusterMember) → (scanned now pt st m).instance_id ≡ m.instance_id
scanned-instance_id now pt st m = ground arith

module _ {M : Type 0} (d : DashMap M InstanceId_discrete ClusterMember) where
  -- After a heartbeat of `sender`, its record is alive, answered at `now`, and keeps the address
  -- that was known of it unless the heartbeat brings one; a member that was suspect or dead comes
  -- back. The records of the other instances stay.
  pub get-ensure_member :
      (now : ℕ) (sender : InstanceId) (region : RegionId) (addr : Option String)
      (digest : MetaDigest) (i : InstanceId) (members : M)
      → get d i (ensure_member d now sender region addr digest members)
        ≡ ite
            (InstanceId_discrete sender i)
            (some (ensured now sender region addr digest (get d sender members)))
            (get d i members)
  unfolding get ensure_member upsert
  get-ensure_member now sender region addr digest i s = elim (Option-cases (d.get sender s)) [
    | inl e ↦
        ground (arith, e, d.get-insert sender i (ensured now sender region addr digest none) s)
    | inr (m, e) ↦
        ground (arith, e, d.get-insert sender i (ensured now sender region addr digest (some m)) s)
  ]

  pub ensure_member-IsKeyed :
      (now : ℕ) (sender : InstanceId) (region : RegionId) (addr : Option String)
      (digest : MetaDigest) (members : M)
      → IsKeyed d members
      → IsKeyed d (ensure_member d now sender region addr digest members)
  ensure_member-IsKeyed now sender region addr digest s k i m p =
      ground (arith, p, get-ensure_member now sender region addr digest i s, k i m)

  pub probe_round-IsKeyed :
      (now : ℕ) (self_id : InstanceId) (pt st : ℕ) (members : M)
      → IsKeyed d members
      → IsKeyed d (probe_round d now self_id pt st members)
  unfolding probed
  probe_round-IsKeyed now self_id pt st s k i m p = elim (Option-cases (get d i s)) [
    | inl e ↦ ground (arith, p, e, get-probe_round d now self_id pt st i s k)
    | inr (n, e) ↦ ground (
      arith,
      p,
      e,
      get-probe_round d now self_id pt st i s k,
      k i n,
      scanned-instance_id now pt (suspect_timeout_ms st) n,
    )
  ]
