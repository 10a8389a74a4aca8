-- ===== src/Cluster/Gossip/Probe.antt =====
-- What a round of the probe loop and a heartbeat do to the record of one member.
use hier_kv_gateway.Prelude.{
  ℕ, ◌-◌, ◌≡◌, refl, sym, ap, ◌∙◌, Option, none, some, List, [], ◌∷◌, if◌then◌else◌, ltb, ite,
  if_pos, if_neg, arith, Option-cases, inl, inr, String, In, Distinct, subst,
}
use hier_kv_gateway.Ids.{InstanceId, InstanceId_discrete}
use hier_kv_gateway.HashMap.{lookup, keys, In-keys}
use hier_kv_gateway.Interface.DashMap.{DashMap}
use hier_kv_gateway.Cluster.Member.{
  ClusterMember, alive, suspect, dead, get, values, all_members, mark_suspect, mark_dead,
}
use hier_kv_gateway.Cluster.Member.History.{altered, get-modify}
use hier_kv_gateway.Cluster.Gossip.{suspect_timeout_ms, probe_member, probe_all, probe_round}

-- The record of a member after a scan: the specification.
abbrev pub scanned : ℕ → ℕ → ℕ → ClusterMember → ClusterMember
scanned now probe_timeout suspect_timeout m = elim m.status [
  | alive ↦ if ltb m.last_pong_unix (now - probe_timeout) then record m { status = suspect } else m
  | suspect ↦ if ltb m.last_pong_unix (now - suspect_timeout) then record m { status = dead } else m
  | dead ↦ m
]

unfoldable pub probed :
    ℕ → InstanceId → ℕ → ℕ → InstanceId → Option ClusterMember → Option ClusterMember
probed now self_id probe_timeout suspect_timeout i o =
    ite (InstanceId_discrete i self_id) o (altered (scanned now probe_timeout suspect_timeout) o)

-- The address that is kept of a member.
abbrev pub known_addr : Option ClusterMember → String
known_addr none = ""
known_addr (some m) = m.addr

module _ {M : Type 0} (d : DashMap M InstanceId_discrete ClusterMember) where
  -- Every member stands under its own identifier.
  abbrev pub IsKeyed : M → Type 0
  IsKeyed s = (i : InstanceId) (m : ClusterMember) → get d i s ≡ some m → m.instance_id ≡ i

  get-probe_member_self :
      (now : ℕ) (self_id : InstanceId) (pt st : ℕ) (m : ClusterMember) (s : M)
      → get d m.instance_id s ≡ some m
      → get d m.instance_id (probe_member d now self_id pt st m s)
        ≡ probed now self_id pt st m.instance_id (some m)
  unfolding get probe_member probed mark_suspect mark_dead
  get-probe_member_self now self_id pt st m s h = ground (
    arith,
    h,
    get-modify d (λ m. record m { status = suspect }) m.instance_id m.instance_id s,
    get-modify d (λ m. record m { status = dead }) m.instance_id m.instance_id s,
  )

  get-probe_member_other :
      (now : ℕ) (self_id : InstanceId) (pt st : ℕ) (m : ClusterMember) (i : InstanceId) (s : M)
      → ¬ (m.instance_id ≡ i)
      → get d i (probe_member d now self_id pt st m s) ≡ get d i s
  unfolding get probe_member mark_suspect mark_dead
  get-probe_member_other now self_id pt st m i s n = ground (
    arith,
    get-modify d (λ m. record m { status = suspect }) i m.instance_id s,
    get-modify d (λ m. record m { status = dead }) i m.instance_id s,
    n,
  )

  -- A list of pairs whose members are in the map under their own identifiers.
  abbrev Stored : List (InstanceId × ClusterMember) → M → Type 0
  Stored l s =
      (j : InstanceId) (m : ClusterMember)
      → lookup InstanceId_discrete j l ≡ some m
      → (get d j s ≡ some m) × (m.instance_id ≡ j)

  abbrev scan_of :
      ℕ → InstanceId → ℕ → ℕ → InstanceId → M → Option ClusterMember → Option ClusterMember
  scan_of now self_id pt st i s none = get d i s
  scan_of now self_id pt st i s (some m) = probed now self_id pt st i (some m)

  lookup-tail :
      (k j : InstanceId) (m : ClusterMember) (l : List (InstanceId × ClusterMember))
      → ¬ (k ≡ j)
      → lookup InstanceId_discrete j ((k, m) ∷ l) ≡ lookup InstanceId_discrete j l
  unfolding lookup
  lookup-tail k j m l n = ground (arith, n)

  Stored-tail :
      (now : ℕ) (self_id : InstanceId) (pt st : ℕ) (k : InstanceId) (m : ClusterMember)
      (l : List (InstanceId × ClusterMember)) (s : M)
      → Distinct (k ∷ keys l)
      → m.instance_id ≡ k
      → Stored ((k, m) ∷ l) s
      → Stored l (probe_member d now self_id pt st m s)
  Stored-tail now self_id pt st k m l s (a, _) e h j n p =
      let other : ¬ (k ≡ j) =
        λ q. a (subst (λ x. In x (keys l)) (sym q) (In-keys InstanceId_discrete j n l p)) in
      let (g, i) = h j n (lookup-tail k j m l other ∙ p) in
      (get-probe_member_other now self_id pt st m j s (λ q. other (sym e ∙ q)) ∙ g, i)

  absent :
      (k i : InstanceId) (l : List (InstanceId × ClusterMember))
      → k ≡ i
      → ¬ In k (keys l)
      → lookup InstanceId_discrete i l ≡ none
  absent k i l p a = elim (Option-cases (lookup InstanceId_discrete i l)) [
    | inl e ↦ e
    | inr (n, e) ↦
        absurd (a (subst (λ x. In x (keys l)) (sym p) (In-keys InstanceId_discrete i n l e)))
  ]

  -- The first pair of the list, for its own identifier.
  get-probe_member_at :
      (now : ℕ) (self_id : InstanceId) (pt st : ℕ) (i : InstanceId) (m : ClusterMember) (s : M)
      → m.instance_id ≡ i
      → get d i s ≡ some m
      → get d i (probe_member d now self_id pt st m s) ≡ probed now self_id pt st i (some m)
  get-probe_member_at now self_id pt st i m s e g =
      subst
        (λ x. get d x (probe_member d now self_id pt st m s) ≡ probed now self_id pt st x (some m))
        e (get-probe_member_self now self_id pt st m s (ap (λ x. get d x s) e ∙ g))

  scan_of-other :
      (now : ℕ) (self_id : InstanceId) (pt st : ℕ) (i : InstanceId) (s t : M)
      → get d i s ≡ get d i t
      → (o : Option ClusterMember)
      → scan_of now self_id pt st i s o ≡ scan_of now self_id pt st i t o
  scan_of-other now self_id pt st i s t e none = e
  scan_of-other now self_id pt st i s t e (some m) = refl

  scan_of_lem :
      (now : ℕ) (self_id : InstanceId) (pt st : ℕ) (i : InstanceId) (s : M)
      (o : Option ClusterMember)
      → o ≡ get d i s
      → scan_of now self_id pt st i s o ≡ probed now self_id pt st i (get d i s)
  unfolding probed
  scan_of_lem now self_id pt st i s none e = ground (arith, e)
  scan_of_lem now self_id pt st i s (some m) e = ap (probed now self_id pt st i) e

  get-probe_all :
      (now : ℕ) (self_id : InstanceId) (pt st : ℕ) (i : InstanceId)
      (l : List (InstanceId × ClusterMember)) (s : M)
      → Distinct (keys l)
      → Stored l s
      → get d i (probe_all d now self_id pt st (values l) s)
        ≡ scan_of now self_id pt st i s (lookup InstanceId_discrete i l)
  unfolding probe_all lookup
  get-probe_all now self_id pt st i [] s a h = refl
  get-probe_all now self_id pt st i ((k, m) ∷ l) s a h =
      let (g, e) = h k m (if_pos (InstanceId_discrete k k) refl _ _) in
      let s' = probe_member d now self_id pt st m s in
      let scan = scan_of now self_id pt st i s in
      let ih =
        get-probe_all now self_id pt st i l s' a.1 (Stored-tail now self_id pt st k m l s a e h) in
      elim (InstanceId_discrete k i) [
        | yes p ↦
            ih
            ∙ ap (scan_of now self_id pt st i s') (absent k i l p a.0)
            ∙ get-probe_member_at now self_id pt st i m s (e ∙ p) (ap (λ x. get d x s) (sym p) ∙ g)
            ∙ ap scan
                (sym (if_pos (InstanceId_discrete k i) p (some m) (lookup InstanceId_discrete i l)))
        | no p ↦
            ih
            ∙ scan_of-other now self_id pt st i s' s
                (get-probe_member_other now self_id pt st m i s (λ q. p (sym e ∙ q)))
                (lookup InstanceId_discrete i l)
            ∙ ap scan
                (sym (if_neg (InstanceId_discrete k i) p (some m) (lookup InstanceId_discrete i l)))
      ]

  -- If every member stands under its own identifier: a round of the probe loop does to each member
  -- what the scan says of its record, whatever the other members are, and nothing to the instance
  -- itself.
  pub get-probe_round :
      (now : ℕ) (self_id : InstanceId) (probe_timeout_ms suspect_timeout_secs : ℕ) (i : InstanceId)
      (members : M)
      → IsKeyed members
      → get d i (probe_round d now self_id probe_timeout_ms suspect_timeout_secs members)
        ≡ probed now self_id probe_timeout_ms
            (suspect_timeout_ms suspect_timeout_secs)
            i
            (get d i members)
  unfolding probe_round all_members get
  get-probe_round now self_id pt st i s k =
      get-probe_all now self_id pt (suspect_timeout_ms st) i (d.entries s) s (d.entries-Distinct s)
        (λ j m p. (sym (d.lookup-entries j s) ∙ p, k j m (sym (d.lookup-entries j s) ∙ p)))
      ∙ scan_of_lem now self_id pt (suspect_timeout_ms st) i s
          (lookup InstanceId_discrete i (d.entries s)) (d.lookup-entries i s)
