-- ===== src/Cluster/Member/History.antt =====
-- The member list under any sequence of calls.
use hier_kv_gateway.Prelude.{
  ℕ, ◌≡◌, refl, Option, none, some, List, [], ◌∷◌, ite, arith, Option-cases, inl, inr, ap,
}
use hier_kv_gateway.Ids.{InstanceId, InstanceId_discrete}
use hier_kv_gateway.Interface.DashMap.{DashMap}
use hier_kv_gateway.Cluster.Member.{
  ClusterMember, MemberStatus, alive, suspect, dead, MetaDigest, upsert, modify, update_pong,
  mark_suspect, mark_dead, get, remove,
}

pub data MemberCall : Type 0 where
  upserted : ClusterMember → MemberCall
  ponged : ℕ → InstanceId → MetaDigest → MemberCall
  marked_suspect : InstanceId → MemberCall
  marked_dead : InstanceId → MemberCall
  removed_member : InstanceId → MemberCall

-- The change of one member's record: the specification, a machine per instance.
abbrev pub altered : (ClusterMember → ClusterMember) → Option ClusterMember → Option ClusterMember
altered f none = none
altered f (some m) = some (f m)

abbrev pub answered : ℕ → MetaDigest → Option ClusterMember → Option ClusterMember
answered now digest o =
    altered (λ m. record m { last_pong_unix = now; status = alive; meta_digest = digest }) o

abbrev pub marked : MemberStatus → Option ClusterMember → Option ClusterMember
marked s o = altered (λ m. record m { status = s }) o

unfoldable pub member_step : InstanceId → MemberCall → Option ClusterMember → Option ClusterMember
member_step i (upserted m) o = ite (InstanceId_discrete m.instance_id i) (some m) o
member_step i (ponged now j digest) o = ite (InstanceId_discrete j i) (answered now digest o) o
member_step i (marked_suspect j) o = ite (InstanceId_discrete j i) (marked suspect o) o
member_step i (marked_dead j) o = ite (InstanceId_discrete j i) (marked dead o) o
member_step i (removed_member j) o = ite (InstanceId_discrete j i) none o

unfoldable pub member_steps :
    InstanceId → List MemberCall → Option ClusterMember → Option ClusterMember
unfolding member_step
member_steps i [] o = o
member_steps i (c ∷ cs) o = member_steps i cs (member_step i c o)

module _ {M : Type 0} (d : DashMap M InstanceId_discrete ClusterMember) where
  unfoldable pub member_call : MemberCall → M → M
  member_call (upserted m) s = upsert d m s
  member_call (ponged now j digest) s = update_pong d now j digest s
  member_call (marked_suspect j) s = mark_suspect d j s
  member_call (marked_dead j) s = mark_dead d j s
  member_call (removed_member j) s = (remove d j s).0

  unfoldable pub member_calls : List MemberCall → M → M
  member_calls [] s = s
  member_calls (c ∷ cs) s = member_calls cs (member_call c s)

  pub get-modify :
      (f : ClusterMember → ClusterMember) (i j : InstanceId) (s : M)
      → d.get i (modify d f j s) ≡ ite (InstanceId_discrete j i) (altered f (d.get i s)) (d.get i s)
  unfolding modify
  get-modify f i j s = elim (Option-cases (d.get j s)) [
    | inl e ↦ elim (InstanceId_discrete j i) [
      | yes p ↦ ground (arith, e, ap (λ k. d.get k s) p)
      | no p ↦ ground (arith, e)
    ]
    | inr (m, e) ↦ elim (InstanceId_discrete j i) [
      | yes p ↦ ground (arith, e, ap (λ k. d.get k s) p, d.get-insert j i (f m) s)
      | no p ↦ ground (arith, e, d.get-insert j i (f m) s)
    ]
  ]

  get-member_call :
      (i : InstanceId) (c : MemberCall) (s : M)
      → get d i (member_call c s) ≡ member_step i c (get d i s)
  unfolding get member_call member_step upsert update_pong mark_suspect mark_dead remove
  get-member_call i (upserted m) s = d.get-insert m.instance_id i m s
  get-member_call i (ponged now j digest) s = get-modify _ i j s
  get-member_call i (marked_suspect j) s = get-modify _ i j s
  get-member_call i (marked_dead j) s = get-modify _ i j s
  get-member_call i (removed_member j) s = d.get-remove j i s

  -- Whatever calls are made on the list, the record of each instance is what the calls that name
  -- this instance make of it, one after the other: members do not influence each other.
  pub get-member_calls :
      (i : InstanceId) (cs : List MemberCall) (s : M)
      → get d i (member_calls cs s) ≡ member_steps i cs (get d i s)
  unfolding member_calls member_steps
  get-member_calls i [] s = refl
  get-member_calls i (c ∷ cs) s =
      rw (← get-member_call i c s) (get-member_calls i cs (member_call c s))
