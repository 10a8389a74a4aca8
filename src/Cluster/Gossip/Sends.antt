-- ===== src/Cluster/Gossip/Sends.antt =====
-- What a gossip task sends, and the two ways to handle a message.
use hier_kv_gateway.Prelude.{
  ℕ, zero, suc, ◌≤◌, ◌≡◌, ◌≢◌, refl, ap, ◌∙◌, Bool, true, false, List, [], ◌∷◌, map, take, keep,
  length, In, arith, inl, inr, dec→Bool, not, subst, Bool-cases,
}
use hier_kv_gateway.Ids.{InstanceId, InstanceId_discrete}
use hier_kv_gateway.Interface.DashMap.{DashMap}
use hier_kv_gateway.Cluster.Messages.{
  ClusterMessage, Outgoing, sent_to, ping, pong, meet, sync_request, sync_response,
  ckf_barrier_snapshot, ckf_delta, metrics_broadcast, topology_update, session_affinity_broadcast,
}
use hier_kv_gateway.Cluster.Member.{ClusterMember, alive_members}
use hier_kv_gateway.Cluster.Gossip.{GossipHandler, gossip_round, targets}
use hier_kv_gateway.Cluster.Gossip.Engine.{GossipEngine, dispatch_message, handle_message}

-- What is used of the shuffle: it adds no element.
abbrev pub AddsNothing : (List ClusterMember → List ClusterMember) → Type 0
AddsNothing shuffle = (m : ClusterMember) (l : List ClusterMember) → In m (shuffle l) → In m l

length-take-le : {A : Type 0} (n : ℕ) (l : List A) → length (take n l) ≤ n
length-take-le zero l = omega arith
length-take-le (suc n) [] = omega arith
length-take-le (suc n) (x ∷ l) = omega (arith, length-take-le n l)

In-take : {A : Type 0} (n : ℕ) (l : List A) (y : A) → In y (take n l) → In y l
In-take zero l y i = absurd i
In-take (suc n) [] y i = absurd i
In-take (suc n) (x ∷ l) y (inl e) = inl e
In-take (suc n) (x ∷ l) y (inr i) = inr (In-take n l y i)

length-map : {A B : Type 0} (f : A → B) (l : List A) → length (map f l) ≡ length l
length-map f [] = refl
length-map f (x ∷ l) = omega (arith, length-map f l)

In-map :
    {A B : Type 0} (f : A → B) (l : List A) (y : B) → In y (map f l) → (x : A) × In x l × (y ≡ f x)
In-map f [] y i = absurd i
In-map f (x ∷ l) y (inl e) = (x, inl refl, e)
In-map f (x ∷ l) y (inr i) = let (z, j, e) = In-map f l y i in (z, inr j, e)

length-targets-le :
    (shuffle : List ClusterMember → List ClusterMember) (n : ℕ) (l : List ClusterMember)
    → length (targets shuffle n l) ≤ n
length-targets-le shuffle n [] = omega arith
length-targets-le shuffle n (m ∷ ms) = length-take-le n (shuffle (m ∷ ms))

In-targets :
    (shuffle : List ClusterMember → List ClusterMember) (n : ℕ) (l : List ClusterMember)
    (m : ClusterMember)
    → AddsNothing shuffle
    → In m (targets shuffle n l)
    → In m l
In-targets shuffle n [] m a i = absurd i
In-targets shuffle n (k ∷ l) m a i = a m (k ∷ l) (In-take n (shuffle (k ∷ l)) m i)

module _ {A : Type 0} (p : A → Bool) where
  keep_kept : (y : A) (l : List A) → p y ≡ true → keep p (y ∷ l) ≡ y ∷ keep p l
  keep_kept y l h = ground (arith, h)

  keep_left_out : (y : A) (l : List A) → p y ≡ false → keep p (y ∷ l) ≡ keep p l
  keep_left_out y l h = ground (arith, h)

  In-keep : (x : A) (l : List A) → In x (keep p l) → In x l × (p x ≡ true)
  In-keep x [] i = absurd i
  In-keep x (y ∷ l) i = elim (Bool-cases (p y)) [
    | inl h ↦ elim (subst (λ z. In x z) (keep_kept y l h) i) [
      | inl e ↦ (inl e, ap p e ∙ h)
      | inr j ↦ (let (k, q) = In-keep x l j in (inr k, q))
    ]
    | inr h ↦ (let (k, q) = In-keep x l (subst (λ z. In x z) (keep_left_out y l h) i) in (inr k, q))
  ]

module _ {F J M H : Type 0} (d : DashMap M InstanceId_discrete ClusterMember)
    (g : GossipHandler F J H) where
  -- `handle_message` makes the same of the members and of the handler's state as `dispatch_message`,
  -- and sends the same messages.
  pub handle_message_lem :
      (now : ℕ) (msg : ClusterMessage F J) (e : GossipEngine M H)
      → let r = dispatch_message d g now e.self_id e.self_region msg e.members e.handler in
        handle_message d g now msg e ≡ (record e { members = r.0; handler = r.1 }, r.2)
  unfolding handle_message dispatch_message
  handle_message_lem now (ping sender region digest timestamp) e = refl
  handle_message_lem now (pong sender region digest timestamp) e = refl
  handle_message_lem now (meet sender region addr) e = refl
  handle_message_lem now (sync_request sender keys) e = refl
  handle_message_lem now (sync_response entries) e = refl
  handle_message_lem now (metrics_broadcast region payload) e = refl
  handle_message_lem now (ckf_barrier_snapshot pool sequence buckets n) e = refl
  handle_message_lem now (ckf_delta pool sequence prev dirty) e = refl
  handle_message_lem now (topology_update from to estimate) e = refl
  handle_message_lem now (session_affinity_broadcast session region instance) e = refl

  -- If the shuffle adds nothing, a round sends at most `fanout` messages, and each of them is a
  -- ping to the address of an alive member other than the instance itself. The region that it
  -- carries beside the instance's own identifier is the region of the member that it goes to.
  pub gossip_round_lem :
      (shuffle : List ClusterMember → List ClusterMember) (now : ℕ) (self_id : InstanceId)
      (fanout : ℕ) (members : M) (handler : H)
      → AddsNothing shuffle
      → let sent = gossip_round d g shuffle now self_id fanout members handler in
        (length sent ≤ fanout)
        × ((o : Outgoing F J)
            → In o sent
            → (m : ClusterMember) × In m (alive_members d members)
              × (m.instance_id ≢ self_id)
              × (o ≡ sent_to m.addr (ping self_id m.region (g.current_meta_digest handler) now)))
  unfolding gossip_round
  gossip_round_lem shuffle now self_id fanout members handler a =
      let is_other =
        λ (m : ClusterMember). not (dec→Bool (InstanceId_discrete m.instance_id self_id)) in
      let others = keep is_other (alive_members d members) in
      let send : ClusterMember → Outgoing F J =
        λ m. sent_to m.addr (ping self_id m.region (g.current_meta_digest handler) now) in
      (
        omega (
          arith,
          length-map send (targets shuffle fanout others),
          length-targets-le shuffle fanout others,
        ),
        λ o i.
            let (m, j, e) = In-map send (targets shuffle fanout others) o i in
            let (k, q) =
              In-keep is_other m (alive_members d members)
                (In-targets shuffle fanout others m a j) in
            (m, k, (λ p. ground (arith, p, q)), e),
      )
