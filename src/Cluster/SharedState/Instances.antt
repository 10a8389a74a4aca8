-- ===== src/Cluster/SharedState/Instances.antt =====
-- Listings show exactly what has not expired.
use hier_kv_gateway.Prelude.{
  ℕ, ◌<◌, ◌≡◌, refl, none, some, List, [], ◌∷◌, arith, ℕ_discrete, String, map, In, Distinct, inl,
  inr, sym, subst,
}
use hier_kv_gateway.HashMap.{lookup, keys}
use hier_kv_gateway.Ids.{
  BackendId, BackendId_discrete, InstanceId, InstanceId_discrete, SessionId_discrete,
  String_discrete,
}
use hier_kv_gateway.Interface.DashMap.{DashMap}
use hier_kv_gateway.Cluster.SharedState.{
  InstanceEntry, PrefixDispatchEntry, LocalSharedState, register_instance, heartbeat,
  list_instances, metrics_get, metrics_get_all, expiry_at, live, unexpired,
}

module _ {K V : Type 0} (dec : Discrete K) where
  lookup_absent : (k : K) (m : List (K × V)) → ¬ In k (keys m) → lookup dec k m ≡ none
  unfolding lookup
  lookup_absent k [] a = refl
  lookup_absent k ((j, v) ∷ m) a = elim (dec j k) [
    | yes p ↦ absurd (a (inl (sym p)))
    | no p ↦ ground (arith, lookup_absent k m (λ i. a (inr i)))
  ]

module _ {K V : Type 0} (dec : Discrete K) where
  lookup-live :
      (now : ℕ) (k : K) (m : List (K × (V × ℕ)))
      → Distinct (keys m)
      → lookup dec k (live now m) ≡ unexpired now (lookup dec k m)
  unfolding lookup live
  lookup-live now k [] d = refl
  lookup-live now k ((j, (v, expiry)) ∷ m) d = elim (dec j k) [
    | yes p ↦
        ground (
          arith,
          lookup-live now k m d.1,
          lookup_absent dec k m (subst (λ i. ¬ In i (keys m)) p d.0),
        )
    | no p ↦ ground (arith, lookup-live now k m d.1)
  ]

  In-lookup : (k : K) (m : List (K × V)) (v : V) → lookup dec k m ≡ some v → In v (map (λ e. e.1) m)
  unfolding lookup
  In-lookup k [] v h = cc
  In-lookup k ((j, w) ∷ m) v h = elim (dec j k) [
    | yes p ↦ inl (ground arith)
    | no p ↦ inr (In-lookup k m v (ground arith))
  ]

module _ {I S P L B Metrics : Type 0} (di : DashMap I InstanceId_discrete (InstanceEntry × ℕ))
    (ds : DashMap S SessionId_discrete (BackendId × ℕ))
    (dp : DashMap P ℕ_discrete (PrefixDispatchEntry × ℕ))
    (dl : DashMap L String_discrete (String × ℕ)) (db : DashMap B BackendId_discrete (Metrics × ℕ))
    (s : LocalSharedState I S P L B) (now : ℕ) where
  -- `metrics_get_all` has for each backend what `metrics_get` returns for it at the same time.
  pub lookup-metrics_get_all :
      (backend : BackendId)
      → lookup BackendId_discrete backend (metrics_get_all di ds dp dl db now s)
        ≡ (metrics_get di ds dp dl db now s backend).1
  unfolding metrics_get_all metrics_get
  lookup-metrics_get_all backend = ground (
    arith,
    lookup-live BackendId_discrete now backend (db.entries s.metrics)
        (db.entries-Distinct s.metrics),
    db.lookup-entries backend s.metrics,
  )

  instance-heartbeat :
      (s' : LocalSharedState I S P L B) (id : InstanceId) (entry : InstanceEntry)
      (expiry beat ttl : ℕ)
      → di.get id s'.instances ≡ some (entry, expiry)
      → di.get id (heartbeat di ds dp dl db beat s' id ttl).instances
        ≡ some (record entry { last_heartbeat_unix = beat }, expiry_at beat ttl)
  unfolding heartbeat
  instance-heartbeat s' id entry expiry beat ttl h = ground (
    arith,
    di.get-insert id id (record entry { last_heartbeat_unix = beat }, expiry_at beat ttl)
        s'.instances,
  )

  instance-register :
      (entry : InstanceEntry) (t t' ttl : ℕ)
      → di.get entry.instance_id (register_instance di ds dp dl db t t' s entry ttl).instances
        ≡ some (record entry { last_heartbeat_unix = t' }, expiry_at t ttl)
  unfolding register_instance
  instance-register entry t t' ttl = ground (
    arith,
    di.get-insert entry.instance_id entry.instance_id
        (record entry { last_heartbeat_unix = t' }, expiry_at t ttl) s.instances,
  )

  listed :
      (s' : LocalSharedState I S P L B) (id : InstanceId) (entry : InstanceEntry) (expiry : ℕ)
      → di.get id s'.instances ≡ some (entry, expiry)
      → now < expiry
      → In entry (list_instances di ds dp dl db now s')
  unfolding list_instances
  listed s' id entry expiry h before =
      In-lookup InstanceId_discrete id (live now (di.entries s'.instances)) entry (
        ground (
          arith,
          lookup-live InstanceId_discrete now id (di.entries s'.instances)
              (di.entries-Distinct s'.instances),
          di.lookup-entries id s'.instances,
        ))

  -- An instance that has registered, and sent a heartbeat since, is listed until the time to live
  -- of the heartbeat has passed, with the time of the heartbeat, however old its registration is.
  pub list_instances-heartbeat :
      (entry : InstanceEntry) (registered registered' ttl beat ttl' : ℕ)
      → now < expiry_at beat ttl'
      → In
          (record entry { last_heartbeat_unix = beat })
          (list_instances di ds dp dl db now (
            heartbeat di ds dp dl db beat
              (register_instance di ds dp dl db registered registered' s entry ttl)
              entry.instance_id
              ttl'))
  list_instances-heartbeat entry registered registered' ttl beat ttl' before =
      let s' = register_instance di ds dp dl db registered registered' s entry ttl in
      listed (heartbeat di ds dp dl db beat s' entry.instance_id ttl') entry.instance_id
        (record entry { last_heartbeat_unix = beat }) (expiry_at beat ttl')
        (instance-heartbeat s' entry.instance_id
          (record entry { last_heartbeat_unix = registered' }) (expiry_at registered ttl) beat ttl'
          (instance-register entry registered registered' ttl))
        before
