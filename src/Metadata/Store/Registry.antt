-- ===== src/Metadata/Store/Registry.antt =====
-- The backends that the store lists, after any registrations and removals.
use hier_kv_gateway.Prelude.{
  ◌≡◌, ◌∙◌, subst, some, List, [], ◌∷◌, In, arith, Option-cases, inl, inr, All, ◌↔◌,
}
use hier_kv_gateway.Ids.{
  BackendId, BackendId_discrete, RegionId, RegionId_discrete, IndexerDomainId,
  IndexerDomainId_discrete, SessionId_discrete,
}
use hier_kv_gateway.HashMap.{lookup}
use hier_kv_gateway.Interface.DashMap.{DashMap}
use hier_kv_gateway.Core.Backend.{BackendInfo, ModelInstance}
use hier_kv_gateway.Core.Metrics.{BackendMetrics}
use hier_kv_gateway.Metadata.LoadStats.{RingBuffer}
use hier_kv_gateway.Metadata.RoutingHistory.{SessionAffinity}
use hier_kv_gateway.Metadata.Store.{
  MetadataStore, new, register_backend, unregister_backend, backend_get, backends_by_region,
  backends_by_domain, listed,
}
use hier_kv_gateway.Metadata.Store.Listing.{
  IsComplete, IsSound, push_to-IsComplete, drop_from-IsComplete, push_to-IsSound, drop_from-IsSound,
  remove_absent-IsComplete, remove_absent-IsSound,
}

pub data StoreCall : Type 0 where
  registered : BackendInfo → StoreCall
  unregistered : BackendId → StoreCall

-- A registration is under the home of its backend.
abbrev pub IsAtHome : (BackendId → RegionId) → (BackendId → IndexerDomainId) → StoreCall → Type 0
IsAtHome region_of domain_of (registered info) =
    (info.region ≡ region_of info.id) × (info.indexer_domain ≡ domain_of info.id)
IsAtHome region_of domain_of (unregistered b) = Unit

module _ {F A L R S B : Type 0} (da : DashMap A BackendId_discrete (List ModelInstance))
    (dl : DashMap L BackendId_discrete (BackendMetrics F))
    (dr : DashMap R BackendId_discrete (RingBuffer (BackendMetrics F)))
    (ds : DashMap S SessionId_discrete SessionAffinity)
    (db : DashMap B BackendId_discrete BackendInfo) where
  abbrev Store : Type 0
  Store = MetadataStore F A L R S B

  unfoldable pub store_call : StoreCall → Store → Store
  store_call (registered info) s = register_backend da dl dr ds db info s
  store_call (unregistered b) s = unregister_backend da dl dr ds db b s

  unfoldable pub store_calls : List StoreCall → Store → Store
  unfolding store_call
  store_calls [] s = s
  store_calls (c ∷ cs) s = store_calls cs (store_call c s)

  module _ (region_of : BackendId → RegionId) (domain_of : BackendId → IndexerDomainId) where
    abbrev AreComplete : Store → Type 0
    AreComplete s =
        IsComplete RegionId_discrete (λ i. i.region) region_of db s.backends s.by_region
        × IsComplete IndexerDomainId_discrete (λ i. i.indexer_domain) domain_of db s.backends
            s.by_domain

    abbrev AreSound : Store → Type 0
    AreSound s =
        IsSound RegionId_discrete (λ i. i.region) region_of db s.backends s.by_region
        × IsSound IndexerDomainId_discrete (λ i. i.indexer_domain) domain_of db s.backends
            s.by_domain

    store_call-AreComplete :
        (c : StoreCall) (s : Store) → AreComplete s → AreComplete (store_call c s)
    unfolding store_call register_backend unregister_backend
    store_call-AreComplete (registered info) s (x, y) = (
      push_to-IsComplete RegionId_discrete (λ i. i.region) region_of db info s.backends s.by_region
          x,
      push_to-IsComplete IndexerDomainId_discrete (λ i. i.indexer_domain) domain_of db info
          s.backends s.by_domain y,
    )
    store_call-AreComplete (unregistered b) s (x, y) = elim (Option-cases (db.get b s.backends)) [
      | inl e ↦ rw e (
        remove_absent-IsComplete RegionId_discrete (λ i. i.region) region_of db b s.backends
            s.by_region e x,
        remove_absent-IsComplete IndexerDomainId_discrete (λ i. i.indexer_domain) domain_of db b
            s.backends s.by_domain e y,
      )
      | inr (info, e) ↦ rw e (
        drop_from-IsComplete RegionId_discrete (λ i. i.region) region_of db b info s.backends
            s.by_region e x,
        drop_from-IsComplete IndexerDomainId_discrete (λ i. i.indexer_domain) domain_of db b info
            s.backends s.by_domain e y,
      )
    ]

    store_call-AreSound :
        (c : StoreCall) (s : Store)
        → IsAtHome region_of domain_of c
        → AreComplete s
        → AreSound s
        → AreSound (store_call c s)
    unfolding store_call register_backend unregister_backend
    store_call-AreSound (registered info) s (p, q) c (x, y) = (
      push_to-IsSound RegionId_discrete (λ i. i.region) region_of db info s.backends s.by_region p
          x,
      push_to-IsSound IndexerDomainId_discrete (λ i. i.indexer_domain) domain_of db info s.backends
          s.by_domain q y,
    )
    store_call-AreSound (unregistered b) s h c (x, y) = elim (Option-cases (db.get b s.backends)) [
      | inl e ↦ rw e (
        remove_absent-IsSound RegionId_discrete (λ i. i.region) region_of db b s.backends
            s.by_region e x,
        remove_absent-IsSound IndexerDomainId_discrete (λ i. i.indexer_domain) domain_of db b
            s.backends s.by_domain e y,
      )
      | inr (info, e) ↦ rw e (
        drop_from-IsSound RegionId_discrete (λ i. i.region) region_of db b info s.backends
            s.by_region e (c.0 b info e).0 x,
        drop_from-IsSound IndexerDomainId_discrete (λ i. i.indexer_domain) domain_of db b info
            s.backends s.by_domain e (c.0 b info e).0 y,
      )
    ]

    store_calls-AreComplete :
        (cs : List StoreCall) (s : Store) → AreComplete s → AreComplete (store_calls cs s)
    unfolding store_calls
    store_calls-AreComplete [] s h = h
    store_calls-AreComplete (c ∷ cs) s h =
        store_calls-AreComplete cs (store_call c s) (store_call-AreComplete c s h)

    store_calls-AreSound :
        (cs : List StoreCall) (s : Store)
        → All (IsAtHome region_of domain_of) cs
        → AreComplete s
        → AreSound s
        → AreSound (store_calls cs s)
    unfolding store_calls
    store_calls-AreSound [] s a h k = k
    store_calls-AreSound (c ∷ cs) s (a, as_home) h k =
        store_calls-AreSound cs (store_call c s) as_home (store_call-AreComplete c s h)
          (store_call-AreSound c s a h k)

    new-AreComplete : AreComplete (new da dl dr ds db)
    unfolding new
    new-AreComplete =
        (λ b i e. ground (arith, e, db.get-empty b), λ b i e. ground (arith, e, db.get-empty b))

    new-AreSound : AreSound (new da dl dr ds db)
    unfolding new lookup
    new-AreSound = (
      (λ b i e. ground (arith, e, db.get-empty b), λ b k i. absurd i),
      (λ b i e. ground (arith, e, db.get-empty b), λ b k i. absurd i),
    )

  -- After any registrations and removals on a new store, in any order: a backend that is registered
  -- stands in the list of the region and in that of the domain of its information.
  pub registered_listed :
      (cs : List StoreCall) (b : BackendId) (info : BackendInfo)
      → backend_get da dl dr ds db b (store_calls cs (new da dl dr ds db)) ≡ some info
      → let s = store_calls cs (new da dl dr ds db) in
        In b (backends_by_region da dl dr ds db info.region s)
        × In b (backends_by_domain da dl dr ds db info.indexer_domain s)
  unfolding backend_get backends_by_region backends_by_domain
  registered_listed cs b info e =
      let region_of : BackendId → RegionId = λ c. info.region in
      let domain_of : BackendId → IndexerDomainId = λ c. info.indexer_domain in
      let (x, y) =
        store_calls-AreComplete region_of domain_of cs (new da dl dr ds db)
          (new-AreComplete region_of domain_of) in
      ((x b info e).1, (y b info e).1)

  -- After any registrations and removals on a new store, where all registrations of a backend name
  -- the same region and the same domain: the list of a region holds a backend exactly if the backend
  -- is registered and the region is its own, and so for the lists of the domains.
  pub listed_iff :
      (region_of : BackendId → RegionId) (domain_of : BackendId → IndexerDomainId)
      (cs : List StoreCall) (b : BackendId) (region : RegionId) (domain : IndexerDomainId)
      → All (IsAtHome region_of domain_of) cs
      → let s = store_calls cs (new da dl dr ds db) in
        (In b (backends_by_region da dl dr ds db region s) ↔ (
          (info : BackendInfo) × (backend_get da dl dr ds db b s ≡ some info)
          × (info.region ≡ region)))
        × (In b (backends_by_domain da dl dr ds db domain s) ↔ (
            (info : BackendInfo) × (backend_get da dl dr ds db b s ≡ some info)
            × (info.indexer_domain ≡ domain)))
  unfolding backend_get backends_by_region backends_by_domain
  listed_iff region_of domain_of cs b region domain a =
      let s = store_calls cs (new da dl dr ds db) in
      let base = new-AreComplete region_of domain_of in
      let (x, y) = store_calls-AreComplete region_of domain_of cs (new da dl dr ds db) base in
      let (u, v) =
        store_calls-AreSound region_of domain_of cs (new da dl dr ds db) a base
          (new-AreSound region_of domain_of) in
      (
        (
          λ i. (let (info, e, h) = u.1 b region i in (info, e, u.0 b info e ∙ h)),
          λ w. subst (λ r. In b (listed RegionId_discrete r s.by_region)) w.2 (x b w.0 w.1).1,
        ),
        (
          λ i. (let (info, e, h) = v.1 b domain i in (info, e, v.0 b info e ∙ h)),
          λ w.
              subst (λ r. In b (listed IndexerDomainId_discrete r s.by_domain)) w.2 (y b w.0 w.1).1,
        ),
      )
