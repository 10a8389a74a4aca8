-- ===== src/Metadata/CkfProducer/History.antt =====
-- The filter of a pool after any sequence of events and publications.
use hier_kv_gateway.Prelude.{
  ℕ, ◌+◌, ◌≤◌, ◌≡◌, refl, ap, ◌∙◌, Bool, true, false, not, ◌||◌, ◌&&◌, some, List, [], ◌∷◌, arith,
  ℕ_discrete, dec→Bool, length, ltb,
}
use hier_kv_gateway.Ids.{BackendId, BackendId_discrete}
use hier_kv_gateway.HashMap.{lookup}
use hier_kv_gateway.HashMap.Sums.{sum_keys}
use hier_kv_gateway.HashSet.{contains}
use hier_kv_gateway.Core.KvEvent.{
  KvCacheEvent, stored_event, removed_event, clear_event, reset_event,
}
use hier_kv_gateway.Metadata.CuckooFilter.{alt_index, probe, slot, bucket_contains}
use hier_kv_gateway.Metadata.CuckooFilter.Slots.{slot_count, bucket_contains-slot_count}
use hier_kv_gateway.Metadata.CuckooFilter.Alternate.{probe-lt}
use hier_kv_gateway.Metadata.CkfProducer.{
  CkfProducer, HashEntry, with_seed, apply_stored, stored_all, removed_all, apply_removed,
  reset_internal, apply_event, snapshot, delta, delta_of,
}
use hier_kv_gateway.Metadata.CkfProducer.Buckets.{pair_count}
use hier_kv_gateway.Metadata.CkfProducer.Exact.{one, pair_count-pos}
use hier_kv_gateway.Metadata.CkfProducer.Owners.{
  owns, IsTracked, IsSynced, apply_clear-IsTracked, apply_clear-IsSynced,
}
use hier_kv_gateway.Metadata.CkfProducer.Events.{
  Fits, apply_stored-IsTracked, apply_removed-IsTracked, apply_stored-IsSynced,
  apply_removed-IsSynced,
}
use hier_kv_gateway.Metadata.CkfProducer.Dirty.{apply_all}
use hier_kv_gateway.Metadata.CkfProducer.Relation.{
  apply_stored-owns, apply_removed-owns, apply_clear-owns,
}

-- The pairs after an event, from those before.
unfoldable pub pairs_after :
    KvCacheEvent → BackendId → (ℕ → BackendId → Bool) → ℕ → BackendId → Bool
pairs_after (stored_event worker hashes parent tokens) b r k v =
    r k v || (contains ℕ_discrete k hashes && dec→Bool (BackendId_discrete b v))
pairs_after (removed_event worker hashes) b r k v =
    r k v && not (contains ℕ_discrete k hashes && dec→Bool (BackendId_discrete b v))
pairs_after (clear_event worker) b r k v = r k v && not (dec→Bool (BackendId_discrete b v))
pairs_after (reset_event worker generation) b r k v = false

slot_count_zero : (x : ℕ) → 1 ≤ x → slot_count 0 x ≡ 0
unfolding slot_count slot
slot_count_zero x h = ground (arith, h)

-- The pairs after several events.
abbrev pub pairs_all :
    List (KvCacheEvent × BackendId) → (ℕ → BackendId → Bool) → ℕ → BackendId → Bool
pairs_all [] r = r
pairs_all ((e, b) ∷ evs) r = pairs_all evs (pairs_after e b r)

module _ (xxh3 : List ℕ → ℕ → ℕ) where
  -- Every first storing among these finds room for its fingerprint.
  abbrev pub AllFit : CkfProducer → List ℕ → BackendId → Type 0
  AllFit p [] b = Unit
  AllFit p (h ∷ hs) b = Fits xxh3 p h b × AllFit (apply_stored xxh3 p h b) hs b

  abbrev pub EventFits : CkfProducer → KvCacheEvent → BackendId → Type 0
  EventFits p (stored_event worker hashes parent tokens) b = AllFit p hashes b
  EventFits p (removed_event worker hashes) b = Unit
  EventFits p (clear_event worker) b = Unit
  EventFits p (reset_event worker generation) b = Unit

  -- The states that events and publications lead to. `sort` is the order of a delta.
  pub data Reached (sort : List (ℕ × ℕ) → List (ℕ × ℕ)) : CkfProducer → Type 0 where
    started : (seed : ℕ) → Reached sort (with_seed seed)
    received :
        (p : CkfProducer) (e : KvCacheEvent) (b : BackendId)
        → Reached sort p
        → EventFits p e b
        → Reached sort (apply_event xxh3 p e b)
    snapshot_taken : (p : CkfProducer) → Reached sort p → Reached sort (snapshot p).0
    delta_taken : (p : CkfProducer) → Reached sort p → Reached sort (delta sort p).0

  stored_all-IsSynced :
      (p : CkfProducer) (hs : List ℕ) (b : BackendId)
      → IsSynced xxh3 p
      → AllFit p hs b
      → IsSynced xxh3 (stored_all xxh3 p hs b)
  unfolding stored_all
  stored_all-IsSynced p [] b i f = i
  stored_all-IsSynced p (h ∷ hs) b i (f, fs) =
      stored_all-IsSynced (apply_stored xxh3 p h b) hs b (apply_stored-IsSynced xxh3 p h b i f) fs

  removed_all-IsSynced :
      (p : CkfProducer) (hs : List ℕ) (b : BackendId)
      → IsSynced xxh3 p
      → IsSynced xxh3 (removed_all xxh3 p hs b)
  unfolding removed_all
  removed_all-IsSynced p [] b i = i
  removed_all-IsSynced p (h ∷ hs) b i =
      removed_all-IsSynced (apply_removed xxh3 p h b) hs b (apply_removed-IsSynced xxh3 p h b i)

  empty-IsSynced :
      (p : CkfProducer)
      → IsSynced xxh3 (record p {
        buckets = λ i. 0;
        num_items = 0;
        dirty_buckets = [];
        hash_refcount = [];
        worker_hashes = [];
      })
  unfolding IsSynced lookup contains sum_keys pair_count
  empty-IsSynced p = (
    ((λ h w. refl), (λ w. tt), ((λ h e l. ground (arith, l)), tt)),
    ((λ i. omega arith), (λ a x ha hx. omega (arith, slot_count_zero x hx)), refl),
  )

  pub apply_event-IsSynced :
      (p : CkfProducer) (e : KvCacheEvent) (b : BackendId)
      → IsSynced xxh3 p
      → EventFits p e b
      → IsSynced xxh3 (apply_event xxh3 p e b)
  unfolding apply_event reset_internal
  apply_event-IsSynced p (stored_event worker hashes parent tokens) b i f =
      stored_all-IsSynced p hashes b i f
  apply_event-IsSynced p (removed_event worker hashes) b i f = removed_all-IsSynced p hashes b i
  apply_event-IsSynced p (clear_event worker) b i f = apply_clear-IsSynced xxh3 p b i
  apply_event-IsSynced p (reset_event worker generation) b i f = empty-IsSynced p

  delta_of-IsSynced :
      (sort : List (ℕ × ℕ) → List (ℕ × ℕ)) (p : CkfProducer) (d : List ℕ)
      → IsSynced xxh3 p
      → IsSynced xxh3 (delta_of sort p d).0
  unfolding IsSynced
  delta_of-IsSynced sort p [] i = i
  delta_of-IsSynced sort p (j ∷ d) i = i

  -- In every state that is reached, the tables and the fingerprints agree.
  pub Reached-IsSynced :
      (sort : List (ℕ × ℕ) → List (ℕ × ℕ)) (p : CkfProducer) → Reached sort p → IsSynced xxh3 p
  unfolding snapshot delta IsSynced
  Reached-IsSynced sort _ (started seed) = empty-IsSynced (with_seed seed)
  Reached-IsSynced sort _ (received p e b r f) =
      apply_event-IsSynced p e b (Reached-IsSynced sort p r) f
  Reached-IsSynced sort _ (snapshot_taken p r) = Reached-IsSynced sort p r
  Reached-IsSynced sort _ (delta_taken p r) =
      delta_of-IsSynced sort p p.dirty_buckets (Reached-IsSynced sort p r)

  found : (s t : ℕ) → 1 ≤ s + t → (ltb 0 s || ltb 0 t) ≡ true
  found s t h = ground (arith, h)

  -- In every state that events and publications lead to, while every first storing of a hash finds
  -- room, each tracked hash is found by its fingerprint in one of its two buckets.
  pub tracked_found :
      (sort : List (ℕ × ℕ) → List (ℕ × ℕ)) (p : CkfProducer) (h : ℕ) (e : HashEntry)
      → Reached sort p
      → lookup ℕ_discrete h p.hash_refcount ≡ some e
      → (bucket_contains (p.buckets (probe xxh3 h).1) (probe xxh3 h).0
          || bucket_contains
              (p.buckets (alt_index xxh3 (probe xxh3 h).1 (probe xxh3 h).0))
              (probe xxh3 h).0)
        ≡ true
  unfolding IsSynced pair_count
  tracked_found sort p h e r l =
      let fp = (probe xxh3 h).0 in
      let a = (probe xxh3 h).1 in
      let b = alt_index xxh3 a fp in
      let (t, x) = Reached-IsSynced sort p r in
      ap (λ y. y || bucket_contains (p.buckets b) fp)
        (bucket_contains-slot_count (p.buckets a) fp (x.0 a) (probe-lt xxh3 h).1)
      ∙ ap (λ y. ltb 0 (slot_count (p.buckets a) fp) || y)
          (bucket_contains-slot_count (p.buckets b) fp (x.0 b) (probe-lt xxh3 h).1)
      ∙ found (slot_count (p.buckets a) fp) (slot_count (p.buckets b) fp)
          (pair_count-pos xxh3 p h e x l)

  sum_one : (r : List (ℕ × HashEntry)) → sum_keys (one xxh3) r ≡ length r
  unfolding sum_keys
  sum_one [] = refl
  sum_one ((h, e) ∷ r) = omega (arith, sum_one r)

  -- In the same states, the number of items is the number of tracked hashes.
  pub num_items_lem :
      (sort : List (ℕ × ℕ) → List (ℕ × ℕ)) (p : CkfProducer)
      → Reached sort p
      → p.num_items ≡ length p.hash_refcount
  unfolding IsSynced
  num_items_lem sort p r = (Reached-IsSynced sort p r).1.2 ∙ sum_one p.hash_refcount

  stored_all-owns :
      (p : CkfProducer) (hs : List ℕ) (b : BackendId) (k : ℕ) (v : BackendId)
      → IsTracked p
      → IsTracked (stored_all xxh3 p hs b)
        × (owns (stored_all xxh3 p hs b) k v
            ≡ (owns p k v || (contains ℕ_discrete k hs && dec→Bool (BackendId_discrete b v))))
  unfolding stored_all contains
  stored_all-owns p [] b k v t = (t, ground arith)
  stored_all-owns p (h ∷ hs) b k v t =
      let (t', e) =
        stored_all-owns (apply_stored xxh3 p h b) hs b k v (apply_stored-IsTracked xxh3 p h b t) in
      (t', e ∙ ground (arith, apply_stored-owns xxh3 p h b k v t))

  removed_all-owns :
      (p : CkfProducer) (hs : List ℕ) (b : BackendId) (k : ℕ) (v : BackendId)
      → IsTracked p
      → IsTracked (removed_all xxh3 p hs b)
        × (owns (removed_all xxh3 p hs b) k v
            ≡ (owns p k v && not (contains ℕ_discrete k hs && dec→Bool (BackendId_discrete b v))))
  unfolding removed_all contains
  removed_all-owns p [] b k v t = (t, ground arith)
  removed_all-owns p (h ∷ hs) b k v t =
      let (t', e) =
        removed_all-owns (apply_removed xxh3 p h b) hs b k v
          (apply_removed-IsTracked xxh3 p h b t) in
      (t', e ∙ ground (arith, apply_removed-owns xxh3 p h b k v t))

  empty-IsTracked : (p : CkfProducer) → p.hash_refcount ≡ [] → p.worker_hashes ≡ [] → IsTracked p
  unfolding lookup contains
  empty-IsTracked p e f = rw (e, f) ((λ h w. refl), (λ w. tt), ((λ h e l. ground (arith, l)), tt))

  event-owns :
      (p : CkfProducer) (e : KvCacheEvent) (b : BackendId) (k : ℕ) (v : BackendId)
      → IsTracked p
      → IsTracked (apply_event xxh3 p e b)
        × (owns (apply_event xxh3 p e b) k v ≡ pairs_after e b (owns p) k v)
  unfolding apply_event reset_internal pairs_after owns lookup contains
  event-owns p (stored_event worker hashes parent tokens) b k v t = stored_all-owns p hashes b k v t
  event-owns p (removed_event worker hashes) b k v t = removed_all-owns p hashes b k v t
  event-owns p (clear_event worker) b k v t =
      (apply_clear-IsTracked xxh3 p b t, apply_clear-owns xxh3 p b k v t)
  event-owns p (reset_event worker generation) b k v t =
      (empty-IsTracked (reset_internal xxh3 p) refl refl, refl)

  pairs_after-same :
      (e : KvCacheEvent) (b : BackendId) (r s : ℕ → BackendId → Bool) (k : ℕ) (v : BackendId)
      → r k v ≡ s k v
      → pairs_after e b r k v ≡ pairs_after e b s k v
  unfolding pairs_after
  pairs_after-same (stored_event worker hashes parent tokens) b r s k v h = ground (arith, h)
  pairs_after-same (removed_event worker hashes) b r s k v h = ground (arith, h)
  pairs_after-same (clear_event worker) b r s k v h = ground (arith, h)
  pairs_after-same (reset_event worker generation) b r s k v h = refl

  pairs_all-same :
      (evs : List (KvCacheEvent × BackendId)) (r s : ℕ → BackendId → Bool) (k : ℕ) (v : BackendId)
      → r k v ≡ s k v
      → pairs_all evs r k v ≡ pairs_all evs s k v
  pairs_all-same [] r s k v h = h
  pairs_all-same ((e, b) ∷ evs) r s k v h =
      pairs_all-same evs (pairs_after e b r) (pairs_after e b s) k v
        (pairs_after-same e b r s k v h)

  events-owns :
      (p : CkfProducer) (evs : List (KvCacheEvent × BackendId)) (k : ℕ) (v : BackendId)
      → IsTracked p
      → owns (apply_all xxh3 p evs) k v ≡ pairs_all evs (owns p) k v
  unfolding apply_all
  events-owns p [] k v t = refl
  events-owns p ((e, b) ∷ evs) k v t =
      let (t', q) = event-owns p e b k v t in
      events-owns (apply_event xxh3 p e b) evs k v t'
      ∙ pairs_all-same evs (owns (apply_event xxh3 p e b)) (pairs_after e b (owns p)) k v q

  -- On a new producer, after any events of any backends, whether or not their fingerprints find room:
  -- the owners of every hash are those that the events, one after the other, add and take. A storing
  -- adds the backend to the hashes that it names, a removal takes it from them, a clear takes it from
  -- every hash and no other backend from any, and a reset takes all.
  pub apply_event-owns :
      (seed : ℕ) (evs : List (KvCacheEvent × BackendId)) (k : ℕ) (v : BackendId)
      → owns (apply_all xxh3 (with_seed seed) evs) k v ≡ pairs_all evs (λ h w. false) k v
  unfolding owns lookup contains
  apply_event-owns seed evs k v =
      events-owns (with_seed seed) evs k v (empty-IsTracked (with_seed seed) refl refl)
      ∙ pairs_all-same evs (owns (with_seed seed)) (λ h w. false) k v refl
