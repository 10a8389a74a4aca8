-- ===== src/Metadata/CkfProducer/Fingerprints.antt =====
-- `insert_fingerprint` and `delete_fingerprint`, on the fingerprints of every pair of buckets.
use hier_kv_gateway.Prelude.{
  ℕ, ◌+◌, ◌-◌, ◌%◌, ◌^◌, ◌<◌, ◌≡◌, ◌≢◌, refl, ap, ◌∙◌, subst, Bool, true, false, ◌||◌, Option, List,
  [], ◌∷◌, arith, if◌then◌else◌, ◌==◌, ◌⊎◌, inl, inr, ℕ_discrete,
}
use hier_kv_gateway.HashSet.{contains, set_insert, contains-set_insert}
use hier_kv_gateway.Metadata.CuckooFilter.{alt_index, probe, max_kicks}
use hier_kv_gateway.Metadata.CuckooFilter.Slots.{
  one_if, slot_count, try_insert-cases, try_delete-cases,
}
use hier_kv_gateway.Metadata.CuckooFilter.Alternate.{alt_index-lt, probe-lt}
use hier_kv_gateway.Metadata.CkfProducer.{
  CkfProducer, set_bucket, mark_all, roll_back, next_random, kicks, insert_by_kicks,
  insert_fingerprint, inserted_at, delete_fingerprint, deleted_at,
}
use hier_kv_gateway.Metadata.CkfProducer.Buckets.{
  IsPacked, set_bucket-IsPacked, pair_count, set_bucket-pair_count, share-alt_index, Gained,
  was_touched, set_bucket-Gained, kicks-cases,
}

-- A bucket that is not marked is as it was, and was not marked.
abbrev pub Marked : CkfProducer → CkfProducer → Type 0
Marked p q =
    (j : ℕ)
    → contains ℕ_discrete j q.dirty_buckets ≡ false
    → (q.buckets j ≡ p.buckets j) × (contains ℕ_discrete j p.dirty_buckets ≡ false)

contains-mark_all :
    (j : ℕ) (t : List (ℕ × ℕ)) (d : List ℕ)
    → contains ℕ_discrete j (mark_all t d) ≡ (was_touched j t || contains ℕ_discrete j d)
unfolding mark_all contains
contains-mark_all j [] d = refl
contains-mark_all j ((i, b) ∷ t) d =
    contains-mark_all j t (set_insert ℕ_discrete i d)
    ∙ ground (arith, contains-set_insert ℕ_discrete j i d)

set_bucket-Marked :
    (buckets : ℕ → ℕ) (i v j : ℕ) (d : List ℕ)
    → contains ℕ_discrete j (set_insert ℕ_discrete i d) ≡ false
    → (set_bucket buckets i v j ≡ buckets j) × (contains ℕ_discrete j d ≡ false)
set_bucket-Marked buckets i v j d h = (
  ground (arith, contains-set_insert ℕ_discrete j i d, h),
  ground (arith, contains-set_insert ℕ_discrete j i d, h),
)

module _ (xxh3 : List ℕ → ℕ → ℕ) where
  -- What a successful insertion of `fp` in bucket `a` or its alternate has done.
  abbrev pub Inserted : CkfProducer → CkfProducer → ℕ → ℕ → Type 0
  Inserted p q a fp =
      IsPacked q.buckets
      × Gained xxh3 p.buckets q.buckets a fp
      × Marked p q
      × (q.num_items ≡ p.num_items + 1)
      × (q.hash_refcount ≡ p.hash_refcount)
      × (q.worker_hashes ≡ p.worker_hashes)

  Gained-alt :
      (before after : ℕ → ℕ) (a fp : ℕ)
      → a < 65536
      → Gained xxh3 before after (alt_index xxh3 a fp) fp
      → Gained xxh3 before after a fp
  Gained-alt before after a fp ha g c x hc hx =
      omega (arith, g c x hc hx, share-alt_index xxh3 a c fp x ha hc)

  -- A failure changes the generator alone.
  abbrev pub InsertCases : CkfProducer → ℕ → ℕ → CkfProducer × Bool → Type 0
  InsertCases p a fp r =
      ((r.1 ≡ false) × (r.0 ≡ record p { rng_state = r.0.rng_state }))
      ⊎ ((r.1 ≡ true) × Inserted p r.0 a fp)

  kicked :
      (p : CkfProducer) (fp a first i : ℕ) (t : List (ℕ × ℕ))
      (r : (ℕ → ℕ) × ℕ × Option (ℕ × List (ℕ × ℕ)))
      → first ≡ a ⊎ first ≡ alt_index xxh3 a fp
      → a < 65536
      → IsPacked r.0
      → Gained xxh3 p.buckets r.0 first fp
      → ((j : ℕ)
          → i ≢ j
          → was_touched j t ≡ false
          → (r.0 j ≡ p.buckets j) × (was_touched j [] ≡ false))
      → Inserted p
          (record p {
            buckets = r.0;
            rng_state = r.1;
            dirty_buckets = mark_all t (set_insert ℕ_discrete i p.dirty_buckets);
            num_items = p.num_items + 1;
          })
          a
          fp
  kicked p fp a first i t r f ha k g u = (k, gained f g, marked, refl, refl, refl)
    where
      gained :
          first ≡ a ⊎ first ≡ alt_index xxh3 a fp
          → Gained xxh3 p.buckets r.0 first fp
          → Gained xxh3 p.buckets r.0 a fp
      gained (inl e) g = subst (λ c. Gained xxh3 p.buckets r.0 c fp) e g
      gained (inr e) g =
          Gained-alt p.buckets r.0 a fp ha (subst (λ c. Gained xxh3 p.buckets r.0 c fp) e g)

      marked :
          (j : ℕ)
          → contains ℕ_discrete j (mark_all t (set_insert ℕ_discrete i p.dirty_buckets)) ≡ false
          → (r.0 j ≡ p.buckets j) × (contains ℕ_discrete j p.dirty_buckets ≡ false)
      marked j h =
          let m = contains-mark_all j t (set_insert ℕ_discrete i p.dirty_buckets) in
          let s = contains-set_insert ℕ_discrete j i p.dirty_buckets in
          ((u j (ground (arith, m, s, h)) (ground (arith, m, s, h))).0, ground (arith, m, s, h))

  insert_by_kicks-cases :
      (p : CkfProducer) (fp a : ℕ)
      → IsPacked p.buckets
      → a < 65536
      → fp < 2 ^ 16
      → InsertCases p a fp (insert_by_kicks xxh3 p fp a (alt_index xxh3 a fp))
  unfolding insert_by_kicks roll_back
  insert_by_kicks-cases p fp a hp ha hf =
      elim (kicks-cases xxh3 max_kicks p.buckets random.1 first fp [] hp (first-lt first-cases)
        hf) [
          | inl (q, b) ↦
              rw (insert_by_kicks, q)
                (inl (refl, ap (λ t. record p { buckets = t; rng_state = r.1 }) b))
          | inr (i, t, q, k, g, u) ↦
              rw (insert_by_kicks, q) (inr (refl, kicked p fp a first i t r first-cases ha k g u))
        ]
    where
      random : ℕ × ℕ
      random = next_random p.rng_state

      first : ℕ
      first = if random.0 % 2 == 0 then a else alt_index xxh3 a fp

      r : (ℕ → ℕ) × ℕ × Option (ℕ × List (ℕ × ℕ))
      r = kicks xxh3 max_kicks p.buckets random.1 first fp []

      first-cases : first ≡ a ⊎ first ≡ alt_index xxh3 a fp
      first-cases = ground arith

      first-lt : first ≡ a ⊎ first ≡ alt_index xxh3 a fp → first < 65536
      first-lt (inl e) = omega arith
      first-lt (inr e) = omega (arith, alt_index-lt xxh3 a fp)

  inserted_at-Inserted :
      (p : CkfProducer) (i v fp : ℕ)
      → IsPacked p.buckets
      → v < 2 ^ 64
      → ((x : ℕ) → 0 < x → slot_count v x ≡ slot_count (p.buckets i) x + one_if (fp == x))
      → Inserted p (inserted_at xxh3 p i v) i fp
  inserted_at-Inserted p i v fp hp hv g = (
    set_bucket-IsPacked p.buckets i v hp hv,
    set_bucket-Gained xxh3 p.buckets i v fp g,
    λ j h. set_bucket-Marked p.buckets i v j p.dirty_buckets h,
    refl,
    refl,
    refl,
  )

  Inserted-alt :
      (p q : CkfProducer) (a fp : ℕ)
      → a < 65536
      → Inserted p q (alt_index xxh3 a fp) fp
      → Inserted p q a fp
  Inserted-alt p q a fp ha (k, g, m, n, r, w) =
      (k, Gained-alt p.buckets q.buckets a fp ha g, m, n, r, w)

  -- An insertion that fails changes the generator alone. One that succeeds leaves 64-bit buckets,
  -- adds one to the number of items and one occurrence of the fingerprint to its pair of buckets, no
  -- other pair of a bucket and a fingerprint gains or loses any, and every bucket that it changes is
  -- marked as changed; the tables of owners stay.
  pub insert_fingerprint-cases :
      (p : CkfProducer) (hash : ℕ)
      → IsPacked p.buckets
      → InsertCases p (probe xxh3 hash).1 (probe xxh3 hash).0 (insert_fingerprint xxh3 p hash)
  unfolding insert_fingerprint
  insert_fingerprint-cases p hash hp =
      let fp = (probe xxh3 hash).0 in
      let a = (probe xxh3 hash).1 in
      let b = alt_index xxh3 a fp in
      let bound = probe-lt xxh3 hash in
      elim (try_insert-cases (p.buckets a) fp (hp a) bound.1) [
        | inr (v, q, hv, g) ↦
            rw (insert_fingerprint, q) (inr (refl, inserted_at-Inserted p a v fp hp hv g))
        | inl (q, z) ↦ elim (try_insert-cases (p.buckets b) fp (hp b) bound.1) [
          | inr (v, q', hv, g) ↦
              rw (insert_fingerprint, q, q')
                (inr (
                  refl,
                  Inserted-alt p (inserted_at xxh3 p b v) a fp bound.2
                      (inserted_at-Inserted p b v fp hp hv g),
                ))
          | inl (q', z') ↦
              rw (insert_fingerprint, q, q') (insert_by_kicks-cases p fp a hp bound.2 bound.1)
        ]
      ]

  -- What a deletion of `fp` from bucket `a` or its alternate has done.
  abbrev pub Deleted : CkfProducer → CkfProducer → ℕ → ℕ → Type 0
  Deleted p q a fp =
      IsPacked q.buckets
      × Gained xxh3 q.buckets p.buckets a fp
      × Marked p q
      × (q.num_items ≡ p.num_items - 1)
      × (q.hash_refcount ≡ p.hash_refcount)
      × (q.worker_hashes ≡ p.worker_hashes)

  lost :
      (buckets : ℕ → ℕ) (c v fp : ℕ)
      → ((x : ℕ) → 0 < x → slot_count v x + one_if (fp == x) ≡ slot_count (buckets c) x)
      → Gained xxh3 (set_bucket buckets c v) buckets c fp
  lost buckets c v fp g a x ha hx = ground (
    arith,
    set_bucket-pair_count xxh3 buckets c v a x (one_if (fp == x)) 0 (omega (arith, g x hx)),
  )

  deleted_at-Deleted :
      (p : CkfProducer) (i v fp : ℕ)
      → IsPacked p.buckets
      → v < 2 ^ 64
      → ((x : ℕ) → 0 < x → slot_count v x + one_if (fp == x) ≡ slot_count (p.buckets i) x)
      → Deleted p (deleted_at xxh3 p i v) i fp
  deleted_at-Deleted p i v fp hp hv g = (
    set_bucket-IsPacked p.buckets i v hp hv,
    lost p.buckets i v fp g,
    λ j h. set_bucket-Marked p.buckets i v j p.dirty_buckets h,
    refl,
    refl,
    refl,
  )

  Deleted-alt :
      (p q : CkfProducer) (a fp : ℕ)
      → a < 65536
      → Deleted p q (alt_index xxh3 a fp) fp
      → Deleted p q a fp
  Deleted-alt p q a fp ha (k, g, m, n, r, w) =
      (k, Gained-alt q.buckets p.buckets a fp ha g, m, n, r, w)

  -- A deletion changes nothing if neither bucket holds the fingerprint, and otherwise takes one
  -- occurrence of it from its pair of buckets and from no other pair of a bucket and a fingerprint.
  pub delete_fingerprint-cases :
      (p : CkfProducer) (hash : ℕ)
      → IsPacked p.buckets
      → ((pair_count xxh3 p.buckets (probe xxh3 hash).1 (probe xxh3 hash).0 ≡ 0)
          × (delete_fingerprint xxh3 p hash ≡ p))
        ⊎ Deleted p (delete_fingerprint xxh3 p hash) (probe xxh3 hash).1 (probe xxh3 hash).0
  unfolding delete_fingerprint pair_count
  delete_fingerprint-cases p hash hp =
      let fp = (probe xxh3 hash).0 in
      let a = (probe xxh3 hash).1 in
      let b = alt_index xxh3 a fp in
      let bound = probe-lt xxh3 hash in
      elim (try_delete-cases (p.buckets a) fp (hp a)) [
        | inr (v, q, hv, g) ↦ rw (delete_fingerprint, q) (inr (deleted_at-Deleted p a v fp hp hv g))
        | inl (q, z) ↦ elim (try_delete-cases (p.buckets b) fp (hp b)) [
          | inr (v, q', hv, g) ↦
              rw (delete_fingerprint, q, q')
                (inr (
                  Deleted-alt p (deleted_at xxh3 p b v) a fp bound.2
                    (deleted_at-Deleted p b v fp hp hv g)))
          | inl (q', z') ↦ rw (delete_fingerprint, q, q') (inl (omega (arith, z, z'), refl))
        ]
      ]
