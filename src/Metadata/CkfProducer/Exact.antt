-- ===== src/Metadata/CkfProducer/Exact.antt =====
-- The fingerprints in the buckets are those of the tracked hashes, one for each.
use hier_kv_gateway.Prelude.{
  ℕ, ◌+◌, ◌-◌, ◌≤◌, ◌<◌, ◌≡◌, refl, sym, ap, ◌∙◌, Bool, true, false, none, some, List, arith, ◌⊎◌,
  inl, inr, ℕ_discrete, if◌then◌else◌, ◌==◌,
}
use hier_kv_gateway.Ids.{BackendId}
use hier_kv_gateway.HashMap.{lookup, insert, remove}
use hier_kv_gateway.HashMap.Sums.{
  sum_keys, sum_keys-insert_new, sum_keys-insert_old, sum_keys-remove, sum_keys-ge,
}
use hier_kv_gateway.Metadata.CuckooFilter.{probe}
use hier_kv_gateway.Metadata.CuckooFilter.Slots.{one_if}
use hier_kv_gateway.Metadata.CuckooFilter.Alternate.{probe-lt}
use hier_kv_gateway.Metadata.CkfProducer.{
  CkfProducer, HashEntry, tracked, delete_fingerprint, release,
}
use hier_kv_gateway.Metadata.CkfProducer.Buckets.{IsPacked, pair_count, share}
use hier_kv_gateway.Metadata.CkfProducer.Fingerprints.{Inserted, Deleted, delete_fingerprint-cases}
use hier_kv_gateway.Metadata.CkfProducer.Tracking.{IsTable, left_by, released}

module _ (xxh3 : List ℕ → ℕ → ℕ) where
  -- What the fingerprint of a hash adds to the pair of `a` for `x`.
  abbrev pub part : ℕ → ℕ → ℕ → ℕ
  part a x h = share xxh3 (probe xxh3 h).1 a x (one_if ((probe xxh3 h).0 == x))

  abbrev pub one : ℕ → ℕ
  one h = 1

  abbrev pub IsExact : CkfProducer → Type 0
  IsExact p =
      IsPacked p.buckets
      × ((a x : ℕ)
          → a < 65536
          → 0 < x
          → pair_count xxh3 p.buckets a x ≡ sum_keys (part a x) p.hash_refcount)
      × (p.num_items ≡ sum_keys one p.hash_refcount)

  pub tracked-IsExact :
      (p : CkfProducer) (h : ℕ) (w : BackendId) (e : HashEntry)
      → IsExact p
      → lookup ℕ_discrete h p.hash_refcount ≡ some e
      → IsExact (tracked p h w e)
  tracked-IsExact p h w e (k, c, n) l = (
    k,
    λ a x ha hx.
        c a x ha hx ∙ sym (sum_keys-insert_old ℕ_discrete (part a x) h _ e p.hash_refcount l),
    n ∙ sym (sum_keys-insert_old ℕ_discrete one h _ e p.hash_refcount l),
  )

  pub Inserted-IsExact :
      (p q : CkfProducer) (h : ℕ) (w : BackendId) (e : HashEntry)
      → IsExact p
      → lookup ℕ_discrete h p.hash_refcount ≡ none
      → Inserted xxh3 (tracked p h w e) q (probe xxh3 h).1 (probe xxh3 h).0
      → IsExact q
  Inserted-IsExact p q h w e (k, c, n) l (k', g, m, n', r, s) = (
    k',
    λ a x ha hx.
        g a x ha hx
        ∙ ap (λ t. t + part a x h) (c a x ha hx)
        ∙ sym (sum_keys-insert_new ℕ_discrete (part a x) h _ p.hash_refcount l)
        ∙ ap (λ t. sum_keys (part a x) t) (sym r),
    n'
        ∙ ap (λ t. t + 1) n
        ∙ sym (sum_keys-insert_new ℕ_discrete one h _ p.hash_refcount l)
        ∙ ap (λ t. sum_keys one t) (sym r),
  )

  -- The bucket of a tracked hash and its alternate hold its fingerprint.
  part_self : (h : ℕ) → 1 ≤ part (probe xxh3 h).1 (probe xxh3 h).0 h
  part_self h = ground arith

  pub pair_count-pos :
      (p : CkfProducer) (h : ℕ) (e : HashEntry)
      → IsExact p
      → lookup ℕ_discrete h p.hash_refcount ≡ some e
      → 1 ≤ pair_count xxh3 p.buckets (probe xxh3 h).1 (probe xxh3 h).0
  pair_count-pos p h e (k, c, n) l =
      let a = (probe xxh3 h).1 in
      let x = (probe xxh3 h).0 in
      omega (
        arith,
        c a x (probe-lt xxh3 h).2 (probe-lt xxh3 h).0,
        sum_keys-ge ℕ_discrete (part a x) h e p.hash_refcount l,
        part_self h,
      )

  Deleted-IsExact :
      (p q : CkfProducer) (h : ℕ) (e : HashEntry)
      → IsExact p
      → IsTable p.hash_refcount
      → lookup ℕ_discrete h p.hash_refcount ≡ some e
      → Deleted xxh3 p q (probe xxh3 h).1 (probe xxh3 h).0
      → IsExact (record q { hash_refcount = remove ℕ_discrete h q.hash_refcount })
  Deleted-IsExact p q h e (k, c, n) t l (k', g, m, n', r, s) = (
    k',
    λ a x ha hx. omega (
      arith,
      c a x ha hx,
      g a x ha hx,
      ap (λ u. sum_keys (part a x) (remove ℕ_discrete h u)) r,
      sum_keys-remove ℕ_discrete (part a x) h e p.hash_refcount t.1 l,
    ),
    omega (
      arith,
      n,
      n',
      ap (λ u. sum_keys one (remove ℕ_discrete h u)) r,
      sum_keys-remove ℕ_discrete one h e p.hash_refcount t.1 l,
    ),
  )

  left_by-IsExact :
      (p : CkfProducer) (h : ℕ) (e : HashEntry) (w : BackendId)
      → IsExact p
      → lookup ℕ_discrete h p.hash_refcount ≡ some e
      → IsExact (record p { hash_refcount = insert ℕ_discrete h (left_by w e) p.hash_refcount })
  left_by-IsExact p h e w (k, c, n) l = (
    k,
    λ a x ha hx.
        c a x ha hx ∙ sym (sum_keys-insert_old ℕ_discrete (part a x) h _ e p.hash_refcount l),
    n ∙ sym (sum_keys-insert_old ℕ_discrete one h _ e p.hash_refcount l),
  )

  abbrev pub Released : CkfProducer → CkfProducer → List (ℕ × HashEntry) → Type 0
  Released p q r = IsExact q × (q.hash_refcount ≡ r) × (q.worker_hashes ≡ p.worker_hashes)

  Released-if :
      (p q q' : CkfProducer) (r r' : List (ℕ × HashEntry)) (b : Bool)
      → Released p q r
      → Released p q' r'
      → Released p (if b then q else q') (if b then r else r')
  Released-if p q q' r r' true x y = x
  Released-if p q q' r r' false x y = y

  Deleted-Released :
      (p q : CkfProducer) (h : ℕ) (e : HashEntry)
      → IsExact p
      → IsTable p.hash_refcount
      → lookup ℕ_discrete h p.hash_refcount ≡ some e
      → ((pair_count xxh3 p.buckets (probe xxh3 h).1 (probe xxh3 h).0 ≡ 0) × (q ≡ p))
        ⊎ Deleted xxh3 p q (probe xxh3 h).1 (probe xxh3 h).0
      → Released p
          (record q { hash_refcount = remove ℕ_discrete h q.hash_refcount })
          (remove ℕ_discrete h p.hash_refcount)
  Deleted-Released p q h e x t l (inl (z, _)) = absurd (omega (arith, z, pair_count-pos p h e x l))
  Deleted-Released p q h e x t l (inr (k, g, m, n, r, s)) =
      (Deleted-IsExact p q h e x t l (k, g, m, n, r, s), ap (λ u. remove ℕ_discrete h u) r, s)

  -- The tables after the release, and the fingerprints.
  pub release_lem :
      (p : CkfProducer) (h : ℕ) (e : HashEntry) (w : BackendId)
      → IsExact p
      → IsTable p.hash_refcount
      → lookup ℕ_discrete h p.hash_refcount ≡ some e
      → Released p (release xxh3 p h e w) (released p.hash_refcount h e w)
  unfolding release
  release_lem p h e w x t l =
      Released-if p _ _ _ _ (e.refcount - 1 == 0)
        (Deleted-Released p (delete_fingerprint xxh3 p h) h e x t l
          (delete_fingerprint-cases xxh3 p h x.0))
        (left_by-IsExact p h e w x l, refl, refl)
