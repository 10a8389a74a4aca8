-- ===== src/Metadata/CkfProducer/Events.antt =====
-- Storings and removals of a hash.
use hier_kv_gateway.Prelude.{
  ℕ, ◌≡◌, ◌≢◌, refl, sym, ap, ◌∙◌, subst, Bool, true, false, Option, none, some, List, [], ◌∷◌,
  arith, ◌⊎◌, inl, inr, ℕ_discrete, ite, length, if◌then◌else◌,
}
use hier_kv_gateway.Ids.{BackendId, BackendId_discrete}
use hier_kv_gateway.HashMap.{lookup, insert}
use hier_kv_gateway.HashSet.{contains, set_remove}
use hier_kv_gateway.Metadata.CuckooFilter.{probe}
use hier_kv_gateway.Metadata.CkfProducer.{
  CkfProducer, HashEntry, or_default, or_empty, tracked, insert_fingerprint, release, apply_stored,
  apply_removed,
}
use hier_kv_gateway.Metadata.CkfProducer.Fingerprints.{InsertCases, insert_fingerprint-cases}
use hier_kv_gateway.Metadata.CkfProducer.Tracking.{
  IsTable, IsEntry, AreTracked, owners_in, hashes_of, hashes_of-insert, tracked-AreTracked,
}
use hier_kv_gateway.Metadata.CkfProducer.Exact.{
  IsExact, tracked-IsExact, Inserted-IsExact, release_lem,
}
use hier_kv_gateway.Metadata.CkfProducer.Owners.{IsTracked, IsSynced, release-AreTracked}
use hier_kv_gateway.Metadata.CkfProducer.Tables.{release_tables, insert_fingerprint-SameTables}

-- The three ways through `apply_stored`.
pub branches :
    {A B : Type 0} (b : Bool) (l : List B) (x y z : A)
    → ((b ≡ true) × ((if b then x else elim l [ [] ↦ y | o ∷ os ↦ z ]) ≡ x))
      ⊎ ((b ≡ false) × (l ≡ []) × ((if b then x else elim l [ [] ↦ y | o ∷ os ↦ z ]) ≡ y))
      ⊎ ((b ≡ false) × (l ≢ []) × ((if b then x else elim l [ [] ↦ y | o ∷ os ↦ z ]) ≡ z))
branches true l x y z = inl (refl, refl)
branches false [] x y z = inr (inl (refl, refl, refl))
branches false (o ∷ os) x y z = inr (inr (refl, (λ e. ground (arith, e)), refl))

no_entry :
    (o : Option HashEntry)
    → ((e : HashEntry) → o ≡ some e → IsEntry e)
    → (or_default o).owners ≡ []
    → o ≡ none
no_entry none t h = refl
no_entry (some e) t h = absurd (omega (arith, (t e refl).0, (t e refl).2, ap length h))

an_entry : (o : Option HashEntry) → (or_default o).owners ≢ [] → (e : HashEntry) × (o ≡ some e)
an_entry none h = absurd (h refl)
an_entry (some e) h = (e, refl)

module _ (xxh3 : List ℕ → ℕ → ℕ) where
  abbrev pub with_owner : CkfProducer → ℕ → BackendId → CkfProducer
  with_owner p h w = tracked p h w (or_default (lookup ℕ_discrete h p.hash_refcount))

  -- A hash without an owner finds room for its fingerprint.
  abbrev pub Fits : CkfProducer → ℕ → BackendId → Type 0
  Fits p h w =
      owners_in p.hash_refcount h ≡ [] → (insert_fingerprint xxh3 (with_owner p h w) h).1 ≡ true

  IsSynced-of :
      (p q : CkfProducer)
      → AreTracked (hashes_of p) p.hash_refcount
      → q.hash_refcount ≡ p.hash_refcount
      → q.worker_hashes ≡ p.worker_hashes
      → IsExact xxh3 q
      → IsSynced xxh3 q
  unfolding IsSynced
  IsSynced-of p q t r s x = (
    subst (λ r. AreTracked (hashes_of q) r) (sym r)
        (subst (λ m. AreTracked (λ v. or_empty (lookup BackendId_discrete v m)) p.hash_refcount)
          (sym s) t),
    x,
  )

  first_stored :
      (p : CkfProducer) (h : ℕ) (w : BackendId)
      → AreTracked (hashes_of (with_owner p h w)) (with_owner p h w).hash_refcount
      → IsExact xxh3 p
      → lookup ℕ_discrete h p.hash_refcount ≡ none
      → (insert_fingerprint xxh3 (with_owner p h w) h).1 ≡ true
      → InsertCases xxh3
          (with_owner p h w)
          (probe xxh3 h).1
          (probe xxh3 h).0
          (insert_fingerprint xxh3 (with_owner p h w) h)
      → IsSynced xxh3 (insert_fingerprint xxh3 (with_owner p h w) h).0
  first_stored p h w t x l f (inl (n, _)) = ground (arith, n, f)
  first_stored p h w t x l f (inr (_, (k, g, m, n, r, s))) =
      IsSynced-of (with_owner p h w) (insert_fingerprint xxh3 (with_owner p h w) h).0 t r s (
        Inserted-IsExact xxh3 p (insert_fingerprint xxh3 (with_owner p h w) h).0 h w
          (or_default (lookup ℕ_discrete h p.hash_refcount)) x l (k, g, m, n, r, s))

  -- A storing keeps the tables and the fingerprints in agreement, if a first one finds room.
  pub apply_stored-IsSynced :
      (p : CkfProducer) (h : ℕ) (w : BackendId)
      → IsSynced xxh3 p
      → Fits p h w
      → IsSynced xxh3 (apply_stored xxh3 p h w)
  unfolding apply_stored IsSynced
  apply_stored-IsSynced p h w (t, x) f =
      elim (branches (contains BackendId_discrete w (owners_in p.hash_refcount h))
        (owners_in p.hash_refcount h) p (insert_fingerprint xxh3 (with_owner p h w) h).0
        (with_owner p h w)) [
          | inl (_, e) ↦ subst (IsSynced xxh3) (sym e) (t, x)
          | inr (inl (c, n, e)) ↦ subst (IsSynced xxh3) (sym e) (
              first_stored p h w (tracked-AreTracked p h w t c) x
                (no_entry (lookup ℕ_discrete h p.hash_refcount) (t.2.0 h) n) (f n)
                (insert_fingerprint-cases xxh3 (with_owner p h w) h x.0))
          | inr (inr (c, n, e)) ↦
              let (d, l) = an_entry (lookup ℕ_discrete h p.hash_refcount) n in
              subst (IsSynced xxh3) (sym e) (
                tracked-AreTracked p h w t c,
                tracked-IsExact xxh3 p h w (or_default (lookup ℕ_discrete h p.hash_refcount)) x
                    (l ∙ ap (λ o. some (or_default o)) (sym l)),
              )
        ]

  -- The hashes of the backend that releases have been dropped already.
  release-IsTracked :
      (p : CkfProducer) (h : ℕ) (e : HashEntry) (w : BackendId) (hashes : BackendId → List ℕ)
      → AreTracked hashes p.hash_refcount
      → lookup ℕ_discrete h p.hash_refcount ≡ some e
      → contains BackendId_discrete w e.owners ≡ true
      → ((v : BackendId)
          → hashes_of p v
            ≡ ite (BackendId_discrete w v) (set_remove ℕ_discrete h (hashes w)) (hashes v))
      → IsTracked (release xxh3 p h e w)
  release-IsTracked p h e w hashes t l c same =
      subst
        (λ m.
          AreTracked (λ v. or_empty (lookup BackendId_discrete v m))
            (release xxh3 p h e w).hash_refcount)
        (sym (release_tables xxh3 p h e w).1)
        (release-AreTracked xxh3 p h e w hashes (hashes_of p) t l c same)

  unfoldable pub dropped : CkfProducer → ℕ → BackendId → Option (List ℕ) → CkfProducer
  dropped p h w o = elim o [
    | none ↦ p
    | some s ↦ record p {
      worker_hashes = insert BackendId_discrete w (set_remove ℕ_discrete h s) p.worker_hashes;
    }
  ]

  dropped-IsTracked :
      (p : CkfProducer) (h : ℕ) (e : HashEntry) (w : BackendId) (o : Option (List ℕ))
      → lookup BackendId_discrete w p.worker_hashes ≡ o
      → IsTracked p
      → lookup ℕ_discrete h p.hash_refcount ≡ some e
      → contains BackendId_discrete w e.owners ≡ true
      → IsTracked (release xxh3 (dropped p h w o) h e w)
  unfolding dropped set_remove
  dropped-IsTracked p h e w none k t l c =
      release-IsTracked p h e w (hashes_of p) t l c (λ v. same v (BackendId_discrete w v))
    where
      same :
          (v : BackendId) (q : Dec (w ≡ v))
          → hashes_of p v ≡ ite q (set_remove ℕ_discrete h (hashes_of p w)) (hashes_of p v)
      same v (yes q) =
          ap (λ u. hashes_of p u) (sym q)
          ∙ ap or_empty k
          ∙ sym (ap (λ u. set_remove ℕ_discrete h (or_empty u)) k)
      same v (no q) = refl
  dropped-IsTracked p h e w (some s) k t l c =
      release-IsTracked
        (record p {
          worker_hashes = insert BackendId_discrete w (set_remove ℕ_discrete h s) p.worker_hashes;
        })
        h e w (hashes_of p) t l c
        (λ v.
          hashes_of-insert v w (set_remove ℕ_discrete h s) p.worker_hashes
          ∙ ap
              (λ u.
                ite (BackendId_discrete w v) (set_remove ℕ_discrete h (or_empty u)) (hashes_of p v))
              (sym k))

  unfoldable pub removed_by : CkfProducer → ℕ → BackendId → Option HashEntry → CkfProducer
  removed_by p h w o = elim o [
    | none ↦ p
    | some e ↦
        if contains BackendId_discrete w e.owners
        then release xxh3 (dropped p h w (lookup BackendId_discrete w p.worker_hashes)) h e w
        else p
  ]

  -- A storing keeps the tables in agreement, whether or not the fingerprint finds room.
  pub apply_stored-IsTracked :
      (p : CkfProducer) (h : ℕ) (w : BackendId) → IsTracked p → IsTracked (apply_stored xxh3 p h w)
  unfolding apply_stored
  apply_stored-IsTracked p h w t =
      elim (branches (contains BackendId_discrete w (owners_in p.hash_refcount h))
        (owners_in p.hash_refcount h) p (insert_fingerprint xxh3 (with_owner p h w) h).0
        (with_owner p h w)) [
          | inl (_, e) ↦ subst IsTracked (sym e) t
          | inr (inl (c, n, e)) ↦
              let (r, s) = insert_fingerprint-SameTables xxh3 (with_owner p h w) h in
              subst IsTracked (sym e) (
                subst
                  (λ r. AreTracked (hashes_of (insert_fingerprint xxh3 (with_owner p h w) h).0) r)
                  (sym r)
                  (subst
                    (λ m.
                      AreTracked (λ v. or_empty (lookup BackendId_discrete v m))
                        (with_owner p h w).hash_refcount)
                    (sym s) (tracked-AreTracked p h w t c)))
          | inr (inr (c, n, e)) ↦ subst IsTracked (sym e) (tracked-AreTracked p h w t c)
        ]

  pub apply_removed-IsTracked :
      (p : CkfProducer) (h : ℕ) (w : BackendId) → IsTracked p → IsTracked (apply_removed xxh3 p h w)
  unfolding apply_removed removed_by dropped
  apply_removed-IsTracked p h w t = branch (lookup ℕ_discrete h p.hash_refcount) refl
    where
      decided :
          (e : HashEntry) (b : Bool)
          → lookup ℕ_discrete h p.hash_refcount ≡ some e
          → contains BackendId_discrete w e.owners ≡ b
          → IsTracked (
              if b
              then release xxh3 (dropped p h w (lookup BackendId_discrete w p.worker_hashes)) h e w
              else p)
      decided e true l c =
          dropped-IsTracked p h e w (lookup BackendId_discrete w p.worker_hashes) refl t l c
      decided e false l c = t

      branch :
          (o : Option HashEntry)
          → lookup ℕ_discrete h p.hash_refcount ≡ o
          → IsTracked (removed_by p h w o)
      branch none l = t
      branch (some e) l = decided e (contains BackendId_discrete w e.owners) l refl

  release-dropped-IsExact :
      (p : CkfProducer) (h : ℕ) (e : HashEntry) (w : BackendId) (o : Option (List ℕ))
      → IsExact xxh3 p
      → IsTable p.hash_refcount
      → lookup ℕ_discrete h p.hash_refcount ≡ some e
      → IsExact xxh3 (release xxh3 (dropped p h w o) h e w)
  unfolding dropped
  release-dropped-IsExact p h e w none x t l = (release_lem xxh3 p h e w x t l).0
  release-dropped-IsExact p h e w (some s) x t l =
      (release_lem xxh3
        (record p {
          worker_hashes = insert BackendId_discrete w (set_remove ℕ_discrete h s) p.worker_hashes;
        })
        h e w x t l).0

  apply_removed-IsExact :
      (p : CkfProducer) (h : ℕ) (w : BackendId)
      → IsExact xxh3 p
      → IsTable p.hash_refcount
      → IsExact xxh3 (apply_removed xxh3 p h w)
  unfolding apply_removed removed_by dropped
  apply_removed-IsExact p h w x t = branch (lookup ℕ_discrete h p.hash_refcount) refl
    where
      decided :
          (e : HashEntry) (b : Bool)
          → lookup ℕ_discrete h p.hash_refcount ≡ some e
          → contains BackendId_discrete w e.owners ≡ b
          → IsExact xxh3 (
              if b
              then release xxh3 (dropped p h w (lookup BackendId_discrete w p.worker_hashes)) h e w
              else p)
      decided e true l c =
          release-dropped-IsExact p h e w (lookup BackendId_discrete w p.worker_hashes) x t l
      decided e false l c = x

      branch :
          (o : Option HashEntry)
          → lookup ℕ_discrete h p.hash_refcount ≡ o
          → IsExact xxh3 (removed_by p h w o)
      branch none l = x
      branch (some e) l = decided e (contains BackendId_discrete w e.owners) l refl

  -- A removal keeps the tables and the fingerprints in agreement.
  pub apply_removed-IsSynced :
      (p : CkfProducer) (h : ℕ) (w : BackendId)
      → IsSynced xxh3 p
      → IsSynced xxh3 (apply_removed xxh3 p h w)
  unfolding IsSynced
  apply_removed-IsSynced p h w (t, x) =
      (apply_removed-IsTracked p h w t, apply_removed-IsExact p h w x t.2)
