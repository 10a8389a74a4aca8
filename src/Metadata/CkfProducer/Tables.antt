-- ===== src/Metadata/CkfProducer/Tables.antt =====
-- The tables of owners under the operations on fingerprints, whether or not these find room.
use hier_kv_gateway.Prelude.{ℕ, ◌-◌, ◌≡◌, ap, arith, Bool-cases, inl, inr, ◌==◌, List, ℕ_discrete}
use hier_kv_gateway.Ids.{BackendId}
use hier_kv_gateway.HashMap.{remove}
use hier_kv_gateway.Metadata.CuckooFilter.{probe, alt_index}
use hier_kv_gateway.Metadata.CkfProducer.{
  CkfProducer, HashEntry, insert_by_kicks, insert_fingerprint, delete_fingerprint, release,
}
use hier_kv_gateway.Metadata.CkfProducer.Tracking.{released}

-- The same tables.
abbrev pub SameTables : CkfProducer → CkfProducer → Type 0
SameTables p q = (q.hash_refcount ≡ p.hash_refcount) × (q.worker_hashes ≡ p.worker_hashes)

module _ (xxh3 : List ℕ → ℕ → ℕ) where
  insert_by_kicks-SameTables :
      (p : CkfProducer) (fp a b : ℕ) → SameTables p (insert_by_kicks xxh3 p fp a b).0
  unfolding insert_by_kicks
  insert_by_kicks-SameTables p fp a b = ground arith

  pub insert_fingerprint-SameTables :
      (p : CkfProducer) (h : ℕ) → SameTables p (insert_fingerprint xxh3 p h).0
  unfolding insert_fingerprint
  insert_fingerprint-SameTables p h = ground (
    arith,
    insert_by_kicks-SameTables p (probe xxh3 h).0 (probe xxh3 h).1
        (alt_index xxh3 (probe xxh3 h).1 (probe xxh3 h).0),
  )

  delete_fingerprint-SameTables :
      (p : CkfProducer) (h : ℕ) → SameTables p (delete_fingerprint xxh3 p h)
  unfolding delete_fingerprint
  delete_fingerprint-SameTables p h = ground arith

  -- The tables after a release.
  pub release_tables :
      (p : CkfProducer) (h : ℕ) (e : HashEntry) (w : BackendId)
      → ((release xxh3 p h e w).hash_refcount ≡ released p.hash_refcount h e w)
        × ((release xxh3 p h e w).worker_hashes ≡ p.worker_hashes)
  unfolding release
  release_tables p h e w =
      let (r, s) = delete_fingerprint-SameTables p h in
      elim (Bool-cases (e.refcount - 1 == 0)) [
        | inl z ↦ ground (arith, z, ap (λ t. remove ℕ_discrete h t) r, s)
        | inr z ↦ ground (arith, z)
      ]
