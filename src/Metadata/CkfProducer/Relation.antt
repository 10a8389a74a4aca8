-- ===== src/Metadata/CkfProducer/Relation.antt =====
-- The owners of every hash after each operation: a relation that gains and loses pairs.
use hier_kv_gateway.Prelude.{
  ℕ, ◌≡◌, refl, sym, ap, ◌∙◌, Bool, true, false, not, ◌||◌, ◌&&◌, Option, none, some, List, [],
  arith, inl, inr, ℕ_discrete, ite, dec→Bool, if◌then◌else◌,
}
use hier_kv_gateway.Ids.{BackendId, BackendId_discrete}
use hier_kv_gateway.HashMap.{lookup, insert}
use hier_kv_gateway.HashSet.{
  contains, set_insert, set_remove, contains-set_insert, contains-set_remove,
}
use hier_kv_gateway.Metadata.CkfProducer.{
  CkfProducer, HashEntry, or_default, insert_fingerprint, release, apply_stored, apply_removed,
  apply_clear,
}
use hier_kv_gateway.Metadata.CkfProducer.Tables.{release_tables, insert_fingerprint-SameTables}
use hier_kv_gateway.Metadata.CkfProducer.Tracking.{
  IsTable, owners_in, owners_in-insert, hashes_of, released, released_lem,
}
use hier_kv_gateway.Metadata.CkfProducer.Owners.{
  owns, IsTracked, same_override, rest_of, apply_clear-ClearedTables,
}
use hier_kv_gateway.Metadata.CkfProducer.Events.{branches, with_owner, dropped, removed_by}

-- Whether a pair is `(h, w)`.
abbrev pub is_pair : ℕ → BackendId → ℕ → BackendId → Bool
is_pair h w k v = dec→Bool (ℕ_discrete h k) && dec→Bool (BackendId_discrete w v)

gain_pair :
    (owners owners' : ℕ → List BackendId) (h k : ℕ) (w v : BackendId)
    → owners' k ≡ ite (ℕ_discrete h k) (set_insert BackendId_discrete w (owners h)) (owners k)
    → contains BackendId_discrete v (owners' k)
      ≡ (contains BackendId_discrete v (owners k) || is_pair h w k v)
gain_pair owners owners' h k w v e = elim (ℕ_discrete h k) [
  | yes q ↦ ground (arith, q, e, ap owners q, contains-set_insert BackendId_discrete v w (owners h))
  | no q ↦ ground (arith, q, e)
]

lose_pair :
    (owners owners' : ℕ → List BackendId) (h k : ℕ) (w v : BackendId)
    → owners' k ≡ ite (ℕ_discrete h k) (set_remove BackendId_discrete w (owners h)) (owners k)
    → contains BackendId_discrete v (owners' k)
      ≡ (contains BackendId_discrete v (owners k) && not (is_pair h w k v))
lose_pair owners owners' h k w v e = elim (ℕ_discrete h k) [
  | yes q ↦ ground (arith, q, e, ap owners q, contains-set_remove BackendId_discrete v w (owners h))
  | no q ↦ ground (arith, q, e)
]

already :
    (p : CkfProducer) (h k : ℕ) (w v : BackendId)
    → owns p h w ≡ true
    → owns p k v ≡ (owns p k v || is_pair h w k v)
already p h k w v e = elim (ℕ_discrete h k) [
  | yes q ↦ elim (BackendId_discrete w v) [
    | yes r ↦ ground (arith, q, r, e, ap (λ t. owns p t w) q, ap (λ t. owns p k t) r)
    | no r ↦ ground (arith, q, r)
  ]
  | no q ↦ ground (arith, q)
]

absent :
    (p : CkfProducer) (h k : ℕ) (w v : BackendId)
    → owns p h w ≡ false
    → owns p k v ≡ (owns p k v && not (is_pair h w k v))
absent p h k w v e = elim (ℕ_discrete h k) [
  | yes q ↦ elim (BackendId_discrete w v) [
    | yes r ↦ ground (arith, q, r, e, ap (λ t. owns p t w) q, ap (λ t. owns p k t) r)
    | no r ↦ ground (arith, q, r)
  ]
  | no q ↦ ground (arith, q)
]

module _ (xxh3 : List ℕ → ℕ → ℕ) where
  -- A storing adds its pair, whether or not the fingerprint finds room.
  pub apply_stored-owns :
      (p : CkfProducer) (h : ℕ) (w : BackendId) (k : ℕ) (v : BackendId)
      → IsTracked p
      → owns (apply_stored xxh3 p h w) k v ≡ (owns p k v || is_pair h w k v)
  unfolding apply_stored owns
  apply_stored-owns p h w k v t =
      elim (branches (contains BackendId_discrete w (owners_in p.hash_refcount h))
        (owners_in p.hash_refcount h) p (insert_fingerprint xxh3 (with_owner xxh3 p h w) h).0
        (with_owner xxh3 p h w)) [
          | inl (c, e) ↦ ap (λ q. owns q k v) e ∙ already p h k w v c
          | inr (inl (c, n, e)) ↦
              ap (λ q. owns q k v) e
              ∙ ap (λ r. contains BackendId_discrete v (owners_in r k))
                  (insert_fingerprint-SameTables xxh3 (with_owner xxh3 p h w) h).0
              ∙ gain_pair (owners_in p.hash_refcount)
                  (owners_in (with_owner xxh3 p h w).hash_refcount) h k w v
                  (owners_in-insert k h _ p.hash_refcount)
          | inr (inr (c, n, e)) ↦
              ap (λ q. owns q k v) e
              ∙ gain_pair (owners_in p.hash_refcount)
                  (owners_in (with_owner xxh3 p h w).hash_refcount) h k w v
                  (owners_in-insert k h _ p.hash_refcount)
        ]

  owns-release :
      (p : CkfProducer) (h k : ℕ) (w v : BackendId) (e : HashEntry)
      → IsTable p.hash_refcount
      → lookup ℕ_discrete h p.hash_refcount ≡ some e
      → contains BackendId_discrete w e.owners ≡ true
      → owns (release xxh3 p h e w) k v ≡ (owns p k v && not (is_pair h w k v))
  unfolding owns
  owns-release p h k w v e t l c =
      ap (λ r. contains BackendId_discrete v (owners_in r k)) (release_tables xxh3 p h e w).0
      ∙ lose_pair (owners_in p.hash_refcount) (owners_in (released p.hash_refcount h e w)) h k w v (
          (released_lem p.hash_refcount h e w t l c).1 k
          ∙ ap
              (λ d.
                ite (ℕ_discrete h k) (set_remove BackendId_discrete w (or_default d).owners)
                  (owners_in p.hash_refcount k))
              (sym l))

  owns-dropped :
      (p : CkfProducer) (h k : ℕ) (w v : BackendId) (e : HashEntry) (o : Option (List ℕ))
      → IsTracked p
      → lookup ℕ_discrete h p.hash_refcount ≡ some e
      → contains BackendId_discrete w e.owners ≡ true
      → owns (release xxh3 (dropped xxh3 p h w o) h e w) k v ≡ (owns p k v && not (is_pair h w k v))
  unfolding dropped owns
  owns-dropped p h k w v e none t l c = owns-release p h k w v e t.2 l c
  owns-dropped p h k w v e (some s) t l c =
      owns-release
        (record p {
          worker_hashes = insert BackendId_discrete w (set_remove ℕ_discrete h s) p.worker_hashes;
        })
        h k w v e t.2 l c

  -- A removal takes its pair.
  pub apply_removed-owns :
      (p : CkfProducer) (h : ℕ) (w : BackendId) (k : ℕ) (v : BackendId)
      → IsTracked p
      → owns (apply_removed xxh3 p h w) k v ≡ (owns p k v && not (is_pair h w k v))
  unfolding apply_removed owns removed_by dropped contains
  apply_removed-owns p h w k v i = branch (lookup ℕ_discrete h p.hash_refcount) refl
    where
      decided :
          (e : HashEntry) (b : Bool)
          → lookup ℕ_discrete h p.hash_refcount ≡ some e
          → contains BackendId_discrete w e.owners ≡ b
          → owns
              (if b
                then release xxh3
                    (dropped xxh3 p h w (lookup BackendId_discrete w p.worker_hashes))
                    h
                    e
                    w
                else p)
              k
              v
            ≡ (owns p k v && not (is_pair h w k v))
      decided e true l c =
          owns-dropped p h k w v e (lookup BackendId_discrete w p.worker_hashes) i l c
      decided e false l c =
          absent p h k w v (ap (λ o. contains BackendId_discrete w (or_default o).owners) l ∙ c)

      branch :
          (o : Option HashEntry)
          → lookup ℕ_discrete h p.hash_refcount ≡ o
          → owns (removed_by xxh3 p h w o) k v ≡ (owns p k v && not (is_pair h w k v))
      branch none l =
          absent p h k w v (ap (λ o. contains BackendId_discrete w (or_default o).owners) l)
      branch (some e) l = decided e (contains BackendId_discrete w e.owners) l refl

  -- A clear takes the pairs of its backend, and only those.
  pub apply_clear-owns :
      (p : CkfProducer) (w : BackendId) (k : ℕ) (v : BackendId)
      → IsTracked p
      → owns (apply_clear xxh3 p w) k v ≡ (owns p k v && not (dec→Bool (BackendId_discrete w v)))
  unfolding apply_clear owns contains
  apply_clear-owns p w k v t =
      let rest = rest_of xxh3 p w in
      let (t', s) = apply_clear-ClearedTables xxh3 p w t in
      sym (t'.0 k v)
      ∙ cleared (BackendId_discrete w v) rest
      ∙ ap (λ b. b && not (dec→Bool (BackendId_discrete w v)))
          (ap (λ f. contains ℕ_discrete k (f v)) (same_override xxh3 p w) ∙ t.0 k v)
    where
      cleared :
          (q : Dec (w ≡ v)) (rest : BackendId → List ℕ)
          → contains ℕ_discrete k (ite q [] (rest v))
            ≡ (contains ℕ_discrete k (ite q (hashes_of p w) (rest v)) && not (dec→Bool q))
      cleared (yes q) rest = ground arith
      cleared (no q) rest = ground arith
