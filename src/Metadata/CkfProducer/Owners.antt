-- ===== src/Metadata/CkfProducer/Owners.antt =====
-- Each operation on the owners of hashes, against the relation of hashes and owners.
use hier_kv_gateway.Prelude.{
  ℕ, ◌≡◌, refl, sym, ap, ◌∙◌, subst, fun_ext, Bool, true, false, Option, none, some, List, [], ◌∷◌,
  arith, ℕ_discrete, ite,
}
use hier_kv_gateway.Ids.{BackendId, BackendId_discrete}
use hier_kv_gateway.HashMap.{lookup, remove, lookup-remove}
use hier_kv_gateway.HashSet.{
  contains, set_remove, IsUnrepeated, set_remove-IsUnrepeated, set_remove_absent,
}
use hier_kv_gateway.Metadata.CkfProducer.{
  CkfProducer, HashEntry, or_default, or_empty, release, clear_hashes, apply_clear,
}
use hier_kv_gateway.Metadata.CkfProducer.Tracking.{
  AreTracked, owners_in, hashes_of, released, released_lem, drop-IsMirror,
}
use hier_kv_gateway.Metadata.CkfProducer.Tables.{release_tables}
use hier_kv_gateway.Metadata.CkfProducer.Exact.{IsExact, release_lem}

-- Whether the backend owns the hash.
unfoldable pub owns : CkfProducer → ℕ → BackendId → Bool
owns p h w = contains BackendId_discrete w (owners_in p.hash_refcount h)

-- Both tables describe one relation.
abbrev pub IsTracked : CkfProducer → Type 0
IsTracked p = AreTracked (hashes_of p) p.hash_refcount

module _ (xxh3 : List ℕ → ℕ → ℕ) where
  unfoldable pub IsSynced : CkfProducer → Type 0
  IsSynced p = IsTracked p × IsExact xxh3 p

  -- The release of an owner, for hashes of the backends that lose the hash too.
  pub release-AreTracked :
      (p : CkfProducer) (h : ℕ) (e : HashEntry) (w : BackendId)
      (hashes hashes' : BackendId → List ℕ)
      → AreTracked hashes p.hash_refcount
      → lookup ℕ_discrete h p.hash_refcount ≡ some e
      → contains BackendId_discrete w e.owners ≡ true
      → ((v : BackendId)
          → hashes' v
            ≡ ite (BackendId_discrete w v) (set_remove ℕ_discrete h (hashes w)) (hashes v))
      → AreTracked hashes' (release xxh3 p h e w).hash_refcount
  release-AreTracked p h e w hashes hashes' (m, u, t) l c same =
      let (r, s) = release_tables xxh3 p h e w in
      let (t', o) = released_lem p.hash_refcount h e w t l c in
      subst (λ r. AreTracked hashes' r) (sym r)
        (
          drop-IsMirror hashes hashes' (owners_in p.hash_refcount)
              (owners_in (released p.hash_refcount h e w)) h w m same
              (λ k.
                o k
                ∙ ap
                    (λ d.
                      ite (ℕ_discrete h k) (set_remove BackendId_discrete w (or_default d).owners)
                        (owners_in p.hash_refcount k))
                    (sym l)),
          (λ v.
              subst (λ s. IsUnrepeated ℕ_discrete s) (sym (same v))
                (unrepeated v (BackendId_discrete w v))),
          t',
        )
    where
      unrepeated :
          (v : BackendId) (q : Dec (w ≡ v))
          → IsUnrepeated ℕ_discrete (ite q (set_remove ℕ_discrete h (hashes w)) (hashes v))
      unrepeated v (yes q) = set_remove-IsUnrepeated ℕ_discrete h (hashes w) (u w)
      unrepeated v (no q) = u v

  -- The rest of the hashes of a backend that is cleared.
  abbrev pub override : BackendId → List ℕ → (BackendId → List ℕ) → BackendId → List ℕ
  override w hs hashes v = ite (BackendId_discrete w v) hs (hashes v)

  owned_entry :
      (o : Option HashEntry) (w : BackendId)
      → contains BackendId_discrete w (or_default o).owners ≡ true
      → (e : HashEntry) × (o ≡ some e) × (contains BackendId_discrete w e.owners ≡ true)
  unfolding contains
  owned_entry none w h = ground (arith, h)
  owned_entry (some e) w h = (e, refl, h)

  next_override :
      (w : BackendId) (h : ℕ) (hs : List ℕ) (hashes : BackendId → List ℕ) (v : BackendId)
      → contains ℕ_discrete h hs ≡ false
      → override w hs hashes v
        ≡ ite
            (BackendId_discrete w v)
            (set_remove ℕ_discrete h (override w (h ∷ hs) hashes w))
            (override w (h ∷ hs) hashes v)
  unfolding set_remove
  next_override w h hs hashes v c = ground (arith, set_remove_absent ℕ_discrete h hs c)

  abbrev pub ClearedTables : BackendId → (BackendId → List ℕ) → CkfProducer → CkfProducer → Type 0
  ClearedTables w hashes p q =
      AreTracked (override w [] hashes) q.hash_refcount × (q.worker_hashes ≡ p.worker_hashes)

  abbrev pub released_by : CkfProducer → ℕ → BackendId → Option HashEntry → CkfProducer
  released_by p h w o = elim o [ none ↦ p | some entry ↦ release xxh3 p h entry w ]

  own_override :
      (w : BackendId) (hs : List ℕ) (hashes : BackendId → List ℕ) → override w hs hashes w ≡ hs
  own_override w hs hashes = ground arith

  -- The entry of the next hash that a clear releases, and the tables after its release.
  next_released :
      (p : CkfProducer) (h : ℕ) (hs : List ℕ) (w : BackendId) (hashes : BackendId → List ℕ)
      → AreTracked (override w (h ∷ hs) hashes) p.hash_refcount
      → (e : HashEntry) × (lookup ℕ_discrete h p.hash_refcount ≡ some e)
        × AreTracked (override w hs hashes) (release xxh3 p h e w).hash_refcount
  unfolding contains
  next_released p h hs w hashes (m, u, t) =
      let (e, l, c) = owned_entry (lookup ℕ_discrete h p.hash_refcount) w (sym (m h w) ∙ held) in
      (
        e,
        l,
        release-AreTracked p h e w (override w (h ∷ hs) hashes) (override w hs hashes) (m, u, t) l c
            (λ v. next_override w h hs hashes v unrepeated.0),
      )
    where
      held : contains ℕ_discrete h (override w (h ∷ hs) hashes w) ≡ true
      held = ap (λ l. contains ℕ_discrete h l) (own_override w (h ∷ hs) hashes) ∙ ground arith

      unrepeated : IsUnrepeated ℕ_discrete (h ∷ hs)
      unrepeated = subst (λ l. IsUnrepeated ℕ_discrete l) (own_override w (h ∷ hs) hashes) (u w)

  pub clear_hashes-AreTracked :
      (p : CkfProducer) (hs : List ℕ) (w : BackendId) (hashes : BackendId → List ℕ)
      → AreTracked (override w hs hashes) p.hash_refcount
      → ClearedTables w hashes p (clear_hashes xxh3 p hs w)
  unfolding clear_hashes
  clear_hashes-AreTracked p [] w hashes t = (t, refl)
  clear_hashes-AreTracked p (h ∷ hs) w hashes t =
      let (e, l, next) = next_released p h hs w hashes t in
      let (t', s') = clear_hashes-AreTracked (release xxh3 p h e w) hs w hashes next in
      subst (λ o. ClearedTables w hashes p (clear_hashes xxh3 (released_by p h w o) hs w)) (sym l)
        (t', s' ∙ (release_tables xxh3 p h e w).1)

  clear_hashes-IsExact :
      (p : CkfProducer) (hs : List ℕ) (w : BackendId) (hashes : BackendId → List ℕ)
      → IsExact xxh3 p
      → AreTracked (override w hs hashes) p.hash_refcount
      → IsExact xxh3 (clear_hashes xxh3 p hs w)
  unfolding clear_hashes
  clear_hashes-IsExact p [] w hashes x t = x
  clear_hashes-IsExact p (h ∷ hs) w hashes x t =
      let (e, l, next) = next_released p h hs w hashes t in
      subst (λ o. IsExact xxh3 (clear_hashes xxh3 (released_by p h w o) hs w)) (sym l)
        (clear_hashes-IsExact (release xxh3 p h e w) hs w hashes
          (release_lem xxh3 p h e w x t.2 l).0 next)

  pub same_override :
      (p : CkfProducer) (w : BackendId)
      → override w (hashes_of p w) (λ v.
        or_empty (lookup BackendId_discrete v (remove BackendId_discrete w p.worker_hashes)))
        ≡ hashes_of p
  same_override p w = fun_ext λ v. same v (BackendId_discrete w v)
    where
      same :
          (v : BackendId) (q : Dec (w ≡ v))
          → override w
              (hashes_of p w)
              (λ v.
                or_empty
                  (lookup BackendId_discrete v (remove BackendId_discrete w p.worker_hashes)))
              v
            ≡ hashes_of p v
      same v (yes q) = ground (arith, q, ap (λ t. hashes_of p t) q)
      same v (no q) = ground (arith, q, lookup-remove BackendId_discrete w v p.worker_hashes)

  no_override :
      (p : CkfProducer) (w : BackendId)
      → override w [] (λ v.
        or_empty (lookup BackendId_discrete v (remove BackendId_discrete w p.worker_hashes)))
        ≡ (λ v.
            or_empty (lookup BackendId_discrete v (remove BackendId_discrete w p.worker_hashes)))
  no_override p w = fun_ext λ v. same v (BackendId_discrete w v)
    where
      same :
          (v : BackendId) (q : Dec (w ≡ v))
          → override w []
              (λ v.
                or_empty
                  (lookup BackendId_discrete v (remove BackendId_discrete w p.worker_hashes)))
              v
            ≡ or_empty (lookup BackendId_discrete v (remove BackendId_discrete w p.worker_hashes))
      same v (yes q) = ground (arith, q, lookup-remove BackendId_discrete w v p.worker_hashes)
      same v (no q) = ground (arith, q)

  -- The hashes of the other backends.
  abbrev pub rest_of : CkfProducer → BackendId → BackendId → List ℕ
  rest_of p w v =
      or_empty (lookup BackendId_discrete v (remove BackendId_discrete w p.worker_hashes))

  pub apply_clear-ClearedTables :
      (p : CkfProducer) (w : BackendId)
      → IsTracked p
      → ClearedTables w
          (rest_of p w)
          (record p { worker_hashes = remove BackendId_discrete w p.worker_hashes })
          (apply_clear xxh3 p w)
  unfolding apply_clear
  apply_clear-ClearedTables p w t =
      clear_hashes-AreTracked
        (record p { worker_hashes = remove BackendId_discrete w p.worker_hashes }) (hashes_of p w) w
        (rest_of p w) (subst (λ f. AreTracked f p.hash_refcount) (sym (same_override p w)) t)

  pub apply_clear-IsTracked :
      (p : CkfProducer) (w : BackendId) → IsTracked p → IsTracked (apply_clear xxh3 p w)
  apply_clear-IsTracked p w t =
      let (t', s) = apply_clear-ClearedTables p w t in
      subst (λ f. AreTracked f (apply_clear xxh3 p w).hash_refcount)
        (no_override p w ∙ ap (λ m v. or_empty (lookup BackendId_discrete v m)) (sym s)) t'

  -- Clearing a backend keeps the tables and the fingerprints in agreement.
  pub apply_clear-IsSynced :
      (p : CkfProducer) (w : BackendId) → IsSynced p → IsSynced (apply_clear xxh3 p w)
  unfolding apply_clear IsSynced
  apply_clear-IsSynced p w (t, x) = (
    apply_clear-IsTracked p w t,
    clear_hashes-IsExact (record p { worker_hashes = remove BackendId_discrete w p.worker_hashes })
        (hashes_of p w) w (rest_of p w) x
        (subst (λ f. AreTracked f p.hash_refcount) (sym (same_override p w)) t),
  )
