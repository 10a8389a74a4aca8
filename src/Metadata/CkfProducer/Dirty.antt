-- ===== src/Metadata/CkfProducer/Dirty.antt =====
-- The set of changed buckets holds every bucket that an event changes, a reset apart.
use hier_kv_gateway.Prelude.{
  ◌-◌, arith, ℕ, ◌≡◌, refl, sym, ◌∙◌, subst, Bool, true, false, Option, none, some, List, [], ◌∷◌,
  inl, inr, ◌⊎◌, ℕ_discrete, if◌then◌else◌, ◌==◌,
}
use hier_kv_gateway.Ids.{BackendId, BackendId_discrete}
use hier_kv_gateway.HashMap.{lookup, insert, remove}
use hier_kv_gateway.HashSet.{contains, set_remove}
use hier_kv_gateway.Core.KvEvent.{
  KvCacheEvent, stored_event, removed_event, clear_event, reset_event,
}
use hier_kv_gateway.Metadata.CkfProducer.{
  CkfProducer, HashEntry, or_default, or_empty, insert_fingerprint, delete_fingerprint, release,
  apply_stored, apply_removed, clear_hashes, apply_clear, stored_all, removed_all, apply_event,
}
use hier_kv_gateway.Metadata.CkfProducer.Buckets.{IsPacked, pair_count}
use hier_kv_gateway.Metadata.CkfProducer.Fingerprints.{
  Marked, Deleted, InsertCases, insert_fingerprint-cases, delete_fingerprint-cases,
}
use hier_kv_gateway.Metadata.CkfProducer.Events.{branches, with_owner, dropped, removed_by}

-- Buckets of 64 bits, and a bucket that is not marked is as it was.
abbrev pub Kept : CkfProducer → CkfProducer → Type 0
Kept p q = IsPacked q.buckets × Marked p q

Kept-trans : (p q r : CkfProducer) → Kept p q → Kept q r → Kept p r
Kept-trans p q r (h, m) (k, n) = (k, λ j u. let (e, v) = n j u in let (f, w) = m j v in (e ∙ f, w))

Kept-refl : (p : CkfProducer) → IsPacked p.buckets → Kept p p
Kept-refl p h = (h, λ j u. (refl, u))

-- An event that is not a reset.
abbrev pub is_reset : KvCacheEvent → Bool
is_reset (stored_event worker hashes parent tokens) = false
is_reset (removed_event worker hashes) = false
is_reset (clear_event worker) = false
is_reset (reset_event worker generation) = true

abbrev pub NoReset : List (KvCacheEvent × BackendId) → Type 0
NoReset [] = Unit
NoReset ((e, b) ∷ es) = (is_reset e ≡ false) × NoReset es

module _ (xxh3 : List ℕ → ℕ → ℕ) where
  Inserted-Kept :
      (p : CkfProducer) (a fp : ℕ) (r : CkfProducer × Bool)
      → IsPacked p.buckets
      → InsertCases xxh3 p a fp r
      → Kept p r.0
  Inserted-Kept p a fp r h (inl (_, e)) = subst (Kept p) (sym e) (h, λ j u. (refl, u))
  Inserted-Kept p a fp r h (inr (_, (k, g, m, n, s, t))) = (k, m)

  Deleted-Kept :
      (p q : CkfProducer) (a fp : ℕ)
      → IsPacked p.buckets
      → ((pair_count xxh3 p.buckets a fp ≡ 0) × (q ≡ p)) ⊎ Deleted xxh3 p q a fp
      → Kept p q
  Deleted-Kept p q a fp h (inl (_, e)) = subst (Kept p) (sym e) (Kept-refl p h)
  Deleted-Kept p q a fp h (inr (k, g, m, n, s, t)) = (k, m)

  Kept-if : (p q r : CkfProducer) (b : Bool) → Kept p q → Kept p r → Kept p (if b then q else r)
  Kept-if p q r true x y = x
  Kept-if p q r false x y = y

  apply_stored-Kept :
      (p : CkfProducer) (h : ℕ) (w : BackendId)
      → IsPacked p.buckets
      → Kept p (apply_stored xxh3 p h w)
  unfolding apply_stored
  apply_stored-Kept p h w k =
      let entry = or_default (lookup ℕ_discrete h p.hash_refcount) in
      elim (branches (contains BackendId_discrete w entry.owners) entry.owners p
        (insert_fingerprint xxh3 (with_owner xxh3 p h w) h).0 (with_owner xxh3 p h w)) [
          | inl (_, e) ↦ subst (Kept p) (sym e) (Kept-refl p k)
          | inr (inl (_, _, e)) ↦ subst (Kept p) (sym e) (
              Inserted-Kept (with_owner xxh3 p h w) _ _
                (insert_fingerprint xxh3 (with_owner xxh3 p h w) h) k
                (insert_fingerprint-cases xxh3 (with_owner xxh3 p h w) h k))
          | inr (inr (_, _, e)) ↦ subst (Kept p) (sym e) (k, λ j u. (refl, u))
        ]

  release-Kept :
      (p : CkfProducer) (h : ℕ) (e : HashEntry) (w : BackendId)
      → IsPacked p.buckets
      → Kept p (release xxh3 p h e w)
  unfolding release
  release-Kept p h e w k =
      let q = delete_fingerprint xxh3 p h in
      Kept-if p (record q { hash_refcount = remove ℕ_discrete h q.hash_refcount }) _
        (e.refcount - 1 == 0) (Deleted-Kept p q _ _ k (delete_fingerprint-cases xxh3 p h k))
        (k, λ j u. (refl, u))

  apply_removed-Kept :
      (p : CkfProducer) (h : ℕ) (w : BackendId)
      → IsPacked p.buckets
      → Kept p (apply_removed xxh3 p h w)
  unfolding apply_removed removed_by dropped
  apply_removed-Kept p h w k = branch (lookup ℕ_discrete h p.hash_refcount)
    where
      leaving :
          (e : HashEntry) (o : Option (List ℕ)) → Kept p (release xxh3 (dropped xxh3 p h w o) h e w)
      leaving e none = release-Kept p h e w k
      leaving e (some s) =
          release-Kept
            (record p {
              worker_hashes =
                  insert BackendId_discrete w (set_remove ℕ_discrete h s) p.worker_hashes;
            })
            h e w k

      branch : (o : Option HashEntry) → Kept p (removed_by xxh3 p h w o)
      branch none = Kept-refl p k
      branch (some e) =
          Kept-if p _ p (contains BackendId_discrete w e.owners)
            (leaving e (lookup BackendId_discrete w p.worker_hashes)) (Kept-refl p k)

  abbrev released_by : CkfProducer → ℕ → BackendId → Option HashEntry → CkfProducer
  released_by p h w o = elim o [ none ↦ p | some e ↦ release xxh3 p h e w ]

  clear_hashes-Kept :
      (p : CkfProducer) (hs : List ℕ) (w : BackendId)
      → IsPacked p.buckets
      → Kept p (clear_hashes xxh3 p hs w)
  unfolding clear_hashes
  clear_hashes-Kept p [] w k = Kept-refl p k
  clear_hashes-Kept p (h ∷ hs) w k =
      let o = lookup ℕ_discrete h p.hash_refcount in
      Kept-trans p (released_by p h w o) (clear_hashes xxh3 (released_by p h w o) hs w) (step o)
        (clear_hashes-Kept (released_by p h w o) hs w (step o).0)
    where
      step : (o : Option HashEntry) → Kept p (released_by p h w o)
      step none = Kept-refl p k
      step (some e) = release-Kept p h e w k

  stored_all-Kept :
      (p : CkfProducer) (hs : List ℕ) (b : BackendId)
      → IsPacked p.buckets
      → Kept p (stored_all xxh3 p hs b)
  unfolding stored_all
  stored_all-Kept p [] b k = Kept-refl p k
  stored_all-Kept p (h ∷ hs) b k =
      let s = apply_stored-Kept p h b k in
      Kept-trans p (apply_stored xxh3 p h b) (stored_all xxh3 (apply_stored xxh3 p h b) hs b) s
        (stored_all-Kept (apply_stored xxh3 p h b) hs b s.0)

  removed_all-Kept :
      (p : CkfProducer) (hs : List ℕ) (b : BackendId)
      → IsPacked p.buckets
      → Kept p (removed_all xxh3 p hs b)
  unfolding removed_all
  removed_all-Kept p [] b k = Kept-refl p k
  removed_all-Kept p (h ∷ hs) b k =
      let s = apply_removed-Kept p h b k in
      Kept-trans p (apply_removed xxh3 p h b) (removed_all xxh3 (apply_removed xxh3 p h b) hs b) s
        (removed_all-Kept (apply_removed xxh3 p h b) hs b s.0)

  -- An event that is not a reset marks every bucket that it changes, also where an insertion fails.
  pub apply_event-Kept :
      (p : CkfProducer) (e : KvCacheEvent) (b : BackendId)
      → IsPacked p.buckets
      → is_reset e ≡ false
      → Kept p (apply_event xxh3 p e b)
  unfolding apply_event apply_clear
  apply_event-Kept p (stored_event worker hashes parent tokens) b k n = stored_all-Kept p hashes b k
  apply_event-Kept p (removed_event worker hashes) b k n = removed_all-Kept p hashes b k
  apply_event-Kept p (clear_event worker) b k n =
      clear_hashes-Kept (record p { worker_hashes = remove BackendId_discrete b p.worker_hashes })
        (or_empty (lookup BackendId_discrete b p.worker_hashes)) b k
  apply_event-Kept p (reset_event worker generation) b k n = ground (arith, n)

  unfoldable pub apply_all : CkfProducer → List (KvCacheEvent × BackendId) → CkfProducer
  apply_all p [] = p
  apply_all p ((e, b) ∷ es) = apply_all (apply_event xxh3 p e b) es

  pub apply_all-Kept :
      (p : CkfProducer) (es : List (KvCacheEvent × BackendId))
      → IsPacked p.buckets
      → NoReset es
      → Kept p (apply_all p es)
  unfolding apply_all
  apply_all-Kept p [] k n = Kept-refl p k
  apply_all-Kept p ((e, b) ∷ es) k (n, ns) =
      let s = apply_event-Kept p e b k n in
      Kept-trans p (apply_event xxh3 p e b) (apply_all (apply_event xxh3 p e b) es) s
        (apply_all-Kept (apply_event xxh3 p e b) es s.0 ns)
