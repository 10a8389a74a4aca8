-- ===== src/Metadata/CkfProducer/Tracking.antt =====
-- The two tables of owners describe one relation between hashes and backends.
use hier_kv_gateway.Prelude.{
  ℕ, ◌+◌, ◌-◌, ◌≤◌, ◌≡◌, ◌≢◌, refl, sym, ap, ◌∙◌, subst, true, false, Option, none, some, List, [],
  ◌∷◌, arith, ℕ_discrete, ite, length, if◌then◌else◌, ◌==◌,
}
use hier_kv_gateway.Ids.{BackendId, BackendId_discrete}
use hier_kv_gateway.HashMap.{lookup, insert, remove, lookup-insert, lookup-remove}
use hier_kv_gateway.HashMap.Sums.{IsFunctional, insert-IsFunctional, remove-IsFunctional}
use hier_kv_gateway.HashSet.{
  contains, set_insert, set_remove, IsUnrepeated, contains-set_insert, contains-set_remove,
  set_insert-IsUnrepeated, set_remove-IsUnrepeated, length-set_insert, length-set_remove,
}
use hier_kv_gateway.Metadata.CkfProducer.{CkfProducer, HashEntry, or_default, or_empty, tracked}

abbrev pub owners_in : List (ℕ × HashEntry) → ℕ → List BackendId
owners_in r h = (or_default (lookup ℕ_discrete h r)).owners

abbrev pub hashes_of : CkfProducer → BackendId → List ℕ
hashes_of p w = or_empty (lookup BackendId_discrete w p.worker_hashes)

-- The hashes of a backend are those that it owns.
abbrev pub IsMirror : (BackendId → List ℕ) → (ℕ → List BackendId) → Type 0
IsMirror hashes owners =
    (h : ℕ) (w : BackendId)
    → contains ℕ_discrete h (hashes w) ≡ contains BackendId_discrete w (owners h)

-- An entry counts its owners and has one.
abbrev pub IsEntry : HashEntry → Type 0
IsEntry e =
    (e.refcount ≡ length e.owners) × IsUnrepeated BackendId_discrete e.owners × (1 ≤ e.refcount)

abbrev pub IsTable : List (ℕ × HashEntry) → Type 0
IsTable r =
    ((h : ℕ) (e : HashEntry) → lookup ℕ_discrete h r ≡ some e → IsEntry e)
    × IsFunctional ℕ_discrete r

-- The tables, with the hashes of each backend given by a function.
abbrev pub AreTracked : (BackendId → List ℕ) → List (ℕ × HashEntry) → Type 0
AreTracked hashes r =
    IsMirror hashes (owners_in r)
    × ((w : BackendId) → IsUnrepeated ℕ_discrete (hashes w))
    × IsTable r

pub owners_in-insert :
    (h k : ℕ) (e : HashEntry) (r : List (ℕ × HashEntry))
    → owners_in (insert ℕ_discrete k e r) h ≡ ite (ℕ_discrete k h) e.owners (owners_in r h)
owners_in-insert h k e r = elim (ℕ_discrete k h) [
  | yes p ↦ ground (arith, p, lookup-insert ℕ_discrete k h e r)
  | no p ↦ ground (arith, p, lookup-insert ℕ_discrete k h e r)
]

pub hashes_of-insert :
    (v w : BackendId) (s : List ℕ) (t : List (BackendId × List ℕ))
    → or_empty (lookup BackendId_discrete v (insert BackendId_discrete w s t))
      ≡ ite (BackendId_discrete w v) s (or_empty (lookup BackendId_discrete v t))
hashes_of-insert v w s t = elim (BackendId_discrete w v) [
  | yes p ↦ ground (arith, p, lookup-insert BackendId_discrete w v s t)
  | no p ↦ ground (arith, p, lookup-insert BackendId_discrete w v s t)
]

-- An owner comes to a hash, on both sides.
pub add-IsMirror :
    (hashes hashes' : BackendId → List ℕ) (owners owners' : ℕ → List BackendId) (h : ℕ)
    (w : BackendId)
    → IsMirror hashes owners
    → ((v : BackendId)
        → hashes' v ≡ ite (BackendId_discrete w v) (set_insert ℕ_discrete h (hashes w)) (hashes v))
    → ((k : ℕ)
        → owners' k ≡ ite (ℕ_discrete h k) (set_insert BackendId_discrete w (owners h)) (owners k))
    → IsMirror hashes' owners'
add-IsMirror hashes hashes' owners owners' h w m a b k v = elim (BackendId_discrete w v) [
  | yes p ↦ elim (ℕ_discrete h k) [
    | yes q ↦ ground (
      arith,
      p,
      q,
      a v,
      b k,
      m k v,
      contains-set_insert ℕ_discrete k h (hashes w),
      contains-set_insert BackendId_discrete v w (owners h),
    )
    | no q ↦
        ground
          (arith, p, q, a v, b k, m k v, contains-set_insert ℕ_discrete k h (hashes w), ap hashes p)
  ]
  | no p ↦ elim (ℕ_discrete h k) [
    | yes q ↦ ground (
      arith,
      p,
      q,
      a v,
      b k,
      m k v,
      contains-set_insert BackendId_discrete v w (owners h),
      ap owners q,
    )
    | no q ↦ ground (arith, p, q, a v, b k, m k v)
  ]
]

-- An owner leaves a hash, on both sides.
pub drop-IsMirror :
    (hashes hashes' : BackendId → List ℕ) (owners owners' : ℕ → List BackendId) (h : ℕ)
    (w : BackendId)
    → IsMirror hashes owners
    → ((v : BackendId)
        → hashes' v ≡ ite (BackendId_discrete w v) (set_remove ℕ_discrete h (hashes w)) (hashes v))
    → ((k : ℕ)
        → owners' k ≡ ite (ℕ_discrete h k) (set_remove BackendId_discrete w (owners h)) (owners k))
    → IsMirror hashes' owners'
drop-IsMirror hashes hashes' owners owners' h w m a b k v = elim (BackendId_discrete w v) [
  | yes p ↦ elim (ℕ_discrete h k) [
    | yes q ↦ ground (
      arith,
      p,
      q,
      a v,
      b k,
      m k v,
      contains-set_remove ℕ_discrete k h (hashes w),
      contains-set_remove BackendId_discrete v w (owners h),
    )
    | no q ↦
        ground
          (arith, p, q, a v, b k, m k v, contains-set_remove ℕ_discrete k h (hashes w), ap hashes p)
  ]
  | no p ↦ elim (ℕ_discrete h k) [
    | yes q ↦ ground (
      arith,
      p,
      q,
      a v,
      b k,
      m k v,
      contains-set_remove BackendId_discrete v w (owners h),
      ap owners q,
    )
    | no q ↦ ground (arith, p, q, a v, b k, m k v)
  ]
]

pub insert-IsTable :
    (r : List (ℕ × HashEntry)) (k : ℕ) (e : HashEntry)
    → IsTable r
    → IsEntry e
    → IsTable (insert ℕ_discrete k e r)
insert-IsTable r k e (t, f) he = (
  λ h d l. entry h d (ℕ_discrete k h) (sym (lookup-insert ℕ_discrete k h e r) ∙ l),
  insert-IsFunctional ℕ_discrete k e r f,
)
  where
    entry :
        (h : ℕ) (d : HashEntry) (q : Dec (k ≡ h))
        → ite q (some e) (lookup ℕ_discrete h r) ≡ some d
        → IsEntry d
    entry h d (yes q) l = subst IsEntry (ap (λ o. or_default o) l) he
    entry h d (no q) l = t h d l

gained-IsEntry :
    (o : Option HashEntry) (w : BackendId)
    → ((e : HashEntry) → o ≡ some e → IsEntry e)
    → contains BackendId_discrete w (or_default o).owners ≡ false
    → IsEntry (record {
      refcount = (or_default o).refcount + 1;
      owners = set_insert BackendId_discrete w (or_default o).owners;
    })
unfolding contains set_insert
gained-IsEntry none w t h = (refl, (refl, tt), omega arith)
gained-IsEntry (some e) w t h =
    let (c, u, n) = t e refl in
    (
      omega (arith, c, length-set_insert BackendId_discrete w e.owners h),
      set_insert-IsUnrepeated BackendId_discrete w e.owners u,
      omega arith,
    )

-- A first storing by an owner keeps the tables in agreement.
pub tracked-AreTracked :
    (p : CkfProducer) (h : ℕ) (w : BackendId)
    → AreTracked (hashes_of p) p.hash_refcount
    → contains BackendId_discrete w (owners_in p.hash_refcount h) ≡ false
    → AreTracked
        (hashes_of (tracked p h w (or_default (lookup ℕ_discrete h p.hash_refcount))))
        (tracked p h w (or_default (lookup ℕ_discrete h p.hash_refcount))).hash_refcount
tracked-AreTracked p h w (m, u, t) c = (
  add-IsMirror (hashes_of p) _ (owners_in p.hash_refcount) _ h w m
      (λ v. hashes_of-insert v w (set_insert ℕ_discrete h (hashes_of p w)) p.worker_hashes)
      (λ k. owners_in-insert k h e p.hash_refcount),
  λ v.
      subst (λ s. IsUnrepeated ℕ_discrete s)
        (sym (hashes_of-insert v w (set_insert ℕ_discrete h (hashes_of p w)) p.worker_hashes))
        (unrepeated v (BackendId_discrete w v)),
  insert-IsTable p.hash_refcount h e t
      (gained-IsEntry (lookup ℕ_discrete h p.hash_refcount) w (t.0 h) c),
)
  where
    e : HashEntry
    e = record {
      refcount = (or_default (lookup ℕ_discrete h p.hash_refcount)).refcount + 1;
      owners = set_insert BackendId_discrete w (owners_in p.hash_refcount h);
    }

    unrepeated :
        (v : BackendId) (q : Dec (w ≡ v))
        → IsUnrepeated ℕ_discrete (ite q (set_insert ℕ_discrete h (hashes_of p w)) (hashes_of p v))
    unrepeated v (yes q) = set_insert-IsUnrepeated ℕ_discrete h (hashes_of p w) (u w)
    unrepeated v (no q) = u v

pub owners_in-remove :
    (h k : ℕ) (r : List (ℕ × HashEntry))
    → owners_in (remove ℕ_discrete k r) h ≡ ite (ℕ_discrete k h) [] (owners_in r h)
owners_in-remove h k r = elim (ℕ_discrete k h) [
  | yes p ↦ ground (arith, p, lookup-remove ℕ_discrete k h r)
  | no p ↦ ground (arith, p, lookup-remove ℕ_discrete k h r)
]

remove-IsTable : (r : List (ℕ × HashEntry)) (k : ℕ) → IsTable r → IsTable (remove ℕ_discrete k r)
remove-IsTable r k (t, f) = (
  λ h d l. entry h d (ℕ_discrete k h) (sym (lookup-remove ℕ_discrete k h r) ∙ l),
  remove-IsFunctional ℕ_discrete k r f,
)
  where
    entry :
        (h : ℕ) (d : HashEntry) (q : Dec (k ≡ h))
        → ite q none (lookup ℕ_discrete h r) ≡ some d
        → IsEntry d
    entry h d (yes q) l = ground (arith, l)
    entry h d (no q) l = t h d l

-- The entries after the owner `w` has left `e`, that of the hash `h`.
abbrev pub left_by : BackendId → HashEntry → HashEntry
left_by w e = record {
  refcount = e.refcount - 1;
  owners = set_remove BackendId_discrete w e.owners;
}

abbrev pub released : List (ℕ × HashEntry) → ℕ → HashEntry → BackendId → List (ℕ × HashEntry)
released r h e w =
    if e.refcount - 1 == 0 then remove ℕ_discrete h r else insert ℕ_discrete h (left_by w e) r

no_length : (l : List BackendId) → length l ≡ 0 → l ≡ []
no_length [] h = refl
no_length (x ∷ l) h = ground (arith, h)

pub released_lem :
    (r : List (ℕ × HashEntry)) (h : ℕ) (e : HashEntry) (w : BackendId)
    → IsTable r
    → lookup ℕ_discrete h r ≡ some e
    → contains BackendId_discrete w e.owners ≡ true
    → IsTable (released r h e w)
      × ((k : ℕ)
          → owners_in (released r h e w) k
            ≡ ite (ℕ_discrete h k) (set_remove BackendId_discrete w e.owners) (owners_in r k))
released_lem r h e w t l c = elim (ℕ_discrete (e.refcount - 1) 0) [
  | yes z ↦ (
    subst IsTable (sym (choice_yes z)) (remove-IsTable r h t),
    λ k.
        ap (λ m. owners_in m k) (choice_yes z)
        ∙ owners_in-remove k h r
        ∙ ap (λ s. ite (ℕ_discrete h k) s (owners_in r k))
            (sym (no_length (set_remove BackendId_discrete w e.owners) (omega (arith, z, n)))),
  )
  | no z ↦ (
    subst IsTable (sym (choice_no z)) (
        insert-IsTable r h (left_by w e) t (
          omega (arith, n),
          set_remove-IsUnrepeated BackendId_discrete w e.owners i.1,
          omega (arith, z),
        )),
    λ k. ap (λ m. owners_in m k) (choice_no z) ∙ owners_in-insert k h (left_by w e) r,
  )
]
  where
    i : IsEntry e
    i = t.0 h e l

    n : e.refcount ≡ length (set_remove BackendId_discrete w e.owners) + 1
    n = omega (arith, i.0, length-set_remove BackendId_discrete w e.owners i.1 c)

    choice_yes : e.refcount - 1 ≡ 0 → released r h e w ≡ remove ℕ_discrete h r
    choice_yes z = ground (arith, z)

    choice_no : e.refcount - 1 ≢ 0 → released r h e w ≡ insert ℕ_discrete h (left_by w e) r
    choice_no z = ground (arith, z)
