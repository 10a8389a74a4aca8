-- ===== src/Metadata/CkfConsumer/Installation.antt =====
-- Lanes that follow a producer.
use hier_kv_gateway.Prelude.{
  ℕ, zero, suc, ◌+◌, ◌≤◌, ◌<◌, ◌≡◌, ◌≢◌, refl, sym, ap, ◌∙◌, true, false, Option, none, some, List,
  [], ◌∷◌, inl, inr, ◌⊎◌, ◌↔◌, arith, ℕ_discrete, if◌then◌else◌, ◌==◌, ltb, ltb_iff, In, map,
  Bool-cases,
}
use hier_kv_gateway.Ids.{BackendId}
use hier_kv_gateway.HashSet.{contains}
use hier_kv_gateway.Core.KvEvent.{KvCacheEvent}
use hier_kv_gateway.Metadata.CuckooFilter.{buckets_per_lane, CkfSnapshot, CkfDelta}
use hier_kv_gateway.Metadata.CkfProducer.{CkfProducer, snapshot, delta, delta_of, reset_internal}
use hier_kv_gateway.Metadata.CkfProducer.Buckets.{IsPacked}
use hier_kv_gateway.Metadata.CkfProducer.Dirty.{apply_all, NoReset, apply_all-Kept}
use hier_kv_gateway.Metadata.CkfConsumer.{
  CkfConsumer, lane_count, set_cell, install_buckets, install_snapshot, write_buckets, apply_delta,
  is_lane_active, set_status, lane_active, lane_retired,
}

install_buckets_lem :
    (n i lane : ℕ) (values : ℕ → ℕ) (b : ℕ → ℕ → ℕ) (j k : ℕ)
    → ((i ≤ j → j < i + n → install_buckets n i lane values b j lane ≡ values j)
        × (j < i ⊎ lane ≢ k → install_buckets n i lane values b j k ≡ b j k))
unfolding install_buckets
install_buckets_lem zero i lane values b j k = (λ p q. absurd (omega arith), λ o. refl)
install_buckets_lem (suc n) i lane values b j k =
    let (inside, outside) =
      install_buckets_lem n (suc i) lane values (set_cell b i lane (values i)) j k in
    let (_, here) =
      install_buckets_lem n (suc i) lane values (set_cell b i lane (values i)) j lane in
    (
      (λ p q. elim (ℕ_discrete i j) [
        | yes e ↦ here (inl (omega arith)) ∙ ground (arith, e, ap values e)
        | no e ↦ inside (omega arith) (omega arith)
      ]),
      λ o. elim o [
        | inl p ↦ outside (inl (omega arith)) ∙ ground arith
        | inr p ↦ outside (inr p) ∙ ground arith
      ],
    )

-- A delta whose values are those of `f`: it sets its buckets, and leaves right what was.
write_buckets_lem :
    (lane : ℕ) (l : List (ℕ × ℕ)) (f : ℕ → ℕ) (b : ℕ → ℕ → ℕ)
    → lane < lane_count
    → ((x : ℕ × ℕ) → In x l → x.1 ≡ f x.0)
    → (b' : ℕ → ℕ → ℕ) × (write_buckets lane l b ≡ some b')
      × ((j : ℕ) → j < buckets_per_lane → In (j, f j) l ⊎ (b j lane ≡ f j) → b' j lane ≡ f j)
      × ((j k : ℕ) → lane ≢ k → b' j k ≡ b j k)
unfolding write_buckets
write_buckets_lem lane [] f b h v =
    (b, refl, (λ j q o. elim o [ inl i ↦ absurd i | inr e ↦ e ]), λ j k n. refl)
write_buckets_lem lane ((i, w) ∷ l) f b h v = elim (Bool-cases (ltb i buckets_per_lane)) [
  | inl c ↦
      let (b', e, inside, other) =
        write_buckets_lem lane l f (set_cell b i lane w) h (λ x m. v x (inr m)) in
      (
        b',
        ground (arith, c, h, e),
        (λ j q o. inside j q (elim o [
          | inl (inl m) ↦ inr (ground (arith, ap (λ t. t.0) m, ap (λ t. t.1) m))
          | inl (inr m) ↦ inl m
          | inr r ↦ inr (ground (arith, r, v (i, w) (inl refl), right i j))
        ])),
        λ j k n. other j k n ∙ ground (arith, n),
      )
  | inr c ↦
      let (b', e, inside, other) = write_buckets_lem lane l f b h (λ x m. v x (inr m)) in
      (
        b',
        ground (arith, c, e),
        (λ j q o. inside j q (elim o [
          | inl (inl m) ↦ absurd (ground (arith, c, q, ap (λ t. t.0) m))
          | inl (inr m) ↦ inl m
          | inr r ↦ inr r
        ])),
        other,
      )
]
  where
    right : (i j : ℕ) → i ≡ j → f i ≡ f j
    right i j e = ap f e

In-map :
    (j : ℕ) (f : ℕ → ℕ) (d : List ℕ)
    → contains ℕ_discrete j d ≡ true
    → In {A = ℕ × ℕ} (j, f j) (map (λ i. (i, f i)) d)
unfolding contains
In-map j f [] c = ground (arith, c)
In-map j f (i ∷ d) c = elim (ℕ_discrete i j) [
  | yes e ↦ inl (ap (λ t. (t, f t)) (sym e))
  | no e ↦ inr (In-map j f d (ground (arith, c, e)))
]

map-In : (x : ℕ × ℕ) (f : ℕ → ℕ) (d : List ℕ) → In x (map (λ i. (i, f i)) d) → x.1 ≡ f x.0
map-In x f [] m = absurd m
map-In x f (i ∷ d) (inl e) = ap (λ t. t.1) e ∙ sym (ap (λ t. f t.0) e)
map-In x f (i ∷ d) (inr m) = map-In x f d m

status : (lane x : ℕ) → ((if lane == lane then lane_active else x) == lane_active) ≡ true
status lane x = ground arith

install_snapshot_lem :
    (lane : ℕ) (s : CkfSnapshot) (c : CkfConsumer)
    → lane < lane_count
    → (c' : CkfConsumer) × (install_snapshot lane s c ≡ some c')
      × (is_lane_active lane c' ≡ some true)
      × ((j : ℕ) → j < buckets_per_lane → c'.buckets j lane ≡ s.buckets j)
      × ((j k : ℕ) → lane ≢ k → c'.buckets j k ≡ c.buckets j k)
unfolding install_snapshot is_lane_active
install_snapshot_lem lane s c h = (
  installed,
  ap (λ b. if b then some installed else none) ((ltb_iff lane lane_count).1 h),
  ap (λ b. if b then some (installed.lane_status lane == lane_active) else none)
        ((ltb_iff lane lane_count).1 h)
      ∙ ap some (status lane _),
  (λ j q.
      (install_buckets_lem buckets_per_lane 0 lane s.buckets c.buckets j lane).0 (omega arith) q),
  λ j k n. (install_buckets_lem buckets_per_lane 0 lane s.buckets c.buckets j k).1 (inr n),
)
  where
    installed : CkfConsumer
    installed = set_status lane lane_active (record (set_status lane lane_retired c) {
      buckets = install_buckets buckets_per_lane 0 lane s.buckets c.buckets;
    })

-- What a lane receives of a delta, if there is one.
abbrev pub receive : ℕ → Option CkfDelta → CkfConsumer → Option CkfConsumer
receive lane none c = some c
receive lane (some d) c = apply_delta lane d c

receive-delta_of :
    (sort : List (ℕ × ℕ) → List (ℕ × ℕ)) (p : CkfProducer) (lane : ℕ) (c : CkfConsumer) (d : List ℕ)
    → ((l : List (ℕ × ℕ)) (x : ℕ × ℕ) → In x (sort l) ↔ In x l)
    → lane < lane_count
    → ((j : ℕ)
        → j < buckets_per_lane
        → contains ℕ_discrete j d ≡ false
        → c.buckets j lane ≡ p.buckets j)
    → (c' : CkfConsumer) × (receive lane (delta_of sort p d).1 c ≡ some c')
      × ((j : ℕ) → j < buckets_per_lane → c'.buckets j lane ≡ p.buckets j)
      × ((j k : ℕ) → lane ≢ k → c'.buckets j k ≡ c.buckets j k)
unfolding apply_delta contains
receive-delta_of sort p lane c [] members h f = (c, refl, (λ j q. f j q refl), λ j k n. refl)
receive-delta_of sort p lane c (i ∷ is) members h f =
    let l : List (ℕ × ℕ) = map (λ j. (j, p.buckets j)) (i ∷ is) in
    let (b, e, inside, other) =
      write_buckets_lem lane (sort l) p.buckets c.buckets h
        (λ x m. map-In x p.buckets (i ∷ is) ((members l x).0 m)) in
    (
      record c { buckets = b },
      rw (apply_delta, e) refl,
      (λ j q. inside j q (elim (Bool-cases (contains ℕ_discrete j (i ∷ is))) [
        | inl y ↦ inl ((members l (j, p.buckets j)).1 (In-map j p.buckets (i ∷ is) y))
        | inr n ↦ inr (f j q n)
      ])),
      other,
    )

-- A lane below 16 that installs the snapshot of a producer with buckets of 64 bits and later receives
-- its delta, after any events of the producer between the two but a reset, holds the producer's
-- buckets, also where insertions failed or there was nothing to send; the other lanes keep theirs.
-- The delta's order may be any one that keeps its pairs.
pub delta-install_snapshot :
    (xxh3 : List ℕ → ℕ → ℕ) (sort : List (ℕ × ℕ) → List (ℕ × ℕ)) (p : CkfProducer)
    (es : List (KvCacheEvent × BackendId)) (lane : ℕ) (c : CkfConsumer)
    → ((l : List (ℕ × ℕ)) (x : ℕ × ℕ) → In x (sort l) ↔ In x l)
    → IsPacked p.buckets
    → NoReset es
    → lane < lane_count
    → (c1 c2 : CkfConsumer) × (install_snapshot lane (snapshot p).1 c ≡ some c1)
      × (receive lane (delta sort (apply_all xxh3 (snapshot p).0 es)).1 c1 ≡ some c2)
      × ((j : ℕ)
          → j < buckets_per_lane
          → c2.buckets j lane ≡ (apply_all xxh3 (snapshot p).0 es).buckets j)
      × ((j k : ℕ) → lane ≢ k → c2.buckets j k ≡ c.buckets j k)
unfolding snapshot delta
delta-install_snapshot xxh3 sort p es lane c members k n h =
    let p0 = (snapshot p).0 in
    let p1 = apply_all xxh3 p0 es in
    let (c1, e1, active, same1, other1) = install_snapshot_lem lane (snapshot p).1 c h in
    let (k1, marked) = apply_all-Kept xxh3 p0 es k n in
    let (c2, e2, same2, other2) =
      receive-delta_of sort p1 lane c1 p1.dirty_buckets members h
        (λ j q u. same1 j q ∙ sym (marked j u).0) in
    (c1, c2, e1, e2, same2, λ j k d. other2 j k d ∙ other1 j k d)

-- After a reset the producer has no delta to send, whatever its buckets held, though every bucket
-- of it is empty from then on.
pub delta-reset_internal :
    (xxh3 : List ℕ → ℕ → ℕ) (sort : List (ℕ × ℕ) → List (ℕ × ℕ)) (p : CkfProducer) (lane : ℕ)
    (c : CkfConsumer)
    → (receive lane (delta sort (reset_internal xxh3 p)).1 c ≡ some c)
      × ((j : ℕ) → (reset_internal xxh3 p).buckets j ≡ 0)
unfolding delta reset_internal
delta-reset_internal xxh3 sort p lane c = (refl, λ j. refl)
