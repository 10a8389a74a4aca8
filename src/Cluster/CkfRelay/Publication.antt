-- ===== src/Cluster/CkfRelay/Publication.antt =====
-- What a flush publishes, and what it leaves.
use hier_kv_gateway.Prelude.{
  ℕ, ◌+◌, ◌%◌, ◌^◌, map, ◌≡◌, refl, sym, ap, ◌∙◌, subst, Option, none, some, List, [], ◌∷◌, ◌++◌,
  ite, if_pos, if_neg, arith, Option-cases, inl, inr, In, Distinct,
}
use hier_kv_gateway.Ids.{PoolId, PoolId_discrete}
use hier_kv_gateway.HashMap.{lookup, keys, In-keys}
use hier_kv_gateway.Interface.DashMap.{DashMap}
use hier_kv_gateway.Metadata.CkfProducer.{CkfProducer, delta, delta_of}
use hier_kv_gateway.Cluster.Messages.{ClusterMessage, ckf_delta}
use hier_kv_gateway.Cluster.CkfRelay.{KvRelay, delta_message, flush_pool, flush_pools, flush}

-- The producer of a pool after it is published.
abbrev published : (List (ℕ × ℕ) → List (ℕ × ℕ)) → Option CkfProducer → Option CkfProducer
published sort none = none
published sort (some p) = some (delta sort p).0

-- The messages for a list of pools and their producers.
abbrev messages_of :
    {F J : Type 0}
    → (List (ℕ × ℕ) → List (ℕ × ℕ))
    → List (PoolId × CkfProducer)
    → List (ClusterMessage F J)
messages_of sort [] = []
messages_of sort ((pool, p) ∷ l) = delta_message pool (delta sort p).1 ++ messages_of sort l

-- The message for the marked buckets of a producer, the last argument.
abbrev pub changes_of :
    {F J : Type 0}
    → (List (ℕ × ℕ) → List (ℕ × ℕ))
    → PoolId
    → CkfProducer
    → List ℕ
    → List (ClusterMessage F J)
changes_of sort pool p [] = []
changes_of sort pool p (i ∷ is) =
    ckf_delta pool ((p.pub_seq + 1) % 2 ^ 64) p.pub_seq
      (sort (map (λ j. (j, p.buckets j)) (i ∷ is)))
    ∷ []

abbrev pub all_changes :
    {F J : Type 0}
    → (List (ℕ × ℕ) → List (ℕ × ℕ))
    → List (PoolId × CkfProducer)
    → List (ClusterMessage F J)
all_changes sort [] = []
all_changes sort ((pool, p) ∷ l) = changes_of sort pool p p.dirty_buckets ++ all_changes sort l

-- The producer when its marks are published.
abbrev pub unmarked : CkfProducer → List ℕ → CkfProducer
unmarked p [] = p
unmarked p (i ∷ is) = record p { pub_seq = (p.pub_seq + 1) % 2 ^ 64; dirty_buckets = [] }

abbrev pub without_marks : Option CkfProducer → Option CkfProducer
without_marks none = none
without_marks (some p) = some (unmarked p p.dirty_buckets)

lookup_absent :
    (k i : PoolId) (l : List (PoolId × CkfProducer))
    → k ≡ i
    → ¬ In k (keys l)
    → lookup PoolId_discrete i l ≡ none
lookup_absent k i l p a = elim (Option-cases (lookup PoolId_discrete i l)) [
  | inl e ↦ e
  | inr (n, e) ↦ absurd (a (subst (λ x. In x (keys l)) (sym p) (In-keys PoolId_discrete i n l e)))
]

lookup-tail :
    (k j : PoolId) (p : CkfProducer) (l : List (PoolId × CkfProducer))
    → ¬ (k ≡ j)
    → lookup PoolId_discrete j ((k, p) ∷ l) ≡ lookup PoolId_discrete j l
unfolding lookup
lookup-tail k j p l n = ground (arith, n)

module _ {P : Type 0} (d : DashMap P PoolId_discrete CkfProducer)
    (sort : List (ℕ × ℕ) → List (ℕ × ℕ)) where
  -- Every pair of the list is in the map.
  abbrev Stored : List (PoolId × CkfProducer) → P → Type 0
  Stored l s =
      (j : PoolId) (p : CkfProducer) → lookup PoolId_discrete j l ≡ some p → d.get j s ≡ some p

  abbrev flushed_by : PoolId → P → Option CkfProducer → Option CkfProducer
  flushed_by i s none = d.get i s
  flushed_by i s (some p) = published sort (some p)

  flushed_by-same :
      (i : PoolId) (s t : P) (o : Option CkfProducer)
      → d.get i s ≡ d.get i t
      → flushed_by i s o ≡ flushed_by i t o
  flushed_by-same i s t none e = e
  flushed_by-same i s t (some p) e = refl

module _ (F J : Type 0) {P : Type 0} (d : DashMap P PoolId_discrete CkfProducer)
    (sort : List (ℕ × ℕ) → List (ℕ × ℕ)) where
  get-flush_pool :
      (pool k : PoolId) (s : P)
      → d.get k (flush_pool {F = F} {J = J} d sort pool s).0
        ≡ ite (PoolId_discrete pool k) (published sort (d.get k s)) (d.get k s)
  unfolding flush_pool
  get-flush_pool pool k s = elim (Option-cases (d.get pool s)) [
    | inl e ↦ elim (PoolId_discrete pool k) [
      | yes q ↦ ground (arith, e, ap (λ x. d.get x s) q)
      | no q ↦ ground (arith, e)
    ]
    | inr (p, e) ↦ elim (PoolId_discrete pool k) [
      | yes q ↦ ground (arith, e, ap (λ x. d.get x s) q, d.get-insert pool k (delta sort p).0 s)
      | no q ↦ ground (arith, e, q, d.get-insert pool k (delta sort p).0 s)
    ]
  ]

  sent-flush_pool :
      (pool : PoolId) (p : CkfProducer) (s : P)
      → d.get pool s ≡ some p
      → (flush_pool {F = F} {J = J} d sort pool s).1 ≡ delta_message pool (delta sort p).1
  unfolding flush_pool
  sent-flush_pool pool p s e = ground (arith, e)

  flushed_by_lem :
      (i : PoolId) (s : P) (o : Option CkfProducer)
      → o ≡ d.get i s
      → flushed_by d sort i s o ≡ published sort (d.get i s)
  flushed_by_lem i s none e = sym e ∙ ap (published sort) e
  flushed_by_lem i s (some p) e = ap (published sort) e

  flush_pools_lem :
      (l : List (PoolId × CkfProducer)) (s : P)
      → Distinct (keys l)
      → Stored d sort l s
      → ((flush_pools {F = F} {J = J} d sort (keys l) s).1 ≡ messages_of sort l)
        × ((i : PoolId)
            → d.get i (flush_pools {F = F} {J = J} d sort (keys l) s).0
              ≡ flushed_by d sort i s (lookup PoolId_discrete i l))
  unfolding flush_pools lookup
  flush_pools_lem [] s a h = (refl, λ i. refl)
  flush_pools_lem ((k, p) ∷ l) s (a, b) h =
      let s' = (flush_pool {F = F} {J = J} d sort k s).0 in
      let stored : Stored d sort l s' = λ j q e.
        let other : ¬ (k ≡ j) =
          λ r. a (subst (λ x. In x (keys l)) (sym r) (In-keys PoolId_discrete j q l e)) in
        get-flush_pool k j s
        ∙ if_neg (PoolId_discrete k j) other _ _
        ∙ h j q (lookup-tail k j p l other ∙ e) in
      let (m, g) = flush_pools_lem l s' b stored in
      let here = h k p (if_pos (PoolId_discrete k k) refl _ _) in
      (
        ap (λ x. x ++ (flush_pools {F = F} {J = J} d sort (keys l) s').1)
              (sent-flush_pool k p s here)
            ∙ ap (λ x. delta_message k (delta sort p).1 ++ x) m,
        λ i. elim (PoolId_discrete k i) [
          | yes q ↦
              g i
              ∙ ap (flushed_by d sort i s') (lookup_absent k i l q a)
              ∙ get-flush_pool k i s
              ∙ if_pos (PoolId_discrete k i) q _ _
              ∙ ap (published sort) (ap (λ x. d.get x s) (sym q) ∙ here)
              ∙ ap (flushed_by d sort i s)
                  (sym (if_pos (PoolId_discrete k i) q (some p) (lookup PoolId_discrete i l)))
          | no q ↦
              g i
              ∙ flushed_by-same d sort i s' s (lookup PoolId_discrete i l)
                  (get-flush_pool k i s ∙ if_neg (PoolId_discrete k i) q _ _)
              ∙ ap (flushed_by d sort i s)
                  (sym (if_neg (PoolId_discrete k i) q (some p) (lookup PoolId_discrete i l)))
        ],
      )

  flush_by_delta :
      (r : KvRelay P)
      → ((flush {F = F} {J = J} d sort r).1 ≡ messages_of sort (d.entries r.producers))
        × ((flush {F = F} {J = J} d sort r).0.pending_count ≡ 0)
        × ((pool : PoolId)
            → d.get pool (flush {F = F} {J = J} d sort r).0.producers
              ≡ published sort (d.get pool r.producers))
  unfolding flush
  flush_by_delta r =
      let l = d.entries r.producers in
      let (m, g) =
        flush_pools_lem l r.producers (d.entries-Distinct r.producers)
          (λ j p e. sym (d.lookup-entries j r.producers) ∙ e) in
      (
        m,
        refl,
        λ pool.
            g pool
            ∙ flushed_by_lem pool r.producers (lookup PoolId_discrete pool l)
                (d.lookup-entries pool r.producers),
      )

  -- Without marks there is nothing to send.
  pub all_changes-unmarked :
      (l : List (PoolId × CkfProducer))
      → Distinct (keys l)
      → ((k : PoolId) (p : CkfProducer)
          → lookup PoolId_discrete k l ≡ some p
          → p.dirty_buckets ≡ [])
      → all_changes {F = F} {J = J} sort l ≡ []
  unfolding lookup
  all_changes-unmarked [] a h = refl
  all_changes-unmarked ((k, p) ∷ l) (a, b) h =
      let here = h k p (if_pos (PoolId_discrete k k) refl _ _) in
      let rest = all_changes-unmarked l b λ j q e.
        let other : ¬ (k ≡ j) =
          λ r. a (subst (λ x. In x (keys l)) (sym r) (In-keys PoolId_discrete j q l e)) in
        h j q (lookup-tail k j p l other ∙ e) in
      ap (λ m. m ++ all_changes sort l) (ap (changes_of sort k p) here) ∙ rest

  changes_of_lem :
      (pool : PoolId) (p : CkfProducer) (marked : List ℕ)
      → delta_message {F = F} {J = J} pool (delta_of sort p marked).1
        ≡ changes_of sort pool p marked
  changes_of_lem pool p [] = refl
  changes_of_lem pool p (i ∷ is) = refl

  all_changes_lem :
      (l : List (PoolId × CkfProducer)) → messages_of {F = F} {J = J} sort l ≡ all_changes sort l
  unfolding delta
  all_changes_lem [] = refl
  all_changes_lem ((pool, p) ∷ l) =
      ap (λ m. m ++ messages_of sort l) (changes_of_lem pool p p.dirty_buckets)
      ∙ ap (λ m. changes_of sort pool p p.dirty_buckets ++ m) (all_changes_lem l)

  delta_of-unmarked :
      (p : CkfProducer) (marked : List ℕ) → (delta_of sort p marked).0 ≡ unmarked p marked
  delta_of-unmarked p [] = refl
  delta_of-unmarked p (i ∷ is) = refl

  published_lem : (o : Option CkfProducer) → published sort o ≡ without_marks o
  unfolding delta
  published_lem none = refl
  published_lem (some p) =
      ap {A = CkfProducer} {B = Option CkfProducer} (λ q. some q)
        (delta_of-unmarked p p.dirty_buckets)

  -- A flush sends one message for each pool that has buckets marked as changed, in the order of the
  -- map's iteration: the marked buckets of its producer with their contents, and its next sequence
  -- number after the last. Afterwards no bucket of these pools is marked and their sequence numbers
  -- are the ones that were sent, the other pools are as before, and nothing is pending.
  pub flush_lem :
      (r : KvRelay P)
      → ((flush {F = F} {J = J} d sort r).1 ≡ all_changes sort (d.entries r.producers))
        × ((flush {F = F} {J = J} d sort r).0.pending_count ≡ 0)
        × ((pool : PoolId)
            → d.get pool (flush {F = F} {J = J} d sort r).0.producers
              ≡ without_marks (d.get pool r.producers))
  flush_lem r =
      let (m, z, g) = flush_by_delta r in
      (
        m ∙ all_changes_lem (d.entries r.producers),
        z,
        λ pool. g pool ∙ published_lem (d.get pool r.producers),
      )
