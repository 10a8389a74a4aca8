-- ===== src/Cluster/CkfRelay/Pending.antt =====
-- The relay under any sequence of calls: what is pending, and that nothing is forgotten.
use hier_kv_gateway.Prelude.{
  ℕ, ◌+◌, ◌≤◌, ◌<◌, ◌≡◌, refl, sym, ◌∙◌, subst, Bool, ◌-◌, ltb, ◌==◌, true, false, Option, none,
  some, List, [], ◌∷◌, if◌then◌else◌, leb, arith, Option-cases, Bool-cases, inl, inr,
}
use hier_kv_gateway.Ids.{PoolId, PoolId_discrete, BackendId, RegionId}
use hier_kv_gateway.Interface.DashMap.{DashMap}
use hier_kv_gateway.Core.KvEvent.{KvCacheEvent}
use hier_kv_gateway.Metadata.CkfProducer.{CkfProducer, delta, delta_of, snapshot}
use hier_kv_gateway.Metadata.CkfProducer as Producer
use hier_kv_gateway.Cluster.Messages.{ClusterMessage}
use hier_kv_gateway.Cluster.CkfRelay.{
  KvRelay, or_new, with_params, flush, apply_event, publish_barrier, start, stop, tick,
}
use hier_kv_gateway.Cluster.CkfRelay.Publication.{
  unmarked, without_marks, all_changes, all_changes-unmarked, flush_lem,
}

pub data RelayCall : Type 0 where
  applied : PoolId → KvCacheEvent → BackendId → RelayCall
  barrier_published : PoolId → RelayCall
  flushed : RelayCall
  ticked : RelayCall
  started : RelayCall
  stopped : RelayCall

unmarked-dirty_buckets :
    (p : CkfProducer) (l : List ℕ) → p.dirty_buckets ≡ l → (unmarked p l).dirty_buckets ≡ []
unmarked-dirty_buckets p [] e = e
unmarked-dirty_buckets p (i ∷ is) e = refl

without_marks-dirty_buckets :
    (o : Option CkfProducer) (q : CkfProducer) → without_marks o ≡ some q → q.dirty_buckets ≡ []
without_marks-dirty_buckets none q e = ground (arith, e)
without_marks-dirty_buckets (some p) q e =
    let same : unmarked p p.dirty_buckets ≡ q = ground (arith, e) in
    subst (λ (x : CkfProducer). x.dirty_buckets ≡ []) same
      (unmarked-dirty_buckets p p.dirty_buckets refl)

module _ (F J : Type 0) {P : Type 0} (d : DashMap P PoolId_discrete CkfProducer)
    (sort : List (ℕ × ℕ) → List (ℕ × ℕ)) (xxh3 : List ℕ → ℕ → ℕ) where
  unfoldable pub relay_call : RelayCall → KvRelay P → KvRelay P
  relay_call (applied pool event backend) r =
      (apply_event {F = F} {J = J} d sort xxh3 pool event backend r).0
  relay_call (barrier_published pool) r = (publish_barrier {F = F} {J = J} d sort pool r).0
  relay_call flushed r = (flush {F = F} {J = J} d sort r).0
  relay_call ticked r = (tick {F = F} {J = J} d sort r).0
  relay_call started r = start r
  relay_call stopped r = stop r

  unfoldable pub relay_calls : List RelayCall → KvRelay P → KvRelay P
  unfolding relay_call
  relay_calls [] r = r
  relay_calls (c ∷ cs) r = relay_calls cs (relay_call c r)

  -- No producer has buckets marked as changed.
  abbrev pub NoneMarked : P → Type 0
  NoneMarked s = (pool : PoolId) (p : CkfProducer) → d.get pool s ≡ some p → p.dirty_buckets ≡ []

  -- Without a pending event nothing is left to publish, and less is pending than the threshold.
  abbrev IsSettled : ℕ → KvRelay P → Type 0
  IsSettled n r =
      (r.publication_threshold ≡ n)
      × (r.pending_count ≡ 0 → NoneMarked r.producers)
      × (1 ≤ n → r.pending_count < n)

  IsSettled-if :
      (n : ℕ) (b : Bool) (x y : KvRelay P × List (ClusterMessage F J))
      → IsSettled n x.0
      → IsSettled n y.0
      → IsSettled n (if b then x else y).0
  IsSettled-if n true x y hx hy = hx
  IsSettled-if n false x y hx hy = hy

  flush-NoneMarked : (r : KvRelay P) → NoneMarked (flush {F = F} {J = J} d sort r).0.producers
  flush-NoneMarked r pool p e =
      without_marks-dirty_buckets (d.get pool r.producers) p
        (sym ((flush_lem F J d sort r).2 pool) ∙ e)

  flush-IsSettled :
      (n : ℕ) (r : KvRelay P)
      → r.publication_threshold ≡ n
      → IsSettled n (flush {F = F} {J = J} d sort r).0
  unfolding flush
  flush-IsSettled n r t = (t, λ e. flush-NoneMarked r, λ h. omega (arith, h))

  apply_event-IsSettled :
      (n : ℕ) (pool : PoolId) (ev : KvCacheEvent) (b : BackendId) (r : KvRelay P)
      → IsSettled n r
      → IsSettled n (apply_event {F = F} {J = J} d sort xxh3 pool ev b r).0
  unfolding apply_event
  apply_event-IsSettled n pool ev b r (t, h, u) =
      let p = Producer.apply_event xxh3 (or_new (d.get pool r.producers)) ev b in
      let next = record r {
        producers = d.insert pool p r.producers;
        pending_count = r.pending_count + 1;
      } in
      let chosen : Bool → KvRelay P =
        λ c. (if c then flush {F = F} {J = J} d sort next else (next, [])).0 in
      elim (Bool-cases (leb r.publication_threshold (r.pending_count + 1))) [
        | inl q ↦ subst (λ c. IsSettled n (chosen c)) (sym q) (flush-IsSettled n next t)
        | inr q ↦
            subst (λ c. IsSettled n (chosen c)) (sym q)
              (t, λ e. absurd (omega (arith, e)), λ g. ground (arith, q, t))
      ]

  insert-NoneMarked :
      (pool : PoolId) (p : CkfProducer) (s : P)
      → p.dirty_buckets ≡ []
      → NoneMarked s
      → NoneMarked (d.insert pool p s)
  insert-NoneMarked pool p s h a k q e = elim (PoolId_discrete pool k) [
    | yes r ↦
        let same : p ≡ q = ground (arith, e, r, d.get-insert pool k p s) in
        subst (λ (x : CkfProducer). x.dirty_buckets ≡ []) same h
    | no r ↦ a k q (ground (arith, e, r, d.get-insert pool k p s))
  ]

  publish_barrier-IsSettled :
      (n : ℕ) (pool : PoolId) (r : KvRelay P)
      → IsSettled n r
      → IsSettled n (publish_barrier {F = F} {J = J} d sort pool r).0
  unfolding publish_barrier snapshot
  publish_barrier-IsSettled n pool r (t, h, u) = elim (Option-cases (d.get pool r.producers)) [
    | inl e ↦
        let same : (publish_barrier {F = F} {J = J} d sort pool r).0 ≡ r = ground (arith, e) in
        subst (IsSettled n) (sym same) (t, h, u)
    | inr (p, e) ↦
        let next = record r { producers = d.insert pool (snapshot p).0 r.producers } in
        let same : (publish_barrier {F = F} {J = J} d sort pool r).0 ≡ next = ground (arith, e) in
        subst (IsSettled n) (sym same)
          (t, λ z. insert-NoneMarked pool (snapshot p).0 r.producers refl (h z), u)
  ]

  tick-IsSettled :
      (n : ℕ) (r : KvRelay P) → IsSettled n r → IsSettled n (tick {F = F} {J = J} d sort r).0
  unfolding tick
  tick-IsSettled n r h =
      let left = if r.running then r.flush_tasks else r.flush_tasks - 1 in
      let next = record r { flush_tasks = left } in
      IsSettled-if n (r.flush_tasks == 0) (r, []) _ h
        (IsSettled-if n (ltb 0 r.pending_count) (flush {F = F} {J = J} d sort next) (next, [])
          (flush-IsSettled n next h.0) h)

  start-IsSettled : (n : ℕ) (r : KvRelay P) → IsSettled n r → IsSettled n (start r)
  unfolding start
  start-IsSettled n r h = elim (Bool-cases r.running) [
    | inl e ↦ subst (λ b. IsSettled n (started_if b)) (sym e) h
    | inr e ↦ subst (λ b. IsSettled n (started_if b)) (sym e) h
  ]
    where
      started_if : Bool → KvRelay P
      started_if b = if b then r else record r { running = true; flush_tasks = r.flush_tasks + 1 }

  relay_call-IsSettled :
      (n : ℕ) (c : RelayCall) (r : KvRelay P) → IsSettled n r → IsSettled n (relay_call c r)
  unfolding relay_call stop
  relay_call-IsSettled n (applied pool event backend) r h =
      apply_event-IsSettled n pool event backend r h
  relay_call-IsSettled n (barrier_published pool) r h = publish_barrier-IsSettled n pool r h
  relay_call-IsSettled n flushed r h = flush-IsSettled n r h.0
  relay_call-IsSettled n ticked r h = tick-IsSettled n r h
  relay_call-IsSettled n started r h = start-IsSettled n r h
  relay_call-IsSettled n stopped r h = h

  relay_calls-IsSettled :
      (n : ℕ) (cs : List RelayCall) (r : KvRelay P) → IsSettled n r → IsSettled n (relay_calls cs r)
  unfolding relay_calls
  relay_calls-IsSettled n [] r h = h
  relay_calls-IsSettled n (c ∷ cs) r h =
      relay_calls-IsSettled n cs (relay_call c r) (relay_call-IsSettled n c r h)

  settled :
      (cs : List RelayCall) (region : RegionId) (n ms : ℕ)
      → IsSettled n (relay_calls cs (with_params d region n ms))
  settled cs region n ms =
      relay_calls-IsSettled n cs (with_params d region n ms)
        (refl, λ z pool p e. ground (arith, e, d.get-empty pool), λ h. omega (arith, h))

  -- After any calls on a new relay: when no event is pending, no pool has buckets marked as changed, so
  -- that the background task, which flushes only when events are pending, forgets none.
  pub relay_calls-NoneMarked :
      (cs : List RelayCall) (region : RegionId) (n ms : ℕ)
      → (relay_calls cs (with_params d region n ms)).pending_count ≡ 0
      → NoneMarked (relay_calls cs (with_params d region n ms)).producers
  relay_calls-NoneMarked cs region n ms z = (settled cs region n ms).1 z

  -- After any calls on a new relay whose threshold is not 0, fewer events are pending than the
  -- threshold.
  pub relay_calls-pending_count :
      (cs : List RelayCall) (region : RegionId) (n ms : ℕ)
      → 1 ≤ n
      → (relay_calls cs (with_params d region n ms)).pending_count < n
  relay_calls-pending_count cs region n ms h = (settled cs region n ms).2 h

  NoneMarked-all_changes :
      (s : P) → NoneMarked s → all_changes {F = F} {J = J} sort (d.entries s) ≡ []
  NoneMarked-all_changes s h =
      all_changes-unmarked F J d sort (d.entries s) (d.entries-Distinct s)
        (λ k p e. h k p (sym (d.lookup-entries k s) ∙ e))

  -- What a tick sends, and leaves.
  abbrev Ticked : P → KvRelay P × List (ClusterMessage F J) → Type 0
  Ticked s t =
      (t.1 ≡ all_changes sort (d.entries s)) × (t.0.pending_count ≡ 0) × NoneMarked t.0.producers

  tick_lem :
      (n : ℕ) (r : KvRelay P)
      → IsSettled n r
      → 1 ≤ r.flush_tasks
      → Ticked r.producers (tick {F = F} {J = J} d sort r)
  unfolding tick
  tick_lem n r (t, h, u) f =
      let next = record r {
        flush_tasks = if r.running then r.flush_tasks else r.flush_tasks - 1;
      } in
      elim (Bool-cases (ltb 0 r.pending_count)) [
        | inl q ↦
            let same : tick {F = F} {J = J} d sort r ≡ flush d sort next = ground (arith, q, f) in
            let (m, z, g) = flush_lem F J d sort next in
            subst (Ticked r.producers) (sym same) (m, z, flush-NoneMarked next)
        | inr q ↦
            let same : tick {F = F} {J = J} d sort r ≡ (next, []) = ground (arith, q, f) in
            let zero_pending : r.pending_count ≡ 0 = ground (arith, q) in
            subst (Ticked r.producers) (sym same) (
              sym (NoneMarked-all_changes r.producers (h zero_pending)),
              zero_pending,
              h zero_pending,
            )
      ]

  -- After any calls on a new relay, a tick of a background task sends the marked buckets of every pool
  -- that has some, each pool's in one message with their contents and its next sequence number, also
  -- where no event is pending. Afterwards no event is pending and no bucket is marked. A reset clears
  -- the marks with the buckets, so that it is not among what is sent.
  pub tick-NoneMarked :
      (cs : List RelayCall) (region : RegionId) (n ms : ℕ)
      → 1 ≤ (relay_calls cs (with_params d region n ms)).flush_tasks
      → let before = relay_calls cs (with_params d region n ms) in
        let t = tick {F = F} {J = J} d sort before in
        (t.1 ≡ all_changes sort (d.entries before.producers))
        × (t.0.pending_count ≡ 0)
        × NoneMarked t.0.producers
  tick-NoneMarked cs region n ms h =
      tick_lem n (relay_calls cs (with_params d region n ms)) (settled cs region n ms) h
