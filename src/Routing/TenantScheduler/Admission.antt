-- ===== src/Routing/TenantScheduler/Admission.antt =====
-- What the decisions promise, and that tenants do not influence each other's buckets.
use hier_kv_gateway.Prelude.{
  ℕ, ◌+◌, ◌-◌, ◌%◌, ◌^◌, ◌≤◌, ap, if_pos, if◌then◌else◌, ◌<◌, ◌≡◌, ◌≢◌, refl, sym, ◌∙◌, max, Bool,
  true, false, Option, none, some, leb, arith, Bool-cases, inl, inr,
}
use hier_kv_gateway.Ids.{TenantId, TenantId_discrete}
use hier_kv_gateway.Interface.DashMap.{DashMap}
use hier_kv_gateway.Routing.TenantScheduler.{
  Float, TenantPriority, background, normal, premium, is_premium, AdmissionDecision, admitted,
  rate_limited, queued, TenantBucket, TenantScheduler, try_consume, time_until_available,
  saturation_state, get_or_create_bucket, put_bucket, by_priority, by_concurrency, check_admission,
  unwrap_or, TokenBucket, refill, bucket_of, record_request_start, Reason, exceeded_rps,
  at_max_concurrent,
}

module _ {F M : Type 0} (fl : Float F) (dm : DashMap M TenantId_discrete (TenantBucket F)) where
  -- Whether the used capacity has reached the configured threshold.
  abbrev pub is_over : TenantScheduler F M → Bool
  is_over s = fl.le s.config.saturation_threshold (saturation_state fl dm s).capacity_used

  by_priority-queued :
      (s : TenantScheduler F M) (p : TenantPriority)
      → by_priority fl dm s p ≡ queued
      → (is_over s ≡ true) × (is_premium p ≡ false)
  unfolding by_priority
  by_priority-queued s background e = ground (arith, e)
  by_priority-queued s normal e = ground (arith, e)
  by_priority-queued s premium e = ground (arith, e)

  -- A bucket below its limit of concurrent requests, if it has one.
  abbrev HasRoom : Option ℕ → ℕ → Type 0
  HasRoom none n = Unit
  HasRoom (some m) n = n < m

  limited_ne : (n : ℕ) (r : Reason F) (d : AdmissionDecision F) → rate_limited n r ≡ d → d ≢ queued
  limited_ne n r d e q = ground (arith, e, q)

  limited-ne_admitted :
      (n : ℕ) (r : Reason F) (d : AdmissionDecision F) → rate_limited n r ≡ d → d ≢ admitted
  limited-ne_admitted n r d e q = ground (arith, e, q)

  by_concurrency-queued :
      (s : TenantScheduler F M) (t : TenantId) (b : TenantBucket F)
      → by_concurrency fl dm s t b ≡ queued
      → (is_over s ≡ true) × (is_premium b.quota.priority ≡ false)
  unfolding by_concurrency
  by_concurrency-queued s t b e = go b.quota.max_concurrent refl
    where
      go :
          (o : Option ℕ)
          → b.quota.max_concurrent ≡ o
          → (is_over s ≡ true) × (is_premium b.quota.priority ≡ false)
      go none q = by_priority-queued s b.quota.priority (sym (rw (by_concurrency, q) refl) ∙ e)
      go (some m) q = elim (Bool-cases (leb m b.in_flight)) [
        | inl l ↦ absurd (
            limited_ne 1 (at_max_concurrent t m) (by_concurrency fl dm s t b)
              (sym (rw (by_concurrency, q, l) refl)) e)
        | inr l ↦ by_priority-queued s b.quota.priority (sym (rw (by_concurrency, q, l) refl) ∙ e)
      ]

  by_concurrency-admitted :
      (s : TenantScheduler F M) (t : TenantId) (b : TenantBucket F)
      → by_concurrency fl dm s t b ≡ admitted
      → HasRoom b.quota.max_concurrent b.in_flight
  unfolding by_concurrency
  by_concurrency-admitted s t b e = go b.quota.max_concurrent refl
    where
      go : (o : Option ℕ) → b.quota.max_concurrent ≡ o → HasRoom o b.in_flight
      go none q = tt
      go (some m) q = elim (Bool-cases (leb m b.in_flight)) [
        | inl l ↦ absurd (
            limited-ne_admitted 1 (at_max_concurrent t m) (by_concurrency fl dm s t b)
              (sym (rw (by_concurrency, q, l) refl)) e)
        | inr l ↦ ground (arith, l)
      ]

  -- What a refusal for want of a token says, and the state after the first check.
  abbrev limit : TenantId → ℕ → TenantScheduler F M → ℕ × Reason F
  limit t now s =
      let b = get_or_create_bucket fl dm t now s in
      (
        max
            (fl.ceil_u64
              (time_until_available fl (fl.of_u64 1) (try_consume fl (fl.of_u64 1) now b.bucket).1))
            1,
        exceeded_rps t (unwrap_or fl.max_value b.quota.max_rps),
      )

  abbrev next_state : TenantId → ℕ → TenantScheduler F M → TenantScheduler F M
  next_state t now s =
      let b = get_or_create_bucket fl dm t now s in
      put_bucket fl dm t (record b { bucket = (try_consume fl (fl.of_u64 1) now b.bucket).1 }) s

  -- Only a request of a tenant that is not premium is queued, and only where admission by tenant is
  -- on and the used capacity has reached the configured threshold.
  pub check_admission-queued :
      (t : TenantId) (now : ℕ) (s : TenantScheduler F M)
      → (check_admission fl dm t now s).0 ≡ queued
      → (s.config.enabled ≡ true)
        × (is_over s ≡ true)
        × (is_premium (get_or_create_bucket fl dm t now s).quota.priority ≡ false)
  unfolding check_admission
  check_admission-queued t now s e = elim (Bool-cases s.config.enabled) [
    | inr z ↦
        absurd
          (admitted_ne (check_admission fl dm t now s).0 (sym (rw (check_admission, z) refl)) e)
    | inl z ↦
        elim (Bool-cases
          (try_consume fl (fl.of_u64 1) now (get_or_create_bucket fl dm t now s).bucket).0) [
            | inr c ↦ absurd (
                limited_ne (limit t now s).0 (limit t now s).1 (check_admission fl dm t now s).0
                  (sym (rw (check_admission, z, c) refl)) e)
            | inl c ↦
                let q =
                  by_concurrency-queued (next_state t now s) t (get_or_create_bucket fl dm t now s)
                    (sym (rw (check_admission, z, c) refl) ∙ e) in
                (z, q.0, q.1)
          ]
  ]
    where
      admitted_ne : (d : AdmissionDecision F) → admitted ≡ d → d ≢ queued
      admitted_ne d e q = ground (arith, e, q)

  admitted_by :
      (t : TenantId) (now : ℕ) (s : TenantScheduler F M)
      → s.config.enabled ≡ true
      → (check_admission fl dm t now s).0 ≡ admitted
      → ((try_consume fl (fl.of_u64 1) now (get_or_create_bucket fl dm t now s).bucket).0 ≡ true)
        × HasRoom
            (get_or_create_bucket fl dm t now s).quota.max_concurrent
            (get_or_create_bucket fl dm t now s).in_flight
  unfolding check_admission
  admitted_by t now s z e =
      elim (Bool-cases
        (try_consume fl (fl.of_u64 1) now (get_or_create_bucket fl dm t now s).bucket).0) [
          | inr c ↦ absurd (
              limited-ne_admitted (limit t now s).0 (limit t now s).1
                (check_admission fl dm t now s).0 (sym (rw (check_admission, z, c) refl)) e)
          | inl c ↦ (
            c,
            by_concurrency-admitted (next_state t now s) t (get_or_create_bucket fl dm t now s)
                (sym (rw (check_admission, z, c) refl) ∙ e),
          )
        ]

  -- The tokens of a bucket when it has been refilled: what came in since, up to the burst.
  abbrev pub tokens_at : ℕ → TokenBucket F → F
  tokens_at now b =
      if fl.lt (fl.of_u64 0) (fl.as_secs (now - b.last_refill))
      then fl.min_of (fl.add b.tokens (fl.mul (fl.as_secs (now - b.last_refill)) b.rate))
          b.max_burst
      else b.tokens

  -- A number of requests that a limit allows, if there is one.
  abbrev pub IsAllowed : Option ℕ → ℕ → Type 0
  IsAllowed none n = Unit
  IsAllowed (some m) n = n ≤ m

  HasRoom-IsAllowed : (o : Option ℕ) (n : ℕ) → HasRoom o n → IsAllowed o ((n + 1) % 2 ^ 64)
  HasRoom-IsAllowed none n h = tt
  HasRoom-IsAllowed (some m) n h = omega (arith, h)

  refill-tokens_at : (now : ℕ) (b : TokenBucket F) → (refill fl now b).tokens ≡ tokens_at now b
  unfolding refill
  refill-tokens_at now b = ground arith

  try_consume-tokens_at :
      (n : F) (now : ℕ) (b : TokenBucket F)
      → (try_consume fl n now b).0 ≡ true
      → (fl.le n (tokens_at now b) ≡ true)
        × ((try_consume fl n now b).1.tokens ≡ fl.sub (tokens_at now b) n)
  unfolding try_consume
  try_consume-tokens_at n now b e = ground (arith, e, refill-tokens_at now b)

  check_admission-next_state :
      (t : TenantId) (now : ℕ) (s : TenantScheduler F M)
      → s.config.enabled ≡ true
      → (check_admission fl dm t now s).1 ≡ next_state t now s
  unfolding check_admission
  check_admission-next_state t now s z =
      elim (Bool-cases
        (try_consume fl (fl.of_u64 1) now (get_or_create_bucket fl dm t now s).bucket).0) [
          | inl c ↦ rw (check_admission, z, c) refl
          | inr c ↦ rw (check_admission, z, c) refl
        ]

  get-put_bucket :
      (t : TenantId) (b : TenantBucket F) (s : TenantScheduler F M)
      → dm.get t (put_bucket fl dm t b s).buckets ≡ some b
  get-put_bucket t b s = dm.get-insert t t b s.buckets ∙ if_pos (TenantId_discrete t t) refl _ _

  get-record_request_start :
      (t : TenantId) (now : ℕ) (b : TenantBucket F) (s : TenantScheduler F M)
      → dm.get t (record_request_start fl dm t now (put_bucket fl dm t b s)).buckets
        ≡ some (record b { in_flight = (b.in_flight + 1) % 2 ^ 64 })
  unfolding record_request_start get_or_create_bucket bucket_of
  get-record_request_start t now b s =
      get-put_bucket t _ (put_bucket fl dm t b s)
      ∙ ap {A = TenantBucket F} {B = Option (TenantBucket F)}
          (λ c. some (record c { in_flight = (c.in_flight + 1) % 2 ^ 64 }))
          (ap (bucket_of fl dm s.config t now) (get-put_bucket t b s))

  -- Where admission by tenant is on, a request is admitted only if the refilled bucket of its tenant
  -- has a token. Once it is recorded as started, before any other call, the bucket of the tenant has
  -- its quota as before, one token less, and no more requests in flight than the quota allows.
  pub check_admission-admitted :
      (t : TenantId) (now later : ℕ) (s : TenantScheduler F M)
      → s.config.enabled ≡ true
      → (check_admission fl dm t now s).0 ≡ admitted
      → let b = get_or_create_bucket fl dm t now s in
        (fl.le (fl.of_u64 1) (tokens_at now b.bucket) ≡ true)
        × (c : TenantBucket F) × (dm.get t
              (record_request_start fl dm t later (check_admission fl dm t now s).1).buckets
            ≡ some c)
        × (c.quota ≡ b.quota)
        × (c.bucket.tokens ≡ fl.sub (tokens_at now b.bucket) (fl.of_u64 1))
        × IsAllowed b.quota.max_concurrent c.in_flight
  check_admission-admitted t now later s z e =
      let b = get_or_create_bucket fl dm t now s in
      let (c, room) = admitted_by t now s z e in
      let (enough, rest) = try_consume-tokens_at (fl.of_u64 1) now b.bucket c in
      let left = record b { bucket = (try_consume fl (fl.of_u64 1) now b.bucket).1 } in
      (
        enough,
        record left { in_flight = (b.in_flight + 1) % 2 ^ 64 },
        ap (λ r. dm.get t (record_request_start fl dm t later r).buckets)
              (check_admission-next_state t now s z)
            ∙ get-record_request_start t later left s,
        refl,
        rest,
        HasRoom-IsAllowed b.quota.max_concurrent b.in_flight room,
      )
