-- ===== src/Routing/TenantScheduler/Isolation.antt =====
-- Tenants do not influence each other's buckets.
use hier_kv_gateway.Prelude.{
  ℕ, ◌+◌, ◌-◌, ◌%◌, ◌^◌, ◌≡◌, refl, sym, ap, ◌∙◌, Option, none, some, List, [], ◌∷◌, if◌then◌else◌,
  ite, Bool-cases, Option-cases, inl, inr,
}
use hier_kv_gateway.Ids.{TenantId, TenantId_discrete}
use hier_kv_gateway.Interface.DashMap.{DashMap}
use hier_kv_gateway.Routing.TenantScheduler.{
  Float, TenantConfig, TenantBucket, TenantScheduler, try_consume, update_capacity, bucket_of,
  get_or_create_bucket, check_admission, record_request_start, record_request_end,
}

pub data Call : Type 0 where
  check : TenantId → ℕ → Call
  start : TenantId → ℕ → Call
  finish : TenantId → Call
  capacity : ℕ → ℕ → Call

-- The bucket of a tenant after its own calls, from its bucket before.
module _ {F M : Type 0} (fl : Float F) (dm : DashMap M TenantId_discrete (TenantBucket F)) where
  abbrev consumed : ℕ → TenantBucket F → TenantBucket F
  consumed now b = record b { bucket = (try_consume fl (fl.of_u64 1) now b.bucket).1 }

  abbrev started : TenantBucket F → TenantBucket F
  started b = record b { in_flight = (b.in_flight + 1) % 2 ^ 64 }

  abbrev finished : Option (TenantBucket F) → Option (TenantBucket F)
  finished none = none
  finished (some b) = some (record b { in_flight = (b.in_flight + (2 ^ 64 - 1)) % 2 ^ 64 })

  unfoldable pub own_call :
      TenantConfig F → TenantId → Call → Option (TenantBucket F) → Option (TenantBucket F)
  own_call cfg u (check t now) o =
      ite (TenantId_discrete t u)
        (if cfg.enabled then some (consumed now (bucket_of fl dm cfg u now o)) else o) o
  own_call cfg u (start t now) o =
      ite (TenantId_discrete t u) (some (started (bucket_of fl dm cfg u now o))) o
  own_call cfg u (finish t) o = ite (TenantId_discrete t u) (finished o) o
  own_call cfg u (capacity total used) o = o

  unfoldable pub own_calls :
      TenantConfig F → TenantId → List Call → Option (TenantBucket F) → Option (TenantBucket F)
  unfolding own_call
  own_calls cfg u [] o = o
  own_calls cfg u (c ∷ cs) o = own_calls cfg u cs (own_call cfg u c o)

  unfoldable pub act : Call → TenantScheduler F M → TenantScheduler F M
  act (check t now) s = (check_admission fl dm t now s).1
  act (start t now) s = record_request_start fl dm t now s
  act (finish t) s = record_request_end fl dm t s
  act (capacity total used) s = update_capacity fl dm total used s

  unfoldable pub act_all : List Call → TenantScheduler F M → TenantScheduler F M
  unfolding act
  act_all [] s = s
  act_all (c ∷ cs) s = act_all cs (act c s)

  -- What a call leaves of the configuration and of the bucket of `u`.
  abbrev Left : TenantId → Call → TenantScheduler F M → TenantScheduler F M → Type 0
  Left u c s s' =
      (s'.config ≡ s.config) × (dm.get u s'.buckets ≡ own_call s.config u c (dm.get u s.buckets))

  put :
      (u t : TenantId) (f : TenantId → Option (TenantBucket F) → TenantBucket F) (m : M)
      → dm.get u (dm.insert t (f t (dm.get t m)) m)
        ≡ ite (TenantId_discrete t u) (some (f u (dm.get u m))) (dm.get u m)
  put u t f m = dm.get-insert t u (f t (dm.get t m)) m ∙ same (TenantId_discrete t u)
    where
      same :
          (q : Dec (t ≡ u))
          → ite q (some (f t (dm.get t m))) (dm.get u m)
            ≡ ite q (some (f u (dm.get u m))) (dm.get u m)
      same (yes e) = ap (λ v. some (f v (dm.get v m))) e
      same (no e) = refl

  ite_same : {P : Type 0} (q : Dec P) (o : Option (TenantBucket F)) → o ≡ ite q o o
  ite_same (yes e) o = refl
  ite_same (no e) o = refl

  -- The bucket that a check reads and writes.
  check-Left :
      (u t : TenantId) (now : ℕ) (s : TenantScheduler F M)
      → Left u (check t now) s (check_admission fl dm t now s).1
  unfolding check_admission own_call get_or_create_bucket
  check-Left u t now s = elim (Bool-cases s.config.enabled) [
    | inr z ↦ rw (check_admission, z) (refl, ite_same (TenantId_discrete t u) (dm.get u s.buckets))
    | inl z ↦
        let p = put u t (λ v o. consumed now (bucket_of fl dm s.config v now o)) s.buckets in
        elim (Bool-cases
          (try_consume fl (fl.of_u64 1) now
            (bucket_of fl dm s.config t now (dm.get t s.buckets)).bucket).0) [
              | inr c ↦ rw (check_admission, z, c) (refl, p)
              | inl c ↦ rw (check_admission, z, c) (refl, p)
            ]
  ]

  finish-Left :
      (u t : TenantId) (s : TenantScheduler F M)
      → Left u (finish t) s (record_request_end fl dm t s)
  unfolding record_request_end own_call
  finish-Left u t s = elim (Option-cases (dm.get t s.buckets)) [
    | inl e ↦ rw (record_request_end, e) (refl, absent (TenantId_discrete t u) e)
    | inr (b, e) ↦
        rw (record_request_end, e)
          (refl, dm.get-insert t u _ s.buckets ∙ present b (TenantId_discrete t u) e)
  ]
    where
      absent :
          (q : Dec (t ≡ u))
          → dm.get t s.buckets ≡ none
          → dm.get u s.buckets ≡ ite q (finished (dm.get u s.buckets)) (dm.get u s.buckets)
      absent (yes d) e = let n = sym (ap (λ v. dm.get v s.buckets) d) ∙ e in n ∙ sym (ap finished n)
      absent (no d) e = refl

      present :
          (b : TenantBucket F) (q : Dec (t ≡ u))
          → dm.get t s.buckets ≡ some b
          → ite q (finished (some b)) (dm.get u s.buckets)
            ≡ ite q (finished (dm.get u s.buckets)) (dm.get u s.buckets)
      present b (yes d) e = ap finished (sym e ∙ ap (λ v. dm.get v s.buckets) d)
      present b (no d) e = refl

  act-Left : (u : TenantId) (c : Call) (s : TenantScheduler F M) → Left u c s (act c s)
  unfolding act own_call record_request_start get_or_create_bucket update_capacity
  act-Left u (check t now) s = check-Left u t now s
  act-Left u (start t now) s =
      (refl, put u t (λ v o. started (bucket_of fl dm s.config v now o)) s.buckets)
  act-Left u (finish t) s = finish-Left u t s
  act-Left u (capacity total used) s = (refl, refl)

  -- Whatever calls are made, the bucket of each tenant, with its tokens and its count of requests in
  -- flight, is what the calls that name this tenant make of it, one after the other, where it starts
  -- from the configured quota: the calls of other tenants do not change it.
  pub get-act_all :
      (u : TenantId) (cs : List Call) (s : TenantScheduler F M)
      → dm.get u (act_all cs s).buckets ≡ own_calls s.config u cs (dm.get u s.buckets)
  unfolding act_all own_calls
  get-act_all u [] s = refl
  get-act_all u (c ∷ cs) s =
      let (e, g) = act-Left u c s in
      get-act_all u cs (act c s)
      ∙ ap (λ k. own_calls k u cs (dm.get u (act c s).buckets)) e
      ∙ ap (λ o. own_calls s.config u cs o) g
