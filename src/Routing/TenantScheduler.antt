-- ===== src/Routing/TenantScheduler.antt =====
-- crates/hier-kv-gateway-routing/src/tenant_scheduler.rs with crates/hier-kv-gateway-core/src/tenant.rs:
-- the admission of requests by tenant. `F` is the type of `f64` with its operations in `Float`, an
-- `Instant` a number of nanoseconds and the clock's reading an argument. The text of a reason is kept
-- as its parts. A bucket is shared by its `Arc` and never replaced, so it stands in the map itself,
-- whose type is `M`.
pub mod Admission
pub mod Isolation
pub mod Quota
pub mod State
use hier_kv_gateway.Prelude.{
  ℕ, ◌+◌, ◌-◌, ◌%◌, ◌^◌, max, Bool, true, false, Option, none, some, List, [], ◌∷◌, if◌then◌else◌,
  ltb, leb, String, dec→Bool,
}
use hier_kv_gateway.Ids.{TenantId, TenantId_discrete, String_discrete}
use hier_kv_gateway.Interface.DashMap.{DashMap}

-- The operations of `f64` and its literals that the scheduler uses.
pub record Float (F : Type 0) : Type 0 where
  pub add : F → F → F
  pub sub : F → F → F
  pub mul : F → F → F
  pub div : F → F → F
  pub min_of : F → F → F
  pub max_of : F → F → F
  pub le : F → F → Bool
  pub lt : F → F → Bool
  pub of_u64 : ℕ → F
  pub as_secs : ℕ → F
  pub ceil_u64 : F → ℕ
  pub zero_point_eight : F
  pub zero_point_nine : F
  pub smallest_rate : F
  pub max_value : F

pub data TenantPriority : Type 0 where
  background : TenantPriority
  normal : TenantPriority
  premium : TenantPriority

abbrev pub is_premium : TenantPriority → Bool
is_premium background = false
is_premium normal = false
is_premium premium = true

pub record TenantQuota (F : Type 0) : Type 0 where
  pub tenant_id : TenantId
  pub priority : TenantPriority
  pub max_rps : Option F
  pub max_input_tpm : Option ℕ
  pub max_output_tpm : Option ℕ
  pub max_concurrent : Option ℕ
  pub reserved_capacity_fraction : F

-- `TenantQuotaConfig` and `TenantConfig` of core/src/config.rs.
pub record TenantQuotaConfig (F : Type 0) : Type 0 where
  pub id : String
  pub priority : TenantPriority
  pub max_rps : Option F
  pub max_concurrent : Option ℕ
  pub reserved_capacity_fraction : F

pub record TenantConfig (F : Type 0) : Type 0 where
  pub enabled : Bool
  pub default_max_rps : Option F
  pub default_max_concurrent : Option ℕ
  pub saturation_threshold : F
  pub tenants : List (TenantQuotaConfig F)

pub data Reason (F : Type 0) : Type 0 where
  exceeded_rps : TenantId → F → Reason F
  at_max_concurrent : TenantId → ℕ → Reason F

pub data AdmissionDecision (F : Type 0) : Type 0 where
  admitted : AdmissionDecision F
  rate_limited : ℕ → Reason F → AdmissionDecision F
  queued : AdmissionDecision F

pub record SaturationState (F : Type 0) : Type 0 where
  pub capacity_used : F
  pub is_saturated : Bool
  pub total_capacity : ℕ
  pub used_capacity : ℕ

pub record TokenBucket (F : Type 0) : Type 0 where
  pub rate : F
  pub max_burst : F
  pub tokens : F
  pub last_refill : ℕ

pub record TenantBucket (F : Type 0) : Type 0 where
  pub quota : TenantQuota F
  pub bucket : TokenBucket F
  pub in_flight : ℕ

pub record TenantScheduler (F M : Type 0) : Type 0 where
  pub config : TenantConfig F
  pub buckets : M
  pub total_capacity : ℕ
  pub used_capacity : ℕ

-- `unwrap_or` and `or`
abbrev pub unwrap_or : {A : Type 0} → A → Option A → A
unwrap_or d none = d
unwrap_or d (some a) = a

abbrev pub or_else : {A : Type 0} → Option A → Option A → Option A
or_else none o = o
or_else (some a) o = some a

module _ {F : Type 0} (fl : Float F) where
  abbrev pub saturation : ℕ → ℕ → SaturationState F
  saturation total used =
      let capacity_used =
        if ltb 0 total then fl.div (fl.of_u64 used) (fl.of_u64 total) else fl.of_u64 0 in
      record {
        capacity_used = capacity_used;
        is_saturated = fl.le fl.zero_point_eight capacity_used;
        total_capacity = total;
        used_capacity = used;
      }

  unfoldable pub new_bucket : F → Option F → ℕ → TokenBucket F
  new_bucket rate max_burst now =
      let burst = unwrap_or (fl.max_of rate (fl.of_u64 1)) max_burst in
      record { rate = rate; max_burst = burst; tokens = burst; last_refill = now }

  unfoldable pub refill : ℕ → TokenBucket F → TokenBucket F
  refill now b =
      let elapsed = fl.as_secs (now - b.last_refill) in
      if fl.lt (fl.of_u64 0) elapsed
      then record b {
        tokens = fl.min_of (fl.add b.tokens (fl.mul elapsed b.rate)) b.max_burst;
        last_refill = now;
      }
      else b

  unfoldable pub try_consume : F → ℕ → TokenBucket F → Bool × TokenBucket F
  unfolding refill
  try_consume n now b =
      let refilled = refill now b in
      if fl.le n refilled.tokens
      then (true, record refilled { tokens = fl.sub refilled.tokens n })
      else (false, refilled)

  unfoldable pub time_until_available : F → TokenBucket F → F
  time_until_available n b =
      if fl.le n b.tokens
      then fl.of_u64 0
      else fl.div (fl.sub n b.tokens) (fl.max_of b.rate fl.smallest_rate)

  unfoldable pub tenant_bucket : TenantQuota F → ℕ → TenantBucket F
  unfolding new_bucket
  tenant_bucket quota now =
      let rate = unwrap_or fl.max_value quota.max_rps in
      let burst = fl.max_of rate (fl.of_u64 1) in
      record { quota = quota; bucket = new_bucket rate (some burst) now; in_flight = 0 }

  unfoldable pub quota_in : TenantConfig F → TenantId → List (TenantQuotaConfig F) → TenantQuota F
  quota_in cfg tenant_id [] = record {
    tenant_id = tenant_id;
    priority = normal;
    max_rps = cfg.default_max_rps;
    max_input_tpm = none;
    max_output_tpm = none;
    max_concurrent = cfg.default_max_concurrent;
    reserved_capacity_fraction = fl.of_u64 0;
  }
  quota_in cfg tenant_id (t ∷ ts) =
      let rest = quota_in cfg tenant_id ts in
      if dec→Bool (String_discrete t.id tenant_id.name)
      then record {
        tenant_id = tenant_id;
        priority = t.priority;
        max_rps = or_else t.max_rps cfg.default_max_rps;
        max_input_tpm = none;
        max_output_tpm = none;
        max_concurrent = or_else t.max_concurrent cfg.default_max_concurrent;
        reserved_capacity_fraction =
            if is_premium t.priority then t.reserved_capacity_fraction else fl.of_u64 0;
      }
      else rest

  unfoldable pub resolve_quota : TenantConfig F → TenantId → TenantQuota F
  unfolding quota_in
  resolve_quota cfg tenant_id = quota_in cfg tenant_id cfg.tenants

  -- The sum over the buckets in the order of `iter`.
  unfoldable pub reserved_sum : List (TenantId × TenantBucket F) → F → F
  reserved_sum [] total = total
  reserved_sum ((t, b) ∷ bs) total = reserved_sum bs (
      if is_premium b.quota.priority
      then fl.add total b.quota.reserved_capacity_fraction
      else total)

module _ {F M : Type 0} (fl : Float F) (dm : DashMap M TenantId_discrete (TenantBucket F)) where
  abbrev pub new : TenantConfig F → TenantScheduler F M
  new config = record {
    config = config;
    buckets = dm.empty;
    total_capacity = 100;
    used_capacity = 0;
  }

  unfoldable pub update_capacity : ℕ → ℕ → TenantScheduler F M → TenantScheduler F M
  update_capacity total used s = record s { total_capacity = max total 1; used_capacity = used }

  abbrev pub saturation_state : TenantScheduler F M → SaturationState F
  saturation_state s = saturation fl s.total_capacity s.used_capacity

  unfoldable pub total_reserved_fraction : TenantScheduler F M → F
  unfolding reserved_sum
  total_reserved_fraction s =
      fl.min_of (reserved_sum fl (dm.entries s.buckets) (fl.of_u64 0)) fl.zero_point_nine

  -- The bucket that is there, or a new one.
  unfoldable pub bucket_of :
      TenantConfig F → TenantId → ℕ → Option (TenantBucket F) → TenantBucket F
  unfolding tenant_bucket resolve_quota
  bucket_of cfg tenant_id now none = tenant_bucket fl (resolve_quota fl cfg tenant_id) now
  bucket_of cfg tenant_id now (some b) = b

  unfoldable pub get_or_create_bucket : TenantId → ℕ → TenantScheduler F M → TenantBucket F
  unfolding bucket_of
  get_or_create_bucket tenant_id now s =
      bucket_of s.config tenant_id now (dm.get tenant_id s.buckets)

  -- The bucket of the tenant is there afterwards, as `b`.
  abbrev pub put_bucket : TenantId → TenantBucket F → TenantScheduler F M → TenantScheduler F M
  put_bucket tenant_id b s = record s { buckets = dm.insert tenant_id b s.buckets }

  -- The third check.
  unfoldable pub by_priority : TenantScheduler F M → TenantPriority → AdmissionDecision F
  unfolding total_reserved_fraction
  by_priority s priority =
      let used = (saturation_state s).capacity_used in
      if fl.le s.config.saturation_threshold used
      then elim priority [
        | premium ↦ admitted
        | normal ↦
            if fl.lt used (fl.sub (fl.of_u64 1) (total_reserved_fraction s))
            then admitted
            else queued
        | background ↦ queued
      ]
      else admitted

  -- The second check, and the third.
  unfoldable pub by_concurrency :
      TenantScheduler F M → TenantId → TenantBucket F → AdmissionDecision F
  unfolding by_priority
  by_concurrency s tenant_id b = elim b.quota.max_concurrent [
    | none ↦ by_priority s b.quota.priority
    | some max_concurrent ↦
        if leb max_concurrent b.in_flight
        then rate_limited 1 (at_max_concurrent tenant_id max_concurrent)
        else by_priority s b.quota.priority
  ]

  unfoldable pub check_admission :
      TenantId → ℕ → TenantScheduler F M → AdmissionDecision F × TenantScheduler F M
  unfolding get_or_create_bucket try_consume time_until_available by_concurrency
  check_admission tenant_id now s =
      let b = get_or_create_bucket tenant_id now s in
      let r = try_consume fl (fl.of_u64 1) now b.bucket in
      let s' = put_bucket tenant_id (record b { bucket = r.1 }) s in
      if s.config.enabled
      then (if r.0 then (by_concurrency s' tenant_id b, s') else (
        rate_limited (max (fl.ceil_u64 (time_until_available fl (fl.of_u64 1) r.1)) 1)
            (exceeded_rps tenant_id (unwrap_or fl.max_value b.quota.max_rps)),
        s',
      ))
      else (admitted, s)

  unfoldable pub record_request_start : TenantId → ℕ → TenantScheduler F M → TenantScheduler F M
  unfolding get_or_create_bucket
  record_request_start tenant_id now s =
      let b = get_or_create_bucket tenant_id now s in
      put_bucket tenant_id (record b { in_flight = (b.in_flight + 1) % 2 ^ 64 }) s

  -- `fetch_sub` wraps.
  unfoldable pub record_request_end : TenantId → TenantScheduler F M → TenantScheduler F M
  record_request_end tenant_id s = elim (dm.get tenant_id s.buckets) [
    | none ↦ s
    | some b ↦
        put_bucket tenant_id (record b { in_flight = (b.in_flight + (2 ^ 64 - 1)) % 2 ^ 64 }) s
  ]
