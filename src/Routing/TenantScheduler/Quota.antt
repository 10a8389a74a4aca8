-- ===== src/Routing/TenantScheduler/Quota.antt =====
-- crates/hier-kv-gateway-core/src/tenant.rs: the constructors of a quota and its limits.
use hier_kv_gateway.Prelude.{◌≡◌, refl, ◌↔◌, ◌||◌, Bool, true, false, Option, none, some, arith}
use hier_kv_gateway.Ids.{TenantId}
use hier_kv_gateway.Routing.TenantScheduler.{TenantPriority, normal, premium, TenantQuota}

abbrev is_some : {A : Type 0} → Option A → Bool
is_some none = false
is_some (some x) = true

-- `zero` is the literal 0.0.
module _ {F : Type 0} (zero : F) where
  unfoldable pub new : TenantId → TenantQuota F
  new tenant_id = record {
    tenant_id = tenant_id;
    priority = normal;
    max_rps = none;
    max_input_tpm = none;
    max_output_tpm = none;
    max_concurrent = none;
    reserved_capacity_fraction = zero;
  }

  unfoldable pub with_priority : TenantId → TenantPriority → TenantQuota F
  unfolding new
  with_priority tenant_id priority = record (new tenant_id) { priority = priority }

  unfoldable pub premium_quota : TenantId → F → TenantQuota F
  unfolding new
  premium_quota tenant_id reserved_fraction = record (new tenant_id) {
    tenant_id = tenant_id;
    priority = premium;
    reserved_capacity_fraction = reserved_fraction;
  }

unfoldable pub has_any_limit : {F : Type 0} → TenantQuota F → Bool
has_any_limit q =
    is_some q.max_rps
    || is_some q.max_input_tpm
    || is_some q.max_output_tpm
    || is_some q.max_concurrent

is_some_iff : {A : Type 0} → (o : Option A) → (is_some o ≡ false) ↔ (o ≡ none)
is_some_iff none = ground arith
is_some_iff (some x) = ground arith

-- A quota has no limit exactly if each of its four limits is left out.
pub has_any_limit_iff :
    {F : Type 0}
    → (q : TenantQuota F)
    → (has_any_limit q ≡ false) ↔ (
        (q.max_rps ≡ none)
        × (q.max_input_tpm ≡ none)
        × (q.max_output_tpm ≡ none)
        × (q.max_concurrent ≡ none))
unfolding has_any_limit
has_any_limit_iff q = ground (
  arith,
  is_some_iff q.max_rps,
  is_some_iff q.max_input_tpm,
  is_some_iff q.max_output_tpm,
  is_some_iff q.max_concurrent,
)

-- No constructor sets a limit.
pub has_any_limit-constructors :
    {F : Type 0}
    → (zero fraction : F) (t : TenantId) (p : TenantPriority)
    → (has_any_limit (new zero t) ≡ false)
      × (has_any_limit (with_priority zero t p) ≡ false)
      × (has_any_limit (premium_quota zero t fraction) ≡ false)
unfolding has_any_limit new with_priority premium_quota
has_any_limit-constructors zero fraction t p = (refl, refl, refl)
