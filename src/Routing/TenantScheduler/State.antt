-- ===== src/Routing/TenantScheduler/State.antt =====
-- crates/hier-kv-gateway-core/src/tenant.rs: the counters of a tenant and their windows. An `Instant`
-- is a number of nanoseconds, and `duration_since` is 0 where it would be negative.
use hier_kv_gateway.Prelude.{ℕ, ◌-◌, ◌*◌, ◌^◌, ◌<◌, ◌≡◌, leb, if◌then◌else◌, arith}
use hier_kv_gateway.Ids.{TenantId}
use hier_kv_gateway.Routing.TenantScheduler.{TenantPriority}

pub record TenantState : Type 0 where
  pub tenant_id : TenantId
  pub priority : TenantPriority
  pub in_flight : ℕ
  pub input_tokens_this_minute : ℕ
  pub output_tokens_this_minute : ℕ
  pub requests_this_second : ℕ
  pub last_request_time : ℕ
  pub tpm_window_start : ℕ
  pub rps_window_start : ℕ

unfoldable pub new : ℕ → TenantId → TenantPriority → TenantState
new now tenant_id priority = record {
  tenant_id = tenant_id;
  priority = priority;
  in_flight = 0;
  input_tokens_this_minute = 0;
  output_tokens_this_minute = 0;
  requests_this_second = 0;
  last_request_time = now;
  tpm_window_start = now;
  rps_window_start = now;
}

abbrev pub second : ℕ
second = 10 ^ 9

unfoldable pub maybe_reset_tpm_window : ℕ → TenantState → TenantState
maybe_reset_tpm_window now s =
    if leb (60 * second) (now - s.tpm_window_start)
    then record s {
      input_tokens_this_minute = 0;
      output_tokens_this_minute = 0;
      tpm_window_start = now;
    }
    else s

unfoldable pub maybe_reset_rps_window : ℕ → TenantState → TenantState
maybe_reset_rps_window now s =
    if leb second (now - s.rps_window_start)
    then record s { requests_this_second = 0; rps_window_start = now }
    else s

-- After the two resets, in either order, both windows have begun less than a minute and less than a
-- second ago.
pub maybe_reset_window_lem :
    (now : ℕ) (s : TenantState)
    → (maybe_reset_tpm_window now (maybe_reset_rps_window now s)
        ≡ maybe_reset_rps_window now (maybe_reset_tpm_window now s))
      × (now - (maybe_reset_tpm_window now (maybe_reset_rps_window now s)).tpm_window_start
          < 60 * second)
      × (now - (maybe_reset_tpm_window now (maybe_reset_rps_window now s)).rps_window_start
          < second)
unfolding maybe_reset_tpm_window maybe_reset_rps_window
maybe_reset_window_lem now s = ground arith
