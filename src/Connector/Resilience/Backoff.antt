-- ===== src/Connector/Resilience/Backoff.antt =====
-- The delay between two attempts, against the formula of its documentation.
use native.Mathlib.Nat.{pow-le-pow_right, mod-eq_of_lt}
use hier_kv_gateway.Prelude.{
  ℕ, zero, suc, ◌*◌, ◌^◌, ◌≤◌, ◌<◌, ◌≡◌, refl, min, arith, inl, inr, Bool-cases, ltb,
}
use hier_kv_gateway.Connector.Resilience.{
  RetryPolicy, backoff, saturating_mul, as_millis, from_millis, u64_max,
}

pow_below : (n : ℕ) → n < 64 → 2 ^ n < 2 ^ 64
pow_below n h = omega (arith, pow-le-pow_right {n = 2} (omega arith) {i = n} {j = 63} (omega arith))

pow_above : (n : ℕ) → 64 ≤ n → 2 ^ 64 ≤ 2 ^ n
pow_above n h = pow-le-pow_right (omega arith) h

-- A saturated factor is as good as the true one, once the product is capped at `x`.
saturated_min :
    (b f x : ℕ) → 2 ^ 64 ≤ f → x < 2 ^ 64 → min (saturating_mul b u64_max) x ≡ min (b * f) x
unfolding saturating_mul
saturated_min zero f x hf hx = omega arith
saturated_min (suc b) f x hf hx = grind arith

capped_min : (m x : ℕ) → x < 2 ^ 64 → min (min m u64_max) x ≡ min m x
capped_min m x hx = omega arith

-- For durations whose milliseconds fit 64 bits, the delay after attempt `attempt` is
-- `base * 2 ^ attempt` milliseconds, capped at `max_delay`, for every attempt: neither the shift
-- nor the multiplication loses a bit that the cap would have kept.
pub backoff_lem :
    (p : RetryPolicy) (attempt : ℕ)
    → as_millis p.base < 2 ^ 64
    → as_millis p.max_delay < 2 ^ 64
    → backoff p attempt ≡ from_millis (min (as_millis p.base * 2 ^ attempt) (as_millis p.max_delay))
unfolding backoff
backoff_lem p attempt hb hm =
    rw (mod-eq_of_lt hb, mod-eq_of_lt hm)
      (elim (Bool-cases (ltb attempt 64)) [
        | inl small ↦
            rw (small, mod-eq_of_lt (pow_below attempt (ground arith)), capped_min _ _ hm) refl
        | inr large ↦
            rw
              (
                large,
                saturated_min (as_millis p.base) (2 ^ attempt) _ (pow_above attempt (ground arith))
                    hm,
              )
              refl
      ])
