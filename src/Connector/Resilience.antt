-- ===== src/Connector/Resilience.antt =====
-- crates/hier-kv-gateway-connector/src/resilience.rs: the retry backoff, and one circuit breaker
-- for each backend. Durations and instants are counted in nanoseconds; the clock is read once in a
-- call and is its argument `now`. `elapsed` of an instant in the future is zero, as in Rust.
pub mod Backoff
pub mod Breaker
pub mod Runs
use hier_kv_gateway.Prelude.{
  ℕ, ◌+◌, ◌-◌, ◌*◌, ◌/◌, ◌%◌, ◌^◌, ◌≤◌, ◌≡◌, min, max, Bool, true, false, Option, none, some,
  if◌then◌else◌, ltb, leb,
}
use hier_kv_gateway.Ids.{BackendId, BackendId_discrete}
use hier_kv_gateway.Interface.DashMap.{DashMap}

abbrev pub u64_max : ℕ
u64_max = 2 ^ 64 - 1

-- A `Duration`, as its number of nanoseconds.
abbrev pub as_millis : ℕ → ℕ
as_millis d = d / 1_000_000

abbrev pub from_millis : ℕ → ℕ
from_millis n = n * 1_000_000

pub record RetryPolicy : Type 0 where
  pub base : ℕ
  pub max_delay : ℕ

-- `1u64.checked_shl(attempt).unwrap_or(u64::MAX)`
unfoldable pub backoff_factor : ℕ → ℕ
backoff_factor attempt = if ltb attempt 64 then 2 ^ attempt % 2 ^ 64 else u64_max

unfoldable pub saturating_mul : ℕ → ℕ → ℕ
saturating_mul a b = min (a * b) u64_max

-- `as_millis` is a `u128`, and the cast to `u64` drops the high bits.
unfoldable pub backoff : RetryPolicy → ℕ → ℕ
unfolding backoff_factor saturating_mul
backoff p attempt =
    let base_ms = as_millis p.base % 2 ^ 64 in
    let delay_ms = saturating_mul base_ms (backoff_factor attempt) in
    from_millis (min delay_ms (as_millis p.max_delay % 2 ^ 64))

pub data CircuitState : Type 0 where
  circuit_closed circuit_open circuit_half_open : CircuitState

pub data BreakerState : Type 0 where
  closed : ℕ → BreakerState
  opened : ℕ → BreakerState
  half_open : ℕ → BreakerState

abbrev pub new_breaker : BreakerState
new_breaker = closed 0

-- The part of `ResilienceConfig` that the registry reads.
pub record ResilienceConfig : Type 0 where
  pub circuit_breaker_failure_threshold : ℕ
  pub circuit_breaker_cooldown_secs : ℕ
  pub half_open_success_threshold : ℕ

pub record CircuitBreakerRegistry (M : Type 0) : Type 0 where
  pub failure_threshold : ℕ
  pub cooldown : ℕ
  pub success_threshold : ℕ
  pub breakers : M

unfoldable pub cooled : ℕ → ℕ → ℕ → Bool
cooled cooldown now opened_at = leb cooldown (now - opened_at)

-- The `match` of each method on the locked state of one breaker.
unfoldable pub allow_state : ℕ → ℕ → BreakerState → BreakerState × Bool
unfolding cooled
allow_state cooldown now (closed n) = (closed n, true)
allow_state cooldown now (opened at) =
    if cooled cooldown now at then (half_open 0, true) else (opened at, false)
allow_state cooldown now (half_open n) = (half_open n, true)

unfoldable pub success_state : ℕ → BreakerState → BreakerState
success_state threshold (closed n) = closed 0
success_state threshold (half_open n) =
    if leb threshold (n + 1) then closed 0 else half_open (n + 1)
success_state threshold (opened at) = closed 0

unfoldable pub failure_state : ℕ → ℕ → BreakerState → BreakerState
failure_state threshold now (closed n) =
    if leb threshold (n + 1) then opened now else closed (n + 1)
failure_state threshold now (half_open n) = opened now
failure_state threshold now (opened at) = opened now

unfoldable pub observe : ℕ → ℕ → BreakerState → CircuitState
unfolding cooled
observe cooldown now (closed n) = circuit_closed
observe cooldown now (opened at) =
    if cooled cooldown now at then circuit_half_open else circuit_open
observe cooldown now (half_open n) = circuit_half_open

module _ {M : Type 0} (d : DashMap M BackendId_discrete BreakerState) where
  unfoldable pub new : ResilienceConfig → CircuitBreakerRegistry M
  new config = record {
    failure_threshold = config.circuit_breaker_failure_threshold;
    cooldown = config.circuit_breaker_cooldown_secs * 1_000_000_000;
    success_threshold = max config.half_open_success_threshold 1;
    breakers = d.empty;
  }

  -- `entry(id).or_insert_with(Breaker::new)`
  unfoldable pub breaker : CircuitBreakerRegistry M → BackendId → BreakerState
  breaker r id = elim (d.get id r.breakers) [ none ↦ new_breaker | some b ↦ b ]

  -- Writes the state of the breaker that `breaker` returned.
  unfoldable pub store :
      CircuitBreakerRegistry M → BackendId → BreakerState → CircuitBreakerRegistry M
  store r id b = record r { breakers = d.insert id b r.breakers }

  unfoldable pub allow : ℕ → CircuitBreakerRegistry M → BackendId → CircuitBreakerRegistry M × Bool
  unfolding breaker store allow_state
  allow now r id = let (b, ok) = allow_state r.cooldown now (breaker r id) in (store r id b, ok)

  unfoldable pub on_success : CircuitBreakerRegistry M → BackendId → CircuitBreakerRegistry M
  unfolding breaker store success_state
  on_success r id = store r id (success_state r.success_threshold (breaker r id))

  unfoldable pub on_failure : ℕ → CircuitBreakerRegistry M → BackendId → CircuitBreakerRegistry M
  unfolding breaker store failure_state
  on_failure now r id = store r id (failure_state r.failure_threshold now (breaker r id))

  unfoldable pub state : ℕ → CircuitBreakerRegistry M → BackendId → CircuitState
  unfolding observe
  state now r id = elim (d.get id r.breakers) [
    | none ↦ circuit_closed
    | some b ↦ observe r.cooldown now b
  ]

  unfoldable pub reset : CircuitBreakerRegistry M → CircuitBreakerRegistry M
  reset r = record r { breakers = d.empty }
