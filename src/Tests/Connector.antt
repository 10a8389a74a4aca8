-- ===== src/Tests/Connector.antt =====
-- The crate crates/hier-kv-gateway-connector at concrete inputs.
use hier_kv_gateway.Prelude.{◌*◌, ◌^◌, ◌≡◌, List, [], ◌∷◌, min, arith}
use hier_kv_gateway.Ids.{BackendId, BackendId_discrete}
use hier_kv_gateway.HashMap.{lookup}
use hier_kv_gateway.Interface.DashMap.Assoc.{assoc_map}
use hier_kv_gateway.Connector.Resilience.{
  RetryPolicy, as_millis, from_millis, backoff, BreakerState, CircuitBreakerRegistry,
  ResilienceConfig, new, breaker,
}
use hier_kv_gateway.Connector.Resilience.Backoff.{backoff_lem}
use hier_kv_gateway.Connector.Resilience.Runs.{
  Call, allow_at, failure_at, run, IsValid, run-IsValid,
}
use hier_kv_gateway.Tests.Data.{backend_a}

abbrev policy : RetryPolicy
policy = record { base = 100 * 1_000_000; max_delay = 2000 * 1_000_000 }

backoff_lem_example :
    backoff policy 3
    ≡ from_millis (min (as_millis policy.base * 2 ^ 3) (as_millis policy.max_delay))
backoff_lem_example = backoff_lem policy 3 (omega arith) (omega arith)

abbrev Breakers : Type 0
Breakers = CircuitBreakerRegistry (List (BackendId × BreakerState))

abbrev config : ResilienceConfig
config = record {
  circuit_breaker_failure_threshold = 2;
  circuit_breaker_cooldown_secs = 10;
  half_open_success_threshold = 2;
}

abbrev fresh : Breakers
fresh = new (assoc_map BackendId_discrete) config

abbrev calls : List Call
calls = failure_at 5 backend_a ∷ failure_at 6 backend_a ∷ allow_at 7 backend_a ∷ []

fresh-IsValid : IsValid (assoc_map BackendId_discrete) fresh
unfolding new breaker lookup
fresh-IsValid = record { positive = omega arith; below = λ id. omega arith }

run-IsValid_example :
    IsValid (assoc_map BackendId_discrete) (run (assoc_map BackendId_discrete) fresh calls)
run-IsValid_example = run-IsValid (assoc_map BackendId_discrete) fresh calls fresh-IsValid
