-- ===== src/Connector/Resilience/Breaker.antt =====
-- One method of the registry: what it does to its own breaker and to the others.
use hier_kv_gateway.Prelude.{ℕ, ◌≡◌, ◌↔◌, false, arith, ite}
use hier_kv_gateway.Ids.{BackendId, BackendId_discrete}
use hier_kv_gateway.Interface.DashMap.{DashMap}
use hier_kv_gateway.Connector.Resilience.{
  CircuitBreakerRegistry, BreakerState, circuit_open, closed, opened, half_open, breaker, store,
  allow, state, observe, allow_state,
}

module _ {M : Type 0} (d : DashMap M BackendId_discrete BreakerState) where
  pub breaker-store :
      (r : CircuitBreakerRegistry M) (id j : BackendId) (b : BreakerState)
      → breaker d (store d r id b) j ≡ ite (BackendId_discrete id j) b (breaker d r j)
  unfolding breaker store
  breaker-store r id j b = ground (arith, d.get-insert id j b r.breakers)

  observe-Open_iff :
      (cooldown now : ℕ) (b : BreakerState)
      → (observe cooldown now b ≡ circuit_open) ↔ ((allow_state cooldown now b).1 ≡ false)
  unfolding observe allow_state
  observe-Open_iff cooldown now (closed n) = ground arith
  observe-Open_iff cooldown now (opened at) = ground arith
  observe-Open_iff cooldown now (half_open n) = ground arith

  state-observe :
      (now : ℕ) (r : CircuitBreakerRegistry M) (id : BackendId)
      → state d now r id ≡ observe r.cooldown now (breaker d r id)
  unfolding state breaker observe
  state-observe now r id = ground arith

  -- A circuit is reported open exactly when `allow` refuses a forward at that moment.
  pub state-circuit_open_iff :
      (now : ℕ) (r : CircuitBreakerRegistry M) (id : BackendId)
      → (state d now r id ≡ circuit_open) ↔ ((allow d now r id).1 ≡ false)
  unfolding allow
  state-circuit_open_iff now r id =
      rw (state-observe now r id) (observe-Open_iff r.cooldown now (breaker d r id))
