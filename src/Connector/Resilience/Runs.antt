-- ===== src/Connector/Resilience/Runs.antt =====
-- Sequences of calls on the registry: the counters stay below their thresholds, a call leaves the
-- other backends alone, a streak of failures opens the circuit, and probes close it again.
use hier_kv_gateway.Prelude.{
  ℕ, zero, suc, ◌+◌, ◌-◌, ◌≤◌, ◌<◌, ◌≡◌, ◌≢◌, refl, max, true, arith, List, [], ◌∷◌, length, All,
  if◌then◌else◌, ltb, leb, if_pos, if_neg, last_or, ite-both, map, ◌∙◌, replicate, ◌||◌, ◌*◌,
  max-pos,
}
use hier_kv_gateway.Ids.{BackendId, BackendId_discrete}
use hier_kv_gateway.Interface.DashMap.{DashMap}
use hier_kv_gateway.Connector.Resilience.{
  CircuitBreakerRegistry, ResilienceConfig, new, BreakerState, closed, opened, half_open, breaker,
  store, allow, on_success, on_failure, allow_state, success_state, failure_state, cooled,
}
use hier_kv_gateway.Connector.Resilience.Breaker.{breaker-store}

-- A call of a method, at the time of the clock.
pub data Call : Type 0 where
  allow_at : ℕ → BackendId → Call
  success : BackendId → Call
  failure_at : ℕ → BackendId → Call

abbrev pub target : Call → BackendId
target (allow_at t id) = id
target (success id) = id
target (failure_at t id) = id

-- The counters of a breaker, against the thresholds of its registry.
abbrev pub IsBelow : ℕ → ℕ → BreakerState → Type 0
IsBelow failure_threshold success_threshold (closed n) = n < max failure_threshold 1
IsBelow failure_threshold success_threshold (opened at) = Unit
IsBelow failure_threshold success_threshold (half_open n) = n < success_threshold

allow_state-IsBelow :
    (f s c now : ℕ) (b : BreakerState) → 1 ≤ s → IsBelow f s b → IsBelow f s (allow_state c now b).0
unfolding allow_state
allow_state-IsBelow f s c now (closed n) p h = h
allow_state-IsBelow f s c now (opened at) p h = ground arith
allow_state-IsBelow f s c now (half_open n) p h = h

success_state-IsBelow :
    (f s : ℕ) (b : BreakerState) → IsBelow f s b → IsBelow f s (success_state s b)
unfolding success_state
success_state-IsBelow f s (closed n) h = omega arith
success_state-IsBelow f s (opened at) h = omega arith
success_state-IsBelow f s (half_open n) h = ground arith

failure_state-IsBelow :
    (f s now : ℕ) (b : BreakerState) → IsBelow f s b → IsBelow f s (failure_state f now b)
unfolding failure_state
failure_state-IsBelow f s now (closed n) h = ground arith
failure_state-IsBelow f s now (opened at) h = tt
failure_state-IsBelow f s now (half_open n) h = tt

module _ {M : Type 0} (d : DashMap M BackendId_discrete BreakerState) where
  unfoldable pub call : CircuitBreakerRegistry M → Call → CircuitBreakerRegistry M
  call r (allow_at t id) = (allow d t r id).0
  call r (success id) = on_success d r id
  call r (failure_at t id) = on_failure d t r id

  unfoldable pub run : CircuitBreakerRegistry M → List Call → CircuitBreakerRegistry M
  run r [] = r
  run r (c ∷ cs) = run (call r c) cs

  pub record IsValid (r : CircuitBreakerRegistry M) : Type 0 where
    pub positive : 1 ≤ r.success_threshold
    pub below : (id : BackendId) → IsBelow r.failure_threshold r.success_threshold (breaker d r id)

  store-IsValid :
      (r : CircuitBreakerRegistry M) (id : BackendId) (b : BreakerState)
      → IsValid r
      → IsBelow r.failure_threshold r.success_threshold b
      → IsValid (store d r id b)
  unfolding store
  store-IsValid r id b v h = record {
    positive = v.positive;
    below = λ j. rw (breaker-store d r id j b) (
        ite-both (IsBelow r.failure_threshold r.success_threshold) (BackendId_discrete id j) b
          (breaker d r j) h (v.below j));
  }

  call-IsValid : (r : CircuitBreakerRegistry M) (c : Call) → IsValid r → IsValid (call r c)
  unfolding call allow on_success on_failure
  call-IsValid r (allow_at t id) v = store-IsValid r id _ v (
      allow_state-IsBelow r.failure_threshold r.success_threshold r.cooldown t (breaker d r id)
        v.positive (v.below id))
  call-IsValid r (success id) v =
      store-IsValid r id _ v (
        success_state-IsBelow r.failure_threshold r.success_threshold (breaker d r id) (v.below id))
  call-IsValid r (failure_at t id) v = store-IsValid r id _ v (
      failure_state-IsBelow r.failure_threshold r.success_threshold t (breaker d r id) (v.below id))

  -- A registry with a success threshold of at least 1 and every counter below its threshold stays
  -- so under any calls, so that the `u32` additions of the source never overflow.
  pub run-IsValid : (r : CircuitBreakerRegistry M) (cs : List Call) → IsValid r → IsValid (run r cs)
  unfolding run
  run-IsValid r [] v = v
  run-IsValid r (c ∷ cs) v = run-IsValid (call r c) cs (call-IsValid r c v)

  breaker-call_ne :
      (r : CircuitBreakerRegistry M) (c : Call) (j : BackendId)
      → target c ≢ j
      → breaker d (call r c) j ≡ breaker d r j
  unfolding call allow on_success on_failure
  breaker-call_ne r (allow_at t id) j h = rw breaker-store (if_neg (BackendId_discrete id j) h _ _)
  breaker-call_ne r (success id) j h = rw breaker-store (if_neg (BackendId_discrete id j) h _ _)
  breaker-call_ne r (failure_at t id) j h =
      rw breaker-store (if_neg (BackendId_discrete id j) h _ _)

  -- Calls on other backends do not change a backend's breaker.
  pub breaker-run_ne :
      (r : CircuitBreakerRegistry M) (cs : List Call) (j : BackendId)
      → All (λ c. target c ≢ j) cs
      → breaker d (run r cs) j ≡ breaker d r j
  unfolding run
  breaker-run_ne r [] j h = refl
  breaker-run_ne r (c ∷ cs) j h = breaker-run_ne (call r c) cs j h.1 ∙ breaker-call_ne r c j h.0

  breaker-failure :
      (r : CircuitBreakerRegistry M) (id : BackendId) (t : ℕ)
      → breaker d (on_failure d t r id) id ≡ failure_state r.failure_threshold t (breaker d r id)
  unfolding on_failure
  breaker-failure r id t = rw breaker-store (if_pos (BackendId_discrete id id) refl _ _)

  breaker-success :
      (r : CircuitBreakerRegistry M) (id : BackendId)
      → breaker d (on_success d r id) id ≡ success_state r.success_threshold (breaker d r id)
  unfolding on_success
  breaker-success r id = rw breaker-store (if_pos (BackendId_discrete id id) refl _ _)

  failures-opened :
      (r : CircuitBreakerRegistry M) (id : BackendId) (t : ℕ) (ts : List ℕ)
      → breaker d r id ≡ opened t
      → breaker d (run r (map (λ u. failure_at u id) ts)) id ≡ opened (last_or t ts)
  unfolding run call failure_state
  failures-opened r id t [] h = h
  failures-opened r id t (u ∷ ts) h =
      failures-opened (on_failure d u r id) id u ts (breaker-failure r id u ∙ rw h refl)

  threshold-store :
      (r : CircuitBreakerRegistry M) (id : BackendId) (b : BreakerState)
      → (store d r id b).success_threshold ≡ r.success_threshold
  unfolding store
  threshold-store r id b = refl

  threshold-failure :
      (r : CircuitBreakerRegistry M) (id : BackendId) (t : ℕ)
      → (on_failure d t r id).failure_threshold ≡ r.failure_threshold
  unfolding on_failure
  threshold-failure r id t = refl

  threshold-success :
      (r : CircuitBreakerRegistry M) (id : BackendId)
      → (on_success d r id).success_threshold ≡ r.success_threshold
  unfolding on_success
  threshold-success r id = refl

  successes-closed :
      (r : CircuitBreakerRegistry M) (id : BackendId) (k n : ℕ)
      → breaker d r id ≡ closed 0
      → breaker d (run r (replicate k (success id))) id ≡ closed 0
  unfolding run call success_state
  successes-closed r id zero n h = h
  successes-closed r id (suc k) n h =
      successes-closed (on_success d r id) id k n (breaker-success r id ∙ rw h refl)

  failures-closed :
      (r : CircuitBreakerRegistry M) (id : BackendId) (n : ℕ) (t : ℕ) (ts : List ℕ)
      → breaker d r id ≡ closed n
      → n < max r.failure_threshold 1
      → breaker d (run r (map (λ u. failure_at u id) ts)) id ≡ (
          if ltb (n + length ts) (max r.failure_threshold 1)
          then closed (n + length ts)
          else opened (last_or t ts))
  unfolding run call failure_state
  failures-closed r id n t [] h below = ground arith
  failures-closed r id n t (u ∷ ts) h below = ground (
    arith,
    breaker-failure r id u,
    threshold-failure r id u,
    failures-opened (on_failure d u r id) id u ts,
    failures-closed (on_failure d u r id) id (n + 1) u ts,
  )

  cooldown-call : (r : CircuitBreakerRegistry M) (c : Call) → (call r c).cooldown ≡ r.cooldown
  unfolding call allow on_success on_failure
  cooldown-call r (allow_at t id) = refl
  cooldown-call r (success id) = refl
  cooldown-call r (failure_at t id) = refl

  cooldown-run : (r : CircuitBreakerRegistry M) (cs : List Call) → (run r cs).cooldown ≡ r.cooldown
  unfolding run
  cooldown-run r [] = refl
  cooldown-run r (c ∷ cs) = cooldown-run (call r c) cs ∙ cooldown-call r c

  breaker-new :
      (config : ResilienceConfig) (id : BackendId) → breaker d (new d config) id ≡ closed 0
  unfolding breaker new
  breaker-new config id = ground (arith, d.get-empty id)

  -- A fresh breaker after failures at the times `ts` in a row, and no other call for its backend:
  -- a forward is allowed exactly while there are fewer failures than the threshold (a threshold of
  -- 0 counts as 1), or once the cooldown has passed since the last of them.
  pub allow-failures :
      (config : ResilienceConfig) (id : BackendId) (ts : List ℕ) (now : ℕ)
      → (allow d now (run (new d config) (map (λ u. failure_at u id) ts)) id).1 ≡ (
          ltb (length ts) (max config.circuit_breaker_failure_threshold 1)
          || leb (config.circuit_breaker_cooldown_secs * 1_000_000_000) (now - last_or 0 ts))
  unfolding allow allow_state new cooled
  allow-failures config id ts now =
      let r = new d config in
      let cs = map (λ u. failure_at u id) ts in
      ground (
        arith,
        breaker-new config id,
        failures-closed r id 0 0 ts (breaker-new config id) (max-pos r.failure_threshold),
        cooldown-run r cs,
      )

  probes :
      (r : CircuitBreakerRegistry M) (id : BackendId) (k n : ℕ)
      → breaker d r id ≡ half_open n
      → n < r.success_threshold
      → breaker d (run r (replicate k (success id))) id
        ≡ (if ltb (n + k) r.success_threshold then half_open (n + k) else closed 0)
  unfolding run call success_state
  probes r id zero n h below = ground arith
  probes r id (suc k) n h below = ground (
    arith,
    breaker-success r id,
    threshold-success r id,
    probes (on_success d r id) id k (n + 1),
    successes-closed (on_success d r id) id k 0,
  )

  -- An open circuit whose cooldown has passed at `now`: `allow` lets a probe through, and after
  -- `k` successes with no other call the circuit is half-open while `k` is below the success
  -- threshold, and closed with no failure counted from then on.
  pub allow-probes :
      (r : CircuitBreakerRegistry M) (id : BackendId) (t now k : ℕ)
      → breaker d r id ≡ opened t
      → r.cooldown ≤ now - t
      → 1 ≤ r.success_threshold
      → ((allow d now r id).1 ≡ true)
        × (breaker d (run (call r (allow_at now id)) (replicate k (success id))) id
            ≡ (if ltb k r.success_threshold then half_open k else closed 0))
  unfolding call allow allow_state cooled
  allow-probes r id t now k h passed positive = (
    ground arith,
    ground (
      arith,
      breaker-store d r id id (half_open 0),
      probes (store d r id (half_open 0)) id k 0,
      threshold-store r id (half_open 0),
    ),
  )
