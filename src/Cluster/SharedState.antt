-- ===== src/Cluster/SharedState.antt =====
-- crates/hier-kv-gateway-cluster/src/shared_state.rs: `LocalSharedState`, the store of one gateway
-- instance. Times are Unix seconds; each read of the clock is an argument `now`. Every method
-- returns `Ok`, so the results stand without it. The store does not look into the metrics.
pub mod Expiry
pub mod Locks
pub mod Instances
use hier_kv_gateway.Prelude.{
  ℕ, ◌+◌, ◌-◌, ◌^◌, min, Bool, true, false, Option, none, some, List, [], ◌∷◌, if◌then◌else◌, ltb,
  leb, String, map, dec→Bool, ℕ_discrete,
}
use hier_kv_gateway.Ids.{
  BackendId, BackendId_discrete, InstanceId, InstanceId_discrete, SessionId, SessionId_discrete,
  RegionId, String_discrete,
}
use hier_kv_gateway.Interface.DashMap.{DashMap}

pub record InstanceEntry : Type 0 where
  pub instance_id : InstanceId
  pub region : RegionId
  pub addr : String
  pub last_heartbeat_unix : ℕ

pub record PrefixDispatchEntry : Type 0 where
  pub backend : BackendId
  pub dispatch_count : ℕ
  pub last_dispatched_unix : ℕ

-- The types of the five maps.
pub record LocalSharedState (I S P L B : Type 0) : Type 0 where
  pub instances : I
  pub sessions : S
  pub prefix_history : P
  pub locks : L
  pub metrics : B

-- `now.saturating_add(ttl)` on `u64`
unfoldable pub expiry_at : ℕ → ℕ → ℕ
expiry_at now ttl = min (now + ttl) (2 ^ 64 - 1)

-- The entry of a read, unless it has expired.
abbrev pub unexpired : {V : Type 0} → ℕ → Option (V × ℕ) → Option V
unexpired now none = none
unexpired now (some (v, expiry)) = if ltb now expiry then some v else none

-- The pairs of a listing that have not expired.
unfoldable pub live : {K V : Type 0} → ℕ → List (K × (V × ℕ)) → List (K × V)
live now [] = []
live now ((k, (v, expiry)) ∷ m) =
    let rest = live now m in if ltb now expiry then (k, v) ∷ rest else rest

module _ {I S P L B Metrics : Type 0} (di : DashMap I InstanceId_discrete (InstanceEntry × ℕ))
    (ds : DashMap S SessionId_discrete (BackendId × ℕ))
    (dp : DashMap P ℕ_discrete (PrefixDispatchEntry × ℕ))
    (dl : DashMap L String_discrete (String × ℕ))
    (db : DashMap B BackendId_discrete (Metrics × ℕ)) where
  abbrev State : Type 0
  State = LocalSharedState I S P L B

  unfoldable pub new : State
  new = record {
    instances = di.empty;
    sessions = ds.empty;
    prefix_history = dp.empty;
    locks = dl.empty;
    metrics = db.empty;
  }

  -- The clock is read for the expiry, and again for the heartbeat.
  unfoldable pub register_instance : ℕ → ℕ → State → InstanceEntry → ℕ → State
  register_instance now now' s entry ttl =
      let stored = record entry { last_heartbeat_unix = now' } in
      record s { instances = di.insert entry.instance_id (stored, expiry_at now ttl) s.instances }

  unfoldable pub heartbeat : ℕ → State → InstanceId → ℕ → State
  heartbeat now s id ttl = elim (di.get id s.instances) [
    | none ↦ s
    | some (entry, expiry) ↦ record s {
      instances =
          di.insert id (record entry { last_heartbeat_unix = now }, expiry_at now ttl) s.instances;
    }
  ]

  unfoldable pub list_instances : ℕ → State → List InstanceEntry
  list_instances now s = map (λ e. e.1) (live now (di.entries s.instances))

  unfoldable pub deregister_instance : State → InstanceId → State
  deregister_instance s id = record s { instances = di.remove id s.instances }

  unfoldable pub session_set : ℕ → State → SessionId → BackendId → ℕ → State
  session_set now s session backend ttl = record s {
    sessions = ds.insert session (backend, expiry_at now ttl) s.sessions;
  }

  -- A missing or expired entry is removed.
  unfoldable pub session_get : ℕ → State → SessionId → State × Option BackendId
  session_get now s session = elim (unexpired now (ds.get session s.sessions)) [
    | some b ↦ (s, some b)
    | none ↦ (record s { sessions = ds.remove session s.sessions }, none)
  ]

  unfoldable pub prefix_history_set : ℕ → State → ℕ → PrefixDispatchEntry → ℕ → State
  prefix_history_set now s hash entry ttl = record s {
    prefix_history = dp.insert hash (entry, expiry_at now ttl) s.prefix_history;
  }

  unfoldable pub prefix_history_get : ℕ → State → ℕ → State × Option PrefixDispatchEntry
  prefix_history_get now s hash = elim (unexpired now (dp.get hash s.prefix_history)) [
    | some e ↦ (s, some e)
    | none ↦ (record s { prefix_history = dp.remove hash s.prefix_history }, none)
  ]

  unfoldable pub try_lock : ℕ → State → String → String → ℕ → State × Bool
  try_lock now s key holder ttl =
      let locked = record s { locks = dl.insert key (holder, expiry_at now ttl) s.locks } in
      elim (dl.get key s.locks) [
        | none ↦ (locked, true)
        | some (h, expiry) ↦
            if leb expiry now
            then (locked, true)
            else if dec→Bool (String_discrete h holder)
            then (locked, true)
            else (s, false)
      ]

  -- `remove_if`: only the holder removes the lock.
  unfoldable pub unlock : State → String → String → State
  unlock s key holder = elim (dl.get key s.locks) [
    | none ↦ s
    | some (h, expiry) ↦
        if dec→Bool (String_discrete h holder)
        then record s { locks = dl.remove key s.locks }
        else s
  ]

  unfoldable pub metrics_set : ℕ → State → BackendId → Metrics → ℕ → State
  metrics_set now s backend m ttl = record s {
    metrics = db.insert backend (m, expiry_at now ttl) s.metrics;
  }

  unfoldable pub metrics_get : ℕ → State → BackendId → State × Option Metrics
  metrics_get now s backend = elim (unexpired now (db.get backend s.metrics)) [
    | some m ↦ (s, some m)
    | none ↦ (record s { metrics = db.remove backend s.metrics }, none)
  ]

  unfoldable pub metrics_get_all : ℕ → State → List (BackendId × Metrics)
  metrics_get_all now s = live now (db.entries s.metrics)
