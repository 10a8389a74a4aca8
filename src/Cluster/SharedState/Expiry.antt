-- ===== src/Cluster/SharedState/Expiry.antt =====
-- What is stored can be read until it expires, and not after.
use hier_kv_gateway.Prelude.{ℕ, ◌≡◌, none, some, if◌then◌else◌, ltb, arith, ℕ_discrete, String, ite}
use hier_kv_gateway.Ids.{
  BackendId, BackendId_discrete, InstanceId_discrete, SessionId, SessionId_discrete,
  String_discrete,
}
use hier_kv_gateway.Interface.DashMap.{DashMap}
use hier_kv_gateway.Cluster.SharedState.{
  InstanceEntry, PrefixDispatchEntry, LocalSharedState, session_set, session_get,
  prefix_history_set, prefix_history_get, metrics_set, metrics_get, expiry_at,
}

module _ {I S P L B Metrics : Type 0} (di : DashMap I InstanceId_discrete (InstanceEntry × ℕ))
    (ds : DashMap S SessionId_discrete (BackendId × ℕ))
    (dp : DashMap P ℕ_discrete (PrefixDispatchEntry × ℕ))
    (dl : DashMap L String_discrete (String × ℕ)) (db : DashMap B BackendId_discrete (Metrics × ℕ))
    (s : LocalSharedState I S P L B) (now now' ttl : ℕ) where
  -- A session's backend is read back until the time to live has passed, and is gone after, for
  -- that session; every other session reads as before.
  pub session_get-session_set :
      (session q : SessionId) (b : BackendId)
      → (session_get di ds dp dl db now' (session_set di ds dp dl db now s session b ttl) q).1
        ≡ ite
            (SessionId_discrete session q)
            (if ltb now' (expiry_at now ttl) then some b else none)
            (session_get di ds dp dl db now' s q).1
  unfolding session_get session_set
  session_get-session_set session q b =
      ground (arith, ds.get-insert session q (b, expiry_at now ttl) s.sessions)

  -- The entry that is set for a prefix hash is read back until the time to live has passed, and
  -- is gone after; every other hash reads as before.
  pub prefix_history_get-prefix_history_set :
      (hash q : ℕ) (e : PrefixDispatchEntry)
      → (prefix_history_get di ds dp dl db now'
          (prefix_history_set di ds dp dl db now s hash e ttl)
          q).1
        ≡ ite
            (ℕ_discrete hash q)
            (if ltb now' (expiry_at now ttl) then some e else none)
            (prefix_history_get di ds dp dl db now' s q).1
  unfolding prefix_history_get prefix_history_set
  prefix_history_get-prefix_history_set hash q e =
      ground (arith, dp.get-insert hash q (e, expiry_at now ttl) s.prefix_history)

  -- The metrics that are set for a backend are read back until the time to live has passed, and
  -- are gone after; every other backend reads as before.
  pub metrics_get-metrics_set :
      (backend q : BackendId) (m : Metrics)
      → (metrics_get di ds dp dl db now' (metrics_set di ds dp dl db now s backend m ttl) q).1
        ≡ ite
            (BackendId_discrete backend q)
            (if ltb now' (expiry_at now ttl) then some m else none)
            (metrics_get di ds dp dl db now' s q).1
  unfolding metrics_get metrics_set
  metrics_get-metrics_set backend q m =
      ground (arith, db.get-insert backend q (m, expiry_at now ttl) s.metrics)

  -- A read of a session, though it drops an expired entry, does not change what a second read at
  -- the same time returns.
  pub session_get_again :
      (session : SessionId)
      → (session_get di ds dp dl db now' (session_get di ds dp dl db now' s session).0 session).1
        ≡ (session_get di ds dp dl db now' s session).1
  unfolding session_get
  session_get_again session = ground (arith, ds.get-remove session session s.sessions)
