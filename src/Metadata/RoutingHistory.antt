-- ===== src/Metadata/RoutingHistory.antt =====
-- crates/hier-kv-gateway-metadata/src/routing_history.rs: which backend a session was last bound
-- to. A read of the clock is the argument `now`, in Unix seconds.
pub mod Expiry
use hier_kv_gateway.Prelude.{
  ℕ, ◌+◌, ◌-◌, ◌^◌, min, Bool, true, false, Option, none, some, List, [], ◌∷◌, ltb, not, length,
  keep,
}
use hier_kv_gateway.Ids.{BackendId, SessionId, SessionId_discrete}
use hier_kv_gateway.Interface.DashMap.{DashMap}

pub record SessionAffinity : Type 0 where
  pub backend : BackendId
  pub last_used_unix : ℕ
  pub kv_overlap_at_route : ℕ

-- The test of `evict_expired`; the sum saturates on `u64`.
unfoldable pub is_expired : ℕ → ℕ → SessionAffinity → Bool
is_expired now ttl_secs aff = ltb (min (aff.last_used_unix + ttl_secs) (2 ^ 64 - 1)) now

module _ {M : Type 0} (d : DashMap M SessionId_discrete SessionAffinity) where
  unfoldable pub new : M
  new = d.empty

  unfoldable pub get : SessionId → M → Option SessionAffinity
  get session s = d.get session s

  unfoldable pub set : ℕ → SessionId → BackendId → ℕ → M → M
  set now session backend kv_overlap_at_route s =
      d.insert session
        (record {
          backend = backend;
          last_used_unix = now;
          kv_overlap_at_route = kv_overlap_at_route;
        })
        s

  unfoldable pub remove : SessionId → M → M
  remove session s = d.remove session s

  -- `retain` visits every entry, and the closure counts those it drops.
  unfoldable pub evict_expired : ℕ → ℕ → M → M × ℕ
  evict_expired now ttl_secs s = (
    d.retain (λ k aff. not (is_expired now ttl_secs aff)) s,
    length (keep (λ e. is_expired now ttl_secs e.1) (d.entries s)),
  )

  unfoldable pub len : M → ℕ
  len s = length (d.entries s)
