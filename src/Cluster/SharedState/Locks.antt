-- ===== src/Cluster/SharedState/Locks.antt =====
-- The locks of the shared store exclude one another.
use hier_kv_gateway.Prelude.{
  ℕ, ◌<◌, ◌≡◌, ◌≢◌, true, false, some, List, [], ◌∷◌, All, String, arith, ℕ_discrete, ◌⊎◌,
}
use hier_kv_gateway.Ids.{
  BackendId, BackendId_discrete, InstanceId_discrete, SessionId_discrete, String_discrete,
}
use hier_kv_gateway.Interface.DashMap.{DashMap}
use hier_kv_gateway.Cluster.SharedState.{
  InstanceEntry, PrefixDispatchEntry, LocalSharedState, try_lock, unlock, expiry_at,
}

-- A call on a lock: of a key, by a holder; `try_lock` at a time, with a time to live.
pub data LockCall : Type 0 where
  lock_at : ℕ → String → String → ℕ → LockCall
  release : String → String → LockCall

-- The call neither comes once the lock may be stale, nor from its holder.
abbrev pub IsForeign : String → String → ℕ → LockCall → Type 0
IsForeign key holder expiry (lock_at t k h ttl) = (t < expiry) × ((k ≢ key) ⊎ (h ≢ holder))
IsForeign key holder expiry (release k h) = (k ≢ key) ⊎ (h ≢ holder)

module _ {I S P L B Metrics : Type 0} (di : DashMap I InstanceId_discrete (InstanceEntry × ℕ))
    (ds : DashMap S SessionId_discrete (BackendId × ℕ))
    (dp : DashMap P ℕ_discrete (PrefixDispatchEntry × ℕ))
    (dl : DashMap L String_discrete (String × ℕ))
    (db : DashMap B BackendId_discrete (Metrics × ℕ)) where
  unfoldable pub lock_call : LocalSharedState I S P L B → LockCall → LocalSharedState I S P L B
  lock_call s (lock_at t k h ttl) = (try_lock di ds dp dl db t s k h ttl).0
  lock_call s (release k h) = unlock di ds dp dl db s k h

  unfoldable pub lock_calls :
      LocalSharedState I S P L B → List LockCall → LocalSharedState I S P L B
  lock_calls s [] = s
  lock_calls s (c ∷ cs) = lock_calls (lock_call s c) cs

  try_lock-holds :
      (s : LocalSharedState I S P L B) (now ttl : ℕ) (key holder : String)
      → (try_lock di ds dp dl db now s key holder ttl).1 ≡ true
      → dl.get key (try_lock di ds dp dl db now s key holder ttl).0.locks
        ≡ some (holder, expiry_at now ttl)
  unfolding try_lock
  try_lock-holds s now ttl key holder h =
      ground (arith, dl.get-insert key key (holder, expiry_at now ttl) s.locks)

  lock_call-keeps :
      (s : LocalSharedState I S P L B) (c : LockCall) (key holder : String) (expiry : ℕ)
      → IsForeign key holder expiry c
      → dl.get key s.locks ≡ some (holder, expiry)
      → dl.get key (lock_call s c).locks ≡ some (holder, expiry)
  unfolding lock_call try_lock unlock
  lock_call-keeps s (lock_at t k h ttl) key holder expiry f g =
      ground (arith, dl.get-insert k key (h, expiry_at t ttl) s.locks)
  lock_call-keeps s (release k h) key holder expiry f g =
      ground (arith, dl.get-remove k key s.locks)

  lock_calls-keep :
      (s : LocalSharedState I S P L B) (cs : List LockCall) (key holder : String) (expiry : ℕ)
      → All (IsForeign key holder expiry) cs
      → dl.get key s.locks ≡ some (holder, expiry)
      → dl.get key (lock_calls s cs).locks ≡ some (holder, expiry)
  unfolding lock_calls
  lock_calls-keep s [] key holder expiry f g = g
  lock_calls-keep s (c ∷ cs) key holder expiry f g =
      lock_calls-keep (lock_call s c) cs key holder expiry f.1
        (lock_call-keeps s c key holder expiry f.0 g)

  -- Mutual exclusion: once `try_lock` has given a key to a holder, and until that lock expires, no
  -- other holder gets the key, whatever `try_lock` and `unlock` calls on other keys or by other
  -- holders come in between.
  pub try_lock_excludes :
      (s : LocalSharedState I S P L B) (now ttl : ℕ) (key holder : String) (cs : List LockCall)
      (t ttl' : ℕ) (other : String)
      → (try_lock di ds dp dl db now s key holder ttl).1 ≡ true
      → All (IsForeign key holder (expiry_at now ttl)) cs
      → t < expiry_at now ttl
      → other ≢ holder
      → (try_lock di ds dp dl db t
          (lock_calls (try_lock di ds dp dl db now s key holder ttl).0 cs)
          key
          other
          ttl').1
        ≡ false
  unfolding try_lock
  try_lock_excludes s now ttl key holder cs t ttl' other got f before ne =
      refused (lock_calls (try_lock di ds dp dl db now s key holder ttl).0 cs) (
        lock_calls-keep (try_lock di ds dp dl db now s key holder ttl).0 cs key holder
          (expiry_at now ttl) f (try_lock-holds s now ttl key holder got))
    where
      refused :
          (s' : LocalSharedState I S P L B)
          → dl.get key s'.locks ≡ some (holder, expiry_at now ttl)
          → (try_lock di ds dp dl db t s' key other ttl').1 ≡ false
      refused s' g = ground arith
