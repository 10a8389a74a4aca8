-- ===== src/Metadata/RoutingHistory/Expiry.antt =====
-- A session's affinity lasts as long as its time to live.
use hier_kv_gateway.Prelude.{
  ℕ, ◌+◌, ◌-◌, ◌^◌, min, ◌≡◌, refl, sym, ◌∙◌, Bool, false, Option, none, some, List, [], ◌∷◌,
  if◌then◌else◌, ltb, not, length, keep, ite, arith, In, Distinct, inl, inr, Bool-cases, subst,
}
use hier_kv_gateway.Ids.{BackendId, SessionId, SessionId_discrete}
use hier_kv_gateway.HashMap.{lookup, keys}
use hier_kv_gateway.Interface.DashMap.{DashMap, retained}
use hier_kv_gateway.Metadata.RoutingHistory.{SessionAffinity, is_expired, get, set, evict_expired}

In-lookup :
    (k : SessionId) (v : SessionAffinity) (l : List (SessionId × SessionAffinity))
    → lookup SessionId_discrete k l ≡ some v
    → In k (keys l)
unfolding lookup
In-lookup k v [] e = cc
In-lookup k v ((j, w) ∷ l) e = elim (SessionId_discrete j k) [
  | yes p ↦ inl (sym p)
  | no p ↦ inr (In-lookup k v l (ground (arith, p, e)))
]

none_expired :
    (p : SessionAffinity → Bool) (l : List (SessionId × SessionAffinity))
    → Distinct (keys l)
    → ((k : SessionId) (v : SessionAffinity) → lookup SessionId_discrete k l ≡ some v → p v ≡ false)
    → length (keep (λ e. p e.1) l) ≡ 0
unfolding lookup
none_expired p [] dis h = refl
none_expired p ((k, v) ∷ l) dis h = ground (
  arith,
  h k v (ground arith),
  none_expired p l dis.1 (λ j w e. h j w (elim (SessionId_discrete k j) [
    | yes q ↦ absurd (dis.0 (subst (λ i. In i (keys l)) (sym q) (In-lookup j w l e)))
    | no q ↦ ground (arith, q, e)
  ])),
)

module _ {M : Type 0} (d : DashMap M SessionId_discrete SessionAffinity) where
  -- A session that was set at the time `now` is there after an eviction at `now'` exactly if
  -- `now + ttl`, held at the largest `u64`, is not before `now'`, with the backend and the overlap
  -- it was set with; on every other session the eviction does what it does without the call.
  pub evict_expired-set :
      (session q : SessionId) (b : BackendId) (now now' ttl overlap : ℕ) (s : M)
      → get d q (evict_expired d now' ttl (set d now session b overlap s)).0
        ≡ ite
            (SessionId_discrete session q)
            (if ltb (min (now + ttl) (2 ^ 64 - 1)) now'
              then none
              else some
                  (record { backend = b; last_used_unix = now; kv_overlap_at_route = overlap }))
            (get d q (evict_expired d now' ttl s).0)
  unfolding get evict_expired set is_expired
  evict_expired-set session q b now now' ttl overlap s = ground (
    arith,
    d.get-retain (λ k aff. not (is_expired now' ttl aff)) q s,
    d.get-retain (λ k aff. not (is_expired now' ttl aff)) q (set d now session b overlap s),
    d.get-insert session q
        (record { backend = b; last_used_unix = now; kv_overlap_at_route = overlap }) s,
  )

  -- An eviction leaves nothing for a second one with the same clock and time to live.
  pub evict_expired_again :
      (now ttl : ℕ) (s : M) → (evict_expired d now ttl (evict_expired d now ttl s).0).1 ≡ 0
  unfolding evict_expired
  evict_expired_again now ttl s =
      none_expired (is_expired now ttl) (d.entries after) (d.entries-Distinct after) fresh
    where
      after : M
      after = d.retain (λ k aff. not (is_expired now ttl aff)) s

      fresh :
          (k : SessionId) (v : SessionAffinity)
          → lookup SessionId_discrete k (d.entries after) ≡ some v
          → is_expired now ttl v ≡ false
      fresh k v e = kept (d.get k s) (
          sym (d.get-retain (λ j aff. not (is_expired now ttl aff)) k s)
          ∙ sym (d.lookup-entries k after)
          ∙ e)
        where
          kept :
              (o : Option SessionAffinity)
              → retained (λ j aff. not (is_expired now ttl aff)) k o ≡ some v
              → is_expired now ttl v ≡ false
          kept none f = cc
          kept (some w) f = elim (Bool-cases (is_expired now ttl w)) [
            | inl t ↦ ground (arith, f, t)
            | inr t ↦ ground (arith, f, t)
          ]
