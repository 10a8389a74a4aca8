-- ===== src/Cluster/Gossip/Detector/Doubts.antt =====
-- One step of the failure detector.
use hier_kv_gateway.Prelude.{
  ℕ, ◌+◌, ◌≤◌, ◌<◌, ◌≡◌, refl, ap, Bool, true, false, Option, none, some, ◌-◌, dec_lt, ite, arith,
  ◌≢◌,
}
use hier_kv_gateway.Ids.{InstanceId, InstanceId_discrete}
use hier_kv_gateway.Cluster.Member.{MemberStatus, alive, suspect, dead, is_alive}
use hier_kv_gateway.Cluster.Gossip.Detector.{Opinion, hear, doubt}

abbrev pub is_dead : MemberStatus → Bool
is_dead alive = false
is_dead suspect = false
is_dead dead = true

-- The time of the last heartbeat after a message.
abbrev pub last_heard : ℕ → InstanceId → Option InstanceId → ℕ → ℕ
last_heard now i none t = t
last_heard now i (some sender) t = ite (InstanceId_discrete sender i) now t

-- The time that `hear` leaves, for a status that keeps a property of the living.
pub hear-alive :
    (now : ℕ) (i : InstanceId) (o : Option InstanceId) (t : ℕ)
    → hear now i o (some (alive, t)) ≡ some (alive, last_heard now i o t)
hear-alive now i none t = refl
hear-alive now i (some s) t = ground arith

-- A status and a time with a property of the status.
abbrev pub Holds : (MemberStatus → Bool) → Bool → Opinion → Type 0
Holds p b o = (s : MemberStatus) × (u : ℕ) × (o ≡ some (s, u)) × (p s ≡ b)

pub hear-not_dead :
    (now : ℕ) (i : InstanceId) (o : Option InstanceId) (s : MemberStatus) (t : ℕ)
    → is_dead s ≡ false
    → (s' : MemberStatus) × (hear now i o (some (s, t)) ≡ some (s', last_heard now i o t))
      × (is_dead s' ≡ false)
hear-not_dead now i none s t h = (s, refl, h)
hear-not_dead now i (some j) s t h = elim (InstanceId_discrete j i) [
  | yes p ↦ (alive, ground (arith, p), refl)
  | no p ↦ (s, ground (arith, p), h)
]

pub doubt-not_dead :
    (now pt st : ℕ) (s : MemberStatus) (t : ℕ)
    → now ≤ t + st
    → is_dead s ≡ false
    → (s' : MemberStatus) × (doubt now pt st (some (s, t)) ≡ some (s', t)) × (is_dead s' ≡ false)
unfolding doubt
doubt-not_dead now pt st alive t b h = elim (dec_lt t (now - pt)) [
  | yes p ↦ (suspect, ground (arith, p), refl)
  | no p ↦ (alive, ground (arith, p), refl)
]
doubt-not_dead now pt st suspect t b h = (suspect, ground (arith, b), refl)
doubt-not_dead now pt st dead t b h = (dead, refl, h)

-- A probe leaves the time, and no life to one that has none.
pub doubt-not_alive :
    (now pt st : ℕ) (s : MemberStatus) (t : ℕ)
    → is_alive s ≡ false
    → (s' : MemberStatus) × (doubt now pt st (some (s, t)) ≡ some (s', t)) × (is_alive s' ≡ false)
unfolding doubt
doubt-not_alive now pt st alive t h = (alive, ground (arith, h), h)
doubt-not_alive now pt st suspect t h = elim (dec_lt t (now - st)) [
  | yes p ↦ (dead, ground (arith, p), refl)
  | no p ↦ (suspect, ground (arith, p), refl)
]
doubt-not_alive now pt st dead t h = (dead, refl, refl)

pub doubt-late :
    (now pt st : ℕ) (s : MemberStatus) (t : ℕ)
    → t + pt < now
    → (s' : MemberStatus) × (doubt now pt st (some (s, t)) ≡ some (s', t)) × (is_alive s' ≡ false)
unfolding doubt
doubt-late now pt st alive t b = (suspect, ground (arith, b), refl)
doubt-late now pt st suspect t b = doubt-not_alive now pt st suspect t refl
doubt-late now pt st dead t b = (dead, refl, refl)

pub doubt-last :
    (now pt st : ℕ) (s : MemberStatus) (t : ℕ)
    → t + st < now
    → is_alive s ≡ false
    → doubt now pt st (some (s, t)) ≡ some (dead, t)
unfolding doubt
doubt-last now pt st alive t b h = ground (arith, h)
doubt-last now pt st suspect t b h = ground (arith, b)
doubt-last now pt st dead t b h = refl

pub doubt-time :
    (now pt st : ℕ) (s : MemberStatus) (t : ℕ)
    → (s' : MemberStatus) × (doubt now pt st (some (s, t)) ≡ some (s', t))
unfolding doubt
doubt-time now pt st alive t = elim (dec_lt t (now - pt)) [
  | yes p ↦ (suspect, ground (arith, p))
  | no p ↦ (alive, ground (arith, p))
]
doubt-time now pt st suspect t = let (s, e, h) = doubt-not_alive now pt st suspect t refl in (s, e)
doubt-time now pt st dead t = (dead, refl)

pub hear-silent :
    (now : ℕ) (i : InstanceId) (o : Option InstanceId) (p : Opinion)
    → o ≢ some i
    → hear now i o p ≡ p
hear-silent now i none p n = refl
hear-silent now i (some j) p n = elim (InstanceId_discrete j i) [
  | yes q ↦ absurd (n (ap (λ k. some k) q))
  | no q ↦ ground (arith, q)
]
