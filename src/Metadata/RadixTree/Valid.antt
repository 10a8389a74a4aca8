-- ===== src/Metadata/RadixTree/Valid.antt =====
-- The invariant of the radix tree: reference counts are the numbers of owners, owners and keys
-- stand once, a child stands under its own hash, and no child waits to be reclaimed.
pub mod Removal
pub mod Storage
pub mod Runs
use hier_kv_gateway.Prelude.{
  ℕ, suc, ◌+◌, ◌-◌, ◌≤◌, ◌<◌, ◌≡◌, refl, Bool, true, false, Option, none, some, List, [], ◌∷◌,
  length, arith, min, keep, not, All, subst, zero, ◌&&◌, ◌∙◌, ap, ◌==◌, Bool-cases, inl, inr,
  if◌then◌else◌, ◌≢◌, length-keep-le,
}
use hier_kv_gateway.Ids.{BackendId, BackendId_discrete}
use hier_kv_gateway.Metadata.RadixTree.{
  Owner, Node, node, Children, nil, cons, owners, ref_count, children, new_node, same_backend,
  same_owner, has_owner, add_owner, remove_owner, any_rank, child, child_or_new, put_child,
  store_path, contains, is_reclaimable, keep_child, with_children, drop_owner,
  remove_owners_by_hash, remove_in_children, clear_backend_recursive, clear_in_children, u32_max,
}

abbrev pub hash : Node → ℕ
hash (node h os rc cs) = h

-- Owners stand once.
abbrev pub IsUnique : List Owner → Type 0
IsUnique [] = Unit
IsUnique (o ∷ os) = (has_owner o os ≡ false) × IsUnique os

-- The events of the gateway carry rank 0 only.
abbrev pub HasRankZero : List Owner → Type 0
HasRankZero os = All (λ o. o.1 ≡ 0) os

abbrev pub IsAbsent : ℕ → Children → Type 0
IsAbsent h nil = Unit
IsAbsent h (cons k n cs) = (k ≢ h) × IsAbsent h cs

-- The owners of one node, at most `bound`, and its reference count.
pub record IsCounted (bound : ℕ) (os : List Owner) (rc : ℕ) : Type 0 where
  pub count : rc ≡ length os
  pub below : length os ≤ bound
  pub unique : IsUnique os
  pub rank : HasRankZero os

mutual
  pub data IsValid (bound : ℕ) : Node → Type 0 where
    valid :
        {h : ℕ} {os : List Owner} {rc : ℕ} {cs : Children}
        → IsCounted bound os rc
        → AreValid bound cs
        → IsValid bound (node h os rc cs)

  pub data AreValid (bound : ℕ) : Children → Type 0 where
    none_left : AreValid bound nil
    one_more :
        {k : ℕ} {n : Node} {cs : Children}
        → hash n ≡ k
        → is_reclaimable n ≡ false
        → IsAbsent k cs
        → IsValid bound n
        → AreValid bound cs
        → AreValid bound (cons k n cs)

parts :
    {bound : ℕ} {n : Node}
    → IsValid bound n
    → IsCounted bound (owners n) (ref_count n) × AreValid bound (children n)
parts (valid c v) = (c, v)

weaken-IsCounted :
    {a b : ℕ} {os : List Owner} {rc : ℕ} → a ≤ b → IsCounted a os rc → IsCounted b os rc
weaken-IsCounted le c = record {
  count = c.count;
  below = omega arith;
  unique = c.unique;
  rank = c.rank;
}

mutual
  IsValid-weaken : {a b : ℕ} {n : Node} → a ≤ b → IsValid a n → IsValid b n
  IsValid-weaken le (valid c v) = valid (weaken-IsCounted le c) (AreValid-weaken le v)

  AreValid-weaken : {a b : ℕ} {cs : Children} → a ≤ b → AreValid a cs → AreValid b cs
  AreValid-weaken le none_left = none_left
  AreValid-weaken le (one_more e r ab v vs) =
      one_more e r ab (IsValid-weaken le v) (AreValid-weaken le vs)

has_owner-pos : (o : Owner) (os : List Owner) → has_owner o os ≡ true → 0 < length os
unfolding has_owner
has_owner-pos o [] h = cc
has_owner-pos o (p ∷ os) h = omega arith

same_owner-eq : (p o : Owner) → same_owner p o ≡ true → p ≡ o
same_owner-eq (a, r) (b, s) h = ground arith

-- One more owner: the node stays counted, and is no longer without owners.
add_owner-IsCounted :
    {a : ℕ} (b : BackendId) (n : Node)
    → IsCounted a (owners n) (ref_count n)
    → a < u32_max
    → IsCounted (a + 1) (owners (add_owner (b, 0) n)) (ref_count (add_owner (b, 0) n))
      × (0 < ref_count (add_owner (b, 0) n))
unfolding add_owner
add_owner-IsCounted b (node h os rc cs) c lt = elim (Bool-cases (has_owner (b, 0) os)) [
  | inl e ↦
      rw e (weaken-IsCounted (omega arith) c, omega (arith, c.count, has_owner-pos (b, 0) os e))
  | inr e ↦ rw e (
    record {
      count = omega (arith, c.count, c.below);
      below = omega (arith, c.below);
      unique = (e, c.unique);
      rank = (refl, c.rank);
    },
    omega arith,
  )
]

add_owner-keeps :
    (o : Owner) (n : Node)
    → (hash (add_owner o n) ≡ hash n) × (children (add_owner o n) ≡ children n)
unfolding add_owner
add_owner-keeps o (node h os rc cs) = elim (Bool-cases (has_owner o os)) [
  | inl e ↦ rw e (refl, refl)
  | inr e ↦ rw e (refl, refl)
]

length-keep_owner :
    (o : Owner) (os : List Owner)
    → IsUnique os
    → length (keep (λ p. not (same_owner p o)) os) + (if has_owner o os then 1 else 0) ≡ length os
unfolding has_owner
length-keep_owner o [] u = refl
length-keep_owner o (p ∷ os) u = elim (Bool-cases (same_owner p o)) [
  | inl e ↦
      let fresh = subst (λ q. has_owner q os ≡ false) (same_owner-eq p o e) u.0 in
      ground (arith, length-keep_owner o os u.1)
  | inr e ↦ ground (arith, length-keep_owner o os u.1)
]

has_owner-keep :
    (o : Owner) (q : Owner → Bool) (os : List Owner)
    → has_owner o os ≡ false
    → has_owner o (keep q os) ≡ false
unfolding has_owner
has_owner-keep o q [] h = h
has_owner-keep o q (p ∷ os) h = ground (arith, has_owner-keep o q os)

IsUnique-keep : (q : Owner → Bool) (os : List Owner) → IsUnique os → IsUnique (keep q os)
IsUnique-keep q [] u = u
IsUnique-keep q (o ∷ os) u = ground (arith, IsUnique-keep q os, has_owner-keep o q os)

HasRankZero-keep : (q : Owner → Bool) (os : List Owner) → HasRankZero os → HasRankZero (keep q os)
HasRankZero-keep q [] u = u
HasRankZero-keep q (o ∷ os) u = ground (arith, HasRankZero-keep q os)
