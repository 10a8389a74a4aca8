-- ===== src/Metadata/RadixTree/Valid/Removal.antt =====
-- Removing the ownership of some hashes, or of a backend, keeps the invariant of the radix tree.
use hier_kv_gateway.Prelude.{
  ℕ, ◌-◌, ◌≡◌, refl, Bool, List, length, arith, keep, not, ◌∙◌, Bool-cases, inl, inr, ◌≢◌,
  length-keep-le,
}
use hier_kv_gateway.Ids.{BackendId}
use hier_kv_gateway.Metadata.RadixTree.{
  Owner, Node, node, Children, nil, cons, same_backend, same_owner, has_owner, remove_owner,
  contains, is_reclaimable, keep_child, with_children, drop_owner, remove_owners_by_hash,
  remove_in_children, clear_backend_recursive, clear_in_children,
}
use hier_kv_gateway.Metadata.RadixTree.Valid.{
  hash, IsAbsent, IsCounted, IsValid, AreValid, valid, none_left, one_more, IsUnique-keep,
  HasRankZero-keep, length-keep_owner,
}

hash-drop_owner :
    (o : Owner) (hashes : List ℕ) (h : ℕ) (os : List Owner) (rc : ℕ) (cs cs' : Children)
    → hash (with_children (drop_owner o hashes h os rc cs) cs') ≡ h
unfolding remove_owner
hash-drop_owner o hashes h os rc cs cs' = ground arith

hash-remove :
    (o : Owner) (hashes : List ℕ) (n : Node) → hash (remove_owners_by_hash o hashes n) ≡ hash n
unfolding remove_owners_by_hash
hash-remove o hashes (node h os rc cs) = hash-drop_owner o hashes h os rc cs _

pub hash-clear : (b : BackendId) (n : Node) → hash (clear_backend_recursive b n) ≡ hash n
unfolding clear_backend_recursive
hash-clear b (node h os rc cs) = refl

IsAbsent-keep_child :
    (h k : ℕ) (n : Node) (cs : Children) → k ≢ h → IsAbsent h cs → IsAbsent h (keep_child k n cs)
IsAbsent-keep_child h k n cs ne a = elim (Bool-cases (is_reclaimable n)) [
  | inl e ↦ rw e a
  | inr e ↦ rw e (ne, a)
]

pub IsAbsent-remove :
    (o : Owner) (hashes : List ℕ) (h : ℕ) (cs : Children)
    → IsAbsent h cs
    → IsAbsent h (remove_in_children o hashes cs)
unfolding remove_owners_by_hash
IsAbsent-remove o hashes h nil a = a
IsAbsent-remove o hashes h (cons k n cs) a =
    IsAbsent-keep_child h k (remove_owners_by_hash o hashes n) _ a.0
      (IsAbsent-remove o hashes h cs a.1)

pub IsAbsent-clear :
    (b : BackendId) (h : ℕ) (cs : Children) → IsAbsent h cs → IsAbsent h (clear_in_children b cs)
unfolding clear_backend_recursive
IsAbsent-clear b h nil a = a
IsAbsent-clear b h (cons k n cs) a =
    IsAbsent-keep_child h k (clear_backend_recursive b n) _ a.0 (IsAbsent-clear b h cs a.1)

module _ {bound : ℕ} where
  keep-IsCounted :
      (q : Owner → Bool) {os : List Owner} {rc : ℕ} (rc' : ℕ)
      → IsCounted bound os rc
      → rc' ≡ length (keep q os)
      → IsCounted bound (keep q os) rc'
  keep-IsCounted q {os} rc' c e = record {
    count = e;
    below = omega (arith, length-keep-le q os, c.below);
    unique = IsUnique-keep q os c.unique;
    rank = HasRankZero-keep q os c.rank;
  }

  drop_owner-IsValid :
      (o : Owner) (hashes : List ℕ) (h : ℕ) {os : List Owner} {rc : ℕ} (cs cs' : Children)
      → IsCounted bound os rc
      → AreValid bound cs'
      → IsValid bound (with_children (drop_owner o hashes h os rc cs) cs')
  unfolding remove_owner
  drop_owner-IsValid o hashes h {os} {rc} cs cs' c v = elim (Bool-cases (contains h hashes)) [
    | inr e ↦ rw e (valid c v)
    | inl e ↦ rw e (elim (Bool-cases (has_owner o os)) [
      | inr f ↦ rw f (valid c v)
      | inl f ↦ rw f (
          valid
            (keep-IsCounted (λ p. not (same_owner p o)) (rc - 1) c
              (ground (arith, c.count, length-keep_owner o os c.unique)))
            v)
    ])
  ]

  keep_child-AreValid :
      {k : ℕ} (n : Node) {cs : Children}
      → hash n ≡ k
      → IsAbsent k cs
      → IsValid bound n
      → AreValid bound cs
      → AreValid bound (keep_child k n cs)
  keep_child-AreValid n e a v vs = elim (Bool-cases (is_reclaimable n)) [
    | inl r ↦ rw r vs
    | inr r ↦ rw r (one_more e r a v vs)
  ]

  mutual
    unfolding remove_owners_by_hash

    pub remove-IsValid :
        (o : Owner) (hashes : List ℕ) {n : Node}
        → IsValid bound n
        → IsValid bound (remove_owners_by_hash o hashes n)
    remove-IsValid o hashes (valid {h} {os} {rc} {cs} c v) =
        drop_owner-IsValid o hashes h cs (remove_in_children o hashes cs) c
          (remove-AreValid o hashes v)

    pub remove-AreValid :
        (o : Owner) (hashes : List ℕ) {cs : Children}
        → AreValid bound cs
        → AreValid bound (remove_in_children o hashes cs)
    remove-AreValid o hashes none_left = none_left
    remove-AreValid o hashes (one_more {k} {n} {cs} e r a v vs) =
        keep_child-AreValid (remove_owners_by_hash o hashes n) (hash-remove o hashes n ∙ e)
          (IsAbsent-remove o hashes k cs a) (remove-IsValid o hashes v)
          (remove-AreValid o hashes vs)

  mutual
    unfolding clear_backend_recursive

    pub clear-IsValid :
        (b : BackendId) {n : Node} → IsValid bound n → IsValid bound (clear_backend_recursive b n)
    clear-IsValid b (valid {h} {os} {rc} {cs} c v) =
        valid
          (keep-IsCounted (λ p. not (same_backend p.0 b)) _ c
            (omega (arith, c.count, length-keep-le (λ p. not (same_backend p.0 b)) os)))
          (clear-AreValid b v)

    pub clear-AreValid :
        (b : BackendId) {cs : Children}
        → AreValid bound cs
        → AreValid bound (clear_in_children b cs)
    clear-AreValid b none_left = none_left
    clear-AreValid b (one_more {k} {n} {cs} e r a v vs) =
        keep_child-AreValid (clear_backend_recursive b n) (hash-clear b n ∙ e)
          (IsAbsent-clear b k cs a) (clear-IsValid b v) (clear-AreValid b vs)
