-- ===== src/Metadata/RadixTree/View/Removal.antt =====
-- What removing blocks, or clearing a backend, does to the paths that are held.
use hier_kv_gateway.Prelude.{
  ℕ, ◌≡◌, refl, Bool, true, false, ◌&&◌, not, none, some, List, [], ◌∷◌, arith, ◌∙◌, ◌==◌,
  Bool-cases, inl, inr, if◌then◌else◌, keep, last_or, ap,
}
use hier_kv_gateway.Ids.{BackendId}
use hier_kv_gateway.Core.KvEvent.{WorkerWithRank, removed_event}
use hier_kv_gateway.Metadata.RadixTree.{
  Owner, Node, node, Children, nil, cons, children, child, is_owned_by, any_rank, has_owner,
  same_backend, same_owner, contains, is_reclaimable, keep_child, with_children, drop_owner,
  remove_owner, remove_owners_by_hash, remove_in_children, TreeState, apply_event,
}
use hier_kv_gateway.Metadata.RadixTree.Valid.{
  hash, HasRankZero, IsAbsent, IsValid, AreValid, valid, none_left, one_more,
}
use hier_kv_gateway.Metadata.RadixTree.Valid.Removal.{IsAbsent-remove, remove-IsValid}
use hier_kv_gateway.Metadata.RadixTree.View.{holds}

-- What is held below a list of children.
unfoldable pub held_below : BackendId → ℕ → List ℕ → Children → Bool
held_below b h p cs = elim (child h cs) [ none ↦ false | some c ↦ holds b p c ]

any_rank-has_owner :
    (a : BackendId) (os : List Owner) → HasRankZero os → has_owner (a, 0) os ≡ any_rank a os
unfolding has_owner any_rank
any_rank-has_owner a [] z = refl
any_rank-has_owner a ((c, r) ∷ os) z = ground (arith, any_rank-has_owner a os)

any_rank-keep :
    (a b : BackendId) (os : List Owner)
    → HasRankZero os
    → any_rank b (keep (λ p. not (same_owner p (a, 0))) os)
      ≡ (any_rank b os && not (same_backend a b))
unfolding any_rank
any_rank-keep a b [] z = refl
any_rank-keep a b ((c, r) ∷ os) z = ground (arith, any_rank-keep a b os)

pub any_rank-retain :
    (a b : BackendId) (os : List Owner)
    → any_rank b (keep (λ p. not (same_backend p.0 a)) os)
      ≡ (any_rank b os && not (same_backend a b))
unfolding any_rank
any_rank-retain a b [] = refl
any_rank-retain a b ((c, r) ∷ os) = ground (arith, any_rank-retain a b os)

pub child_absent : (h : ℕ) (cs : Children) → IsAbsent h cs → child h cs ≡ none
unfolding child
child_absent h nil a = refl
child_absent h (cons k n cs) a = ground (arith, child_absent h cs)

owned-drop_owner :
    (a b : BackendId) (hashes : List ℕ) (h : ℕ) (os : List Owner) (rc : ℕ) (cs cs' : Children)
    → HasRankZero os
    → is_owned_by (with_children (drop_owner (a, 0) hashes h os rc cs) cs') b
      ≡ (any_rank b os && not (same_backend a b && contains h hashes))
unfolding remove_owner
owned-drop_owner a b hashes h os rc cs cs' z =
    ground (arith, any_rank-keep a b os, any_rank-has_owner a os)

children-drop_owner :
    (o : Owner) (hashes : List ℕ) (h : ℕ) (os : List Owner) (rc : ℕ) (cs cs' : Children)
    → children (with_children (drop_owner o hashes h os rc cs) cs') ≡ cs'
unfolding remove_owner
children-drop_owner o hashes h os rc cs cs' = ground arith

pub holds_reclaimable :
    {bound : ℕ} (b : BackendId) (p : List ℕ) {n : Node}
    → IsValid bound n
    → is_reclaimable n ≡ true
    → holds b p n ≡ false
unfolding holds child any_rank
holds_reclaimable b [] (valid {os = []} {cs = cs} c v) r = refl
holds_reclaimable b [] (valid {os = o ∷ os} {cs = cs} c v) r = absurd (ground (arith, c.count))
holds_reclaimable b (x ∷ p) (valid {os = os} {cs = nil} c v) r = refl
holds_reclaimable b (x ∷ p) (valid {os = os} {cs = cons k n cs} c v) r = absurd (ground arith)

-- One child of a pruned list of children.
pub held_below-keep_child :
    (b : BackendId) (h : ℕ) (p : List ℕ) (k : ℕ) (n : Node) (cs : Children)
    → ((k == h) ≡ true → is_reclaimable n ≡ true → (child h cs ≡ none) × (holds b p n ≡ false))
    → held_below b h p (keep_child k n cs) ≡ (if k == h then holds b p n else held_below b h p cs)
unfolding held_below child
held_below-keep_child b h p k n cs f = elim (Bool-cases (is_reclaimable n)) [
  | inl r ↦ elim (Bool-cases (k == h)) [
    | inl q ↦ let (e, g) = f q r in ground (arith, e, g)
    | inr q ↦ ground arith
  ]
  | inr r ↦ ground arith
]

pub held_below-cons :
    (b : BackendId) (h : ℕ) (p : List ℕ) (k : ℕ) (n : Node) (cs : Children)
    → held_below b h p (cons k n cs) ≡ (if k == h then holds b p n else held_below b h p cs)
unfolding held_below child
held_below-cons b h p k n cs = ground arith

pub holds-below :
    (b : BackendId) (h : ℕ) (p : List ℕ) (n : Node)
    → holds b (h ∷ p) n ≡ held_below b h p (children n)
unfolding holds held_below
holds-below b h p n = refl

-- Whether removing the hashes from `a` takes the last block of the path `h ∷ p` from `b`.
abbrev pub taken : BackendId → BackendId → List ℕ → ℕ → List ℕ → Bool
taken a b hashes h p = same_backend a b && contains (last_or h p) hashes

module _ {bound : ℕ} (a b : BackendId) (hashes : List ℕ) where
  mutual
    unfolding remove_owners_by_hash holds held_below child

    holds-remove :
        (p : List ℕ) {n : Node}
        → IsValid bound n
        → holds b p (remove_owners_by_hash (a, 0) hashes n)
          ≡ (holds b p n && not (taken a b hashes (hash n) p))
    holds-remove [] (valid {h} {os} {rc} {cs} c v) =
        owned-drop_owner a b hashes h os rc cs (remove_in_children (a, 0) hashes cs) c.rank
    holds-remove (x ∷ p) (valid {h} {os} {rc} {cs} c v) =
        holds-below b x p (remove_owners_by_hash (a, 0) hashes (node h os rc cs))
        ∙ ap (held_below b x p) (children-drop_owner (a, 0) hashes h os rc cs _)
        ∙ held_below-remove x p v

    held_below-remove :
        (h : ℕ) (p : List ℕ) {cs : Children}
        → AreValid bound cs
        → held_below b h p (remove_in_children (a, 0) hashes cs)
          ≡ (held_below b h p cs && not (taken a b hashes h p))
    held_below-remove h p none_left = refl
    held_below-remove h p (one_more {k} {n} {cs} e r ab v vs) =
        held_below-keep_child b h p k (remove_owners_by_hash (a, 0) hashes n)
          (remove_in_children (a, 0) hashes cs)
          (λ q f. (
            ground (arith, child_absent k _ (IsAbsent-remove (a, 0) hashes k cs ab)),
            holds_reclaimable b p (remove-IsValid (a, 0) hashes v) f,
          ))
        ∙ ground
            (arith, holds-remove p v, held_below-remove h p vs, held_below-cons b h p k n cs, e)

-- In a valid tree, a `Removed` event of `a` takes from `a` every path that ends in one of the
-- hashes, wherever it stands in the tree, and nothing else from anybody.
pub holds-removed :
    {bound : ℕ} (t : TreeState) (a b : BackendId) (w : WorkerWithRank) (hashes : List ℕ) (h : ℕ)
    (p : List ℕ)
    → IsValid bound t.root
    → holds b (h ∷ p) (apply_event t a (removed_event w hashes)).root
      ≡ (holds b (h ∷ p) t.root && not (taken a b hashes h p))
unfolding apply_event holds child held_below
holds-removed {bound} t a b w hashes h p v = removed t.root v
  where
    removed :
        (n : Node)
        → IsValid bound n
        → holds b (h ∷ p) (with_children n (remove_in_children (a, 0) hashes (children n)))
          ≡ (holds b (h ∷ p) n && not (taken a b hashes h p))
    removed (node g os rc cs) (valid c vs) = held_below-remove a b hashes h p vs
