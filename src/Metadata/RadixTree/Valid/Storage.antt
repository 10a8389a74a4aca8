-- ===== src/Metadata/RadixTree/Valid/Storage.antt =====
-- Storing a path of blocks keeps the invariant of the radix tree.
use hier_kv_gateway.Prelude.{
  ℕ, ◌+◌, ◌<◌, ◌≡◌, refl, false, List, [], ◌∷◌, arith, ◌∙◌, ◌==◌, Bool-cases, inl, inr, ◌≢◌,
}
use hier_kv_gateway.Ids.{BackendId}
use hier_kv_gateway.Metadata.RadixTree.{
  Owner, Node, node, Children, nil, cons, owners, ref_count, children, new_node, add_owner,
  child_or_new, put_child, store_path, is_reclaimable, u32_max,
}
use hier_kv_gateway.Metadata.RadixTree.Valid.{
  hash, IsAbsent, IsCounted, IsValid, AreValid, valid, none_left, one_more, weaken-IsCounted,
  AreValid-weaken, add_owner-IsCounted, add_owner-keeps, parts,
}

new_node-IsValid : (a h : ℕ) → IsValid a (new_node h)
new_node-IsValid a h =
    valid (record { count = refl; below = omega arith; unique = tt; rank = tt }) none_left

child_or_new-IsValid :
    {a : ℕ} (h : ℕ) (cs : Children)
    → AreValid a cs
    → IsValid a (child_or_new h cs) × (hash (child_or_new h cs) ≡ h)
unfolding child_or_new
child_or_new-IsValid {a} h nil none_left = (new_node-IsValid a h, refl)
child_or_new-IsValid h (cons k n cs) (one_more e r ab v vs) = elim (Bool-cases (k == h)) [
  | inl q ↦ rw q (v, e ∙ ground arith)
  | inr q ↦ rw q (child_or_new-IsValid h cs vs)
]

IsAbsent-put :
    (k h : ℕ) (n : Node) (cs : Children) → h ≢ k → IsAbsent k cs → IsAbsent k (put_child h n cs)
unfolding put_child
IsAbsent-put k h n nil ne ab = (ne, tt)
IsAbsent-put k h n (cons j m cs) ne ab = elim (Bool-cases (j == h)) [
  | inl q ↦ rw q ab
  | inr q ↦ rw q (ab.0, IsAbsent-put k h n cs ne ab.1)
]

put_child-AreValid :
    {a : ℕ} (h : ℕ) (n : Node) (cs : Children)
    → IsValid a n
    → hash n ≡ h
    → is_reclaimable n ≡ false
    → AreValid a cs
    → AreValid a (put_child h n cs)
unfolding put_child
put_child-AreValid h n nil v e r none_left = one_more e r tt v none_left
put_child-AreValid h n (cons k m cs) v e r (one_more e' r' ab v' vs) = elim (Bool-cases (k == h)) [
  | inl q ↦ rw q (one_more (e ∙ ground arith) r ab v vs)
  | inr q ↦ rw q (
      one_more e' r' (IsAbsent-put k h n cs (ground arith) ab) v'
        (put_child-AreValid h n cs v e r vs))
]

kept_by_count : (n : Node) → 0 < ref_count n → is_reclaimable n ≡ false
kept_by_count (node h os rc cs) p = ground arith

store_path-keeps :
    (o : Owner) (hs : List ℕ) (n : Node)
    → (hash (store_path o hs n) ≡ hash n) × (ref_count (store_path o hs n) ≡ ref_count n)
unfolding store_path
store_path-keeps o [] n = (refl, refl)
store_path-keeps o (h ∷ hs) (node g os rc cs) = (refl, refl)

-- The owners of `n` may already be one more than those below it.
store_path-IsValid_below :
    {a : ℕ} (b : BackendId) (hs : List ℕ) (n : Node)
    → a < u32_max
    → IsCounted (a + 1) (owners n) (ref_count n)
    → AreValid a (children n)
    → IsValid (a + 1) (store_path (b, 0) hs n)
unfolding store_path
store_path-IsValid_below b [] (node g os rc cs) lt c v = valid c (AreValid-weaken (omega arith) v)
store_path-IsValid_below {a} b (h ∷ hs) (node g os rc cs) lt c v = valid c (
    put_child-AreValid h (store_path (b, 0) hs m) cs
      (store_path-IsValid_below b hs m lt added.0
        (rw (add_owner-keeps (b, 0) old).1 (parts old_valid.0).1))
      ((store_path-keeps (b, 0) hs m).0 ∙ (add_owner-keeps (b, 0) old).0 ∙ old_valid.1)
      (kept_by_count (store_path (b, 0) hs m) (rw (store_path-keeps (b, 0) hs m).1 added.1))
      (AreValid-weaken (omega arith) v))
  where
    old : Node
    old = child_or_new h cs

    m : Node
    m = add_owner (b, 0) old

    old_valid : IsValid a old × (hash old ≡ h)
    old_valid = child_or_new-IsValid h cs v

    added : IsCounted (a + 1) (owners m) (ref_count m) × (0 < ref_count m)
    added = add_owner-IsCounted b old (parts old_valid.0).0 lt

pub store_path-IsValid :
    {a : ℕ} (b : BackendId) (hs : List ℕ) (n : Node)
    → a < u32_max
    → IsValid a n
    → IsValid (a + 1) (store_path (b, 0) hs n)
store_path-IsValid b hs n lt v =
    store_path-IsValid_below b hs n lt (weaken-IsCounted (omega arith) (parts v).0) (parts v).1
