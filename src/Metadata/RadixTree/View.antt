-- ===== src/Metadata/RadixTree/View.antt =====
-- What the radix tree means: which backend holds the block at the end of which path from the root.
pub mod Matches
pub mod Removal
pub mod Clearing
use hier_kv_gateway.Prelude.{
  ℕ, suc, ◌+◌, ◌-◌, ◌≤◌, ◌<◌, ◌≡◌, refl, Bool, true, false, ◌&&◌, ◌||◌, Option, none, some, List,
  [], ◌∷◌, arith, ◌==◌, Bool-cases, inl, inr, if◌then◌else◌, dec→Bool,
}
use hier_kv_gateway.Ids.{BackendId, BackendId_discrete}
use hier_kv_gateway.Metadata.RadixTree.{
  Owner, Node, node, Children, nil, cons, owners, children, new_node, same_backend, same_owner,
  has_owner, add_owner, any_rank, is_owned_by, child, child_or_new, put_child, store_path,
}

-- Whether the node at the end of the path is owned by the backend.
unfoldable pub holds : BackendId → List ℕ → Node → Bool
holds b [] n = is_owned_by n b
holds b (h ∷ p) n = elim (child h (children n)) [ none ↦ false | some c ↦ holds b p c ]

-- Whether the first list is a prefix of the second.
unfoldable pub is_prefix : List ℕ → List ℕ → Bool
is_prefix [] hs = true
is_prefix (h ∷ p) [] = false
is_prefix (h ∷ p) (g ∷ hs) = h == g && is_prefix p hs

child-put :
    (h j : ℕ) (n : Node) (cs : Children)
    → child j (put_child h n cs) ≡ (if h == j then some n else child j cs)
unfolding child put_child
child-put h j n nil = refl
child-put h j n (cons k m cs) = ground (arith, child-put h j n cs)

child_or_new-child :
    (h : ℕ) (cs : Children)
    → child_or_new h cs ≡ elim (child h cs) [ none ↦ new_node h | some c ↦ c ]
unfolding child child_or_new
child_or_new-child h nil = refl
child_or_new-child h (cons k m cs) = ground (arith, child_or_new-child h cs)

any_rank_of_has_owner :
    (a b : BackendId) (r : ℕ) (os : List Owner)
    → has_owner (a, r) os ≡ true
    → same_backend a b ≡ true
    → any_rank b os ≡ true
unfolding has_owner any_rank
any_rank_of_has_owner a b r [] h e = cc
any_rank_of_has_owner a b r ((c, s) ∷ os) h e = ground (arith, any_rank_of_has_owner a b r os)

owned-add_owner :
    (a b : BackendId) (n : Node)
    → is_owned_by (add_owner (a, 0) n) b ≡ (is_owned_by n b || same_backend a b)
unfolding add_owner any_rank
owned-add_owner a b (node h os rc cs) = ground (arith, any_rank_of_has_owner a b 0 os)

children-add_owner : (o : Owner) (n : Node) → children (add_owner o n) ≡ children n
unfolding add_owner
children-add_owner o (node h os rc cs) = ground arith

owners-store_path : (o : Owner) (hs : List ℕ) (n : Node) → owners (store_path o hs n) ≡ owners n
unfolding store_path
owners-store_path o [] n = refl
owners-store_path o (h ∷ hs) (node g os rc cs) = refl

-- Storing the blocks `hs` for `a` gives `a` every nonempty prefix of `hs`, and changes nothing
-- else: neither what `a` held, nor what the others hold.
pub holds-store_path :
    (a b : BackendId) (hs : List ℕ) (h : ℕ) (p : List ℕ) (n : Node)
    → holds b (h ∷ p) (store_path (a, 0) hs n)
      ≡ (holds b (h ∷ p) n || (same_backend a b && is_prefix (h ∷ p) hs))
unfolding holds store_path is_prefix any_rank child
holds-store_path a b [] h p n = ground arith
holds-store_path a b (g ∷ hs) h [] (node k os rc cs) = ground (
  arith,
  child-put g h (store_path (a, 0) hs (add_owner (a, 0) (child_or_new g cs))) cs,
  child_or_new-child g cs,
  owners-store_path (a, 0) hs (add_owner (a, 0) (child_or_new g cs)),
  owned-add_owner a b (child_or_new g cs),
)
holds-store_path a b (g ∷ hs) h (h' ∷ p) (node k os rc cs) = ground (
  arith,
  child-put g h (store_path (a, 0) hs (add_owner (a, 0) (child_or_new g cs))) cs,
  child_or_new-child g cs,
  children-add_owner (a, 0) (child_or_new g cs),
  holds-store_path a b hs h' p (add_owner (a, 0) (child_or_new g cs)),
)
