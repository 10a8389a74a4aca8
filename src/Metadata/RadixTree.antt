-- ===== src/Metadata/RadixTree.antt =====
-- crates/hier-kv-gateway-metadata/src/radix_tree.rs: the tree of the background thread. A node's
-- `children` map is a list of keys and nodes, in the unspecified order of iteration.
pub mod Valid
pub mod View
pub mod Worker
use hier_kv_gateway.Prelude.{
  ℕ, zero, suc, ◌+◌, ◌-◌, ◌^◌, min, max, Bool, true, false, ◌&&◌, ◌||◌, Option, none, some, List,
  [], ◌∷◌, if◌then◌else◌, ◌==◌, dec→Bool, keep, not, length,
}
use hier_kv_gateway.Ids.{BackendId, BackendId_discrete}
use hier_kv_gateway.HashMap.{lookup, insert}
use hier_kv_gateway.Core.KvEvent.{
  KvCacheEvent, stored_event, removed_event, clear_event, reset_event,
}

abbrev pub u32_max : ℕ
u32_max = 2 ^ 32 - 1

-- A backend and a rank.
abbrev pub Owner : Type 0
Owner = BackendId × ℕ

mutual
  -- The fields `hash`, `owners`, `ref_count` and `children`.
  pub data Node : Type 0 where
    node : ℕ → List Owner → ℕ → Children → Node

  pub data Children : Type 0 where
    nil : Children
    cons : ℕ → Node → Children → Children

abbrev pub owners : Node → List Owner
owners (node h os rc cs) = os

abbrev pub ref_count : Node → ℕ
ref_count (node h os rc cs) = rc

abbrev pub children : Node → Children
children (node h os rc cs) = cs

abbrev pub new_node : ℕ → Node
new_node h = node h [] 0 nil

abbrev pub same_backend : BackendId → BackendId → Bool
same_backend a b = dec→Bool (BackendId_discrete a b)

abbrev pub same_owner : Owner → Owner → Bool
same_owner (a, r) (b, s) = same_backend a b && r == s

unfoldable pub has_owner : Owner → List Owner → Bool
has_owner o [] = false
has_owner o (p ∷ ps) = same_owner p o || has_owner o ps

-- `HashSet::insert` tells whether the owner is new.
unfoldable pub add_owner : Owner → Node → Node
add_owner o (node h os rc cs) =
    if has_owner o os then node h os rc cs else node h (o ∷ os) (min (rc + 1) u32_max) cs

unfoldable pub remove_owner : Owner → Node → Node
remove_owner o (node h os rc cs) =
    if has_owner o os
    then node h (keep (λ p. not (same_owner p o)) os) (rc - 1) cs
    else node h os rc cs

unfoldable pub any_rank : BackendId → List Owner → Bool
any_rank b [] = false
any_rank b ((a, r) ∷ os) = same_backend a b || any_rank b os

abbrev pub is_owned_by : Node → BackendId → Bool
is_owned_by n b = any_rank b (owners n)

-- `children.get(&hash)`
unfoldable pub child : ℕ → Children → Option Node
child h nil = none
child h (cons k n cs) = if k == h then some n else child h cs

-- `children.entry(hash).or_insert_with(|| Node::new(hash))`
unfoldable pub child_or_new : ℕ → Children → Node
child_or_new h nil = new_node h
child_or_new h (cons k n cs) = if k == h then n else child_or_new h cs

-- The children with the node at `hash` replaced, or added.
unfoldable pub put_child : ℕ → Node → Children → Children
put_child h n nil = cons h n nil
put_child h n (cons k m cs) = if k == h then cons k n cs else cons k m (put_child h n cs)

-- The loop of `apply_stored`, below the node `current`.
unfoldable pub store_path : Owner → List ℕ → Node → Node
store_path o [] n = n
store_path o (h ∷ hs) (node g os rc cs) =
    node g os rc (put_child h (store_path o hs (add_owner o (child_or_new h cs))) cs)

abbrev pub is_nil : Children → Bool
is_nil nil = true
is_nil (cons k n cs) = false

unfoldable pub contains : ℕ → List ℕ → Bool
contains h [] = false
contains h (x ∷ xs) = x == h || contains h xs

-- `ref_count == 0 && children.is_empty()`: the parent removes the node.
abbrev pub is_reclaimable : Node → Bool
is_reclaimable (node h os rc cs) = rc == 0 && is_nil cs

-- Adds a child that stays.
abbrev pub keep_child : ℕ → Node → Children → Children
keep_child k n cs = if is_reclaimable n then cs else cons k n cs

abbrev pub with_children : Node → Children → Node
with_children (node h os rc cs) cs' = node h os rc cs'

abbrev pub drop_owner : Owner → List ℕ → ℕ → List Owner → ℕ → Children → Node
drop_owner o hashes h os rc cs =
    if contains h hashes then remove_owner o (node h os rc cs) else node h os rc cs

-- `remove_owners_by_hash`; the flag that it returns is `is_reclaimable` of the node it leaves.
unfoldable mutual
  pub remove_owners_by_hash : Owner → List ℕ → Node → Node
  remove_owners_by_hash o hashes (node h os rc cs) =
      with_children (drop_owner o hashes h os rc cs) (remove_in_children o hashes cs)

  pub remove_in_children : Owner → List ℕ → Children → Children
  remove_in_children o hashes nil = nil
  remove_in_children o hashes (cons k n cs) =
      keep_child k (remove_owners_by_hash o hashes n) (remove_in_children o hashes cs)

-- `clear_backend_recursive`, likewise.
unfoldable mutual
  pub clear_backend_recursive : BackendId → Node → Node
  clear_backend_recursive b (node h os rc cs) =
      let kept = keep (λ p. not (same_backend p.0 b)) os in
      node h kept (rc - (length os - length kept)) (clear_in_children b cs)

  pub clear_in_children : BackendId → Children → Children
  clear_in_children b nil = nil
  clear_in_children b (cons k n cs) =
      keep_child k (clear_backend_recursive b n) (clear_in_children b cs)

pub record TreeState : Type 0 where
  pub root : Node
  pub backends : List BackendId

abbrev pub empty_tree : TreeState
empty_tree = record { root = new_node 0; backends = [] }

abbrev pub set_insert : BackendId → List BackendId → List BackendId
set_insert b [] = b ∷ []
set_insert b (a ∷ bs) = if same_backend a b then a ∷ bs else a ∷ set_insert b bs

abbrev pub set_remove : BackendId → List BackendId → List BackendId
set_remove b bs = keep (λ a. not (same_backend a b)) bs

unfoldable pub apply_stored : TreeState → BackendId → List ℕ → TreeState
apply_stored t b hashes = record t { root = store_path (b, 0) hashes t.root }

-- The root itself is not searched and stays.
unfoldable pub apply_removed : TreeState → BackendId → List ℕ → TreeState
apply_removed t b hashes = record t {
  root = with_children t.root (remove_in_children (b, 0) hashes (children t.root));
}

unfoldable pub clear_backend : TreeState → BackendId → TreeState
clear_backend t b = record {
  root = clear_backend_recursive b t.root;
  backends = set_remove b t.backends;
}

-- Each arm returns `Ok(())`.
unfoldable pub apply_event : TreeState → BackendId → KvCacheEvent → TreeState
unfolding apply_stored apply_removed clear_backend
apply_event t b (stored_event worker hashes parent tokens) =
    apply_stored (record t { backends = set_insert b t.backends }) b hashes
apply_event t b (removed_event worker hashes) = apply_removed t b hashes
apply_event t b (clear_event worker) = clear_backend t b
apply_event t b (reset_event worker generation) = clear_backend t b

-- The loop of `find_matches` from the node `current`.
unfoldable pub match_path : BackendId → List ℕ → Node → ℕ
match_path b [] n = 0
match_path b (h ∷ hs) n = elim (child h (children n)) [
  | none ↦ 0
  | some c ↦ let rest = match_path b hs c in if is_owned_by c b then suc rest else 0
]

unfoldable pub find_matches : TreeState → List ℕ → BackendId → ℕ
find_matches t hashes b = match_path b hashes t.root

abbrev pub score_of : Option ℕ → ℕ
score_of none = 0
score_of (some n) = n

-- `*scores.entry(backend).or_insert(0) += 1` for each owner
unfoldable pub add_scores : List Owner → List (BackendId × ℕ) → List (BackendId × ℕ)
add_scores [] scores = scores
add_scores ((b, r) ∷ os) scores =
    add_scores os
      (insert BackendId_discrete b (score_of (lookup BackendId_discrete b scores) + 1) scores)

-- The round of one child: stop if it has no owner, else score its owners and go on.
abbrev pub score_child :
    List Owner
    → (List (BackendId × ℕ) → List (BackendId × ℕ))
    → List (BackendId × ℕ)
    → List (BackendId × ℕ)
score_child [] rest scores = scores
score_child (o ∷ os) rest scores = rest (add_scores (o ∷ os) scores)

unfoldable pub match_all : List ℕ → Node → List (BackendId × ℕ) → List (BackendId × ℕ)
match_all [] n scores = scores
match_all (h ∷ hs) n scores = elim (child h (children n)) [
  | none ↦ scores
  | some c ↦ score_child (owners c) (match_all hs c) scores
]

unfoldable pub find_all_matches : TreeState → List ℕ → List (BackendId × ℕ)
find_all_matches t hashes = match_all hashes t.root []

unfoldable pub remove_backend : TreeState → BackendId → TreeState
unfolding clear_backend
remove_backend t b = clear_backend t b

pub record RadixStats : Type 0 where
  pub total_nodes : ℕ
  pub total_blocks : ℕ
  pub backend_count : ℕ
  pub depth : ℕ

-- The three sums over the nodes of a list of children at depth `depth`.
unfoldable mutual
  pub stats_recursive : Node → ℕ → ℕ × ℕ × ℕ
  stats_recursive (node h os rc cs) depth =
      let s = stats_children cs (depth + 1) in (s.0 + 1, length os + s.1, max depth s.2)

  pub stats_children : Children → ℕ → ℕ × ℕ × ℕ
  stats_children nil depth = (0, 0, 0)
  stats_children (cons k n cs) depth =
      let a = stats_recursive n depth in
      let s = stats_children cs depth in (a.0 + s.0, a.1 + s.1, max a.2 s.2)

unfoldable pub stats : TreeState → RadixStats
stats t =
    let s = stats_children (children t.root) 1 in
    record { total_nodes = s.0; total_blocks = s.1; backend_count = length t.backends; depth = s.2 }
