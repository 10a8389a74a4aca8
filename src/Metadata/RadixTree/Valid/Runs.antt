-- ===== src/Metadata/RadixTree/Valid/Runs.antt =====
-- The invariant of the radix tree over any sequence of events.
use hier_kv_gateway.Prelude.{ℕ, ◌+◌, ◌≤◌, ◌<◌, List, [], ◌∷◌, length, arith, refl}
use hier_kv_gateway.Ids.{BackendId}
use hier_kv_gateway.Core.KvEvent.{
  KvCacheEvent, stored_event, removed_event, clear_event, reset_event,
}
use hier_kv_gateway.Metadata.RadixTree.{
  TreeState, Node, node, children, apply_event, empty_tree, with_children, remove_in_children,
  u32_max,
}
use hier_kv_gateway.Metadata.RadixTree.Valid.{IsValid, valid, none_left, IsValid-weaken}
use hier_kv_gateway.Metadata.RadixTree.Valid.Removal.{remove-AreValid, clear-IsValid}
use hier_kv_gateway.Metadata.RadixTree.Valid.Storage.{store_path-IsValid}

unfoldable pub apply_events : TreeState → List (BackendId × KvCacheEvent) → TreeState
apply_events t [] = t
apply_events t ((b, e) ∷ es) = apply_events (apply_event t b e) es

root_children :
    {a : ℕ} (b : BackendId) (hashes : List ℕ) (n : Node)
    → IsValid a n
    → IsValid a (with_children n (remove_in_children (b, 0) hashes (children n)))
root_children b hashes (node h os rc cs) (valid c v) = valid c (remove-AreValid (b, 0) hashes v)

apply_event-IsValid :
    {a : ℕ} (t : TreeState) (b : BackendId) (e : KvCacheEvent)
    → a < u32_max
    → IsValid a t.root
    → IsValid (a + 1) (apply_event t b e).root
unfolding apply_event
apply_event-IsValid t b (stored_event w hs p ts) lt v = store_path-IsValid b hs t.root lt v
apply_event-IsValid t b (removed_event w hs) lt v =
    IsValid-weaken (omega arith) (root_children b hs t.root v)
apply_event-IsValid t b (clear_event w) lt v = IsValid-weaken (omega arith) (clear-IsValid b v)
apply_event-IsValid t b (reset_event w g) lt v = IsValid-weaken (omega arith) (clear-IsValid b v)

-- From a valid tree with at most `a` owners at a node, after any events, fewer than 2 ^ 32 - 1
-- with `a` counted in, the tree is valid: every reference count is exactly the number of owners, no
-- owner stands twice, children stand under their own hashes, once each, and no child is left that
-- has neither owners nor children.
pub apply_events-IsValid :
    {a : ℕ} (t : TreeState) (es : List (BackendId × KvCacheEvent))
    → IsValid a t.root
    → a + length es ≤ u32_max
    → IsValid (a + length es) (apply_events t es).root
unfolding apply_events
apply_events-IsValid t [] v lt = IsValid-weaken (omega arith) v
apply_events-IsValid {a} t ((b, e) ∷ es) v lt = IsValid-weaken (omega arith) (
    apply_events-IsValid {a = a + 1} (apply_event t b e) es
      (apply_event-IsValid t b e (omega arith) v) (omega arith))

pub empty_tree-IsValid : IsValid 0 empty_tree.root
empty_tree-IsValid =
    valid (record { count = refl; below = omega arith; unique = tt; rank = tt }) none_left
