-- ===== src/Metadata/RadixTree/Worker.antt =====
-- crates/hier-kv-gateway-metadata/src/radix_tree.rs: the background thread that owns the tree, the
-- channel to it, and the handles. A request carries a number in place of its reply channel. A send
-- to a full channel waits, so it is a request that is made later.
pub mod Order
use hier_kv_gateway.Prelude.{
  ℕ, ◌+◌, Bool, true, false, ◌&&◌, List, [], ◌∷◌, ◌++◌, if◌then◌else◌, ltb, length,
}
use hier_kv_gateway.Ids.{BackendId}
use hier_kv_gateway.Core.KvEvent.{KvCacheEvent}
use hier_kv_gateway.Metadata.RadixTree.{
  TreeState, RadixStats, empty_tree, apply_event, find_matches, find_all_matches, remove_backend,
  stats,
}

abbrev pub channel_capacity : ℕ
channel_capacity = 4096

pub data Query : Type 0 where
  event_query : BackendId → KvCacheEvent → Query
  matches_query : List ℕ → BackendId → Query
  all_matches_query : List ℕ → Query
  remove_query : BackendId → Query
  stats_query : Query

-- `RadixCommand`
pub data Command : Type 0 where
  ask : ℕ → Query → Command
  shutdown_command : Command

-- What a method of the handle returns; the last two are the errors of `apply_event`.
pub data Reply : Type 0 where
  applied : Reply
  overlap : ℕ → Reply
  overlaps : List (BackendId × ℕ) → Reply
  done : Reply
  statistics : RadixStats → Reply
  terminated : Reply
  dropped_response : Reply

abbrev pub default_stats : RadixStats
default_stats = record { total_nodes = 0; total_blocks = 0; backend_count = 0; depth = 0 }

-- The reply when the channel is closed.
unfoldable pub refused : Query → Reply
refused (event_query b e) = terminated
refused (matches_query hs b) = overlap 0
refused (all_matches_query hs) = overlaps []
refused (remove_query b) = done
refused stats_query = statistics default_stats

-- The reply when the thread ends before it has answered.
unfoldable pub dropped : Query → Reply
dropped (event_query b e) = dropped_response
dropped (matches_query hs b) = overlap 0
dropped (all_matches_query hs) = overlaps []
dropped (remove_query b) = done
dropped stats_query = statistics default_stats

-- The arms of the worker's `match`, but for the shutdown.
unfoldable pub serve : TreeState → Query → TreeState × Reply
serve t (event_query b e) = (apply_event t b e, applied)
serve t (matches_query hs b) = (t, overlap (find_matches t hs b))
serve t (all_matches_query hs) = (t, overlaps (find_all_matches t hs))
serve t (remove_query b) = (remove_backend t b, done)
serve t stats_query = (t, statistics (stats t))

pub record World : Type 0 where
  pub queue : List Command
  pub tree : TreeState
  pub running : Bool
  pub replies : List (ℕ × Reply)

-- `RadixTree::new`
abbrev pub started : World
started = record { queue = []; tree = empty_tree; running = true; replies = [] }

-- The requests that wait when the thread ends.
unfoldable pub abandoned : List Command → List (ℕ × Reply)
unfolding dropped
abandoned [] = []
abandoned (ask n c ∷ q) = (n, dropped c) ∷ abandoned q
abandoned (shutdown_command ∷ q) = abandoned q

-- One round of the worker's loop.
unfoldable pub work_on : List Command → TreeState → List (ℕ × Reply) → World
unfolding serve abandoned
work_on [] t replies = record { queue = []; tree = t; running = true; replies = replies }
work_on (ask n c ∷ q) t replies = record {
  queue = q;
  tree = (serve t c).0;
  running = true;
  replies = replies ++ (n, (serve t c).1) ∷ [];
}
work_on (shutdown_command ∷ q) t replies = record {
  queue = [];
  tree = t;
  running = false;
  replies = replies ++ abandoned q;
}

unfoldable pub work : World → World
unfolding work_on
work w = if w.running then work_on w.queue w.tree w.replies else w

-- A method of a handle.
unfoldable pub request : ℕ → Query → World → World
unfolding refused
request n c w =
    if w.running
    then record w { queue = w.queue ++ ask n c ∷ [] }
    else record w { replies = w.replies ++ (n, refused c) ∷ [] }

-- `try_send` gives up on a full or closed channel.
unfoldable pub shutdown : World → World
shutdown w =
    if w.running && ltb (length w.queue) channel_capacity
    then record w { queue = w.queue ++ shutdown_command ∷ [] }
    else w

-- `drop` of any handle.
unfoldable pub drop_handle : World → World
unfolding shutdown
drop_handle w = shutdown w
