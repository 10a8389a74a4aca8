-- ===== src/Metadata/KvIndex.antt =====
-- crates/hier-kv-gateway-metadata/src/kv_index.rs: the entry point of the three indexes. A call of the
-- tree waits for its reply, in which time the worker serves all that waits before it. `none` is a
-- panic of the filters.
pub mod Ready
pub mod Removal
use hier_kv_gateway.Prelude.{
  ℕ, zero, suc, ◌+◌, Bool, true, false, Option, none, some, List, [], ◌∷◌, length, last_or, map,
}
use hier_kv_gateway.Ids.{BackendId, BackendId_discrete, RegionId}
use hier_kv_gateway.HashMap.{insert}
use hier_kv_gateway.Core.KvEvent.{
  KvCacheEvent, stored_event, removed_event, clear_event, reset_event,
}
use hier_kv_gateway.Metadata.CkfConsumer.{CkfConsumer}
use hier_kv_gateway.Metadata.CkfConsumer as Consumer
use hier_kv_gateway.Metadata.LocalCkf.{
  LocalCkf, assign_lane, unassign_lane, lane_of, backend_of_lane, clear_lane, insert_hash,
  delete_hash, estimate_overlap, estimate_all_overlaps,
}
use hier_kv_gateway.Metadata.LocalCkf as Local
use hier_kv_gateway.Metadata.RadixTree.Worker.{
  World, Query, event_query, matches_query, remove_query, Reply, applied, overlap, overlaps, done,
  statistics, terminated, dropped_response, dropped, request, work, started,
}

pub record KvIndex : Type 0 where
  pub radix : World
  pub local_ckf : LocalCkf
  pub consumer : CkfConsumer

abbrev pub new : KvIndex
new = record { radix = started; local_ckf = Local.new; consumer = Consumer.new }

-- Rounds of the worker.
unfoldable pub rounds : ℕ → World → World
rounds zero w = w
rounds (suc n) w = rounds n (work w)

-- A call of the tree: the worker, and its reply, which is the last one.
unfoldable pub call : Query → World → World × Reply
unfolding rounds
call c w =
    let after = rounds (suc (length w.queue)) (request (length w.replies) c w) in
    (after, last_or (dropped c) (map (λ r. r.1) after.replies))

-- `Result<u32>` of `find_matches`.
abbrev pub overlap_of : Reply → ℕ
overlap_of (overlap n) = n
overlap_of _ = 0

-- `?` on the reply to an event.
abbrev pub is_applied : Reply → Bool
is_applied applied = true
is_applied _ = false

module _ (xxh3 : List ℕ → ℕ → ℕ) where
  unfoldable pub kv_find_local_overlap : List ℕ → BackendId → KvIndex → Option (ℕ × KvIndex)
  unfolding call
  kv_find_local_overlap hashes backend k = elim (lane_of backend k.local_ckf) [
    | some lane ↦ elim (estimate_overlap xxh3 hashes lane k.local_ckf) [
      | none ↦ none
      | some n ↦ some (n, k)
    ]
    | none ↦
        (let r = call (matches_query hashes backend) k.radix in
          some (overlap_of r.1, record k { radix = r.0 }))
  ]

  -- The loop of `kv_find_all_local_overlap`.
  unfoldable pub by_backend : LocalCkf → List (ℕ × ℕ) → List (BackendId × ℕ) → List (BackendId × ℕ)
  by_backend c [] out = out
  by_backend c ((lane, n) ∷ l) out = elim (backend_of_lane lane c) [
    | none ↦ by_backend c l out
    | some backend ↦ by_backend c l (insert BackendId_discrete backend n out)
  ]

  unfoldable pub kv_find_all_local_overlap : List ℕ → KvIndex → List (BackendId × ℕ)
  unfolding by_backend
  kv_find_all_local_overlap hashes k =
      by_backend k.local_ckf (estimate_all_overlaps xxh3 hashes k.local_ckf) []

  unfoldable pub kv_find_global_overlap : List ℕ → RegionId → KvIndex → Option ℕ
  kv_find_global_overlap hashes region k = Consumer.estimate_overlap xxh3 hashes region k.consumer

  unfoldable pub insert_all : List ℕ → ℕ → LocalCkf → Option LocalCkf
  insert_all [] lane c = some c
  insert_all (h ∷ hs) lane c = elim (insert_hash xxh3 h lane c) [
    | none ↦ none
    | some r ↦ insert_all hs lane r.1
  ]

  unfoldable pub delete_all : List ℕ → ℕ → LocalCkf → Option LocalCkf
  delete_all [] lane c = some c
  delete_all (h ∷ hs) lane c = elim (delete_hash xxh3 h lane c) [
    | none ↦ none
    | some r ↦ delete_all hs lane r.1
  ]

  -- The projection of an event to a lane.
  unfoldable pub project : KvCacheEvent → ℕ → LocalCkf → Option LocalCkf
  unfolding insert_all delete_all
  project (stored_event worker hashes parent tokens) lane c = insert_all hashes lane c
  project (removed_event worker hashes) lane c = delete_all hashes lane c
  project (clear_event worker) lane c = clear_lane lane c
  project (reset_event worker generation) lane c = clear_lane lane c

  abbrev pub project_to : KvCacheEvent → Option ℕ → LocalCkf → Option LocalCkf
  project_to event none c = some c
  project_to event (some lane) c = project event lane c

  unfoldable pub kv_apply_event : KvCacheEvent → BackendId → KvIndex → Option (Reply × KvIndex)
  unfolding call project
  kv_apply_event event backend k =
      let a = assign_lane backend k.local_ckf in
      let r = call (event_query backend event) k.radix in
      elim (is_applied r.1) [
        | true ↦ elim (project_to event a.0 a.1) [
          | none ↦ none
          | some c ↦ some (applied, record k { radix = r.0; local_ckf = c })
        ]
        | false ↦ some (r.1, record k { radix = r.0; local_ckf = a.1 })
      ]

-- The methods of a clone of the handle of the tree are calls of the same tree.
unfoldable pub kv_remove_backend : BackendId → KvIndex → KvIndex
unfolding call
kv_remove_backend backend k = record k {
  local_ckf = unassign_lane backend k.local_ckf;
  radix = (call (remove_query backend) k.radix).0;
}
