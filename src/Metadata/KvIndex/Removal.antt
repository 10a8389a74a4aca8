-- ===== src/Metadata/KvIndex/Removal.antt =====
-- Queries of the index for a backend without a lane: after its removal, and when no lane is free.
use hier_kv_gateway.Prelude.{
  ℕ, ◌<◌, ◌≡◌, refl, ap, ◌∙◌, Option, none, some, List, length, if◌then◌else◌, arith, Option-cases,
  inl, inr, if_pos,
}
use hier_kv_gateway.Ids.{BackendId, BackendId_discrete}
use hier_kv_gateway.HashMap.{lookup, remove, lookup-remove}
use hier_kv_gateway.Core.KvEvent.{stored_event, WorkerWithRank}
use hier_kv_gateway.Metadata.LocalCkf.{
  LocalCkf, local_lane_count, free_lane, assign_lane, unassign_lane, lane_of,
}
use hier_kv_gateway.Metadata.RadixTree.{find_matches, remove_backend}
use hier_kv_gateway.Metadata.RadixTree.Valid.{IsValid}
use hier_kv_gateway.Metadata.RadixTree.View.Clearing.{find_matches-cleared}
use hier_kv_gateway.Metadata.RadixTree.View.Matches.{find_matches-stored_self, same_backend_refl}
use hier_kv_gateway.Metadata.RadixTree.Worker.{matches_query, remove_query, applied, serve}
use hier_kv_gateway.Metadata.KvIndex.{
  KvIndex, call, overlap_of, kv_find_local_overlap, kv_apply_event, kv_remove_backend,
}
use hier_kv_gateway.Metadata.KvIndex.Ready.{IsReady, HasLanes, call-IsIdle, kv_apply_event-IsReady}

unassign_lane-HasLanes :
    (b : BackendId) (c : LocalCkf)
    → HasLanes c
    → HasLanes (unassign_lane b c) × (lane_of b (unassign_lane b c) ≡ none)
unfolding unassign_lane
unassign_lane-HasLanes b c h = elim (Option-cases (lookup BackendId_discrete b c.backend_lanes)) [
  | inl e ↦ rw (unassign_lane, e) (kept, gone)
  | inr (l, e) ↦ rw (unassign_lane, e) (kept, gone)
]
  where
    kept :
        (d : BackendId) (k : ℕ)
        → lookup BackendId_discrete d (remove BackendId_discrete b c.backend_lanes) ≡ some k
        → k < local_lane_count
    kept d k p = ground (arith, p, lookup-remove BackendId_discrete b d c.backend_lanes, h d k)

    gone : lookup BackendId_discrete b (remove BackendId_discrete b c.backend_lanes) ≡ none
    gone =
        lookup-remove BackendId_discrete b b c.backend_lanes
        ∙ if_pos (BackendId_discrete b b) refl none (lookup BackendId_discrete b c.backend_lanes)

assign_lane-none :
    (b : BackendId) (c : LocalCkf)
    → (assign_lane b c).0 ≡ none
    → lane_of b (assign_lane b c).1 ≡ none
unfolding assign_lane
assign_lane-none b c f = elim (Option-cases (lookup BackendId_discrete b c.backend_lanes)) [
  | inr (l, e) ↦ ground (arith, e, f)
  | inl e ↦ elim (Option-cases (free_lane 0 local_lane_count c.lane_backends)) [
    | inl g ↦ rw (assign_lane, e, g) e
    | inr (l, g) ↦ ground (arith, e, f, g)
  ]
]

module _ (xxh3 : List ℕ → ℕ → ℕ) where
  -- A query for a backend without a lane is answered by the tree.
  kv_find_local_overlap-none :
      (hs : List ℕ) (b : BackendId) (k : KvIndex)
      → IsReady k
      → lane_of b k.local_ckf ≡ none
      → (k' : KvIndex) × (kv_find_local_overlap xxh3 hs b k
          ≡ some (find_matches k.radix.tree hs b, k'))
        × IsReady k'
  unfolding kv_find_local_overlap serve
  kv_find_local_overlap-none hs b k (i, h) n =
      let (i', t, a) = call-IsIdle (matches_query hs b) k.radix i in
      let next = record k { radix = (call (matches_query hs b) k.radix).0 } in
      let found : overlap_of (call (matches_query hs b) k.radix).1
          ≡ find_matches k.radix.tree hs b =
        ap overlap_of a in
      (next, ground (arith, n) ∙ ap (λ x. some (x, next)) found, (i', h))

  -- On an index whose tree runs, with nothing waiting, whose lanes all exist and whose tree is
  -- valid: after the removal of a backend every query for it, however long, finds no overlap, and
  -- the index is again such an index.
  pub kv_find_local_overlap-removed :
      {bound : ℕ} (hs : List ℕ) (b : BackendId) (k : KvIndex)
      → IsReady k
      → IsValid bound k.radix.tree.root
      → IsReady (kv_remove_backend b k)
        × (k' : KvIndex) × (kv_find_local_overlap xxh3 hs b (kv_remove_backend b k) ≡ some (0, k'))
        × IsReady k'
  unfolding kv_remove_backend serve remove_backend
  kv_find_local_overlap-removed hs b k (i, h) v =
      let (i', t, a) = call-IsIdle (remove_query b) k.radix i in
      let (h', n) = unassign_lane-HasLanes b k.local_ckf h in
      let (k', e, r) = kv_find_local_overlap-none hs b (kv_remove_backend b k) (i', h') n in
      let zero_found : find_matches (kv_remove_backend b k).radix.tree hs b ≡ 0 =
        ap (λ x. find_matches x hs b) t
        ∙ find_matches-cleared k.radix.tree b b hs v
        ∙ ap (λ c. if c then 0 else find_matches k.radix.tree hs b) (same_backend_refl b) in
      ((i', h'), k', e ∙ ap (λ x. some (x, k')) zero_found, r)

  -- On an index whose tree runs, with nothing waiting, and whose lanes all exist: when no lane is
  -- free for a backend, a `Stored` event is applied all the same, and the query for the stored
  -- hashes finds all of them.
  pub kv_find_local_overlap-stored :
      (w : WorkerWithRank) (hs : List ℕ) (parent : Option ℕ) (tokens : List ℕ) (b : BackendId)
      (k : KvIndex)
      → IsReady k
      → (assign_lane b k.local_ckf).0 ≡ none
      → (k' : KvIndex) × (k'' : KvIndex) × (kv_apply_event xxh3
            (stored_event w hs parent tokens)
            b
            k
          ≡ some (applied, k'))
        × (kv_find_local_overlap xxh3 hs b k' ≡ some (length hs, k''))
  kv_find_local_overlap-stored w hs parent tokens b k r f =
      let ev = stored_event w hs parent tokens in
      let (k', e, r', t, l) = kv_apply_event-IsReady xxh3 ev b k r in
      let none_left = ap (lookup BackendId_discrete b) l ∙ assign_lane-none b k.local_ckf f in
      let (k'', e', r'') = kv_find_local_overlap-none hs b k' r' none_left in
      let all_found : find_matches k'.radix.tree hs b ≡ length hs =
        ap (λ x. find_matches x hs b) t
        ∙ find_matches-stored_self k.radix.tree b w hs parent tokens in
      (k', k'', e, e' ∙ ap (λ x. some (x, k'')) all_found)
