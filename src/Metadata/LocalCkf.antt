-- ===== src/Metadata/LocalCkf.antt =====
-- crates/hier-kv-gateway-metadata/src/local_ckf.rs: a filter for each of up to 16 local backends. The
-- buckets are the function that reads them. An index past the lanes panics, which is `none`. No other
-- thread writes between a load and its `compare_exchange`, so the loops of the two run once.
pub mod Lanes
pub mod Overlaps
use hier_kv_gateway.Prelude.{
  ℕ, zero, suc, ◌+◌, Bool, true, false, Option, none, some, List, [], ◌∷◌, if◌then◌else◌, ◌==◌,
  ◌||◌, ltb, length, map, ℕ_discrete,
}
use hier_kv_gateway.Ids.{BackendId, BackendId_discrete}
use hier_kv_gateway.HashMap.{lookup, insert, remove}
use hier_kv_gateway.Metadata.CuckooFilter.{
  buckets_per_lane, alt_index, probe, bucket_contains, try_insert, try_delete,
}
use hier_kv_gateway.Metadata.CkfConsumer.{set_cell, install_buckets}

abbrev pub local_lane_count : ℕ
local_lane_count = 16

abbrev pub lane_active : ℕ
lane_active = 0

abbrev pub lane_retired : ℕ
lane_retired = 1

pub record LocalCkf : Type 0 where
  pub buckets : ℕ → ℕ → ℕ
  pub lane_backends : List (ℕ × BackendId)
  pub backend_lanes : List (BackendId × ℕ)
  pub lane_status : ℕ → ℕ

abbrev pub new : LocalCkf
new = record {
  buckets = λ i lane. 0;
  lane_backends = [];
  backend_lanes = [];
  lane_status = λ lane. lane_retired;
}

abbrev pub set_status : ℕ → ℕ → (ℕ → ℕ) → ℕ → ℕ
set_status lane v status k = if lane == k then v else status k

-- The loop that stores 0 in every bucket of a lane.
abbrev pub emptied : ℕ → (ℕ → ℕ → ℕ) → ℕ → ℕ → ℕ
emptied lane buckets = install_buckets buckets_per_lane 0 lane (λ i. 0) buckets

-- The first of `n` lanes, from `lane` on, that no backend has.
unfoldable pub free_lane : ℕ → ℕ → List (ℕ × BackendId) → Option ℕ
free_lane lane zero lane_backends = none
free_lane lane (suc n) lane_backends =
    let rest = free_lane (suc lane) n lane_backends in
    elim (lookup ℕ_discrete lane lane_backends) [ none ↦ some lane | some b ↦ rest ]

unfoldable pub assign_lane : BackendId → LocalCkf → Option ℕ × LocalCkf
unfolding free_lane
assign_lane backend c = elim (lookup BackendId_discrete backend c.backend_lanes) [
  | some lane ↦ (some lane, c)
  | none ↦ elim (free_lane 0 local_lane_count c.lane_backends) [
    | none ↦ (none, c)
    | some lane ↦ (
      some lane,
      record {
        buckets = emptied lane c.buckets;
        lane_backends = insert ℕ_discrete lane backend c.lane_backends;
        backend_lanes = insert BackendId_discrete backend lane c.backend_lanes;
        lane_status = set_status lane lane_active c.lane_status;
      },
    )
  ]
]

unfoldable pub unassign_lane : BackendId → LocalCkf → LocalCkf
unassign_lane backend c = elim (lookup BackendId_discrete backend c.backend_lanes) [
  | none ↦ record c { backend_lanes = remove BackendId_discrete backend c.backend_lanes }
  | some lane ↦ record {
    buckets = emptied lane c.buckets;
    lane_backends = remove ℕ_discrete lane c.lane_backends;
    backend_lanes = remove BackendId_discrete backend c.backend_lanes;
    lane_status = set_status lane lane_retired c.lane_status;
  }
]

abbrev pub lane_of : BackendId → LocalCkf → Option ℕ
lane_of backend c = lookup BackendId_discrete backend c.backend_lanes

abbrev pub backend_of_lane : ℕ → LocalCkf → Option BackendId
backend_of_lane lane c = lookup ℕ_discrete lane c.lane_backends

abbrev pub assigned_count : LocalCkf → ℕ
assigned_count c = length c.lane_backends

unfoldable pub clear_lane : ℕ → LocalCkf → Option LocalCkf
clear_lane lane c =
    if ltb lane local_lane_count
    then some (record c {
      buckets = emptied lane c.buckets;
      lane_status = set_status lane lane_active c.lane_status;
    })
    else none

abbrev pub is_active : LocalCkf → ℕ → Bool
is_active c lane = c.lane_status lane == lane_active

module _ (xxh3 : List ℕ → ℕ → ℕ) where
  -- The first of the two buckets that the change succeeds on.
  unfoldable pub change : (ℕ → ℕ → Option ℕ) → ℕ → ℕ → LocalCkf → Bool × LocalCkf
  change f hash lane c =
      let (fp, bucket_a) = probe xxh3 hash in
      let bucket_b = alt_index xxh3 bucket_a fp in
      elim (f (c.buckets bucket_a lane) fp) [
        | some v ↦ (true, record c { buckets = set_cell c.buckets bucket_a lane v })
        | none ↦ elim (f (c.buckets bucket_b lane) fp) [
          | some v ↦ (true, record c { buckets = set_cell c.buckets bucket_b lane v })
          | none ↦ (false, c)
        ]
      ]

  abbrev guarded : (ℕ → ℕ → Option ℕ) → ℕ → ℕ → LocalCkf → Option (Bool × LocalCkf)
  guarded f hash lane c =
      let r = change f hash lane c in
      if ltb lane local_lane_count
      then (if is_active c lane then some r else some (false, c))
      else none

  unfoldable pub insert_hash : ℕ → ℕ → LocalCkf → Option (Bool × LocalCkf)
  unfolding change
  insert_hash hash lane c = guarded try_insert hash lane c

  unfoldable pub delete_hash : ℕ → ℕ → LocalCkf → Option (Bool × LocalCkf)
  unfolding change
  delete_hash hash lane c = guarded try_delete hash lane c

  abbrev pub hit : LocalCkf → ℕ → ℕ → Bool
  hit c hash lane = bucket_contains (c.buckets (probe xxh3 hash).1 lane) (probe xxh3 hash).0

  unfoldable pub overlap_on : LocalCkf → ℕ → List ℕ → ℕ
  overlap_on c lane [] = 0
  overlap_on c lane (hash ∷ hashes) =
      let rest = overlap_on c lane hashes in if hit c hash lane then rest + 1 else 0

  unfoldable pub estimate_overlap : List ℕ → ℕ → LocalCkf → Option ℕ
  unfolding overlap_on
  estimate_overlap hashes lane c =
      if ltb lane local_lane_count
      then (if is_active c lane then some (overlap_on c lane hashes) else some 0)
      else none

  -- The active lanes among `n`, from `lane` on.
  unfoldable pub active_lanes : LocalCkf → ℕ → ℕ → List ℕ
  active_lanes c lane zero = []
  active_lanes c lane (suc n) =
      let rest = active_lanes c (suc lane) n in if is_active c lane then lane ∷ rest else rest

  unfoldable pub any_hit : LocalCkf → ℕ → List ℕ → Bool
  any_hit c hash [] = false
  any_hit c hash (lane ∷ lanes) = hit c hash lane || any_hit c hash lanes

  -- The row of counters after one hash.
  unfoldable pub add_hits : LocalCkf → ℕ → List ℕ → (ℕ → ℕ) → ℕ → ℕ
  add_hits c hash [] overlaps = overlaps
  add_hits c hash (lane ∷ lanes) overlaps =
      add_hits c hash lanes
        (λ k. if (if lane == k then hit c hash lane else false) then overlaps k + 1 else overlaps k)

  unfoldable pub scan : LocalCkf → List ℕ → List ℕ → (ℕ → ℕ) → ℕ → ℕ
  unfolding any_hit add_hits
  scan c lanes [] overlaps = overlaps
  scan c lanes (hash ∷ hashes) overlaps =
      let next = add_hits c hash lanes overlaps in
      let rest = scan c lanes hashes next in if any_hit c hash lanes then rest else next

  unfoldable pub estimate_all_overlaps : List ℕ → LocalCkf → List (ℕ × ℕ)
  unfolding scan active_lanes
  estimate_all_overlaps hashes c =
      let lanes = active_lanes c 0 local_lane_count in
      let overlaps = scan c lanes hashes (λ k. 0) in map (λ lane. (lane, overlaps lane)) lanes
