-- ===== src/Metadata/CkfConsumer.antt =====
-- crates/hier-kv-gateway-metadata/src/ckf_consumer.rs: the filters of up to 16 regions. An array or a
-- vector is the function that reads it. An index past the lanes panics, which is `none`; the checks
-- that only a debug build makes are left out. The operations on one lane do not overlap here.
pub mod Installation
pub mod Overlap
use hier_kv_gateway.Prelude.{
  ℕ, zero, suc, ◌+◌, Bool, true, false, Option, none, some, List, [], ◌∷◌, if◌then◌else◌, ◌==◌,
  ◌&&◌, ltb, ℕ_discrete, dec→Bool,
}
use hier_kv_gateway.Ids.{RegionId, RegionId_discrete}
use hier_kv_gateway.HashMap.{insert, remove}
use hier_kv_gateway.Metadata.CuckooFilter.{
  buckets_per_lane, probe, bucket_contains, CkfSnapshot, CkfDelta,
}

abbrev pub lane_count : ℕ
lane_count = 16

abbrev pub lane_active : ℕ
lane_active = 0

abbrev pub lane_retired : ℕ
lane_retired = 1

-- `buckets i lane`
pub record CkfConsumer : Type 0 where
  pub buckets : ℕ → ℕ → ℕ
  pub lane_regions : List (ℕ × RegionId)
  pub lane_status : ℕ → ℕ

abbrev pub new : CkfConsumer
new = record { buckets = λ i lane. 0; lane_regions = []; lane_status = λ lane. lane_retired }

unfoldable pub find_lane : RegionId → List (ℕ × RegionId) → Option ℕ
find_lane region [] = none
find_lane region ((lane, r) ∷ regions) =
    let rest = find_lane region regions in
    if dec→Bool (RegionId_discrete r region) then some lane else rest

unfoldable pub lane_of : RegionId → CkfConsumer → Option ℕ
unfolding find_lane
lane_of region c = find_lane region c.lane_regions

module _ (xxh3 : List ℕ → ℕ → ℕ) where
  -- The loop over the hashes on one lane.
  unfoldable pub overlap_on : CkfConsumer → ℕ → List ℕ → ℕ
  overlap_on c lane [] = 0
  overlap_on c lane (hash ∷ hashes) =
      let rest = overlap_on c lane hashes in
      let (fp, bucket_idx) = probe xxh3 hash in
      if bucket_contains (c.buckets bucket_idx lane) fp then rest + 1 else 0

  unfoldable pub estimate_overlap : List ℕ → RegionId → CkfConsumer → Option ℕ
  unfolding overlap_on lane_of
  estimate_overlap hashes region c = elim (lane_of region c) [
    | none ↦ some 0
    | some lane ↦
        if ltb lane lane_count
        then (if c.lane_status lane == lane_active then some (overlap_on c lane hashes) else some 0)
        else none
  ]

-- A store of one bucket of a lane.
abbrev pub set_cell : (ℕ → ℕ → ℕ) → ℕ → ℕ → ℕ → ℕ → ℕ → ℕ
set_cell buckets i lane v j k = if (i == j) && (lane == k) then v else buckets j k

abbrev pub set_status : ℕ → ℕ → CkfConsumer → CkfConsumer
set_status lane v c = record c { lane_status = λ k. if lane == k then v else c.lane_status k }

-- The buckets of the snapshot from index `i` on, `n` of them.
unfoldable pub install_buckets : ℕ → ℕ → ℕ → (ℕ → ℕ) → (ℕ → ℕ → ℕ) → ℕ → ℕ → ℕ
install_buckets zero i lane values buckets = buckets
install_buckets (suc n) i lane values buckets =
    install_buckets n (suc i) lane values (set_cell buckets i lane (values i))

unfoldable pub install_snapshot : ℕ → CkfSnapshot → CkfConsumer → Option CkfConsumer
unfolding install_buckets
install_snapshot lane s c =
    if ltb lane lane_count
    then (let retired = set_status lane lane_retired c in
        let written = record retired {
          buckets = install_buckets buckets_per_lane 0 lane s.buckets retired.buckets;
        } in
        some (set_status lane lane_active written))
    else none

unfoldable pub write_buckets : ℕ → List (ℕ × ℕ) → (ℕ → ℕ → ℕ) → Option (ℕ → ℕ → ℕ)
write_buckets lane [] buckets = some buckets
write_buckets lane ((bucket_idx, value) ∷ rest) buckets =
    let skipped = write_buckets lane rest buckets in
    let stored = write_buckets lane rest (set_cell buckets bucket_idx lane value) in
    if ltb bucket_idx buckets_per_lane
    then (if ltb lane lane_count then stored else none)
    else skipped

unfoldable pub apply_delta : ℕ → CkfDelta → CkfConsumer → Option CkfConsumer
unfolding write_buckets
apply_delta lane d c = elim (write_buckets lane d.buckets c.buckets) [
  | none ↦ none
  | some buckets ↦ some (record c { buckets = buckets })
]

unfoldable pub retire_lane : ℕ → CkfConsumer → Option CkfConsumer
retire_lane lane c = if ltb lane lane_count then some (set_status lane lane_retired c) else none

unfoldable pub activate_lane : ℕ → CkfConsumer → Option CkfConsumer
activate_lane lane c = if ltb lane lane_count then some (set_status lane lane_active c) else none

unfoldable pub assign_lane : ℕ → RegionId → CkfConsumer → CkfConsumer
assign_lane lane region c = record c { lane_regions = insert ℕ_discrete lane region c.lane_regions }

unfoldable pub unassign_lane : ℕ → CkfConsumer → CkfConsumer
unassign_lane lane c = record c { lane_regions = remove ℕ_discrete lane c.lane_regions }

unfoldable pub is_lane_active : ℕ → CkfConsumer → Option Bool
is_lane_active lane c =
    if ltb lane lane_count then some (c.lane_status lane == lane_active) else none
