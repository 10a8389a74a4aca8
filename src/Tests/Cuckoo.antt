-- ===== src/Tests/Cuckoo.antt =====
-- The cuckoo filters of the crate crates/hier-kv-gateway-metadata at concrete inputs.
use hier_kv_gateway.Prelude.{
  ℕ, ◌+◌, ◌*◌, ◌≤◌, ◌<◌, ◌^◌, ◌≡◌, ◌≢◌, ◌↔◌, refl, true, false, ◌||◌, none, some, List, [], ◌∷◌,
  arith, ◌==◌, if◌then◌else◌, ltb, In, ℕ_discrete,
}
use hier_kv_gateway.Ids.{BackendId}
use hier_kv_gateway.HashMap.{lookup, insert}
use hier_kv_gateway.HashSet.{contains, set_insert}
use hier_kv_gateway.Core.KvEvent.{KvCacheEvent, stored_event, clear_event}
use hier_kv_gateway.Metadata.CuckooFilter.{
  alt_index, probe, slot, with_slot, bucket_contains, find_slot, first_empty, try_insert,
}
use hier_kv_gateway.Metadata.CuckooFilter.Packed.{bucket_contains_lem}
use hier_kv_gateway.Metadata.CkfProducer.{
  CkfProducer, HashEntry, with_seed, insert_fingerprint, apply_stored, stored_all, apply_event,
  snapshot, delta,
}
use hier_kv_gateway.Metadata.CkfProducer.Fingerprints.{InsertCases, insert_fingerprint-cases}
use hier_kv_gateway.Metadata.CkfProducer.Owners.{owns, IsSynced}
use hier_kv_gateway.Metadata.CkfProducer.Dirty.{apply_all}
use hier_kv_gateway.Metadata.CkfProducer.History.{
  Reached, started, received, Reached-IsSynced, pairs_all, tracked_found, apply_event-owns,
}
use hier_kv_gateway.Metadata.CkfConsumer.{
  CkfConsumer, lane_of, find_lane, estimate_overlap, install_snapshot,
}
use hier_kv_gateway.Metadata.CkfConsumer.Installation.{receive, delta-install_snapshot}
use hier_kv_gateway.Metadata.CkfConsumer.Overlap.{IsLongest, estimate_overlap-IsLongest}
use hier_kv_gateway.Metadata.LocalCkf.{
  LocalCkf, overlap_on, active_lanes, any_hit, estimate_all_overlaps,
}
use hier_kv_gateway.Metadata.LocalCkf.Overlaps.{hits_before_gap, estimate_all_overlaps-hits}
use hier_kv_gateway.Routing.PrefixHistory.{to_le_bytes}
use hier_kv_gateway.Tests.Data.{backend_a, worker, edge}

-- A hash of the first byte, in place of xxh3.
abbrev first_byte : List ℕ → ℕ → ℕ
first_byte [] seed = 0
first_byte (b ∷ bs) seed = b * 65537

abbrev same_order : List (ℕ × ℕ) → List (ℕ × ℕ)
same_order l = l

same_order-In : (l : List (ℕ × ℕ)) (x : ℕ × ℕ) → In x (same_order l) ↔ In x l
same_order-In l x = (λ i. i, λ i. i)

abbrev empty : CkfProducer
empty = with_seed 42

abbrev stored : KvCacheEvent
stored = stored_event worker (3 ∷ []) none []

abbrev entry : HashEntry
entry = record { refcount = 1; owners = backend_a ∷ [] }

abbrev filled : CkfProducer
filled = apply_event first_byte empty stored backend_a

fits :
    (insert_fingerprint first_byte
      (record empty { hash_refcount = (3, entry) ∷ []; worker_hashes = (backend_a, 3 ∷ []) ∷ [] })
      3).1
    ≡ true
unfolding insert_fingerprint try_insert first_empty find_slot slot probe with_slot
fits = refl

filled-Reached : Reached first_byte same_order filled
unfolding lookup insert contains set_insert
filled-Reached = received empty stored backend_a (started 42) ((λ e. fits), tt)

filled_entry : lookup ℕ_discrete 3 filled.hash_refcount ≡ some entry
unfolding apply_event stored_all apply_stored insert_fingerprint try_insert first_empty find_slot
    slot probe with_slot lookup insert contains set_insert ℕ_discrete
filled_entry = refl

tracked_found_example :
    (bucket_contains (filled.buckets (probe first_byte 3).1) (probe first_byte 3).0
      || bucket_contains
          (filled.buckets (alt_index first_byte (probe first_byte 3).1 (probe first_byte 3).0))
          (probe first_byte 3).0)
    ≡ true
tracked_found_example =
    tracked_found first_byte same_order filled 3 entry filled-Reached filled_entry

abbrev events : List (KvCacheEvent × BackendId)
events = (clear_event worker, backend_a) ∷ (stored, backend_a) ∷ []

apply_event-owns_example :
    owns (apply_all first_byte (with_seed 1) ((stored, backend_a) ∷ events)) 3 backend_a
    ≡ pairs_all ((stored, backend_a) ∷ events) (λ h w. false) 3 backend_a
apply_event-owns_example = apply_event-owns first_byte 1 ((stored, backend_a) ∷ events) 3 backend_a

bucket_contains_lem_example : bucket_contains 0x0007_0005_0003_0001 5 ≡ (
    (slot 0x0007_0005_0003_0001 0 == 5)
    || (slot 0x0007_0005_0003_0001 1 == 5)
    || (slot 0x0007_0005_0003_0001 2 == 5)
    || (slot 0x0007_0005_0003_0001 3 == 5))
bucket_contains_lem_example =
    bucket_contains_lem 0x0007_0005_0003_0001 5 (omega arith) (omega arith)

filled_bucket : (i : ℕ) → filled.buckets i < 2 ^ 64
unfolding IsSynced
filled_bucket i = (Reached-IsSynced first_byte same_order filled filled-Reached).1.0 i

insert_fingerprint-cases_example :
    InsertCases first_byte filled
      (probe first_byte 4).1
      (probe first_byte 4).0
      (insert_fingerprint first_byte filled 4)
insert_fingerprint-cases_example = insert_fingerprint-cases first_byte filled 4 filled_bucket

abbrev regions : CkfConsumer
regions = record { buckets = λ i lane. 0; lane_regions = (2, edge) ∷ []; lane_status = λ lane. 0 }

delta-install_snapshot_example :
    (c1 c2 : CkfConsumer) × (install_snapshot 2 (snapshot filled).1 regions ≡ some c1)
    × (receive 2 (delta same_order (apply_all first_byte (snapshot filled).0 events)).1 c1
        ≡ some c2)
    × ((j : ℕ)
        → j < 65536
        → c2.buckets j 2 ≡ (apply_all first_byte (snapshot filled).0 events).buckets j)
    × ((j k : ℕ) → 2 ≢ k → c2.buckets j k ≡ regions.buckets j k)
delta-install_snapshot_example =
    delta-install_snapshot first_byte same_order filled events 2 regions same_order-In filled_bucket
      (refl, (refl, tt)) (omega arith)

edge_lane : lane_of edge regions ≡ some 2
unfolding lane_of find_lane
edge_lane = ground arith

estimate_overlap-IsLongest_example :
    (n : ℕ) × (estimate_overlap first_byte (3 ∷ 4 ∷ []) edge regions ≡ some n)
    × IsLongest first_byte regions 2 (3 ∷ 4 ∷ []) n
estimate_overlap-IsLongest_example =
    estimate_overlap-IsLongest first_byte (3 ∷ 4 ∷ []) edge regions 2 edge_lane (omega arith) refl

-- Lane 0 has the hash 3, and lane 1 the hash 4.
abbrev two_lanes : LocalCkf
two_lanes = record {
  buckets = λ i lane. if i == lane + 3 then (if lane == 0 then 3 else 5) else 0;
  lane_backends = [];
  backend_lanes = [];
  lane_status = λ lane. if ltb lane 2 then 0 else 1;
}

estimate_all_overlaps-hits_example :
    In {A = ℕ × ℕ}
      (
        1,
        hits_before_gap first_byte two_lanes
            (active_lanes first_byte two_lanes 0 16)
            1
            (3 ∷ 4 ∷ []),
      )
      (estimate_all_overlaps first_byte (3 ∷ 4 ∷ []) two_lanes)
    × (overlap_on first_byte two_lanes 1 (3 ∷ 4 ∷ [])
        ≤ hits_before_gap first_byte two_lanes
            (active_lanes first_byte two_lanes 0 16)
            1
            (3 ∷ 4 ∷ []))
estimate_all_overlaps-hits_example =
    estimate_all_overlaps-hits first_byte (3 ∷ 4 ∷ []) two_lanes 1 (omega arith) refl

-- The lane 1 does not hold the first hash of the query, and still counts one.
hits_after_gap :
    (hits_before_gap first_byte two_lanes (active_lanes first_byte two_lanes 0 16) 1 (3 ∷ 4 ∷ [])
      ≡ 1)
    × (overlap_on first_byte two_lanes 1 (3 ∷ 4 ∷ []) ≡ 0)
unfolding hits_before_gap active_lanes any_hit overlap_on bucket_contains probe to_le_bytes
hits_after_gap = (refl, refl)
