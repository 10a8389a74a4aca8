-- ===== src/Metadata/CkfProducer.antt =====
-- crates/hier-kv-gateway-metadata/src/ckf_producer.rs: the filter of one pool. The vector of buckets
-- is the function that reads it: every index is masked below its length. A hash map or set is a list
-- in the order of its iteration. `u64` counters of insertions do not come near their end.
pub mod Buckets
pub mod Fingerprints
pub mod Tracking
pub mod Tables
pub mod Exact
pub mod Owners
pub mod Events
pub mod Relation
pub mod History
pub mod Dirty
use Prim.Native.Nat.{bit_xor}
use hier_kv_gateway.Prelude.{
  ℕ, zero, suc, ◌+◌, ◌-◌, ◌*◌, ◌/◌, ◌%◌, ◌^◌, Bool, true, false, Option, none, some, List, [], ◌∷◌,
  if◌then◌else◌, ◌==◌, map, ℕ_discrete,
}
use hier_kv_gateway.Ids.{BackendId, BackendId_discrete}
use hier_kv_gateway.HashMap.{lookup, insert, remove}
use hier_kv_gateway.HashSet.{contains, set_insert, set_remove}
use hier_kv_gateway.Core.KvEvent.{
  KvCacheEvent, stored_event, removed_event, clear_event, reset_event,
}
use hier_kv_gateway.Metadata.CuckooFilter.{
  alt_index, probe, slot, with_slot, try_insert, try_delete, max_kicks, CkfSnapshot, CkfDelta,
}

abbrev pub default_seed : ℕ
default_seed = 0xA7C5_4B7E_38A1_2F5D

pub record HashEntry : Type 0 where
  pub refcount : ℕ
  pub owners : List BackendId

pub record CkfProducer : Type 0 where
  pub buckets : ℕ → ℕ
  pub num_items : ℕ
  pub dirty_buckets : List ℕ
  pub pub_seq : ℕ
  pub hash_refcount : List (ℕ × HashEntry)
  pub worker_hashes : List (BackendId × List ℕ)
  pub rng_state : ℕ

abbrev pub with_seed : ℕ → CkfProducer
with_seed seed = record {
  buckets = λ i. 0;
  num_items = 0;
  dirty_buckets = [];
  pub_seq = 0;
  hash_refcount = [];
  worker_hashes = [];
  rng_state = seed;
}

abbrev pub new : CkfProducer
new = with_seed default_seed

-- The number and the new state.
unfoldable pub next_random : ℕ → ℕ × ℕ
next_random rng_state =
    let state = (rng_state + 0x9E37_79B9_7F4A_7C15) % 2 ^ 64 in
    let z1 = bit_xor state (state / 2 ^ 30) * 0xBF58_476D_1CE4_E5B9 % 2 ^ 64 in
    let z2 = bit_xor z1 (z1 / 2 ^ 27) * 0x94D0_49BB_1331_11EB % 2 ^ 64 in
    (bit_xor z2 (z2 / 2 ^ 31), state)

-- `self.buckets[i] = v`
abbrev pub set_bucket : (ℕ → ℕ) → ℕ → ℕ → ℕ → ℕ
set_bucket buckets i v j = if i == j then v else buckets j

-- The latest eviction comes first.
unfoldable pub roll_back : List (ℕ × ℕ) → (ℕ → ℕ) → ℕ → ℕ
roll_back [] buckets = buckets
roll_back ((i, before) ∷ touched) buckets = roll_back touched (set_bucket buckets i before)

unfoldable pub mark_all : List (ℕ × ℕ) → List ℕ → List ℕ
mark_all [] dirty = dirty
mark_all ((i, before) ∷ touched) dirty = mark_all touched (set_insert ℕ_discrete i dirty)

abbrev pub or_default : Option HashEntry → HashEntry
or_default none = record { refcount = 0; owners = [] }
or_default (some e) = e

abbrev pub or_empty : {A : Type 0} → Option (List A) → List A
or_empty none = []
or_empty (some l) = l

-- A hash and its new owner, in both tables.
abbrev pub tracked : CkfProducer → ℕ → BackendId → HashEntry → CkfProducer
tracked p hash worker entry = record p {
  hash_refcount =
      insert ℕ_discrete hash
        (record {
          refcount = entry.refcount + 1;
          owners = set_insert BackendId_discrete worker entry.owners;
        })
        p.hash_refcount;
  worker_hashes =
      insert BackendId_discrete worker
        (set_insert ℕ_discrete hash (or_empty (lookup BackendId_discrete worker p.worker_hashes)))
        p.worker_hashes;
}

module _ (xxh3 : List ℕ → ℕ → ℕ) where
  -- The loop of evictions: the buckets, the generator, and the place and the touched buckets of a
  -- success. After `max_kicks` rounds the evictions are rolled back.
  unfoldable pub kicks :
      ℕ → (ℕ → ℕ) → ℕ → ℕ → ℕ → List (ℕ × ℕ) → (ℕ → ℕ) × ℕ × Option (ℕ × List (ℕ × ℕ))
  kicks zero buckets rng bucket fp touched = (roll_back touched buckets, rng, none)
  kicks (suc n) buckets rng bucket fp touched =
      let before = buckets bucket in
      let random = next_random rng in
      let slot_idx = random.0 % 4 in
      let evicted = slot before slot_idx in
      let after = set_bucket buckets bucket (with_slot before slot_idx fp) in
      let touched' = (bucket, before) ∷ touched in
      let next = alt_index xxh3 bucket evicted in
      elim (try_insert (after next) evicted) [
        | some v ↦ (set_bucket after next v, random.1, some (next, touched'))
        | none ↦ kicks n after random.1 next evicted touched'
      ]

  -- `num_items` and `dirty_buckets` after an insertion into bucket `i`.
  abbrev inserted_at : CkfProducer → ℕ → ℕ → CkfProducer
  inserted_at p i v = record p {
    buckets = set_bucket p.buckets i v;
    dirty_buckets = set_insert ℕ_discrete i p.dirty_buckets;
    num_items = p.num_items + 1;
  }

  -- What is left of `insert_fingerprint` when both buckets are full.
  unfoldable pub insert_by_kicks : CkfProducer → ℕ → ℕ → ℕ → CkfProducer × Bool
  insert_by_kicks p fp bucket_a bucket_b =
      let random = next_random p.rng_state in
      let first = if random.0 % 2 == 0 then bucket_a else bucket_b in
      let r = kicks max_kicks p.buckets random.1 first fp [] in
      elim r.2 [
        | some (i, touched) ↦ (
          record p {
            buckets = r.0;
            rng_state = r.1;
            dirty_buckets = mark_all touched (set_insert ℕ_discrete i p.dirty_buckets);
            num_items = p.num_items + 1;
          },
          true,
        )
        | none ↦ (record p { buckets = r.0; rng_state = r.1 }, false)
      ]

  unfoldable pub insert_fingerprint : CkfProducer → ℕ → CkfProducer × Bool
  insert_fingerprint p hash =
      let (fp, bucket_a) = probe xxh3 hash in
      let bucket_b = alt_index xxh3 bucket_a fp in
      elim (try_insert (p.buckets bucket_a) fp) [
        | some v ↦ (inserted_at p bucket_a v, true)
        | none ↦ elim (try_insert (p.buckets bucket_b) fp) [
          | some v ↦ (inserted_at p bucket_b v, true)
          | none ↦ insert_by_kicks p fp bucket_a bucket_b
        ]
      ]

  abbrev deleted_at : CkfProducer → ℕ → ℕ → CkfProducer
  deleted_at p i v = record p {
    buckets = set_bucket p.buckets i v;
    dirty_buckets = set_insert ℕ_discrete i p.dirty_buckets;
    num_items = p.num_items - 1;
  }

  unfoldable pub delete_fingerprint : CkfProducer → ℕ → CkfProducer
  delete_fingerprint p hash =
      let (fp, bucket_a) = probe xxh3 hash in
      let bucket_b = alt_index xxh3 bucket_a fp in
      elim (try_delete (p.buckets bucket_a) fp) [
        | some v ↦ deleted_at p bucket_a v
        | none ↦ elim (try_delete (p.buckets bucket_b) fp) [
          | some v ↦ deleted_at p bucket_b v
          | none ↦ p
        ]
      ]

  -- A failed insertion is only logged.
  unfoldable pub apply_stored : CkfProducer → ℕ → BackendId → CkfProducer
  apply_stored p hash worker =
      let entry = or_default (lookup ℕ_discrete hash p.hash_refcount) in
      if contains BackendId_discrete worker entry.owners then p else elim entry.owners [
        | [] ↦ (insert_fingerprint (tracked p hash worker entry) hash).0
        | o ∷ os ↦ tracked p hash worker entry
      ]

  -- An owner leaves an entry; the last one takes the fingerprint with it.
  unfoldable pub release : CkfProducer → ℕ → HashEntry → BackendId → CkfProducer
  release p hash entry worker =
      let left : HashEntry = record {
        refcount = entry.refcount - 1;
        owners = set_remove BackendId_discrete worker entry.owners;
      } in
      if entry.refcount - 1 == 0
      then (let q = delete_fingerprint p hash in
          record q { hash_refcount = remove ℕ_discrete hash q.hash_refcount })
      else record p { hash_refcount = insert ℕ_discrete hash left p.hash_refcount }

  unfoldable pub apply_removed : CkfProducer → ℕ → BackendId → CkfProducer
  unfolding release
  apply_removed p hash worker = elim (lookup ℕ_discrete hash p.hash_refcount) [
    | none ↦ p
    | some entry ↦
        if contains BackendId_discrete worker entry.owners
        then release
            (elim (lookup BackendId_discrete worker p.worker_hashes) [
              | none ↦ p
              | some s ↦ record p {
                worker_hashes =
                    insert BackendId_discrete worker (set_remove ℕ_discrete hash s) p.worker_hashes;
              }
            ])
            hash entry worker
        else p
  ]

  unfoldable pub clear_hashes : CkfProducer → List ℕ → BackendId → CkfProducer
  unfolding release
  clear_hashes p [] worker = p
  clear_hashes p (hash ∷ hashes) worker =
      clear_hashes
        (elim (lookup ℕ_discrete hash p.hash_refcount) [
          | none ↦ p
          | some entry ↦ release p hash entry worker
        ])
        hashes worker

  unfoldable pub apply_clear : CkfProducer → BackendId → CkfProducer
  apply_clear p worker =
      clear_hashes (record p { worker_hashes = remove BackendId_discrete worker p.worker_hashes })
        (or_empty (lookup BackendId_discrete worker p.worker_hashes)) worker

  unfoldable pub reset_internal : CkfProducer → CkfProducer
  reset_internal p = record p {
    buckets = λ i. 0;
    num_items = 0;
    dirty_buckets = [];
    hash_refcount = [];
    worker_hashes = [];
  }

  unfoldable pub stored_all : CkfProducer → List ℕ → BackendId → CkfProducer
  unfolding apply_stored
  stored_all p [] backend = p
  stored_all p (h ∷ hs) backend = stored_all (apply_stored p h backend) hs backend

  unfoldable pub removed_all : CkfProducer → List ℕ → BackendId → CkfProducer
  unfolding apply_removed
  removed_all p [] backend = p
  removed_all p (h ∷ hs) backend = removed_all (apply_removed p h backend) hs backend

  unfoldable pub apply_event : CkfProducer → KvCacheEvent → BackendId → CkfProducer
  unfolding stored_all removed_all apply_clear reset_internal
  apply_event p (stored_event worker hashes parent tokens) backend = stored_all p hashes backend
  apply_event p (removed_event worker hashes) backend = removed_all p hashes backend
  apply_event p (clear_event worker) backend = apply_clear p backend
  apply_event p (reset_event worker generation) backend = reset_internal p

unfoldable pub snapshot : CkfProducer → CkfProducer × CkfSnapshot
snapshot p =
    let seq = (p.pub_seq + 1) % 2 ^ 64 in
    (record p { pub_seq = seq; dirty_buckets = [] }, record { sequence = seq; buckets = p.buckets })

-- `sort` orders the pairs by their index. The changed buckets are the last argument.
abbrev pub delta_of :
    (List (ℕ × ℕ) → List (ℕ × ℕ)) → CkfProducer → List ℕ → CkfProducer × Option CkfDelta
delta_of sort p [] = (p, none)
delta_of sort p (i ∷ is) = (
  record p { pub_seq = (p.pub_seq + 1) % 2 ^ 64; dirty_buckets = [] },
  some (record {
    sequence = (p.pub_seq + 1) % 2 ^ 64;
    prev_sequence = p.pub_seq;
    buckets = sort (map (λ j. (j, p.buckets j)) (i ∷ is));
  }),
)

unfoldable pub delta : (List (ℕ × ℕ) → List (ℕ × ℕ)) → CkfProducer → CkfProducer × Option CkfDelta
delta sort p = delta_of sort p p.dirty_buckets
