-- ===== src/Metadata/CuckooFilter.antt =====
-- crates/hier-kv-gateway-metadata/src/cuckoo_filter.rs: buckets of four fingerprints of 16 bits in a
-- word of 64 bits. The hash of the `xxhash-rust` crate is the parameter `xxh3`. A shift is a division
-- or a product by a power of two, and a mask of the low bits a remainder.
pub mod Packed
pub mod Slots
pub mod Alternate
use Prim.Native.Nat.{bit_and, bit_xor}
use hier_kv_gateway.Prelude.{
  ℕ, zero, suc, ◌+◌, ◌-◌, ◌*◌, ◌/◌, ◌%◌, ◌^◌, Bool, true, false, not, Option, none, some, List,
  if◌then◌else◌, ◌==◌,
}
use hier_kv_gateway.Routing.PrefixHistory.{to_le_bytes}

abbrev pub buckets_per_lane : ℕ
buckets_per_lane = 65536

abbrev pub max_kicks : ℕ
max_kicks = 500

abbrev pub alt_mix_domain : ℕ
alt_mix_domain = 0x9E37_79B9_7F4A_7C15

module _ (xxh3 : List ℕ → ℕ → ℕ) where
  unfoldable pub alt_index : ℕ → ℕ → ℕ
  alt_index idx fp =
      let mixed = xxh3 (to_le_bytes 2 fp) alt_mix_domain in
      let delta = mixed % buckets_per_lane in
      let delta' = if delta == 0 then 1 else delta in bit_xor idx delta' % buckets_per_lane

  -- `| 1` sets the lowest bit.
  unfoldable pub probe : ℕ → ℕ × ℕ
  probe hash =
      let mixed = xxh3 (to_le_bytes 8 hash) 0 in
      (mixed % 2 ^ 16 / 2 * 2 + 1, mixed / 2 ^ 16 % buckets_per_lane)

unfoldable pub slot : ℕ → ℕ → ℕ
slot bucket slot_idx = bucket / 2 ^ (slot_idx * 16) % 2 ^ 16

-- The bits above the slot, those of the fingerprint, and those below.
unfoldable pub with_slot : ℕ → ℕ → ℕ → ℕ
with_slot bucket slot_idx fp =
    bucket / 2 ^ (slot_idx * 16 + 16) * 2 ^ (slot_idx * 16 + 16)
    + fp * 2 ^ (slot_idx * 16)
    + bucket % 2 ^ (slot_idx * 16)

unfoldable pub bucket_contains : ℕ → ℕ → Bool
bucket_contains bucket fp =
    let repeated = fp * 0x0001_0001_0001_0001 in
    let different = bit_xor bucket repeated in
    let high_bits : ℕ = 0x8000_8000_8000_8000 in
    not (
      bit_and
        (bit_and ((different + 2 ^ 64 - 0x0001_0001_0001_0001) % 2 ^ 64) (2 ^ 64 - 1 - different))
        high_bits
      == 0)

-- The first of four slots, from `i` on, that holds `fp`.
unfoldable pub find_slot : ℕ → ℕ → ℕ → ℕ → Option ℕ
find_slot bucket fp i zero = none
find_slot bucket fp i (suc n) =
    let rest = find_slot bucket fp (suc i) n in if slot bucket i == fp then some i else rest

unfoldable pub first_match : ℕ → ℕ → Option ℕ
unfolding find_slot slot
first_match bucket fp = find_slot bucket fp 0 4

unfoldable pub first_empty : ℕ → Option ℕ
unfolding find_slot slot
first_empty bucket = find_slot bucket 0 0 4

-- The new bucket of a success.
unfoldable pub try_insert : ℕ → ℕ → Option ℕ
unfolding first_empty with_slot
try_insert bucket fp = elim (first_empty bucket) [
  | none ↦ none
  | some i ↦ some (with_slot bucket i fp)
]

unfoldable pub try_delete : ℕ → ℕ → Option ℕ
unfolding first_match with_slot
try_delete bucket fp = elim (first_match bucket fp) [
  | none ↦ none
  | some i ↦ some (with_slot bucket i 0)
]

pub record CkfSnapshot : Type 0 where
  pub sequence : ℕ
  pub buckets : ℕ → ℕ

pub record CkfDelta : Type 0 where
  pub sequence : ℕ
  pub prev_sequence : ℕ
  pub buckets : List (ℕ × ℕ)
