-- ===== src/Metadata/CuckooFilter/Slots.antt =====
-- The operations on a bucket count its fingerprints.
use hier_kv_gateway.Prelude.{
  ℕ, zero, suc, ◌+◌, ◌^◌, ◌≤◌, ◌<◌, ◌≡◌, refl, ◌∙◌, Bool, none, some, arith, if◌then◌else◌, ◌==◌,
  ltb, ◌⊎◌, inl, inr, ℕ_discrete,
}
use hier_kv_gateway.Metadata.CuckooFilter.{
  slot, with_slot, bucket_contains, find_slot, first_empty, first_match, try_insert, try_delete,
}
use hier_kv_gateway.Metadata.CuckooFilter.Packed.{bucket_contains_lem}

abbrev pub one_if : Bool → ℕ
one_if b = if b then 1 else 0

-- How many of the four slots hold the fingerprint.
unfoldable pub slot_count : ℕ → ℕ → ℕ
slot_count bucket fp =
    one_if (slot bucket 0 == fp)
    + one_if (slot bucket 1 == fp)
    + one_if (slot bucket 2 == fp)
    + one_if (slot bucket 3 == fp)

with_slot_0 :
    (b f : ℕ)
    → f < 2 ^ 16
    → (slot (with_slot b 0 f) 0 ≡ f)
      × (slot (with_slot b 0 f) 1 ≡ slot b 1)
      × (slot (with_slot b 0 f) 2 ≡ slot b 2)
      × (slot (with_slot b 0 f) 3 ≡ slot b 3)
unfolding slot with_slot
with_slot_0 b f h = omega arith

with_slot_1 :
    (b f : ℕ)
    → f < 2 ^ 16
    → (slot (with_slot b 1 f) 0 ≡ slot b 0)
      × (slot (with_slot b 1 f) 1 ≡ f)
      × (slot (with_slot b 1 f) 2 ≡ slot b 2)
      × (slot (with_slot b 1 f) 3 ≡ slot b 3)
unfolding slot with_slot
with_slot_1 b f h = omega arith

with_slot_2 :
    (b f : ℕ)
    → f < 2 ^ 16
    → (slot (with_slot b 2 f) 0 ≡ slot b 0)
      × (slot (with_slot b 2 f) 1 ≡ slot b 1)
      × (slot (with_slot b 2 f) 2 ≡ f)
      × (slot (with_slot b 2 f) 3 ≡ slot b 3)
unfolding slot with_slot
with_slot_2 b f h = omega arith

with_slot_3 :
    (b f : ℕ)
    → f < 2 ^ 16
    → (slot (with_slot b 3 f) 0 ≡ slot b 0)
      × (slot (with_slot b 3 f) 1 ≡ slot b 1)
      × (slot (with_slot b 3 f) 2 ≡ slot b 2)
      × (slot (with_slot b 3 f) 3 ≡ f)
unfolding slot with_slot
with_slot_3 b f h = omega arith

-- Writing a slot exchanges its fingerprint for the new one.
pub slot_count-with_slot :
    (b i f x : ℕ)
    → i < 4
    → f < 2 ^ 16
    → slot_count (with_slot b i f) x + one_if (slot b i == x) ≡ slot_count b x + one_if (f == x)
unfolding slot_count
slot_count-with_slot b zero f x h hf = ground (arith, with_slot_0 b f hf)
slot_count-with_slot b (suc zero) f x h hf = ground (arith, with_slot_1 b f hf)
slot_count-with_slot b (suc (suc zero)) f x h hf = ground (arith, with_slot_2 b f hf)
slot_count-with_slot b (suc (suc (suc zero))) f x h hf = ground (arith, with_slot_3 b f hf)
slot_count-with_slot b (suc (suc (suc (suc i)))) f x h hf = absurd (omega arith)

-- The first slot found, or that there is none.
find_slot-cases :
    (b f : ℕ)
    → ((find_slot b f 0 4 ≡ none) × (slot_count b f ≡ 0))
      ⊎ ((i : ℕ) × (find_slot b f 0 4 ≡ some i) × (i < 4) × (slot b i ≡ f) × (1 ≤ slot_count b f))
unfolding find_slot slot_count
find_slot-cases b f = elim (ℕ_discrete (slot b 0) f) [
  | yes p ↦ inr (0, ground (arith, p), omega arith, p, ground (arith, p))
  | no p ↦ elim (ℕ_discrete (slot b 1) f) [
    | yes q ↦ inr (1, ground (arith, p, q), omega arith, q, ground (arith, q))
    | no q ↦ elim (ℕ_discrete (slot b 2) f) [
      | yes r ↦ inr (2, ground (arith, p, q, r), omega arith, r, ground (arith, r))
      | no r ↦ elim (ℕ_discrete (slot b 3) f) [
        | yes t ↦ inr (3, ground (arith, p, q, r, t), omega arith, t, ground (arith, t))
        | no t ↦ inl (ground (arith, p, q, r, t), ground (arith, p, q, r, t))
      ]
    ]
  ]
]

pub with_slot-lt : (b i f : ℕ) → b < 2 ^ 64 → i < 4 → f < 2 ^ 16 → with_slot b i f < 2 ^ 64
unfolding with_slot
with_slot-lt b zero f hb h hf = omega arith
with_slot-lt b (suc zero) f hb h hf = omega arith
with_slot-lt b (suc (suc zero)) f hb h hf = omega arith
with_slot-lt b (suc (suc (suc zero))) f hb h hf = omega arith
with_slot-lt b (suc (suc (suc (suc i)))) f hb h hf = absurd (omega arith)

-- An insertion fails on a bucket with no empty slot, or adds one occurrence of its fingerprint.
pub try_insert-cases :
    (b f : ℕ)
    → b < 2 ^ 64
    → f < 2 ^ 16
    → ((try_insert b f ≡ none) × (slot_count b 0 ≡ 0))
      ⊎ ((b' : ℕ) × (try_insert b f ≡ some b')
          × (b' < 2 ^ 64)
          × ((x : ℕ) → 0 < x → slot_count b' x ≡ slot_count b x + one_if (f == x)))
unfolding try_insert first_empty
try_insert-cases b f hb hf = elim (find_slot-cases b 0) [
  | inl (e, c) ↦ inl (rw (try_insert, e) refl, c)
  | inr (i, e, lt, z, c) ↦ inr (
    with_slot b i f,
    rw (try_insert, e) refl,
    with_slot-lt b i f hb lt hf,
    λ x h. ground (arith, slot_count-with_slot b i f x lt hf, z),
  )
]

-- A deletion fails on a bucket without the fingerprint, or takes one occurrence of it.
pub try_delete-cases :
    (b f : ℕ)
    → b < 2 ^ 64
    → ((try_delete b f ≡ none) × (slot_count b f ≡ 0))
      ⊎ ((b' : ℕ) × (try_delete b f ≡ some b')
          × (b' < 2 ^ 64)
          × ((x : ℕ) → 0 < x → slot_count b' x + one_if (f == x) ≡ slot_count b x))
unfolding try_delete first_match
try_delete-cases b f hb = elim (find_slot-cases b f) [
  | inl (e, c) ↦ inl (rw (try_delete, e) refl, c)
  | inr (i, e, lt, z, c) ↦ inr (
    with_slot b i 0,
    rw (try_delete, e) refl,
    with_slot-lt b i 0 hb lt (omega arith),
    λ x h. ground (arith, slot_count-with_slot b i 0 x lt (omega arith), z),
  )
]

pub bucket_contains-slot_count :
    (b fp : ℕ) → b < 2 ^ 64 → fp < 2 ^ 16 → bucket_contains b fp ≡ ltb 0 (slot_count b fp)
unfolding slot_count
bucket_contains-slot_count b fp hb hf = bucket_contains_lem b fp hb hf ∙ ground arith

pub slot-lt : (b i : ℕ) → slot b i < 2 ^ 16
unfolding slot
slot-lt b i = omega arith
