-- ===== src/Metadata/CkfConsumer/Overlap.antt =====
-- The estimate of a prefix.
use hier_kv_gateway.Prelude.{
  ℕ, zero, suc, ◌+◌, ◌≤◌, ◌<◌, ◌≡◌, refl, sym, ap, ◌∙◌, Bool, true, false, some, List, [], ◌∷◌,
  arith, if◌then◌else◌, ◌==◌, ltb_iff, length, get_elem?,
}
use hier_kv_gateway.Ids.{RegionId}
use hier_kv_gateway.Metadata.CuckooFilter.{probe, bucket_contains}
use hier_kv_gateway.Metadata.CkfConsumer.{
  CkfConsumer, lane_count, lane_active, lane_of, overlap_on, estimate_overlap,
}

some_injective : {a b : ℕ} → some a ≡ some b → a ≡ b
some_injective q = ground (arith, q)

module _ (xxh3 : List ℕ → ℕ → ℕ) where
  -- Whether the primary bucket of the hash holds its fingerprint on the lane.
  abbrev pub hit : CkfConsumer → ℕ → ℕ → Bool
  hit c lane hash = bucket_contains (c.buckets (probe xxh3 hash).1 lane) (probe xxh3 hash).0

  -- `n` hashes are hits, and no further one.
  abbrev pub IsLongest : CkfConsumer → ℕ → List ℕ → ℕ → Type 0
  IsLongest c lane hashes n =
      (n ≤ length hashes)
      × ((i hash : ℕ) → i < n → get_elem? hashes i ≡ some hash → hit c lane hash ≡ true)
      × ((hash : ℕ) → get_elem? hashes n ≡ some hash → hit c lane hash ≡ false)

  IsLongest-cons :
      (c : CkfConsumer) (lane h : ℕ) (hs : List ℕ) (n : ℕ) (b : Bool)
      → hit c lane h ≡ b
      → IsLongest c lane hs n
      → IsLongest c lane (h ∷ hs) (if b then n + 1 else 0)
  IsLongest-cons c lane h hs n true e (l, g, s) = (
    omega arith,
    (λ i x p q. member i x p q),
    λ x q. s x (ap (λ k. get_elem? (h ∷ hs) k) {x = suc n} {y = n + 1} (omega arith) ∙ q),
  )
    where
      member : (i x : ℕ) → i < n + 1 → get_elem? (h ∷ hs) i ≡ some x → hit c lane x ≡ true
      member zero x p q = ap (hit c lane) (sym (some_injective q)) ∙ e
      member (suc i) x p q = g i x (omega arith) q
  IsLongest-cons c lane h hs n false e (l, g, s) = (
    omega arith,
    (λ i x p. absurd (omega arith)),
    λ x q. ap (hit c lane) (sym (some_injective q)) ∙ e,
  )

  overlap_on-IsLongest :
      (c : CkfConsumer) (lane : ℕ) (hs : List ℕ) → IsLongest c lane hs (overlap_on xxh3 c lane hs)
  unfolding overlap_on
  overlap_on-IsLongest c lane [] =
      (omega arith, (λ i x p. absurd (omega arith)), λ x q. ground (arith, q))
  overlap_on-IsLongest c lane (h ∷ hs) =
      IsLongest-cons c lane h hs (overlap_on xxh3 c lane hs) (hit c lane h) refl
        (overlap_on-IsLongest c lane hs)

  -- For a region whose lane is below 16 and active, the estimate is the number of leading hashes
  -- whose fingerprint is in their primary bucket on that lane: none of them fails, and the next one
  -- does.
  pub estimate_overlap-IsLongest :
      (hs : List ℕ) (region : RegionId) (c : CkfConsumer) (lane : ℕ)
      → lane_of region c ≡ some lane
      → lane < lane_count
      → (c.lane_status lane == lane_active) ≡ true
      → (n : ℕ) × (estimate_overlap xxh3 hs region c ≡ some n) × IsLongest c lane hs n
  unfolding estimate_overlap
  estimate_overlap-IsLongest hs region c lane e h s = (
    overlap_on xxh3 c lane hs,
    rw (estimate_overlap, e, (ltb_iff lane lane_count).1 h, s) refl,
    overlap_on-IsLongest c lane hs,
  )
