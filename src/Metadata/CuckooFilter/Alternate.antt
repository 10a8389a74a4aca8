-- ===== src/Metadata/CuckooFilter/Alternate.antt =====
-- The two candidate buckets of a fingerprint.
use Prim.Native.Nat.{bit_xor}
use hier_kv_gateway.Prelude.{
  ℕ, ◌%◌, ◌^◌, ◌<◌, ◌≡◌, ◌≢◌, sym, ap, ◌∙◌, List, arith, if◌then◌else◌, ◌==◌,
}
use hier_kv_gateway.Prelude.Bits.{bit_xor-mod, bit_xor_twice, bit_xor_fixed}
use hier_kv_gateway.Routing.PrefixHistory.{to_le_bytes}
use hier_kv_gateway.Metadata.CuckooFilter.{alt_index, probe, alt_mix_domain, buckets_per_lane}

xor_16 : (i d : ℕ) → i < 65536 → d < 65536 → bit_xor i d % 65536 ≡ bit_xor i d
xor_16 i d h g =
    bit_xor-mod 16 i d
    ∙ ap (λ t. bit_xor t (d % 65536)) {x = i % 65536} {y = i} (omega arith)
    ∙ ap (λ t. bit_xor i t) {x = d % 65536} {y = d} (omega arith)

xor_16_twice : (i d : ℕ) → i < 65536 → d < 65536 → bit_xor (bit_xor i d % 65536) d % 65536 ≡ i
xor_16_twice i d h g =
    ap (λ t. bit_xor t d % 65536) (xor_16 i d h g)
    ∙ ap (λ t. t % 65536) (bit_xor_twice i d)
    ∙ omega arith

-- `i xor d ≡ i` makes `i xor i` the `d` that `xor i` takes back.
xor_16-ne : (i d : ℕ) → i < 65536 → d < 65536 → d ≢ 0 → bit_xor i d % 65536 ≢ i
xor_16-ne i d h g z e = z (bit_xor_fixed i d (sym (xor_16 i d h g) ∙ e))

module _ (xxh3 : List ℕ → ℕ → ℕ) where
  abbrev shift : ℕ → ℕ
  shift fp =
      let delta = xxh3 (to_le_bytes 2 fp) alt_mix_domain % buckets_per_lane in
      if delta == 0 then 1 else delta

  shift-lt : (fp : ℕ) → shift fp < 65536
  shift-lt fp = ground arith

  shift-ne : (fp : ℕ) → shift fp ≢ 0
  shift-ne fp = ground arith

  pub alt_index-lt : (i fp : ℕ) → alt_index xxh3 i fp < 65536
  unfolding alt_index
  alt_index-lt i fp = omega arith

  -- A fingerprint's alternate of its alternate bucket is the bucket itself.
  pub alt_index_twice : (i fp : ℕ) → i < 65536 → alt_index xxh3 (alt_index xxh3 i fp) fp ≡ i
  unfolding alt_index
  alt_index_twice i fp h = xor_16_twice i (shift fp) h (shift-lt fp)

  pub alt_index-ne : (i fp : ℕ) → i < 65536 → alt_index xxh3 i fp ≢ i
  unfolding alt_index
  alt_index-ne i fp h = xor_16-ne i (shift fp) h (shift-lt fp) (shift-ne fp)

  pub probe-lt :
      (h : ℕ) → (0 < (probe xxh3 h).0) × ((probe xxh3 h).0 < 2 ^ 16) × ((probe xxh3 h).1 < 65536)
  unfolding probe
  probe-lt h = omega arith
