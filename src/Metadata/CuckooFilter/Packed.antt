-- ===== src/Metadata/CuckooFilter/Packed.antt =====
-- The operations on a packed bucket, against its four slots.
use Prim.Native.Nat.{bit_and, bit_xor}
use hier_kv_gateway.Prelude.{
  ℕ, ◌+◌, ◌-◌, ◌*◌, ◌/◌, ◌%◌, ◌^◌, ◌<◌, ◌≡◌, ◌≢◌, refl, sym, ap, ◌∙◌, min, not, ◌||◌, arith, ◌==◌,
  ◌↔◌,
}
use hier_kv_gateway.Prelude.Bits.{
  bit_xor-div, bit_xor-mod, bit_and-div, bit_and-mod, bit_xor_zero, bit_xor_self, bit_and_mask,
  bit_and_digit, bit_and-zero,
}
use hier_kv_gateway.Metadata.CuckooFilter.{slot, bucket_contains}

abbrev lane : ℕ → ℕ → ℕ
lane x i = x / 2 ^ (i * 16) % 2 ^ 16

abbrev rest_of : ℕ → ℕ
rest_of d = (d + 2 ^ 64 - 0x0001_0001_0001_0001) % 2 ^ 64

abbrev inverted : ℕ → ℕ
inverted d = 2 ^ 64 - 1 - d

-- The bit 15 of a lane, set by the subtraction where it was clear.
abbrev signal : ℕ → ℕ → ℕ
signal d i = min (rest_of d / 2 ^ (i * 16 + 15) % 2) (inverted d / 2 ^ (i * 16 + 15) % 2)

-- Only a zero lane borrows with its bit 15 clear.
signals :
    (d : ℕ)
    → d < 2 ^ 64
    → signal d 0 + signal d 1 + signal d 2 + signal d 3 ≡ 0
    → (lane d 0 ≢ 0) × (lane d 1 ≢ 0) × (lane d 2 ≢ 0) × (lane d 3 ≢ 0)
signals d h z = omega arith

no_signals :
    (d : ℕ)
    → d < 2 ^ 64
    → (lane d 0 ≢ 0) × (lane d 1 ≢ 0) × (lane d 2 ≢ 0) × (lane d 3 ≢ 0)
    → signal d 0 + signal d 1 + signal d 2 + signal d 3 ≡ 0
no_signals d h z = omega arith

abbrev masked : ℕ → ℕ
masked d = bit_and (bit_and (rest_of d) (inverted d)) 0x8000_8000_8000_8000

-- The lanes of the word that the source tests.
lane-masked :
    (d i : ℕ)
    → 0x8000_8000_8000_8000 / 2 ^ (i * 16) % 2 ^ 16 ≡ 0x8000
    → lane (masked d) i
      ≡ bit_and (rest_of d) (inverted d) / 2 ^ (i * 16) % 2 ^ 16 / 2 ^ 15 % 2 * 0x8000
lane-masked d i e =
    let x = bit_and (rest_of d) (inverted d) in
    ap (λ t. t % 2 ^ 16) (bit_and-div (i * 16) x 0x8000_8000_8000_8000)
    ∙ bit_and-mod 16 (x / 2 ^ (i * 16)) (0x8000_8000_8000_8000 / 2 ^ (i * 16))
    ∙ ap (λ t. bit_and (lane x i) t) e
    ∙ bit_and_mask (lane x i)

digit_15 : (x : ℕ) → lane x 0 / 2 ^ 15 % 2 ≡ x / 2 ^ 15 % 2
digit_15 x = omega arith

digit_31 : (x : ℕ) → x / 2 ^ 16 % 2 ^ 16 / 2 ^ 15 % 2 ≡ x / 2 ^ 31 % 2
digit_31 x = omega arith

digit_47 : (x : ℕ) → x / 2 ^ 32 % 2 ^ 16 / 2 ^ 15 % 2 ≡ x / 2 ^ 47 % 2
digit_47 x = omega arith

digit_63 : (x : ℕ) → x / 2 ^ 48 % 2 ^ 16 / 2 ^ 15 % 2 ≡ x / 2 ^ 63 % 2
digit_63 x = omega arith

-- A lane of the tested word, from the digit that the mask leaves.
lane-signal :
    (d i : ℕ)
    → 0x8000_8000_8000_8000 / 2 ^ (i * 16) % 2 ^ 16 ≡ 0x8000
    → ((x : ℕ) → lane x i / 2 ^ 15 % 2 ≡ x / 2 ^ (i * 16 + 15) % 2)
    → lane (masked d) i ≡ signal d i * 0x8000
lane-signal d i e digit =
    lane-masked d i e
    ∙ ap (λ t. t * 0x8000)
        (digit (bit_and (rest_of d) (inverted d))
          ∙ bit_and_digit (i * 16 + 15) (rest_of d) (inverted d))

masked-lt : (d : ℕ) → masked d < 2 ^ 64
masked-lt d = omega (
  arith,
  bit_and-div 64 (bit_and (rest_of d) (inverted d)) 0x8000_8000_8000_8000,
  bit_and-zero (bit_and (rest_of d) (inverted d) / 2 ^ 64),
)

word_zero : (x : ℕ) → x < 2 ^ 64 → lane x 0 ≡ 0 → lane x 1 ≡ 0 → lane x 2 ≡ 0 → lane x 3 ≡ 0 → x ≡ 0
word_zero x h a b c e = omega arith

lanes_iff :
    (w s0 s1 s2 s3 : ℕ)
    → w < 2 ^ 64
    → lane w 0 ≡ s0 * 0x8000
    → lane w 1 ≡ s1 * 0x8000
    → lane w 2 ≡ s2 * 0x8000
    → lane w 3 ≡ s3 * 0x8000
    → (w ≡ 0) ↔ (s0 + s1 + s2 + s3 ≡ 0)
lanes_iff w s0 s1 s2 s3 h a b c d = (λ z. omega arith, λ z. omega arith)

-- The tested word is zero exactly if no lane signals.
masked_iff : (d : ℕ) → (masked d ≡ 0) ↔ (signal d 0 + signal d 1 + signal d 2 + signal d 3 ≡ 0)
masked_iff d =
    lanes_iff (masked d) (signal d 0) (signal d 1) (signal d 2) (signal d 3) (masked-lt d)
      (lane-signal d 0 refl digit_15) (lane-signal d 1 refl digit_31)
      (lane-signal d 2 refl digit_47) (lane-signal d 3 refl digit_63)

test_lem :
    (m a b c d f : ℕ)
    → (m ≡ 0) ↔ ((a ≢ f) × (b ≢ f) × (c ≢ f) × (d ≢ f))
    → not (m == 0) ≡ ((a == f) || (b == f) || (c == f) || (d == f))
test_lem m a b c d f h = ground arith

-- The word with each slot taken against the fingerprint.
module _ (b fp : ℕ) (hb : b < 2 ^ 64) (hf : fp < 2 ^ 16) where
  abbrev different : ℕ
  different = bit_xor b (fp * 0x0001_0001_0001_0001)

  different-lt : different < 2 ^ 64
  different-lt = omega (
    arith,
    bit_xor-div 64 b (fp * 0x0001_0001_0001_0001),
    ap (λ t. bit_xor t (fp * 0x0001_0001_0001_0001 / 2 ^ 64)) {x = b / 2 ^ 64} {y = 0}
        (omega arith),
    ap (λ t. bit_xor 0 t) {x = fp * 0x0001_0001_0001_0001 / 2 ^ 64} {y = 0} (omega arith),
  )

  lane-different :
      (i : ℕ) → lane (fp * 0x0001_0001_0001_0001) i ≡ fp → lane different i ≡ bit_xor (lane b i) fp
  lane-different i e =
      ap (λ t. t % 2 ^ 16) (bit_xor-div (i * 16) b (fp * 0x0001_0001_0001_0001))
      ∙ bit_xor-mod 16 (b / 2 ^ (i * 16)) (fp * 0x0001_0001_0001_0001 / 2 ^ (i * 16))
      ∙ ap (λ t. bit_xor (lane b i) t) e

  zero_iff :
      (i : ℕ) → lane (fp * 0x0001_0001_0001_0001) i ≡ fp → (lane different i ≡ 0) ↔ (lane b i ≡ fp)
  zero_iff i e = (
    λ z. bit_xor_zero (lane b i) fp (sym (lane-different i e) ∙ z),
    λ s. lane-different i e ∙ ap (λ t. bit_xor t fp) s ∙ bit_xor_self fp,
  )

  absent_iff :
      (masked different ≡ 0)
      ↔ ((lane b 0 ≢ fp) × (lane b 1 ≢ fp) × (lane b 2 ≢ fp) × (lane b 3 ≢ fp))
  absent_iff = (
    λ m. absent (signals different different-lt ((masked_iff different).0 m)),
    λ a. (masked_iff different).1 (no_signals different different-lt (nonzero a)),
  )
    where
      z0 : (lane different 0 ≡ 0) ↔ (lane b 0 ≡ fp)
      z0 = zero_iff 0 (omega arith)

      z1 : (lane different 1 ≡ 0) ↔ (lane b 1 ≡ fp)
      z1 = zero_iff 1 (omega arith)

      z2 : (lane different 2 ≡ 0) ↔ (lane b 2 ≡ fp)
      z2 = zero_iff 2 (omega arith)

      z3 : (lane different 3 ≡ 0) ↔ (lane b 3 ≡ fp)
      z3 = zero_iff 3 (omega arith)

      absent :
          (lane different 0 ≢ 0)
            × (lane different 1 ≢ 0)
            × (lane different 2 ≢ 0)
            × (lane different 3 ≢ 0)
          → (lane b 0 ≢ fp) × (lane b 1 ≢ fp) × (lane b 2 ≢ fp) × (lane b 3 ≢ fp)
      absent (a, c, e, f) = (λ q. a (z0.1 q), λ q. c (z1.1 q), λ q. e (z2.1 q), λ q. f (z3.1 q))

      nonzero :
          (lane b 0 ≢ fp) × (lane b 1 ≢ fp) × (lane b 2 ≢ fp) × (lane b 3 ≢ fp)
          → (lane different 0 ≢ 0)
            × (lane different 1 ≢ 0)
            × (lane different 2 ≢ 0)
            × (lane different 3 ≢ 0)
      nonzero (a, c, e, f) = (λ q. a (z0.0 q), λ q. c (z1.0 q), λ q. e (z2.0 q), λ q. f (z3.0 q))

  -- For a bucket of 64 bits and a fingerprint of 16 bits, the test without a loop answers as the
  -- comparison of each of the four slots does.
  pub bucket_contains_lem :
      bucket_contains b fp
      ≡ ((slot b 0 == fp) || (slot b 1 == fp) || (slot b 2 == fp) || (slot b 3 == fp))
  unfolding bucket_contains slot
  bucket_contains_lem =
      test_lem (masked different) (lane b 0) (lane b 1) (lane b 2) (lane b 3) fp absent_iff
