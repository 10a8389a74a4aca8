-- ===== src/KvEstimate/Exact.antt =====
-- Where nothing overflows, the estimate is the formula of the documentation.
use native.Mathlib.Nat.{
  add-mul-mod_self_left, div-add-mod, div-add-mod', div-eq_of_lt-le, mul_comm, mod-lt, mul-mod_left,
}
use hier_kv_gateway.Prelude.{
  ℕ, ◌+◌, ◌-◌, ◌*◌, ◌/◌, ◌%◌, ◌^◌, ◌≤◌, ◌<◌, ◌≡◌, refl, min, if◌then◌else◌, ltb, ◌==◌, arith, sym,
  ◌∙◌, ap, Bool-cases, inl, inr, ltb_iff, ltb-false, dec_lt,
}
use hier_kv_gateway.KvEstimate.{
  AttentionKind, KvDtype, fp32, fp16, bf16, fp8, int8, standard_kind, mla_kind, ModelSpec,
  EstimateInput, bytes, mul64, token_bytes, per_token_bytes, div_ceil, effective_len, estimate_kv,
}

-- The documented bytes of one element.
abbrev pub element_size : KvDtype → ℕ
element_size fp32 = 4
element_size fp16 = 2
element_size bf16 = 2
element_size fp8 = 1
element_size int8 = 1

bytes_lem : (t : KvDtype) → bytes t ≡ element_size t
unfolding bytes
bytes_lem fp32 = refl
bytes_lem fp16 = refl
bytes_lem bf16 = refl
bytes_lem fp8 = refl
bytes_lem int8 = refl

-- `2 * layers * kv_heads * head_dim * dtype`, or `layers * (rank + rope) * dtype`.
abbrev pub token_formula : AttentionKind → ModelSpec → ℕ
token_formula standard_kind spec =
    2 * spec.num_layers * spec.num_kv_heads * spec.head_dim * element_size spec.dtype
token_formula mla_kind spec =
    spec.num_layers * (spec.kv_lora_rank + spec.qk_rope_head_dim) * element_size spec.dtype

mod-mul-mod : (a b m : ℕ) → a % m * b % m ≡ a * b % m
mod-mul-mod a b m =
    sym (add-mul-mod_self_left (a % m * b) m (a / m * b))
    ∙ ap (λ t. t % m) (omega (arith, ap (λ (t : ℕ). t * b) (div-add-mod a m)))

mul64-mul64 : (a b c : ℕ) → mul64 (mul64 a b) c ≡ mul64 (a * b) c
unfolding mul64
mul64-mul64 a b c = mod-mul-mod (a * b) c (2 ^ 64)

mul64_lem : (a b : ℕ) → mul64 a b ≡ a * b % 2 ^ 64
unfolding mul64
mul64_lem a b = refl

mul64-mod : (a b : ℕ) → mul64 (a % 2 ^ 64) b ≡ mul64 a b
unfolding mul64
mul64-mod a b = mod-mul-mod a b (2 ^ 64)

mul64_comm : (a b : ℕ) → mul64 a b ≡ mul64 b a
unfolding mul64
mul64_comm a b = rw (mul_comm a b) refl

token_bytes_lem :
    (kind : AttentionKind) (spec : ModelSpec)
    → token_bytes kind spec ≡ token_formula kind spec % 2 ^ 64
unfolding token_bytes
token_bytes_lem standard_kind spec = rw (bytes_lem spec.dtype) (simp mul64-mul64 (mul64_lem _ _))
token_bytes_lem mla_kind spec = rw (bytes_lem spec.dtype) (simp mul64-mul64 (mul64_lem _ _))

-- A whole number of blocks holds the tokens, and one block fewer does not.
div_ceil_bounds : (a b : ℕ) → 0 < b → (a ≤ div_ceil a b * b) × (div_ceil a b * b < a + b)
unfolding div_ceil
div_ceil_bounds a b h = elim (Bool-cases (ltb 0 (a % b))) [
  | inl e ↦ rw e (
    omega (arith, div-add-mod' a b, mod-lt a h),
    omega (arith, div-add-mod' a b, (ltb_iff 0 (a % b)).0 e),
  )
  | inr e ↦ rw e (
    omega (arith, div-add-mod' a b, ltb-false 0 (a % b) e),
    omega (arith, div-add-mod' a b, ltb-false 0 (a % b) e),
  )
]

-- The tokens that the cache holds for one sequence: whole blocks, or exactly the effective length.
abbrev pub padded_len : ModelSpec → EstimateInput → ℕ
padded_len spec input =
    if ltb 0 input.block_size
    then div_ceil (effective_len spec input) input.block_size * input.block_size
    else effective_len spec input

abbrev pub batch_of : EstimateInput → ℕ
batch_of input = if input.batch_size == 0 then 1 else input.batch_size

product_mod :
    (f batch n b : ℕ) → mul64 (mul64 (f % 2 ^ 64) batch) (mul64 n b) ≡ f * batch * (n * b) % 2 ^ 64
product_mod f batch n b =
    ap (λ t. mul64 t (mul64 n b)) (mul64-mod f batch)
    ∙ mul64-mul64 f batch (mul64 n b)
    ∙ mul64_comm (f * batch) (mul64 n b)
    ∙ mul64-mul64 n b (f * batch)
    ∙ mul64_comm (n * b) (f * batch)
    ∙ mul64_lem (f * batch) (n * b)

plain_mod : (f batch n : ℕ) → mul64 (mul64 (f % 2 ^ 64) batch) n ≡ f * batch * n % 2 ^ 64
plain_mod f batch n =
    ap (λ t. mul64 t n) (mul64-mod f batch) ∙ mul64-mul64 f batch n ∙ mul64_lem (f * batch) n

total_bytes_product :
    (spec : ModelSpec) (input : EstimateInput)
    → (estimate_kv spec input).total_bytes
      ≡ token_formula spec.attention spec * batch_of input * padded_len spec input % 2 ^ 64
unfolding estimate_kv per_token_bytes
total_bytes_product spec input = elim (Bool-cases (ltb 0 input.block_size)) [
  | inl e ↦
      rw (token_bytes_lem spec.attention spec, e)
        (product_mod (token_formula spec.attention spec) (batch_of input)
          (div_ceil (effective_len spec input) input.block_size) input.block_size)
  | inr e ↦
      rw (token_bytes_lem spec.attention spec, e)
        (plain_mod (token_formula spec.attention spec) (batch_of input) (effective_len spec input))
]

-- With a block size, the padded length of a sequence is a whole number of blocks, holds the
-- effective length, and one block less does not.
pub padded_len_bounds :
    (spec : ModelSpec) (input : EstimateInput)
    → 0 < input.block_size
    → (padded_len spec input % input.block_size ≡ 0)
      × (effective_len spec input ≤ padded_len spec input)
      × (padded_len spec input < effective_len spec input + input.block_size)
padded_len_bounds spec input h =
    let bounds = div_ceil_bounds (effective_len spec input) input.block_size h in
    rw ((ltb_iff 0 input.block_size).1 h) (
      mul-mod_left (div_ceil (effective_len spec input) input.block_size) input.block_size,
      bounds.0,
      bounds.1,
    )

-- The effective length is the number of input and output tokens, at most `u32::MAX`, and at most
-- the sliding window if the model has one.
pub effective_len_lem :
    (spec : ModelSpec) (input : EstimateInput)
    → effective_len spec input
      ≡ min
          (min (input.input_tokens + input.output_tokens) (2 ^ 32 - 1))
          (if spec.sliding_window == 0 then 2 ^ 32 - 1 else spec.sliding_window)
unfolding effective_len
effective_len_lem spec input = ground arith

-- The documented padding: the tokens of a sequence, `ceil(n / block) * block` of them, or `n` without
-- blocks.
abbrev pub in_blocks : ℕ → ℕ → ℕ
in_blocks block n = if block == 0 then n else (n + (block - 1)) / block * block

abbrev pub sequence_tokens : ModelSpec → EstimateInput → ℕ
sequence_tokens spec input =
    min (min (input.input_tokens + input.output_tokens) (2 ^ 32 - 1))
      (if spec.sliding_window == 0 then 2 ^ 32 - 1 else spec.sliding_window)

div_ceil_lem : (a b : ℕ) → 0 < b → div_ceil a b ≡ (a + (b - 1)) / b
div_ceil_lem a b h =
    let (x, y) = div_ceil_bounds a b h in
    sym (div-eq_of_lt-le b (omega (arith, y, h)) (omega (arith, x, h)))

padded_len_lem :
    (spec : ModelSpec) (input : EstimateInput)
    → padded_len spec input ≡ in_blocks input.block_size (sequence_tokens spec input)
padded_len_lem spec input =
    rw (sym (effective_len_lem spec input)) (elim (dec_lt 0 input.block_size) [
      | yes p ↦ ground (arith, p, div_ceil_lem (effective_len spec input) input.block_size p)
      | no n ↦ ground (arith, n)
    ])

-- For every model and request, the estimated bytes are the documented formula modulo 2 ^ 64: bytes
-- per token, times the batch (0 counts as 1), times the tokens of a sequence, which are at most
-- `u32::MAX` and the sliding window if there is one, in whole blocks if there is a block size. So they
-- are exact whenever that product fits 64 bits.
pub total_bytes_formula :
    (spec : ModelSpec) (input : EstimateInput)
    → (estimate_kv spec input).total_bytes
      ≡ token_formula spec.attention spec
        * batch_of input
        * in_blocks input.block_size (sequence_tokens spec input)
        % 2 ^ 64
total_bytes_formula spec input =
    rw (sym (padded_len_lem spec input)) (total_bytes_product spec input)
