-- ===== src/KvEstimate.antt =====
-- The crate crates/hier-kv-gateway-kv-estimate: spec.rs and estimate.rs. Multiplications of `u64`
-- wrap, as in a release build; `mul64` is one of them. A `u32` as `u64` keeps its value.
pub mod Exact
use hier_kv_gateway.Prelude.{ℕ, ◌+◌, ◌-◌, ◌*◌, ◌/◌, ◌%◌, ◌^◌, min, if◌then◌else◌, ltb, ◌==◌, ◌&&◌}

pub data AttentionKind : Type 0 where
  standard_kind mla_kind : AttentionKind

pub data KvDtype : Type 0 where
  fp32 fp16 bf16 fp8 int8 : KvDtype

unfoldable pub bytes : KvDtype → ℕ
bytes fp32 = 4
bytes fp16 = 2
bytes bf16 = 2
bytes fp8 = 1
bytes int8 = 1

pub record ModelSpec : Type 0 where
  pub num_layers : ℕ
  pub num_kv_heads : ℕ
  pub head_dim : ℕ
  pub attention : AttentionKind
  pub dtype : KvDtype
  pub kv_lora_rank : ℕ
  pub qk_rope_head_dim : ℕ
  pub sliding_window : ℕ

abbrev pub standard : ℕ → ℕ → ℕ → KvDtype → ModelSpec
standard num_layers num_kv_heads head_dim dtype = record {
  num_layers = num_layers;
  num_kv_heads = num_kv_heads;
  head_dim = head_dim;
  attention = standard_kind;
  dtype = dtype;
  kv_lora_rank = 0;
  qk_rope_head_dim = 0;
  sliding_window = 0;
}

abbrev pub mla : ℕ → ℕ → ℕ → KvDtype → ModelSpec
mla num_layers kv_lora_rank qk_rope_head_dim dtype = record {
  num_layers = num_layers;
  num_kv_heads = 0;
  head_dim = 0;
  attention = mla_kind;
  dtype = dtype;
  kv_lora_rank = kv_lora_rank;
  qk_rope_head_dim = qk_rope_head_dim;
  sliding_window = 0;
}

abbrev pub with_sliding_window : ModelSpec → ℕ → ModelSpec
with_sliding_window spec window = record spec { sliding_window = window }

abbrev pub default_spec : ModelSpec
default_spec = record {
  num_layers = 0;
  num_kv_heads = 0;
  head_dim = 0;
  attention = standard_kind;
  dtype = bf16;
  kv_lora_rank = 0;
  qk_rope_head_dim = 0;
  sliding_window = 0;
}

pub record EstimateInput : Type 0 where
  pub batch_size : ℕ
  pub input_tokens : ℕ
  pub output_tokens : ℕ
  pub block_size : ℕ

abbrev pub new_input : ℕ → ℕ → EstimateInput
new_input input_tokens output_tokens = record {
  batch_size = 1;
  input_tokens = input_tokens;
  output_tokens = output_tokens;
  block_size = 0;
}

abbrev pub with_batch : EstimateInput → ℕ → EstimateInput
with_batch input batch_size = record input { batch_size = batch_size }

abbrev pub with_block_size : EstimateInput → ℕ → EstimateInput
with_block_size input block_size = record input { block_size = block_size }

pub record KvEstimate : Type 0 where
  pub total_bytes : ℕ
  pub blocks : ℕ
  pub per_token : ℕ
  pub effective_seq_len : ℕ
  pub batch_size : ℕ

unfoldable pub mul64 : ℕ → ℕ → ℕ
mul64 a b = a * b % 2 ^ 64

-- The two arms of `per_token_bytes`.
unfoldable pub token_bytes : AttentionKind → ModelSpec → ℕ
token_bytes standard_kind spec =
    mul64 (mul64 (mul64 (mul64 2 spec.num_layers) spec.num_kv_heads) spec.head_dim)
      (bytes spec.dtype)
token_bytes mla_kind spec =
    mul64 (mul64 spec.num_layers (spec.kv_lora_rank + spec.qk_rope_head_dim)) (bytes spec.dtype)

unfoldable pub per_token_bytes : ModelSpec → ℕ
per_token_bytes spec = token_bytes spec.attention spec

unfoldable pub per_block_bytes : ModelSpec → ℕ → ℕ
unfolding per_token_bytes
per_block_bytes spec block_size = mul64 (per_token_bytes spec) block_size

-- `u64::div_ceil`, for `b > 0`.
unfoldable pub div_ceil : ℕ → ℕ → ℕ
div_ceil a b = if ltb 0 (a % b) then a / b + 1 else a / b

-- The sequence length, saturating at `u32::MAX`, under the cap of the sliding window.
unfoldable pub effective_len : ModelSpec → EstimateInput → ℕ
effective_len spec input =
    let seq_len = min (input.input_tokens + input.output_tokens) (2 ^ 32 - 1) in
    if ltb 0 spec.sliding_window && ltb spec.sliding_window seq_len
    then spec.sliding_window
    else seq_len

unfoldable pub estimate_kv : ModelSpec → EstimateInput → KvEstimate
estimate_kv spec input =
    let per_token = per_token_bytes spec in
    let effective = effective_len spec input in
    let batch = if input.batch_size == 0 then 1 else input.batch_size in
    if ltb 0 input.block_size
    then (let blocks_per_seq = div_ceil effective input.block_size in
        record {
          total_bytes = mul64 (mul64 per_token batch) (mul64 blocks_per_seq input.block_size);
          blocks = mul64 blocks_per_seq batch;
          per_token = per_token;
          effective_seq_len = effective;
          batch_size = batch;
        })
    else record {
      total_bytes = mul64 (mul64 per_token batch) effective;
      blocks = 0;
      per_token = per_token;
      effective_seq_len = effective;
      batch_size = batch;
    }
