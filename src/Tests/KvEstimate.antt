-- ===== src/Tests/KvEstimate.antt =====
-- The crate crates/hier-kv-gateway-kv-estimate at concrete inputs.
use hier_kv_gateway.Prelude.{◌*◌, ◌%◌, ◌^◌, ◌≡◌}
use hier_kv_gateway.KvEstimate.{
  ModelSpec, EstimateInput, fp16, standard, with_sliding_window, new_input, with_batch,
  with_block_size, estimate_kv,
}
use hier_kv_gateway.KvEstimate.Exact.{
  token_formula, batch_of, in_blocks, sequence_tokens, total_bytes_formula,
}

abbrev spec : ModelSpec
spec = with_sliding_window (standard 32 8 128 fp16) 4096

abbrev sample_input : EstimateInput
sample_input = with_block_size (with_batch (new_input 1000 30) 2) 16

total_bytes_formula_example :
    (estimate_kv spec sample_input).total_bytes
    ≡ token_formula spec.attention spec
      * batch_of sample_input
      * in_blocks 16 (sequence_tokens spec sample_input)
      % 2 ^ 64
total_bytes_formula_example = total_bytes_formula spec sample_input
