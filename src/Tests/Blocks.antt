-- ===== src/Tests/Blocks.antt =====
-- The block hashes of crates/hier-kv-gateway-core/src/kv_event.rs at concrete inputs.
use hier_kv_gateway.Prelude.{
  ℕ, ◌*◌, ◌≤◌, ◌<◌, ◌≡◌, suc, refl, none, List, [], ◌∷◌, ◌++◌, String, length, get_elem?, arith,
}
use hier_kv_gateway.Routing.PrefixHistory.{to_le_bytes}
use hier_kv_gateway.Core.BlockHashes.{
  BlockHashInput, block_bytes, mixed, compute_seed, hash_blocks, compute_block_hashes, block_hash,
  compute_block_hashes_lem, compute_block_hashes-append,
}

-- A hash that is easy to compute.
abbrev first_byte : List ℕ → ℕ → ℕ
first_byte [] seed = seed
first_byte (b ∷ bs) seed = b

abbrev no_bytes : String → List ℕ
no_bytes s = []

-- Five tokens in blocks of two.
abbrev prompt : BlockHashInput
prompt = record {
  tokens = 7 ∷ 8 ∷ 300 ∷ 10 ∷ 11 ∷ [];
  kv_block_size = 2;
  cache_namespace = none;
  lora_name = none;
}

two_hashes : compute_block_hashes first_byte no_bytes prompt ≡ 7 ∷ 44 ∷ []
unfolding compute_block_hashes hash_blocks compute_seed mixed block_bytes to_le_bytes
two_hashes = refl

compute_block_hashes_lem_example :
    let hashes = compute_block_hashes first_byte no_bytes prompt in
    (length hashes * 2 ≤ 5)
    × (5 < suc (length hashes) * 2)
    × ((i : ℕ)
        → get_elem? hashes i
          ≡ block_hash first_byte no_bytes
              (compute_seed first_byte no_bytes none none)
              2
              prompt.tokens
              (i * 2))
compute_block_hashes_lem_example = compute_block_hashes_lem first_byte no_bytes prompt (omega arith)

compute_block_hashes-append_example :
    get_elem?
      (compute_block_hashes first_byte no_bytes
        (record prompt { tokens = prompt.tokens ++ (12 ∷ []) }))
      1
    ≡ get_elem? (compute_block_hashes first_byte no_bytes prompt) 1
compute_block_hashes-append_example =
    compute_block_hashes-append first_byte no_bytes prompt (12 ∷ []) 1 (omega arith) (omega arith)
