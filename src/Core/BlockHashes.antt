-- ===== src/Core/BlockHashes.antt =====
-- crates/hier-kv-gateway-core/src/kv_event.rs: the hashes of the blocks of a prompt. `xxh3` is the
-- seeded hash and `as_bytes` the bytes of a text. The tokens are `u32`.
use hier_kv_gateway.Prelude.{
  ℕ, zero, suc, ◌+◌, ◌*◌, ◌%◌, ◌^◌, ◌≤◌, ◌<◌, ◌≡◌, refl, Option, none, some, List, [], ◌∷◌, ◌++◌,
  if◌then◌else◌, leb, ◌==◌, String, dec→Bool, length, take, drop, get_elem?, dec_le, length-append,
  arith, ap, ◌∙◌, sym,
}
use Prim.Native.Nat.{bit_xor}
use hier_kv_gateway.Ids.{String_discrete}
use hier_kv_gateway.Routing.PrefixHistory.{to_le_bytes}

pub record BlockHashInput : Type 0 where
  pub tokens : List ℕ
  pub kv_block_size : ℕ
  pub cache_namespace : Option String
  pub lora_name : Option String

abbrev pub xxh3_seed : ℕ
xxh3_seed = 1337

abbrev pub ns_salt : ℕ
ns_salt = 5643959539379162191

abbrev pub lora_salt : ℕ
lora_salt = 5499545365693554508

-- The tokens of a block as bytes.
unfoldable pub block_bytes : List ℕ → List ℕ
block_bytes [] = []
block_bytes (t ∷ ts) = to_le_bytes 4 t ++ block_bytes ts

take-drop-append :
    (n k : ℕ) (xs ys : List ℕ) → k + n ≤ length xs → take n (drop k (xs ++ ys)) ≡ take n (drop k xs)
take-drop-append zero k xs ys h = refl
take-drop-append (suc n) zero [] ys h = absurd (omega (arith, h))
take-drop-append (suc n) zero (x ∷ xs) ys h =
    ap (λ l. x ∷ l) (take-drop-append n 0 xs ys (omega (arith, h)))
take-drop-append (suc n) (suc k) [] ys h = absurd (omega (arith, h))
take-drop-append (suc n) (suc k) (x ∷ xs) ys h = take-drop-append (suc n) k xs ys (omega (arith, h))

module _ (xxh3 : List ℕ → ℕ → ℕ) (as_bytes : String → List ℕ) where
  -- What a name adds to the seed; an empty one adds nothing.
  unfoldable pub mixed : ℕ → Option String → ℕ → ℕ
  mixed salt none seed = seed
  mixed salt (some name) seed =
      if dec→Bool (String_discrete name "")
      then seed
      else bit_xor ((seed + xxh3 (as_bytes name) salt) % 2 ^ 64) salt

  unfoldable pub compute_seed : Option String → Option String → ℕ
  unfolding mixed
  compute_seed cache_namespace lora_name =
      mixed lora_salt lora_name (mixed ns_salt cache_namespace xxh3_seed)

  -- The `while` loop, with at most as many rounds as the first argument says.
  unfoldable pub hash_blocks : ℕ → ℕ → ℕ → List ℕ → ℕ → List ℕ
  hash_blocks zero seed stride tokens start = []
  hash_blocks (suc n) seed stride tokens start =
      let rest = hash_blocks n seed stride tokens (start + stride) in
      if leb (start + stride) (length tokens)
      then xxh3 (block_bytes (take stride (drop start tokens))) seed ∷ rest
      else []

  unfoldable pub compute_block_hashes : BlockHashInput → List ℕ
  unfolding hash_blocks compute_seed
  compute_block_hashes input =
      if input.kv_block_size == 0
      then []
      else hash_blocks (length input.tokens) (compute_seed input.cache_namespace input.lora_name)
          input.kv_block_size input.tokens 0

  -- The hash of the block that starts at a token, if it is complete.
  abbrev pub block_hash : ℕ → ℕ → List ℕ → ℕ → Option ℕ
  block_hash seed stride tokens start =
      if leb (start + stride) (length tokens)
      then some (xxh3 (block_bytes (take stride (drop start tokens))) seed)
      else none

  get_elem?-hash_blocks :
      (n seed stride : ℕ) (tokens : List ℕ) (start i : ℕ)
      → 0 < stride
      → length tokens ≤ start + n
      → get_elem? (hash_blocks n seed stride tokens start) i
        ≡ block_hash seed stride tokens (start + i * stride)
  unfolding hash_blocks
  get_elem?-hash_blocks zero seed stride tokens start i p h = ground arith
  get_elem?-hash_blocks (suc n) seed stride tokens start zero p h = ground arith
  get_elem?-hash_blocks (suc n) seed stride tokens start (suc i) p h =
      ground (arith, get_elem?-hash_blocks n seed stride tokens (start + stride) i p (omega arith))

  length-hash_blocks :
      (n seed stride : ℕ) (tokens : List ℕ) (start : ℕ)
      → 0 < stride
      → length tokens ≤ start + n
      → start ≤ length tokens
      → (start + length (hash_blocks n seed stride tokens start) * stride ≤ length tokens)
        × (length tokens < start + suc (length (hash_blocks n seed stride tokens start)) * stride)
  unfolding hash_blocks
  length-hash_blocks zero seed stride tokens start p h l = ground (arith, p, h, l)
  length-hash_blocks (suc n) seed stride tokens start p h l =
      elim (dec_le (start + stride) (length tokens)) [
        | yes q ↦
            let rest = hash_blocks n seed stride tokens (start + stride) in
            let first = xxh3 (block_bytes (take stride (drop start tokens))) seed in
            let (x, y) =
              length-hash_blocks n seed stride tokens (start + stride) p (omega arith) q in
            let e : hash_blocks (suc n) seed stride tokens start ≡ first ∷ rest = ground arith in
            rw e (omega (arith, x), omega (arith, y))
        | no q ↦
            let e : hash_blocks (suc n) seed stride tokens start ≡ [] = ground arith in
            rw e (omega arith, omega arith)
      ]

  -- For a block size that is not 0, there is one hash for each whole block of the tokens, and at
  -- position `i` it is the hash of the tokens from `i * kv_block_size` on, seeded by the names: the
  -- rounds of the loop are enough, and tokens that fill no block have no hash.
  pub compute_block_hashes_lem :
      (input : BlockHashInput)
      → 0 < input.kv_block_size
      → let hashes = compute_block_hashes input in
        (length hashes * input.kv_block_size ≤ length input.tokens)
        × (length input.tokens < suc (length hashes) * input.kv_block_size)
        × ((i : ℕ)
            → get_elem? hashes i
              ≡ block_hash
                  (compute_seed input.cache_namespace input.lora_name)
                  input.kv_block_size
                  input.tokens
                  (i * input.kv_block_size))
  unfolding compute_block_hashes
  compute_block_hashes_lem input p =
      let n = length input.tokens in
      let seed = compute_seed input.cache_namespace input.lora_name in
      let (x, y) =
        length-hash_blocks n seed input.kv_block_size input.tokens 0 p (omega arith)
          (omega arith) in
      let e : compute_block_hashes input ≡ hash_blocks n seed input.kv_block_size input.tokens 0 =
        ground arith in
      rw e (
        omega (arith, x),
        omega (arith, y),
        λ i.
            get_elem?-hash_blocks n seed input.kv_block_size input.tokens 0 i p (omega arith)
            ∙ ap (block_hash seed input.kv_block_size input.tokens) (omega arith),
      )

  -- A prompt that goes on keeps the hashes of the whole blocks that it has.
  pub compute_block_hashes-append :
      (input : BlockHashInput) (more : List ℕ) (i : ℕ)
      → 0 < input.kv_block_size
      → i * input.kv_block_size + input.kv_block_size ≤ length input.tokens
      → get_elem? (compute_block_hashes (record input { tokens = input.tokens ++ more })) i
        ≡ get_elem? (compute_block_hashes input) i
  compute_block_hashes-append input more i p h =
      (compute_block_hashes_lem (record input { tokens = input.tokens ++ more }) p).2 i
      ∙ ground (
        arith,
        length-append input.tokens more,
        take-drop-append input.kv_block_size (i * input.kv_block_size) input.tokens more h,
      )
      ∙ sym ((compute_block_hashes_lem input p).2 i)
