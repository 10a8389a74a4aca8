-- ===== src/Tests/Routing.antt =====
-- The crate crates/hier-kv-gateway-routing at concrete inputs.
use hier_kv_gateway.Prelude.{
  ℕ, ◌+◌, ◌≤◌, ◌≡◌, refl, some, List, [], ◌∷◌, length, foldl, arith, ℕ_discrete,
}
use hier_kv_gateway.HashMap.{lookup, insert}
use hier_kv_gateway.Routing.PrefixHistory.{
  DispatchRecord, PrefixReuseHistory, new, record_dispatch, find_longest_match, bump_all, bump,
  compute_prefix_hashes, hashes_from, bumped, to_le_bytes,
}
use hier_kv_gateway.Routing.PrefixHistory.Matches.{dispatched, find_longest_match-extension}
use hier_kv_gateway.Routing.PrefixHistory.Eviction.{IsReordering, IsValid, record_dispatch-IsValid}
use hier_kv_gateway.Tests.Data.{backend_a}

-- A hash, and an order, for the tests: the sum of the bytes, and the order they stand in.
abbrev byte_sum : List ℕ → ℕ → ℕ
byte_sum bytes seed = foldl (λ a b. a + b) seed bytes

abbrev as_given : List (ℕ × ℕ) → List (ℕ × ℕ)
as_given l = l

as_given-IsReordering : IsReordering as_given
as_given-IsReordering = record {
  same_length = λ l. refl;
  members = λ k l i. i;
  distinct = λ l d. d;
}

abbrev history : PrefixReuseHistory
history = new 10

fits : length (dispatched byte_sum as_given 5 history 1 (2 ∷ []) backend_a) ≤ 10
unfolding bump_all bump compute_prefix_hashes hashes_from lookup insert bumped to_le_bytes
    ℕ_discrete
fits = omega arith

find_longest_match-extension_example :
    (k : ℕ) × (r : DispatchRecord) × (find_longest_match byte_sum
        (record_dispatch byte_sum as_given 5 history (1 ∷ 2 ∷ []) backend_a)
        (1 ∷ 2 ∷ 3 ∷ [])
      ≡ some (k, r))
    × (2 ≤ k)
    × (k ≤ 3)
find_longest_match-extension_example =
    find_longest_match-extension byte_sum as_given 5 history 1 (2 ∷ []) backend_a (3 ∷ []) fits

record_dispatch-IsValid_example :
    IsValid (record_dispatch byte_sum as_given 5 (new 1) (1 ∷ 2 ∷ []) backend_a)
record_dispatch-IsValid_example =
    record_dispatch-IsValid as_given as_given-IsReordering byte_sum 5 (new 1) (1 ∷ 2 ∷ []) backend_a
      (record { bounded = omega arith; distinct = tt })
