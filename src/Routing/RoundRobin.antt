-- ===== src/Routing/RoundRobin.antt =====
-- crates/hier-kv-gateway-routing/src/round_robin.rs: the strategy that rotates through the
-- candidates. `F` is the type of `f64`, `as_f64` the cast from `usize` and `neg` the negation; the
-- cursor is a `usize` of 64 bits. `none` is a panic: an index out of bounds.
pub mod Rotation
use hier_kv_gateway.Prelude.{
  ℕ, zero, suc, ◌+◌, ◌-◌, ◌%◌, ◌^◌, Option, none, some, List, [], ◌∷◌, length, get_elem?, prepend,
}
use hier_kv_gateway.Ids.{BackendId}

-- `ScoredBackend` of core/src/request.rs.
pub record ScoredBackend (F : Type 0) : Type 0 where
  pub backend_id : BackendId
  pub score : F
  pub raw_cost : F
  pub meta_version : ℕ

module _ {F : Type 0} (as_f64 : ℕ → F) (neg : F → F) where
  -- The rounds of the loop from `offset` on, `count` in number.
  unfoldable pub rank : List BackendId → ℕ → ℕ → ℕ → ℕ → Option (List (ScoredBackend F))
  rank candidates n start zero offset = some []
  rank candidates n start (suc count) offset =
      let rest = rank candidates n start count (suc offset) in
      let score = as_f64 (n - offset) in
      elim (get_elem? candidates ((start + offset) % n)) [
        | none ↦ none
        | some b ↦
            prepend
              (record { backend_id = b; score = score; raw_cost = neg score; meta_version = 0 })
              rest
      ]

  -- The new cursor and the result.
  unfoldable pub evaluate : ℕ → List BackendId → ℕ × Option (List (ScoredBackend F))
  evaluate cursor [] = (cursor, some [])
  evaluate cursor (c ∷ cs) =
      let n = length (c ∷ cs) in ((cursor + 1) % 2 ^ 64, rank (c ∷ cs) n (cursor % n) n 0)
