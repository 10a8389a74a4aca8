-- ===== src/HashMap/Sums.antt =====
-- Sums over the keys of a map.
use hier_kv_gateway.Prelude.{ℕ, ◌+◌, ◌≤◌, ◌≡◌, refl, sym, ap, ◌∙◌, none, some, List, [], ◌∷◌, arith}
use hier_kv_gateway.HashMap.{lookup, insert, remove, lookup-insert, lookup-remove}

module _ {K V : Type 0} where
  unfoldable pub sum_keys : (K → ℕ) → List (K × V) → ℕ
  sum_keys f [] = 0
  sum_keys f ((k, v) ∷ m) = f k + sum_keys f m

module _ {K V : Type 0} (dec : Discrete K) where
  -- No key has two entries.
  abbrev pub IsFunctional : List (K × V) → Type 0
  IsFunctional [] = Unit
  IsFunctional ((k, v) ∷ m) = (lookup dec k m ≡ none) × IsFunctional m

  pub insert-IsFunctional :
      (k : K) (v : V) (m : List (K × V)) → IsFunctional m → IsFunctional (insert dec k v m)
  unfolding lookup insert
  insert-IsFunctional k v [] h = (refl, tt)
  insert-IsFunctional k v ((j, w) ∷ m) h = elim (dec j k) [
    | yes p ↦ ground (arith, p)
    | no p ↦ ground (arith, lookup-insert dec k j v m, insert-IsFunctional k v m h.1, p)
  ]

  pub remove-IsFunctional :
      (k : K) (m : List (K × V)) → IsFunctional m → IsFunctional (remove dec k m)
  unfolding lookup remove
  remove-IsFunctional k [] h = tt
  remove-IsFunctional k ((j, w) ∷ m) h =
      ground (arith, lookup-remove dec k j m, remove-IsFunctional k m h.1)

  pub sum_keys-insert_new :
      (f : K → ℕ) (k : K) (v : V) (m : List (K × V))
      → lookup dec k m ≡ none
      → sum_keys f (insert dec k v m) ≡ sum_keys f m + f k
  unfolding lookup insert sum_keys
  sum_keys-insert_new f k v [] h = omega arith
  sum_keys-insert_new f k v ((j, w) ∷ m) h = ground (arith, sum_keys-insert_new f k v m, h)

  pub sum_keys-insert_old :
      (f : K → ℕ) (k : K) (v w : V) (m : List (K × V))
      → lookup dec k m ≡ some w
      → sum_keys f (insert dec k v m) ≡ sum_keys f m
  unfolding lookup insert sum_keys
  sum_keys-insert_old f k v w [] h = ground (arith, h)
  sum_keys-insert_old f k v w ((j, u) ∷ m) h = elim (dec j k) [
    | yes p ↦ ground (arith, p, ap f p)
    | no p ↦ ground (arith, sum_keys-insert_old f k v w m, h, p)
  ]

  remove_absent : (k : K) (m : List (K × V)) → lookup dec k m ≡ none → remove dec k m ≡ m
  unfolding lookup remove
  remove_absent k [] h = refl
  remove_absent k ((j, w) ∷ m) h = ground (arith, remove_absent k m, h)

  pub sum_keys-remove :
      (f : K → ℕ) (k : K) (w : V) (m : List (K × V))
      → IsFunctional m
      → lookup dec k m ≡ some w
      → sum_keys f (remove dec k m) + f k ≡ sum_keys f m
  unfolding lookup remove sum_keys
  sum_keys-remove f k w [] d h = ground (arith, h)
  sum_keys-remove f k w ((j, u) ∷ m) d h = elim (dec j k) [
    | yes p ↦ ground (
      arith,
      p,
      ap f p,
      ap (λ t. sum_keys f t) (remove_absent k m (ap (λ t. lookup dec t m) (sym p) ∙ d.0)),
    )
    | no p ↦ ground (arith, sum_keys-remove f k w m d.1, h, p)
  ]

  pub sum_keys-ge :
      (f : K → ℕ) (k : K) (w : V) (m : List (K × V)) → lookup dec k m ≡ some w → f k ≤ sum_keys f m
  unfolding lookup sum_keys
  sum_keys-ge f k w [] h = ground (arith, h)
  sum_keys-ge f k w ((j, u) ∷ m) h = elim (dec j k) [
    | yes p ↦ ground (arith, p, ap f p)
    | no p ↦ ground (arith, sum_keys-ge f k w m, h, p)
  ]
