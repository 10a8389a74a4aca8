-- ===== src/HashMap.antt =====
-- The standard library's `HashMap` and `HashSet` as association lists and lists, over keys with a
-- decidable equality. The order of a list stands for the unspecified order of iteration.
pub mod Sums
use hier_kv_gateway.Prelude.{◌≡◌, refl, Option, none, some, List, [], ◌∷◌, ite, arith, In, inl, sym}

module _ {ℓ} {K : Type 0} {V : Type ℓ} where
  abbrev pub keys : List (K × V) → List K
  keys [] = []
  keys ((k, v) ∷ m) = k ∷ keys m

module _ {ℓ} {K : Type 0} {V : Type ℓ} (dec : Discrete K) where
  -- `get`
  unfoldable pub lookup : K → List (K × V) → Option V
  lookup k [] = none
  lookup k ((j, v) ∷ m) = ite (dec j k) (some v) (lookup k m)

  -- `insert`: replaces the value of a key that is there
  unfoldable pub insert : K → V → List (K × V) → List (K × V)
  insert k v [] = (k, v) ∷ []
  insert k v ((j, w) ∷ m) = ite (dec j k) ((k, v) ∷ m) ((j, w) ∷ insert k v m)

  -- `remove`
  unfoldable pub remove : K → List (K × V) → List (K × V)
  remove k [] = []
  remove k ((j, w) ∷ m) = ite (dec j k) (remove k m) ((j, w) ∷ remove k m)

  pub lookup-insert :
      (k j : K) (v : V) (m : List (K × V))
      → lookup j (insert k v m) ≡ ite (dec k j) (some v) (lookup j m)
  unfolding lookup insert
  lookup-insert k j v [] = refl
  lookup-insert k j v ((i, w) ∷ m) = ground (arith, lookup-insert k j v m)

  pub lookup-remove :
      (k j : K) (m : List (K × V)) → lookup j (remove k m) ≡ ite (dec k j) none (lookup j m)
  unfolding lookup remove
  lookup-remove k j [] = ground arith
  lookup-remove k j ((i, w) ∷ m) = ground (arith, lookup-remove k j m)

  pub In-keys : (k : K) (v : V) (m : List (K × V)) → lookup k m ≡ some v → In k (keys m)
  unfolding lookup
  In-keys k v [] h = ground (arith, h)
  In-keys k v ((j, w) ∷ m) h = elim (dec j k) [
    | yes p ↦ inl (sym p)
    | no p ↦ ground (arith, h, p, In-keys k v m)
  ]
