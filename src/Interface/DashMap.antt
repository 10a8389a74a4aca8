-- ===== src/Interface/DashMap.antt =====
-- The `dashmap` crate's concurrent map, as far as the gateway uses it. A call holds the lock of its
-- key's shard, so it is one step on the map. The crate documents `DashMap` as a replacement for
-- `RwLock<HashMap<K, V>>`, and the laws state that behaviour. `M` is the type of the map itself.
pub mod Assoc
use hier_kv_gateway.Prelude.{◌≡◌, Bool, true, false, Option, none, some, List, ite, Distinct}
use hier_kv_gateway.HashMap.{lookup, keys}

-- The value that `retain` leaves at a key.
abbrev pub retained : {K V : Type 0} → (K → V → Bool) → K → Option V → Option V
retained p k none = none
retained p k (some v) = elim (p k v) [ true ↦ some v | false ↦ none ]

pub record DashMap (M : Type 0) {K : Type 0} (dec : Discrete K) (V : Type 0) : Type 0 where
  pub empty : M
  pub get : K → M → Option V
  pub insert : K → V → M → M
  pub remove : K → M → M
  -- The pairs that `iter` visits, in its order.
  pub entries : M → List (K × V)
  pub retain : (K → V → Bool) → M → M
  pub get-empty : (k : K) → get k empty ≡ none
  pub get-insert :
      (k j : K) (v : V) (m : M) → get j (insert k v m) ≡ ite (dec k j) (some v) (get j m)
  pub get-remove : (k j : K) (m : M) → get j (remove k m) ≡ ite (dec k j) none (get j m)
  pub get-retain : (p : K → V → Bool) (k : K) (m : M) → get k (retain p m) ≡ retained p k (get k m)
  pub lookup-entries : (k : K) (m : M) → lookup dec k (entries m) ≡ get k m
  pub entries-Distinct : (m : M) → Distinct (keys (entries m))
