-- ===== src/Interface/DashMap/Assoc.antt =====
-- An association list meets the interface of `DashMap`: the first entry of a key counts.
use hier_kv_gateway.Prelude.{◌≡◌, refl, Bool, true, false, none, List, [], ◌∷◌, Distinct, In, arith}
use hier_kv_gateway.HashMap.{lookup, insert, remove, keys, lookup-insert, lookup-remove}
use hier_kv_gateway.Interface.DashMap.{DashMap, retained}

module _ {K : Type 0} {V : Type 0} (dec : Discrete K) where
  unfoldable pub dedup : List (K × V) → List (K × V)
  dedup [] = []
  dedup ((k, v) ∷ m) = (k, v) ∷ remove dec k (dedup m)

  keep_entry : Bool → K → V → List (K × V) → List (K × V)
  keep_entry true k v m = (k, v) ∷ m
  keep_entry false k v m = m

  unfoldable pub retain : (K → V → Bool) → List (K × V) → List (K × V)
  unfolding keep_entry
  retain p [] = []
  retain p ((k, v) ∷ m) = keep_entry (p k v) k v (remove dec k (retain p m))

  not-In-remove_self : (k : K) (m : List (K × V)) → ¬ In k (keys (remove dec k m))
  unfolding remove
  not-In-remove_self k [] h = h
  not-In-remove_self k ((j, v) ∷ m) h = ground (arith, not-In-remove_self k m)

  In-remove : (j k : K) (m : List (K × V)) → In j (keys (remove dec k m)) → In j (keys m)
  unfolding remove
  In-remove j k [] h = h
  In-remove j k ((i, v) ∷ m) h = ground (arith, In-remove j k m)

  remove-Distinct :
      (k : K) (m : List (K × V)) → Distinct (keys m) → Distinct (keys (remove dec k m))
  unfolding remove
  remove-Distinct k [] h = h
  remove-Distinct k ((j, v) ∷ m) h = ground (arith, remove-Distinct k m, In-remove j k m)

  pub dedup-Distinct : (m : List (K × V)) → Distinct (keys (dedup m))
  unfolding dedup
  dedup-Distinct [] = tt
  dedup-Distinct ((k, v) ∷ m) =
      (not-In-remove_self k (dedup m), remove-Distinct k (dedup m) (dedup-Distinct m))

  pub lookup-dedup : (k : K) (m : List (K × V)) → lookup dec k (dedup m) ≡ lookup dec k m
  unfolding dedup lookup
  lookup-dedup k [] = refl
  lookup-dedup k ((j, v) ∷ m) = ground (arith, lookup-remove dec j k (dedup m), lookup-dedup k m)

  pub lookup-retain :
      (p : K → V → Bool) (k : K) (m : List (K × V))
      → lookup dec k (retain p m) ≡ retained p k (lookup dec k m)
  unfolding retain lookup
  lookup-retain p k [] = refl
  lookup-retain p k ((j, v) ∷ m) =
      ground (arith, lookup-remove dec j k (retain p m), lookup-retain p k m)

  pub get_empty : (k : K) → lookup {V = V} dec k [] ≡ none
  unfolding lookup
  get_empty k = refl

  abbrev pub assoc_map : DashMap (List (K × V)) dec V
  assoc_map = record {
    empty = [];
    get = lookup dec;
    insert = insert dec;
    remove = remove dec;
    entries = dedup;
    retain = retain;
    get-empty = get_empty;
    get-insert = lookup-insert dec;
    get-remove = lookup-remove dec;
    get-retain = lookup-retain;
    lookup-entries = lookup-dedup;
    entries-Distinct = dedup-Distinct;
  }
