-- ===== src/Routing/PrefixHistory.antt =====
-- crates/hier-kv-gateway-routing/src/prefix_history.rs: which backend served which prefix. The hash
-- of the `xxhash-rust` crate is the parameter `xxh3`, a function of the bytes and the seed, and
-- `sort` is `sort_unstable_by_key`, which may leave equal keys in any order. The clock is the
-- argument `now`, in Unix seconds.
pub mod Matches
pub mod Eviction
use hier_kv_gateway.Prelude.{
  ℕ, zero, suc, ◌+◌, ◌-◌, ◌/◌, ◌%◌, ◌^◌, ◌≤◌, ◌≡◌, min, Option, none, some, List, [], ◌∷◌, ◌++◌,
  if◌then◌else◌, leb, length, take, get_or, map, In, Distinct, ℕ_discrete,
}
use hier_kv_gateway.Ids.{BackendId}
use hier_kv_gateway.HashMap.{lookup, insert, remove, keys}

abbrev pub prefix_seed : ℕ
prefix_seed = 0x4849_4552_4B56_4757

abbrev pub default_max_entries : ℕ
default_max_entries = 10_000

pub record DispatchRecord : Type 0 where
  pub backend : BackendId
  pub dispatch_count : ℕ
  pub last_dispatched_unix : ℕ

abbrev pub Entries : Type 0
Entries = List (ℕ × DispatchRecord)

pub record PrefixReuseHistory : Type 0 where
  pub entries : Entries
  pub max_entries : ℕ

abbrev pub new : ℕ → PrefixReuseHistory
new max_entries = record { entries = []; max_entries = max_entries }

abbrev pub with_default_capacity : PrefixReuseHistory
with_default_capacity = new default_max_entries

-- `to_le_bytes` of a number of `n` bytes.
unfoldable pub to_le_bytes : ℕ → ℕ → List ℕ
to_le_bytes zero x = []
to_le_bytes (suc n) x = (x % 256) ∷ to_le_bytes n (x / 256)

-- The removals of a list of keys.
unfoldable pub remove_all : List ℕ → Entries → Entries
remove_all [] m = m
remove_all (k ∷ ks) m = remove_all ks (remove ℕ_discrete k m)

abbrev pub stamps : Entries → List (ℕ × ℕ)
stamps m = map (λ e. (e.0, e.1.last_dispatched_unix)) m

-- The record that a dispatch leaves: the old one counted up, or a new one.
unfoldable pub bumped : ℕ → BackendId → Option DispatchRecord → DispatchRecord
bumped now backend none = record {
  backend = backend;
  dispatch_count = 1;
  last_dispatched_unix = now;
}
bumped now backend (some r) = record {
  backend = backend;
  dispatch_count = min (r.dispatch_count + 1) (2 ^ 64 - 1);
  last_dispatched_unix = now;
}

-- One round of the loop of `record_dispatch`.
unfoldable pub bump : ℕ → BackendId → Entries → ℕ → Entries
unfolding bumped
bump now backend m hash = insert ℕ_discrete hash (bumped now backend (lookup ℕ_discrete hash m)) m

unfoldable pub bump_all : ℕ → BackendId → List ℕ → Entries → Entries
bump_all now backend [] m = m
bump_all now backend (h ∷ hs) m = bump_all now backend hs (bump now backend m h)

-- From the longest prefix down; the list has `n` prefixes left to try.
unfoldable pub longest : Entries → List ℕ → ℕ → Option (ℕ × DispatchRecord)
longest m hashes zero = none
longest m hashes (suc n) = elim (lookup ℕ_discrete (get_or hashes n 0) m) [
  | some r ↦ some (suc n, r)
  | none ↦ longest m hashes n
]

module _ (sort : List (ℕ × ℕ) → List (ℕ × ℕ)) where
  unfoldable pub evict_if_needed : PrefixReuseHistory → PrefixReuseHistory
  evict_if_needed t =
      let surplus = length t.entries - t.max_entries in
      if leb (length t.entries) t.max_entries then t else record t {
        entries = remove_all (keys (take surplus (sort (stamps t.entries)))) t.entries;
      }

module _ (xxh3 : List ℕ → ℕ → ℕ) where
  -- The rounds of `compute_prefix_hashes` after the first.
  unfoldable pub hashes_from : ℕ → List ℕ → List ℕ
  hashes_from prev [] = []
  hashes_from prev (h ∷ hs) =
      let next = xxh3 (to_le_bytes 8 prev ++ to_le_bytes 8 h) prefix_seed in
      next ∷ hashes_from next hs

  unfoldable pub compute_prefix_hashes : List ℕ → List ℕ
  compute_prefix_hashes [] = []
  compute_prefix_hashes (h ∷ hs) =
      let next = xxh3 (to_le_bytes 8 h) prefix_seed in next ∷ hashes_from next hs

  unfoldable pub find_longest_match : PrefixReuseHistory → List ℕ → Option (ℕ × DispatchRecord)
  find_longest_match t [] = none
  find_longest_match t (h ∷ hs) =
      let hashes = compute_prefix_hashes (h ∷ hs) in longest t.entries hashes (length hashes)

  module _ (sort : List (ℕ × ℕ) → List (ℕ × ℕ)) where
    unfoldable pub record_dispatch :
        ℕ → PrefixReuseHistory → List ℕ → BackendId → PrefixReuseHistory
    record_dispatch now t [] backend = t
    record_dispatch now t (h ∷ hs) backend =
        evict_if_needed sort
          (record t { entries = bump_all now backend (compute_prefix_hashes (h ∷ hs)) t.entries })
