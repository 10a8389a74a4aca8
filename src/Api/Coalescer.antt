-- ===== src/Api/Coalescer.antt =====
-- crates/hier-kv-gateway-api/src/coalescer.rs and crates/hier-kv-gateway-core/src/coalescing.rs: one
-- forward for identical requests. `coalesce` stops at its `await`, so it is two steps: `attach` before
-- it and `after_await` behind it. `attach` reads the size of the map and takes the entry in one step,
-- where the code has two. `F` is the type of the shared futures, and `M` that of the map.
pub mod Flights
use hier_kv_gateway.Prelude.{
  ℕ, ◌+◌, ◌*◌, ◌%◌, ◌^◌, Bool, true, false, Option, none, some, List, [], ◌∷◌, if◌then◌else◌, ◌==◌,
  ◌&&◌, ltb, leb, length, ℕ_discrete,
}
use hier_kv_gateway.HashSet.{contains}
use hier_kv_gateway.Interface.DashMap.{DashMap}

pub record CoalescingConfig : Type 0 where
  pub enabled : Bool
  pub ttl_ms : ℕ
  pub max_inflight : ℕ

abbrev pub default_config : CoalescingConfig
default_config = record { enabled = false; ttl_ms = 50; max_inflight = 1024 }

abbrev pub active : CoalescingConfig → Bool
active cfg = cfg.enabled

pub record SharedHandle (F : Type 0) : Type 0 where
  pub future : F
  pub inserted_at : ℕ

pub record CoalesceStats : Type 0 where
  pub leaders : ℕ
  pub waiters : ℕ
  pub bypassed : ℕ
  pub forwards_saved : ℕ

abbrev pub no_stats : CoalesceStats
no_stats = record { leaders = 0; waiters = 0; bypassed = 0; forwards_saved = 0 }

-- The keys that a spawned task will remove are `pending`.
pub record RequestCoalescer (M : Type 0) : Type 0 where
  pub inflight : M
  pub stats : CoalesceStats
  pub pending : List ℕ

-- What a call awaits: its own forward, outside the map, or a shared one.
pub data Attachment (F : Type 0) : Type 0 where
  bypass : F → Attachment F
  waiter : F → Attachment F
  leader : F → Attachment F

abbrev pub is_leader : {F : Type 0} → Attachment F → Bool
is_leader (bypass f) = false
is_leader (waiter f) = false
is_leader (leader f) = true

-- One task less.
unfoldable pub without_one : ℕ → List ℕ → List ℕ
without_one key [] = []
without_one key (k ∷ ks) = let rest = without_one key ks in if k == key then ks else k ∷ rest

-- `fetch_add` of an `AtomicU64`
abbrev pub fetch_add_one : ℕ → ℕ
fetch_add_one n = (n + 1) % 2 ^ 64

abbrev pub count : {F : Type 0} → Attachment F → CoalesceStats → CoalesceStats
count (bypass f) s = record s { bypassed = fetch_add_one s.bypassed }
count (waiter f) s = record s {
  waiters = fetch_add_one s.waiters;
  forwards_saved = fetch_add_one s.forwards_saved;
}
count (leader f) s = record s { leaders = fetch_add_one s.leaders }

module _ {F M : Type 0} (dm : DashMap M ℕ_discrete (SharedHandle F)) (cfg : CoalescingConfig) where
  abbrev pub new : RequestCoalescer M
  new = record { inflight = dm.empty; stats = no_stats; pending = [] }

  abbrev pub inflight_count : RequestCoalescer M → ℕ
  inflight_count s = length (dm.entries s.inflight)

  -- The capacity guard.
  abbrev pub is_full : RequestCoalescer M → Bool
  is_full s = ltb 0 cfg.max_inflight && leb cfg.max_inflight (inflight_count s)

  -- `produced` is the future that `produce` makes; a waiter makes none.
  unfoldable pub attach : ℕ → F → ℕ → RequestCoalescer M → Attachment F × RequestCoalescer M
  attach key produced now s =
      if is_full s
      then (bypass produced, record s { stats = count (bypass produced) s.stats })
      else elim (dm.get key s.inflight) [
        | some h ↦ (waiter h.future, record s { stats = count (waiter h.future) s.stats })
        | none ↦ (
          leader produced,
          record s {
            inflight = dm.insert key (record { future = produced; inserted_at = now }) s.inflight;
            stats = count (leader produced) s.stats;
          },
        )
      ]

  unfoldable pub schedule_cleanup : ℕ → RequestCoalescer M → RequestCoalescer M
  schedule_cleanup key s =
      if cfg.ttl_ms == 0
      then record s { inflight = dm.remove key s.inflight }
      else record s { pending = key ∷ s.pending }

  unfoldable pub after_await : Attachment F → ℕ → RequestCoalescer M → RequestCoalescer M
  unfolding schedule_cleanup
  after_await a key s = if is_leader a then schedule_cleanup key s else s

  -- The spawned task of a key, after its sleep.
  unfoldable pub wake : ℕ → RequestCoalescer M → RequestCoalescer M
  wake key s =
      if contains ℕ_discrete key s.pending
      then record s { inflight = dm.remove key s.inflight; pending = without_one key s.pending }
      else s
