-- ===== src/Metadata/Store/Removal.antt =====
-- Events after the store has removed a backend from the index.
use hier_kv_gateway.Prelude.{
  ℕ, zero, suc, ◌≡◌, refl, sym, ap, subst, true, false, Option, none, some, List, [], ◌∷◌, ◌++◌,
  ◌⊎◌, inl, inr, length, arith, last_or, map, All,
}
use hier_kv_gateway.Ids.{BackendId, BackendId_discrete, SessionId_discrete}
use hier_kv_gateway.Interface.DashMap.{DashMap}
use hier_kv_gateway.Core.Backend.{BackendInfo, ModelInstance}
use hier_kv_gateway.Core.KvEvent.{KvCacheEvent}
use hier_kv_gateway.Core.Metrics.{BackendMetrics}
use hier_kv_gateway.Metadata.KvIndex.{KvIndex, call, rounds, is_applied}
use hier_kv_gateway.Metadata.KvIndex as Index
use hier_kv_gateway.Metadata.KvIndex.Ready.{IsIdle, IsReady, last_or-snoc, call-IsIdle}
use hier_kv_gateway.Metadata.LoadStats.{RingBuffer}
use hier_kv_gateway.Metadata.LocalCkf.{assign_lane}
use hier_kv_gateway.Metadata.RadixTree.{TreeState}
use hier_kv_gateway.Metadata.RadixTree.Worker.{
  World, Command, shutdown_command, event_query, remove_query, Reply, request, work, work_on,
  abandoned, refused, dropped, dropped_response, terminated, shutdown, drop_handle,
}
use hier_kv_gateway.Metadata.RoutingHistory.{SessionAffinity}
use hier_kv_gateway.Metadata.Store.{MetadataStore, kv_remove_backend, kv_apply_event}

-- The worker has stopped, or will before it serves another request.
abbrev IsDown : World → Type 0
IsDown w = (w.running ≡ false) ⊎ ((w.running ≡ true) × (w.queue ≡ shutdown_command ∷ []))

abbrev Fails : KvCacheEvent → BackendId → World → Type 0
Fails ev b w =
    IsDown (call (event_query b ev) w).0 × (is_applied (call (event_query b ev) w).1 ≡ false)

stopped_world : List Command → TreeState → List (ℕ × Reply) → World
stopped_world q t rs = record { queue = q; tree = t; running = false; replies = rs }

stopping_world : TreeState → List (ℕ × Reply) → World
stopping_world t rs = record {
  queue = shutdown_command ∷ [];
  tree = t;
  running = true;
  replies = rs;
}

rounds_stopped :
    (n : ℕ) (q : List Command) (t : TreeState) (rs : List (ℕ × Reply))
    → rounds n (stopped_world q t rs) ≡ stopped_world q t rs
unfolding rounds work stopped_world
rounds_stopped zero q t rs = refl
rounds_stopped (suc n) q t rs = rounds_stopped n q t rs

stopped-Fails :
    (ev : KvCacheEvent) (b : BackendId) (q : List Command) (t : TreeState) (rs : List (ℕ × Reply))
    → Fails ev b (stopped_world q t rs)
unfolding call request refused stopped_world
stopped-Fails ev b q t rs =
    subst
      (λ w.
        IsDown w
        × (is_applied (last_or (dropped (event_query b ev)) (map (λ r. r.1) w.replies)) ≡ false))
      (sym (rounds_stopped (suc (length q)) q t (rs ++ (length rs, terminated) ∷ [])))
      (
        inl refl,
        ap is_applied (
            last_or-snoc (dropped (event_query b ev)) terminated (λ r. r.1) rs
              (length rs, terminated) refl),
      )

stopping-Fails :
    (ev : KvCacheEvent) (b : BackendId) (t : TreeState) (rs : List (ℕ × Reply))
    → Fails ev b (stopping_world t rs)
unfolding call rounds request work work_on abandoned dropped stopping_world
stopping-Fails ev b t rs = (
  inl refl,
  ap is_applied (
      last_or-snoc dropped_response dropped_response (λ r. r.1) rs (length rs, dropped_response)
        refl),
)

down-Fails : (ev : KvCacheEvent) (b : BackendId) (w : World) → IsDown w → Fails ev b w
unfolding stopped_world stopping_world
down-Fails ev b w (inl r) =
    let same : stopped_world w.queue w.tree w.replies ≡ w = ground (arith, r) in
    subst (Fails ev b) same (stopped-Fails ev b w.queue w.tree w.replies)
down-Fails ev b w (inr (r, q)) =
    let same : stopping_world w.tree w.replies ≡ w = ground (arith, r, q) in
    subst (Fails ev b) same (stopping-Fails ev b w.tree w.replies)

drop_handle-IsDown : (w : World) → IsIdle w → IsDown (drop_handle w)
unfolding drop_handle shutdown
drop_handle-IsDown w (q, r) =
    let same : drop_handle w ≡ record w { queue = shutdown_command ∷ [] } = ground (arith, q, r) in
    subst IsDown (sym same) (inr (r, refl))

module _ {F A L R S B : Type 0} (da : DashMap A BackendId_discrete (List ModelInstance))
    (dl : DashMap L BackendId_discrete (BackendMetrics F))
    (dr : DashMap R BackendId_discrete (RingBuffer (BackendMetrics F)))
    (ds : DashMap S SessionId_discrete SessionAffinity)
    (db : DashMap B BackendId_discrete BackendInfo) (xxh3 : List ℕ → ℕ → ℕ) where
  abbrev Store : Type 0
  Store = MetadataStore F A L R S B

  -- Events one after the other: their replies, unless one panics.
  unfoldable pub kv_apply_events : List (KvCacheEvent × BackendId) → Store → Option (List Reply)
  kv_apply_events [] s = some []
  kv_apply_events ((ev, b) ∷ evs) s = elim (kv_apply_event da dl dr ds db xxh3 ev b s) [
    | none ↦ none
    | some r ↦ elim (kv_apply_events evs r.1) [ none ↦ none | some rs ↦ some (r.0 ∷ rs) ]
  ]

  kv_apply_event-IsDown :
      (ev : KvCacheEvent) (b : BackendId) (s : Store)
      → IsDown s.kv_index.radix
      → (r : Reply) × (s' : Store) × (kv_apply_event da dl dr ds db xxh3 ev b s ≡ some (r, s'))
        × (is_applied r ≡ false)
        × IsDown s'.kv_index.radix
        × (s'.kv_index.local_ckf ≡ (assign_lane b s.kv_index.local_ckf).1)
  unfolding kv_apply_event Index.kv_apply_event
  kv_apply_event-IsDown ev b s h =
      let (g, f) = down-Fails ev b s.kv_index.radix h in
      let r = call (event_query b ev) s.kv_index.radix in
      let k = s.kv_index in
      (
        r.1,
        record s { kv_index = record k { radix = r.0; local_ckf = (assign_lane b k.local_ckf).1 } },
        ground (arith, f),
        f,
        g,
        refl,
      )

  kv_apply_events-IsDown :
      (evs : List (KvCacheEvent × BackendId)) (s : Store)
      → IsDown s.kv_index.radix
      → (rs : List Reply) × (kv_apply_events evs s ≡ some rs)
        × (length rs ≡ length evs)
        × All (λ r. is_applied r ≡ false) rs
  unfolding kv_apply_events
  kv_apply_events-IsDown [] s h = ([], refl, refl, tt)
  kv_apply_events-IsDown ((ev, b) ∷ evs) s h =
      let (r, s', e, f, h', l) = kv_apply_event-IsDown ev b s h in
      let (rs, e', n, a) = kv_apply_events-IsDown evs s' h' in
      (r ∷ rs, ground (arith, e, e'), ground (arith, n), (f, a))

  -- On a store whose index has a running tree, with nothing waiting, and lanes that all exist:
  -- after `kv_remove_backend` of any backend has run to its end, every later event of every backend
  -- fails.
  pub kv_apply_events-kv_remove_backend :
      (removed : BackendId) (evs : List (KvCacheEvent × BackendId)) (s : Store)
      → IsReady s.kv_index
      → (rs : List Reply) × (kv_apply_events evs (kv_remove_backend da dl dr ds db removed s)
          ≡ some rs)
        × (length rs ≡ length evs)
        × All (λ r. is_applied r ≡ false) rs
  unfolding kv_remove_backend
  kv_apply_events-kv_remove_backend removed evs s (i, l) =
      kv_apply_events-IsDown evs (kv_remove_backend da dl dr ds db removed s)
        (drop_handle-IsDown _ (call-IsIdle (remove_query removed) s.kv_index.radix i).0)
