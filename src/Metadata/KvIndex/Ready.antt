-- ===== src/Metadata/KvIndex/Ready.antt =====
-- The index whose tree runs, and the events that it applies.
use hier_kv_gateway.Prelude.{
  ℕ, zero, suc, ◌+◌, ◌<◌, ◌≡◌, refl, sym, ap, ◌∙◌, subst, Bool, true, false, Option, none, some,
  List, [], ◌∷◌, ◌++◌, length, last_or, map, if◌then◌else◌, ltb, arith, Option-cases, inl, inr,
}
use hier_kv_gateway.Ids.{BackendId, BackendId_discrete}
use hier_kv_gateway.HashMap.{lookup, lookup-insert}
use hier_kv_gateway.Core.KvEvent.{
  KvCacheEvent, stored_event, removed_event, clear_event, reset_event,
}
use hier_kv_gateway.Metadata.LocalCkf.{
  LocalCkf, local_lane_count, assign_lane, clear_lane, insert_hash, delete_hash, free_lane, change,
  is_active, emptied, set_status, lane_active,
}
use hier_kv_gateway.Metadata.CuckooFilter.{probe, alt_index, try_insert, try_delete}
use hier_kv_gateway.Metadata.RadixTree.{TreeState, apply_event}
use hier_kv_gateway.Metadata.RadixTree.Worker.{
  World, Query, event_query, Reply, applied, request, work, work_on, serve, dropped,
}
use hier_kv_gateway.Metadata.KvIndex.{
  KvIndex, rounds, call, kv_apply_event, project, project_to, insert_all, delete_all,
}

-- The worker runs and nothing waits.
abbrev pub IsIdle : World → Type 0
IsIdle w = (w.queue ≡ []) × (w.running ≡ true)

pub last_or-snoc :
    {A B : Type 0} (a x : B) (f : A → B) (l : List A) (y : A)
    → f y ≡ x
    → last_or a (map f (l ++ y ∷ [])) ≡ x
last_or-snoc a x f [] y e = e
last_or-snoc a x f (z ∷ l) y e = last_or-snoc (f z) x f l y e

-- What a call of an idle worker gives.
abbrev Answered : Query → World → Type 0
Answered c w =
    IsIdle (call c w).0
    × ((call c w).0.tree ≡ (serve w.tree c).0)
    × ((call c w).1 ≡ (serve w.tree c).1)

idle_world : TreeState → List (ℕ × Reply) → World
idle_world t rs = record { queue = []; tree = t; running = true; replies = rs }

idle-Answered : (c : Query) (t : TreeState) (rs : List (ℕ × Reply)) → Answered c (idle_world t rs)
unfolding call rounds request work work_on idle_world
idle-Answered c t rs = (
  (refl, refl),
  refl,
  last_or-snoc (dropped c) (serve t c).1 (λ r. r.1) rs (length rs, (serve t c).1) refl,
)

-- A call of an idle worker is the tree's own answer.
pub call-IsIdle :
    (c : Query) (w : World)
    → IsIdle w
    → IsIdle (call c w).0
      × ((call c w).0.tree ≡ (serve w.tree c).0)
      × ((call c w).1 ≡ (serve w.tree c).1)
unfolding idle_world
call-IsIdle c w (q, r) =
    let same : idle_world w.tree w.replies ≡ w = ground (arith, q, r) in
    subst (Answered c) same (idle-Answered c w.tree w.replies)

-- Every lane that a backend has is one of the 16.
abbrev pub HasLanes : LocalCkf → Type 0
HasLanes c =
    (b : BackendId) (l : ℕ)
    → lookup BackendId_discrete b c.backend_lanes ≡ some l
    → l < local_lane_count

abbrev pub IsReady : KvIndex → Type 0
IsReady k = IsIdle k.radix × HasLanes k.local_ckf

free_lane-lt : (i n : ℕ) (m : List (ℕ × BackendId)) (l : ℕ) → free_lane i n m ≡ some l → l < i + n
unfolding free_lane
free_lane-lt i zero m l e = ground (arith, e)
free_lane-lt i (suc n) m l e = ground (arith, free_lane-lt (suc i) n m l, e)

assign_lane-HasLanes :
    (b : BackendId) (c : LocalCkf)
    → HasLanes c
    → HasLanes (assign_lane b c).1 × ((l : ℕ) → (assign_lane b c).0 ≡ some l → l < local_lane_count)
unfolding assign_lane
assign_lane-HasLanes b c h = elim (Option-cases (lookup BackendId_discrete b c.backend_lanes)) [
  | inr (l, e) ↦ rw (assign_lane, e) (h, λ k p. h b k (e ∙ p))
  | inl e ↦ elim (Option-cases (free_lane 0 local_lane_count c.lane_backends)) [
    | inl f ↦ rw (assign_lane, e, f) (h, λ k p. ground (arith, p))
    | inr (l, f) ↦
        let below : l < local_lane_count = free_lane-lt 0 local_lane_count c.lane_backends l f in
        rw (assign_lane, e, f)
          (
            (λ d k p.
                ground
                  (arith, p, below, h d k, lookup-insert BackendId_discrete b d l c.backend_lanes)),
            (λ k p. ground (arith, p, below)),
          )
  ]
]

-- A change of the filter keeps the table of lanes.
abbrev SameLanes : LocalCkf → Option LocalCkf → Type 0
SameLanes c o = (c' : LocalCkf) × (o ≡ some c') × (c'.backend_lanes ≡ c.backend_lanes)

module _ (xxh3 : List ℕ → ℕ → ℕ) where
  change-lanes :
      (f : ℕ → ℕ → Option ℕ) (hash lane : ℕ) (c : LocalCkf)
      → (change xxh3 f hash lane c).1.backend_lanes ≡ c.backend_lanes
  unfolding change
  change-lanes f hash lane c =
      let p = probe xxh3 hash in
      elim (Option-cases (f (c.buckets p.1 lane) p.0)) [
        | inr (v, e) ↦ ground (arith, e)
        | inl e ↦ elim (Option-cases (f (c.buckets (alt_index xxh3 p.1 p.0) lane) p.0)) [
          | inr (v, e') ↦ ground (arith, e, e')
          | inl e' ↦ ground (arith, e, e')
        ]
      ]

  -- The guards of `insert_hash` and `delete_hash`, for a lane that exists.
  guards-SameLanes :
      (r : Bool × LocalCkf) (b : Bool) (lane : ℕ) (c : LocalCkf)
      → lane < local_lane_count
      → r.1.backend_lanes ≡ c.backend_lanes
      → (x : Bool × LocalCkf) × ((if ltb lane local_lane_count
            then (if b then some r else some (false, c))
            else none)
          ≡ some x)
        × (x.1.backend_lanes ≡ c.backend_lanes)
  guards-SameLanes r true lane c h e = (r, ground (arith, h), e)
  guards-SameLanes r false lane c h e = ((false, c), ground (arith, h), refl)

  insert_all-SameLanes :
      (hs : List ℕ) (lane : ℕ) (c : LocalCkf)
      → lane < local_lane_count
      → SameLanes c (insert_all xxh3 hs lane c)
  unfolding insert_all insert_hash
  insert_all-SameLanes [] lane c h = (c, refl, refl)
  insert_all-SameLanes (k ∷ hs) lane c h =
      let (x, e, l) =
        guards-SameLanes (change xxh3 try_insert k lane c) (is_active c lane) lane c h
          (change-lanes try_insert k lane c) in
      let (c', e', l') = insert_all-SameLanes hs lane x.1 h in
      (c', ap (λ o. elim o [ none ↦ none | some r ↦ insert_all xxh3 hs lane r.1 ]) e ∙ e', l' ∙ l)

  delete_all-SameLanes :
      (hs : List ℕ) (lane : ℕ) (c : LocalCkf)
      → lane < local_lane_count
      → SameLanes c (delete_all xxh3 hs lane c)
  unfolding delete_all delete_hash
  delete_all-SameLanes [] lane c h = (c, refl, refl)
  delete_all-SameLanes (k ∷ hs) lane c h =
      let (x, e, l) =
        guards-SameLanes (change xxh3 try_delete k lane c) (is_active c lane) lane c h
          (change-lanes try_delete k lane c) in
      let (c', e', l') = delete_all-SameLanes hs lane x.1 h in
      (c', ap (λ o. elim o [ none ↦ none | some r ↦ delete_all xxh3 hs lane r.1 ]) e ∙ e', l' ∙ l)

  clear_lane-SameLanes :
      (lane : ℕ) (c : LocalCkf) → lane < local_lane_count → SameLanes c (clear_lane lane c)
  unfolding clear_lane
  clear_lane-SameLanes lane c h =
      let cleared = record c {
        buckets = emptied lane c.buckets;
        lane_status = set_status lane lane_active c.lane_status;
      } in
      (cleared, ground (arith, h), refl)

  project_to-SameLanes :
      (ev : KvCacheEvent) (o : Option ℕ) (c : LocalCkf)
      → ((l : ℕ) → o ≡ some l → l < local_lane_count)
      → SameLanes c (project_to xxh3 ev o c)
  unfolding project
  project_to-SameLanes ev none c h = (c, refl, refl)
  project_to-SameLanes (stored_event w hs p n) (some l) c h = insert_all-SameLanes hs l c (h l refl)
  project_to-SameLanes (removed_event w hs) (some l) c h = delete_all-SameLanes hs l c (h l refl)
  project_to-SameLanes (clear_event w) (some l) c h = clear_lane-SameLanes l c (h l refl)
  project_to-SameLanes (reset_event w g) (some l) c h = clear_lane-SameLanes l c (h l refl)

  -- On an index whose tree runs, with nothing waiting, and whose lanes all exist, every event of
  -- every backend is applied without a panic: the tree is the one after this event, the backends have
  -- the lanes that `assign_lane` leaves them, and the index is again such an index.
  pub kv_apply_event-IsReady :
      (ev : KvCacheEvent) (b : BackendId) (k : KvIndex)
      → IsReady k
      → (k' : KvIndex) × (kv_apply_event xxh3 ev b k ≡ some (applied, k'))
        × IsReady k'
        × (k'.radix.tree ≡ apply_event k.radix.tree b ev)
        × (k'.local_ckf.backend_lanes ≡ (assign_lane b k.local_ckf).1.backend_lanes)
  unfolding kv_apply_event serve
  kv_apply_event-IsReady ev b k (i, h) =
      let (i', t, a) = call-IsIdle (event_query b ev) k.radix i in
      let (h', below) = assign_lane-HasLanes b k.local_ckf h in
      let x = assign_lane b k.local_ckf in
      let (c, e, l) = project_to-SameLanes ev x.0 x.1 below in
      let replied : (call (event_query b ev) k.radix).1 ≡ applied = a in
      (
        record k { radix = (call (event_query b ev) k.radix).0; local_ckf = c },
        ground (arith, replied, e),
        (i', λ d n p. h' d n (ap (lookup BackendId_discrete d) (sym l) ∙ p)),
        t,
        l,
      )
