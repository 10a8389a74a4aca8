-- ===== src/Metadata/LoadStats/Updates.antt =====
-- The statistics after any sequence of updates.
use hier_kv_gateway.Prelude.{
  ◌≡◌, refl, sym, ap, ◌∙◌, Option, none, some, List, [], ◌∷◌, ◌++◌, ite, arith, subst, fun_ext,
  append-nil, append_assoc, Option-cases, inl, inr,
}
use hier_kv_gateway.Ids.{BackendId, BackendId_discrete}
use hier_kv_gateway.Core.Metrics.{BackendMetrics}
use hier_kv_gateway.Interface.DashMap.{DashMap}
use hier_kv_gateway.Metadata.LoadStats.{
  RingBuffer, snapshot, or_new, ring_capacity, LoadStats, new, get, update, history_of,
}
use hier_kv_gateway.Metadata.LoadStats.Ring.{
  IsRing, last_of, push-IsRing, snapshot-IsRing, new_ring-IsRing,
}

-- The samples of one backend among all updates, in order.
unfoldable pub samples : {T : Type 0} → BackendId → List (BackendId × T) → List T
samples b [] = []
samples b ((c, m) ∷ us) = let rest = samples b us in ite (BackendId_discrete c b) (m ∷ rest) rest

-- The last element of a list, or else `o`.
abbrev pub latest_or : {T : Type 0} → Option T → List T → Option T
latest_or o [] = o
latest_or o (x ∷ xs) = latest_or (some x) xs

module _ {F M H : Type 0} (dm : DashMap M BackendId_discrete (BackendMetrics F))
    (dh : DashMap H BackendId_discrete (RingBuffer (BackendMetrics F))) where
  unfoldable pub update_all :
      List (BackendId × BackendMetrics F) → LoadStats M H → Option (LoadStats M H)
  update_all [] s = some s
  update_all ((b, m) ∷ us) s = elim (update dm dh b m s) [
    | none ↦ none
    | some s' ↦ update_all us s'
  ]

  ring_of : BackendId → LoadStats M H → RingBuffer (BackendMetrics F)
  ring_of b s = or_new (dh.get b s.history)

  snapshot-ring_of :
      (b : BackendId) (s : LoadStats M H) → history_of dm dh b s ≡ snapshot (ring_of b s)
  unfolding history_of snapshot ring_of
  snapshot-ring_of b s = elim (Option-cases (dh.get b s.history)) [
    | inl e ↦ ground (arith, e)
    | inr (r, e) ↦ ground (arith, e)
  ]

  -- The two maps hold this history of each backend.
  record IsHistory (hist : BackendId → List (BackendMetrics F)) (s : LoadStats M H) : Type 0 where
    rings : (q : BackendId) → IsRing ring_capacity (hist q) (ring_of q s)
    latest : (q : BackendId) → get dm dh q s ≡ latest_or none (hist q)

  latest_or-snoc :
      (o : Option (BackendMetrics F)) (xs : List (BackendMetrics F)) (m : BackendMetrics F)
      → latest_or o (xs ++ m ∷ []) ≡ some m
  latest_or-snoc o [] m = refl
  latest_or-snoc o (x ∷ xs) m = latest_or-snoc (some x) xs m

  moved :
      {xs ys : List (BackendMetrics F)} {r r' : RingBuffer (BackendMetrics F)}
      → xs ≡ ys
      → r ≡ r'
      → IsRing ring_capacity xs r
      → IsRing ring_capacity ys r'
  moved {xs = xs} {r = r} {r' = r'} e f v =
      subst (λ l. IsRing ring_capacity l r') e (subst (λ t. IsRing ring_capacity xs t) f v)

  update-IsHistory :
      (hist : BackendId → List (BackendMetrics F)) (s : LoadStats M H) (b : BackendId)
      (m : BackendMetrics F)
      → IsHistory hist s
      → (s' : LoadStats M H) × (update dm dh b m s ≡ some s')
        × IsHistory (λ q. hist q ++ samples q ((b, m) ∷ [])) s'
  unfolding update samples ring_of get
  update-IsHistory hist s b m v =
      let (r, e, vr) = push-IsRing ring_capacity (hist b) (ring_of b s) m (v.rings b) in
      let s' : LoadStats M H = record {
        latest = dm.insert b m s.latest;
        history = dh.insert b r s.history;
      } in
      (
        s',
        rw (update, e) refl,
        record {
          rings = λ q. elim (BackendId_discrete b q) [
            | yes p ↦
                moved (ground (arith, p, ap hist p))
                  (ground (arith, p, dh.get-insert b q r s.history)) vr
            | no p ↦
                moved (ground (arith, p, append-nil (hist q)))
                  (ground (arith, p, dh.get-insert b q r s.history)) (v.rings q)
          ];
          latest = λ q. elim (BackendId_discrete b q) [
            | yes p ↦
                ground (arith, p, dm.get-insert b q m s.latest, latest_or-snoc none (hist q) m)
            | no p ↦
                ground (arith, p, dm.get-insert b q m s.latest, append-nil (hist q), v.latest q)
          ];
        },
      )

  samples-append :
      (q : BackendId) (u : BackendId × BackendMetrics F) (us : List (BackendId × BackendMetrics F))
      → samples q (u ∷ []) ++ samples q us ≡ samples q (u ∷ us)
  unfolding samples
  samples-append q (b, m) us = ground arith

  update_all-IsHistory :
      (us : List (BackendId × BackendMetrics F)) (hist : BackendId → List (BackendMetrics F))
      (s : LoadStats M H)
      → IsHistory hist s
      → (s' : LoadStats M H) × (update_all us s ≡ some s')
        × IsHistory (λ q. hist q ++ samples q us) s'
  unfolding update_all samples
  update_all-IsHistory [] hist s v =
      (s, refl, subst (λ h. IsHistory h s) (fun_ext (λ q. sym (append-nil (hist q)))) v)
  update_all-IsHistory ((b, m) ∷ us) hist s v =
      let (s1, e1, v1) = update-IsHistory hist s b m v in
      let (s2, e2, v2) = update_all-IsHistory us (λ q. hist q ++ samples q ((b, m) ∷ [])) s1 v1 in
      (
        s2,
        rw (update_all, e1) e2,
        subst (λ h. IsHistory h s2)
            (fun_ext (λ q.
              append_assoc (hist q) (samples q ((b, m) ∷ [])) (samples q us)
              ∙ ap (λ l. hist q ++ l) (samples-append q (b, m) us)))
            v2,
      )

  new-IsHistory : IsHistory (λ q. []) (new dm dh)
  unfolding ring_of new get
  new-IsHistory = record {
    rings = λ q.
        moved refl (ground (arith, dh.get-empty q)) (new_ring-IsRing ring_capacity (omega arith));
    latest = λ q. dm.get-empty q;
  }

  -- Starting from no statistics, any sequence of updates succeeds, and afterwards each backend's
  -- history is the last 60 of the samples it was given, oldest first, and its latest metrics are
  -- the last of them; a backend without an update has neither.
  pub update_all_lem :
      (us : List (BackendId × BackendMetrics F)) (q : BackendId)
      → (s : LoadStats M H) × (update_all us (new dm dh) ≡ some s)
        × (history_of dm dh q s ≡ some (last_of ring_capacity (samples q us)))
        × (get dm dh q s ≡ latest_or none (samples q us))
  update_all_lem us q =
      let (s, e, v) = update_all-IsHistory us (λ b. []) (new dm dh) new-IsHistory in
      (
        s,
        e,
        snapshot-ring_of q s
            ∙ snapshot-IsRing ring_capacity (samples q us) (ring_of q s) (v.rings q),
        v.latest q,
      )
