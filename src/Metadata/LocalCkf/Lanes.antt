-- ===== src/Metadata/LocalCkf/Lanes.antt =====
-- The two tables of lanes.
use hier_kv_gateway.Prelude.{
  ℕ, zero, suc, ◌+◌, ◌<◌, ◌≡◌, refl, sym, ap, ◌∙◌, subst, Option, none, some, List, ite, arith, ◌↔◌,
  Option-cases, inl, inr, ℕ_discrete,
}
use hier_kv_gateway.Ids.{BackendId, BackendId_discrete}
use hier_kv_gateway.HashMap.{lookup, insert, remove, lookup-insert, lookup-remove}
use hier_kv_gateway.Metadata.LocalCkf.{
  LocalCkf, local_lane_count, free_lane, assign_lane, unassign_lane, lane_of,
}

-- A backend has a lane exactly if the lane has the backend.
abbrev pub ArePaired : List (BackendId × ℕ) → List (ℕ × BackendId) → Type 0
ArePaired lanes backends =
    (b : BackendId) (l : ℕ)
    → (lookup BackendId_discrete b lanes ≡ some l) ↔ (lookup ℕ_discrete l backends ≡ some b)

abbrev pub IsPaired : LocalCkf → Type 0
IsPaired c = ArePaired c.backend_lanes c.lane_backends

free_lane-free :
    (i n : ℕ) (m : List (ℕ × BackendId)) (l : ℕ)
    → free_lane i n m ≡ some l
    → (lookup ℕ_discrete l m ≡ none) × (l < i + n)
unfolding free_lane
free_lane-free i zero m l e = ground (arith, e)
free_lane-free i (suc n) m l e = elim (Option-cases (lookup ℕ_discrete i m)) [
  | inl q ↦
      let here : some i ≡ some l =
        subst (λ o. elim o [ none ↦ some i | some b ↦ free_lane (suc i) n m ] ≡ some l) q e in
      (ground (arith, here, q), ground (arith, here))
  | inr (b, q) ↦
      let later : free_lane (suc i) n m ≡ some l =
        subst (λ o. elim o [ none ↦ some i | some b ↦ free_lane (suc i) n m ] ≡ some l) q e in
      let (f, g) = free_lane-free (suc i) n m l later in (f, omega arith)
]

own : {A : Type 0} (b : BackendId) (q : Dec (b ≡ b)) (x y : A) → ite q x y ≡ x
own b (yes q) x y = refl
own b (no q) x y = absurd (q refl)

insert-ArePaired :
    (lanes : List (BackendId × ℕ)) (backends : List (ℕ × BackendId)) (b : BackendId) (l : ℕ)
    → ArePaired lanes backends
    → lookup BackendId_discrete b lanes ≡ none
    → lookup ℕ_discrete l backends ≡ none
    → ArePaired (insert BackendId_discrete b l lanes) (insert ℕ_discrete l b backends)
insert-ArePaired lanes backends b l p nb nl c k =
    paired (BackendId_discrete b c) (ℕ_discrete l k) (p c k)
      (lookup-insert BackendId_discrete b c l lanes) (lookup-insert ℕ_discrete l k b backends)
  where
    paired :
        {x : Option ℕ} {y : Option BackendId} (q : Dec (b ≡ c)) (r : Dec (l ≡ k))
        → (lookup BackendId_discrete c lanes ≡ some k) ↔ (lookup ℕ_discrete k backends ≡ some c)
        → x ≡ ite q (some l) (lookup BackendId_discrete c lanes)
        → y ≡ ite r (some b) (lookup ℕ_discrete k backends)
        → (x ≡ some k) ↔ (y ≡ some c)
    paired (yes q) (yes r) i e f = ground (arith, q, r, e, f)
    paired (yes q) (no r) i e f =
        ground (arith, q, r, e, f, i, nb, ap (λ t. lookup BackendId_discrete t lanes) q)
    paired (no q) (yes r) i e f =
        ground (arith, q, r, e, f, i, nl, ap (λ t. lookup ℕ_discrete t backends) r)
    paired (no q) (no r) i e f = ground (arith, q, r, e, f, i)

remove-ArePaired :
    (lanes : List (BackendId × ℕ)) (backends : List (ℕ × BackendId)) (b : BackendId) (l : ℕ)
    → ArePaired lanes backends
    → lookup BackendId_discrete b lanes ≡ some l
    → ArePaired (remove BackendId_discrete b lanes) (remove ℕ_discrete l backends)
remove-ArePaired lanes backends b l p nb c k =
    paired (BackendId_discrete b c) (ℕ_discrete l k) (p c k)
      (lookup-remove BackendId_discrete b c lanes) (lookup-remove ℕ_discrete l k backends)
  where
    paired :
        {x : Option ℕ} {y : Option BackendId} (q : Dec (b ≡ c)) (r : Dec (l ≡ k))
        → (lookup BackendId_discrete c lanes ≡ some k) ↔ (lookup ℕ_discrete k backends ≡ some c)
        → x ≡ ite q none (lookup BackendId_discrete c lanes)
        → y ≡ ite r none (lookup ℕ_discrete k backends)
        → (x ≡ some k) ↔ (y ≡ some c)
    paired (yes q) (yes r) i e f = ground (arith, q, r, e, f)
    paired (yes q) (no r) i e f =
        ground (arith, q, r, e, f, i, nb, ap (λ t. lookup BackendId_discrete t lanes) q)
    paired (no q) (yes r) i e f =
        ground (arith, q, r, e, f, i, (p b l).0 nb, ap (λ t. lookup ℕ_discrete t backends) r)
    paired (no q) (no r) i e f = ground (arith, q, r, e, f, i)

-- Where a backend has a lane exactly if the lane has the backend, an assignment keeps this, and what
-- it answers is the backend's lane afterwards.
pub assign_lane-IsPaired :
    (b : BackendId) (c : LocalCkf)
    → IsPaired c
    → IsPaired (assign_lane b c).1 × (lane_of b (assign_lane b c).1 ≡ (assign_lane b c).0)
unfolding assign_lane
assign_lane-IsPaired b c p = elim (Option-cases (lookup BackendId_discrete b c.backend_lanes)) [
  | inr (l, e) ↦ rw (assign_lane, e) (p, e)
  | inl e ↦ elim (Option-cases (free_lane 0 local_lane_count c.lane_backends)) [
    | inl f ↦ rw (assign_lane, e, f) (p, e)
    | inr (l, f) ↦
        rw (assign_lane, e, f)
          (
            insert-ArePaired c.backend_lanes c.lane_backends b l p e
                (free_lane-free 0 local_lane_count c.lane_backends l f).0,
            lookup-insert BackendId_discrete b b l c.backend_lanes
                ∙ own b (BackendId_discrete b b) (some l)
                    (lookup BackendId_discrete b c.backend_lanes),
          )
  ]
]

-- So does the end of an assignment, after which the backend has no lane.
pub unassign_lane-IsPaired :
    (b : BackendId) (c : LocalCkf)
    → IsPaired c
    → IsPaired (unassign_lane b c) × (lane_of b (unassign_lane b c) ≡ none)
unfolding unassign_lane
unassign_lane-IsPaired b c p = elim (Option-cases (lookup BackendId_discrete b c.backend_lanes)) [
  | inr (l, e) ↦
      rw (unassign_lane, e) (remove-ArePaired c.backend_lanes c.lane_backends b l p e, gone)
  | inl e ↦
      rw (unassign_lane, e)
        (
          (λ d k.
              subst (λ o. (o ≡ some k) ↔ (lookup ℕ_discrete k c.lane_backends ≡ some d))
                (sym (
                  lookup-remove BackendId_discrete b d c.backend_lanes
                  ∙ unchanged d (BackendId_discrete b d) e))
                (p d k)),
          gone,
        )
]
  where
    gone : lookup BackendId_discrete b (remove BackendId_discrete b c.backend_lanes) ≡ none
    gone =
        lookup-remove BackendId_discrete b b c.backend_lanes
        ∙ own b (BackendId_discrete b b) none (lookup BackendId_discrete b c.backend_lanes)

    unchanged :
        (d : BackendId) (q : Dec (b ≡ d))
        → lookup BackendId_discrete b c.backend_lanes ≡ none
        → ite q none (lookup BackendId_discrete d c.backend_lanes)
          ≡ lookup BackendId_discrete d c.backend_lanes
    unchanged d (yes q) e = sym e ∙ ap (λ t. lookup BackendId_discrete t c.backend_lanes) q
    unchanged d (no q) e = refl
