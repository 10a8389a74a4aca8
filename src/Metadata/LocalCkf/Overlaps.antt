-- ===== src/Metadata/LocalCkf/Overlaps.antt =====
-- The query of all lanes against the query of one.
use hier_kv_gateway.Prelude.{
  ℕ, zero, suc, ◌+◌, ◌≤◌, ◌<◌, ◌≡◌, ◌≢◌, refl, sym, ap, ◌∙◌, subst, Bool, true, false, List, [],
  ◌∷◌, if◌then◌else◌, ◌==◌, ◌||◌, map, In, Distinct, arith, Bool-cases, inl, inr, ℕ_discrete,
}
use hier_kv_gateway.Metadata.LocalCkf.{
  LocalCkf, local_lane_count, is_active, hit, overlap_on, active_lanes, any_hit, add_hits, scan,
  estimate_all_overlaps,
}

module _ (xxh3 : List ℕ → ℕ → ℕ) where
  -- How many of the hashes hit the lane, before the first hash that hits none of the lanes.
  unfoldable pub hits_before_gap : LocalCkf → List ℕ → ℕ → List ℕ → ℕ
  hits_before_gap c lanes lane [] = 0
  hits_before_gap c lanes lane (hash ∷ hashes) =
      let rest = hits_before_gap c lanes lane hashes in
      if any_hit xxh3 c hash lanes then (if hit xxh3 c hash lane then rest + 1 else rest) else 0

  add_hits-other :
      (c : LocalCkf) (hash : ℕ) (lanes : List ℕ) (o : ℕ → ℕ) (k : ℕ)
      → ¬ In k lanes
      → add_hits xxh3 c hash lanes o k ≡ o k
  unfolding add_hits
  add_hits-other c hash [] o k n = refl
  add_hits-other c hash (l ∷ lanes) o k n =
      add_hits-other c hash lanes _ k (λ i. n (inr i)) ∙ same l k (λ e. n (inl (sym e)))
    where
      same :
          (l k : ℕ)
          → l ≢ k
          → (if (if l == k then hit xxh3 c hash l else false) then o k + 1 else o k) ≡ o k
      same l k d = ground (arith, d)

  add_hits-own :
      (c : LocalCkf) (hash : ℕ) (lanes : List ℕ) (o : ℕ → ℕ) (k : ℕ)
      → Distinct lanes
      → In k lanes
      → add_hits xxh3 c hash lanes o k ≡ (if hit xxh3 c hash k then o k + 1 else o k)
  unfolding add_hits
  add_hits-own c hash [] o k d i = absurd i
  add_hits-own c hash (l ∷ lanes) o k (n, d) (inl e) =
      add_hits-other c hash lanes _ k (λ i. n (subst (λ t. In t lanes) e i))
      ∙ subst
          (λ t.
            (if (if t == k then hit xxh3 c hash t else false) then o k + 1 else o k)
            ≡ (if hit xxh3 c hash k then o k + 1 else o k))
          e (ground arith)
  add_hits-own c hash (l ∷ lanes) o k (n, d) (inr i) =
      add_hits-own c hash lanes _ k d i
      ∙ ap (λ t. if hit xxh3 c hash k then t + 1 else t)
          (same l k (λ e. n (subst (λ t. In t lanes) (sym e) i)))
    where
      same :
          (l k : ℕ)
          → l ≢ k
          → (if (if l == k then hit xxh3 c hash l else false) then o k + 1 else o k) ≡ o k
      same l k d = ground (arith, d)

  In-any_hit :
      (c : LocalCkf) (hash k : ℕ) (lanes : List ℕ)
      → In k lanes
      → hit xxh3 c hash k ≡ true
      → any_hit xxh3 c hash lanes ≡ true
  unfolding any_hit
  In-any_hit c hash k [] i h = absurd i
  In-any_hit c hash k (l ∷ lanes) (inl e) h =
      ap (λ b. b || any_hit xxh3 c hash lanes) (ap (hit xxh3 c hash) (sym e) ∙ h)
  In-any_hit c hash k (l ∷ lanes) (inr i) h = ground (arith, In-any_hit c hash k lanes i h)

  scan-own :
      (c : LocalCkf) (lanes hashes : List ℕ) (o : ℕ → ℕ) (k : ℕ)
      → Distinct lanes
      → In k lanes
      → scan xxh3 c lanes hashes o k ≡ o k + hits_before_gap c lanes k hashes
  unfolding scan hits_before_gap
  scan-own c lanes [] o k d i = omega arith
  scan-own c lanes (h ∷ hashes) o k d i = elim (Bool-cases (any_hit xxh3 c h lanes)) [
    | inl a ↦ rw a (
        scan-own c lanes hashes (add_hits xxh3 c h lanes o) k d i
        ∙ ap (λ t. t + hits_before_gap c lanes k hashes) (add_hits-own c h lanes o k d i)
        ∙ shifted (hit xxh3 c h k) (o k) (hits_before_gap c lanes k hashes))
    | inr a ↦ rw a (
        add_hits-own c h lanes o k d i
        ∙ ap (λ b. if b then o k + 1 else o k)
            (missed (hit xxh3 c h k) (In-any_hit c h k lanes i) a)
        ∙ omega arith)
  ]
    where
      shifted : (b : Bool) (m n : ℕ) → (if b then m + 1 else m) + n ≡ m + (if b then n + 1 else n)
      shifted b m n = ground arith

      missed : (b : Bool) {a : Bool} → (b ≡ true → a ≡ true) → a ≡ false → b ≡ false
      missed true f e = absurd (ground (arith, f refl, e))
      missed false f e = refl

  overlap-le-hits :
      (c : LocalCkf) (lanes hashes : List ℕ) (k : ℕ)
      → In k lanes
      → overlap_on xxh3 c k hashes ≤ hits_before_gap c lanes k hashes
  unfolding overlap_on hits_before_gap
  overlap-le-hits c lanes [] k i = omega arith
  overlap-le-hits c lanes (h ∷ hashes) k i =
      ground (arith, overlap-le-hits c lanes hashes k i, In-any_hit c h k lanes i)

  hits-alone :
      (c : LocalCkf) (hashes : List ℕ) (k : ℕ)
      → hits_before_gap c (k ∷ []) k hashes ≡ overlap_on xxh3 c k hashes
  unfolding overlap_on hits_before_gap any_hit
  hits-alone c [] k = refl
  hits-alone c (h ∷ hashes) k = ground (arith, hits-alone c hashes k)

  active_lanes-ge : (c : LocalCkf) (i n k : ℕ) → In k (active_lanes xxh3 c i n) → i ≤ k
  unfolding active_lanes
  active_lanes-ge c i zero k m = absurd m
  active_lanes-ge c i (suc n) k m = elim (Bool-cases (is_active c i)) [
    | inl a ↦ ground (arith, a, m, active_lanes-ge c (suc i) n k)
    | inr a ↦ ground (arith, a, m, active_lanes-ge c (suc i) n k)
  ]

  active_lanes-Distinct : (c : LocalCkf) (i n : ℕ) → Distinct (active_lanes xxh3 c i n)
  unfolding active_lanes
  active_lanes-Distinct c i zero = tt
  active_lanes-Distinct c i (suc n) = elim (Bool-cases (is_active c i)) [
    | inl a ↦ rw a (
      (λ m. absurd (omega (arith, active_lanes-ge c (suc i) n i m))),
      active_lanes-Distinct c (suc i) n,
    )
    | inr a ↦ rw a (active_lanes-Distinct c (suc i) n)
  ]

  active_lanes-In :
      (c : LocalCkf) (i n k : ℕ)
      → i ≤ k
      → k < i + n
      → is_active c k ≡ true
      → In k (active_lanes xxh3 c i n)
  unfolding active_lanes
  active_lanes-In c i zero k p q a = absurd (omega arith)
  active_lanes-In c i (suc n) k p q a = elim (ℕ_discrete i k) [
    | yes e ↦ rw (ap (is_active c) e ∙ a) (inl (sym e))
    | no e ↦ elim (Bool-cases (is_active c i)) [
      | inl b ↦ rw b (inr (active_lanes-In c (suc i) n k (omega arith) (omega arith) a))
      | inr b ↦ rw b (active_lanes-In c (suc i) n k (omega arith) (omega arith) a)
    ]
  ]

  In-map :
      (f : ℕ → ℕ) (k : ℕ) (l : List ℕ) → In k l → In {A = ℕ × ℕ} (k, f k) (map (λ j. (j, f j)) l)
  In-map f k [] m = absurd m
  In-map f k (j ∷ l) (inl e) = inl (ap (λ t. (t, f t)) e)
  In-map f k (j ∷ l) (inr m) = inr (In-map f k l m)

  -- For an active lane below 16, the query of all lanes gives the number of its hits before the first
  -- hash that no active lane holds, which is at least the overlap that the query of the lane alone
  -- gives.
  pub estimate_all_overlaps-hits :
      (hashes : List ℕ) (c : LocalCkf) (lane : ℕ)
      → lane < local_lane_count
      → is_active c lane ≡ true
      → In {A = ℕ × ℕ}
          (lane, hits_before_gap c (active_lanes xxh3 c 0 local_lane_count) lane hashes)
          (estimate_all_overlaps xxh3 hashes c)
        × (overlap_on xxh3 c lane hashes
            ≤ hits_before_gap c (active_lanes xxh3 c 0 local_lane_count) lane hashes)
  unfolding estimate_all_overlaps
  estimate_all_overlaps-hits hashes c lane h a =
      let lanes = active_lanes xxh3 c 0 local_lane_count in
      let i = active_lanes-In c 0 local_lane_count lane (omega arith) (omega arith) a in
      (
        subst (λ n. In {A = ℕ × ℕ} (lane, n) (estimate_all_overlaps xxh3 hashes c))
            (scan-own c lanes hashes (λ k. 0) lane (active_lanes-Distinct c 0 local_lane_count) i
              ∙ omega arith)
            (In-map (scan xxh3 c lanes hashes (λ k. 0)) lane lanes i),
        overlap-le-hits c lanes hashes lane i,
      )
