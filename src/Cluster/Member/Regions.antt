-- ===== src/Cluster/Member/Regions.antt =====
-- The queries of the member list by status and by region.
use hier_kv_gateway.Prelude.{
  ℕ, zero, suc, ◌+◌, ◌-◌, ◌≤◌, ◌<◌, ◌≡◌, ◌≢◌, refl, sym, List, [], ◌∷◌, ◌++◌, ite, arith,
  if◌then◌else◌, ltb, ltb_iff, ltb-false, Bool-cases, length, length-append, keep, take, dec→Bool,
  append-nil, append_assoc, ◌∙◌, ap, inl, inr,
}
use hier_kv_gateway.Ids.{InstanceId_discrete, RegionId, RegionId_discrete}
use hier_kv_gateway.HashMap.{lookup, insert, lookup-insert}
use hier_kv_gateway.Interface.DashMap.{DashMap}
use hier_kv_gateway.Cluster.Member.{
  ClusterMember, Buckets, or_default, or_zero, add_foreign, add_all_foreign, count_all,
  alive_members, alive_in_region, foreign_alive_per_region, region_counts,
}

abbrev in_region : RegionId → List ClusterMember → List ClusterMember
in_region r ms = keep (λ m. dec→Bool (RegionId_discrete m.region r)) ms

count_all-in_region :
    (r : RegionId) (ms : List ClusterMember) (counts : List (RegionId × ℕ))
    → or_zero (lookup RegionId_discrete r (count_all counts ms))
      ≡ or_zero (lookup RegionId_discrete r counts) + length (in_region r ms)
unfolding count_all
count_all-in_region r [] counts = omega arith
count_all-in_region r (m ∷ ms) counts =
    let n = suc (or_zero (lookup RegionId_discrete m.region counts)) in
    let rest = count_all-in_region r ms (insert RegionId_discrete m.region n counts) in
    elim (RegionId_discrete m.region r) [
      | yes p ↦ ground (
        arith,
        rest,
        lookup-insert RegionId_discrete m.region r n counts,
        ap (λ k. lookup RegionId_discrete k counts) p,
      )
      | no p ↦ ground (arith, rest, lookup-insert RegionId_discrete m.region r n counts)
    ]

take-suc :
    (k j : ℕ) (m : ClusterMember) (xs : List ClusterMember)
    → k ≡ suc j
    → take k (m ∷ xs) ≡ m ∷ take j xs
take-suc k j m xs e = rw e refl

fill_room :
    (n : ℕ) (l : List ClusterMember) (m : ClusterMember) (xs : List ClusterMember)
    → length l < n
    → l ++ take (n - length l) (m ∷ xs) ≡ (l ++ m ∷ []) ++ take (n - length (l ++ m ∷ [])) xs
fill_room n l m xs lt =
    ap (λ ys. l ++ ys)
      (take-suc (n - length l) (n - length (l ++ m ∷ [])) m xs
        (omega (arith, length-append l (m ∷ []))))
    ∙ sym (append_assoc l (m ∷ []) _)

take_nil : (k : ℕ) → take {A = ClusterMember} k [] ≡ []
take_nil zero = refl
take_nil (suc k) = refl

take_none : (k : ℕ) (xs : List ClusterMember) → k ≡ 0 → take k xs ≡ []
take_none k xs e = rw e refl

abbrev pub bucket : RegionId → Buckets → List ClusterMember
bucket r by_region = or_default (lookup RegionId_discrete r by_region)

bucket-insert :
    (r k : RegionId) (l : List ClusterMember) (by_region : Buckets)
    → bucket r (insert RegionId_discrete k l by_region)
      ≡ ite (RegionId_discrete k r) l (bucket r by_region)
bucket-insert r k l by_region = ground (arith, lookup-insert RegionId_discrete k r l by_region)

bucket-add_foreign_ne :
    (self r : RegionId) (n : ℕ) (by_region : Buckets) (m : ClusterMember)
    → m.region ≢ r
    → bucket r (add_foreign self n by_region m) ≡ bucket r by_region
unfolding add_foreign
bucket-add_foreign_ne self r n by_region m ne = ground (
  arith,
  bucket-insert r m.region (bucket m.region by_region ++ m ∷ []) by_region,
  bucket-insert r m.region (bucket m.region by_region) by_region,
)

bucket-add_foreign :
    (self r : RegionId) (n : ℕ) (by_region : Buckets) (m : ClusterMember)
    → m.region ≡ r
    → r ≢ self
    → bucket r (add_foreign self n by_region m) ≡ (
        if ltb (length (bucket r by_region)) n
        then bucket r by_region ++ m ∷ []
        else bucket r by_region)
unfolding add_foreign
bucket-add_foreign self r n by_region m e ne = ground (
  arith,
  e,
  ap (λ k. bucket k by_region) e,
  bucket-insert r m.region (bucket m.region by_region ++ m ∷ []) by_region,
  bucket-insert r m.region (bucket m.region by_region) by_region,
)

in_region_eq :
    (r : RegionId) (m : ClusterMember) (ms : List ClusterMember)
    → m.region ≡ r
    → in_region r (m ∷ ms) ≡ m ∷ in_region r ms
in_region_eq r m ms e = ground (arith, e)

in_region_ne :
    (r : RegionId) (m : ClusterMember) (ms : List ClusterMember)
    → m.region ≢ r
    → in_region r (m ∷ ms) ≡ in_region r ms
in_region_ne r m ms ne = ground (arith, ne)

add_all-in_region :
    (self r : RegionId) (n : ℕ) (ms : List ClusterMember) (by_region : Buckets)
    → r ≢ self
    → length (bucket r by_region) ≤ n
    → bucket r (add_all_foreign self n by_region ms)
      ≡ bucket r by_region ++ take (n - length (bucket r by_region)) (in_region r ms)
unfolding add_all_foreign
add_all-in_region self r n [] by_region ne fits = sym (
    ap (λ ys. bucket r by_region ++ ys) (take_nil (n - length (bucket r by_region)))
    ∙ append-nil (bucket r by_region))
add_all-in_region self r n (m ∷ ms) by_region ne fits = elim (RegionId_discrete m.region r) [
  | no p ↦
      let e = bucket-add_foreign_ne self r n by_region m p in
      add_all-in_region self r n ms after ne (rw e fits)
      ∙ ap (λ l. filled l (in_region r ms)) e
      ∙ ap (λ ys. filled (bucket r by_region) ys) (sym (in_region_ne r m ms p))
  | yes p ↦
      let e = bucket-add_foreign self r n by_region m p ne in
      elim (Bool-cases (ltb (length (bucket r by_region)) n)) [
        | inl t ↦
            let e' : bucket r after ≡ bucket r by_region ++ m ∷ [] = e ∙ rw t refl in
            add_all-in_region self r n ms after ne (
              rw e' (
                omega (
                  arith,
                  length-append (bucket r by_region) (m ∷ []),
                  (ltb_iff (length (bucket r by_region)) n).0 t,
                )))
            ∙ ap (λ l. filled l (in_region r ms)) e'
            ∙ sym (
                fill_room n (bucket r by_region) m (in_region r ms)
                  ((ltb_iff (length (bucket r by_region)) n).0 t))
            ∙ ap (λ ys. filled (bucket r by_region) ys) (sym (in_region_eq r m ms p))
        | inr t ↦
            let e' : bucket r after ≡ bucket r by_region = e ∙ rw t refl in
            let full = ltb-false (length (bucket r by_region)) n t in
            add_all-in_region self r n ms after ne (rw e' fits)
            ∙ ap (λ l. filled l (in_region r ms)) e'
            ∙ ap (λ ys. bucket r by_region ++ ys)
                (take_none _ (in_region r ms) (omega (arith, full))
                  ∙ sym (take_none _ (in_region r (m ∷ ms)) (omega (arith, full))))
      ]
]
  where
    after : Buckets
    after = add_foreign self n by_region m

    filled : List ClusterMember → List ClusterMember → List ClusterMember
    filled l ys = l ++ take (n - length l) ys

bucket-add_foreign_self :
    (self : RegionId) (n : ℕ) (by_region : Buckets) (m : ClusterMember)
    → bucket self (add_foreign self n by_region m) ≡ bucket self by_region
unfolding add_foreign
bucket-add_foreign_self self n by_region m = ground (
  arith,
  bucket-insert self m.region (bucket m.region by_region ++ m ∷ []) by_region,
  bucket-insert self m.region (bucket m.region by_region) by_region,
)

bucket-add_all_self :
    (self : RegionId) (n : ℕ) (ms : List ClusterMember) (by_region : Buckets)
    → bucket self (add_all_foreign self n by_region ms) ≡ bucket self by_region
unfolding add_all_foreign
bucket-add_all_self self n [] by_region = refl
bucket-add_all_self self n (m ∷ ms) by_region =
    bucket-add_all_self self n ms (add_foreign self n by_region m)
    ∙ bucket-add_foreign_self self n by_region m

module _ {M : Type 0} (d : DashMap M InstanceId_discrete ClusterMember) where
  -- For a region other than the own one, `foreign_alive_per_region` holds the first `n` of the
  -- region's alive members, in the order of the listing, and for the own region none; a region
  -- without an entry counts as an empty bucket.
  pub foreign_alive_per_region_lem :
      (self r : RegionId) (n : ℕ) (members : M)
      → bucket r (foreign_alive_per_region d self n members)
        ≡ ite (RegionId_discrete r self) [] (take n (alive_in_region d r members))
  unfolding foreign_alive_per_region alive_in_region lookup
  foreign_alive_per_region_lem self r n members = elim (RegionId_discrete r self) [
    | no p ↦
        ground (arith, p, add_all-in_region self r n (alive_members d members) [] p (omega arith))
    | yes p ↦ ground (
      arith,
      p,
      ap (λ k. bucket k (add_all_foreign self n [] (alive_members d members))) p,
      bucket-add_all_self self n (alive_members d members) [],
    )
  ]

  -- `region_counts` holds for each region the number of its alive members that `alive_in_region`
  -- lists; a region without an entry counts as zero.
  pub region_counts_lem :
      (r : RegionId) (members : M)
      → or_zero (lookup RegionId_discrete r (region_counts d members))
        ≡ length (alive_in_region d r members)
  unfolding region_counts alive_in_region lookup
  region_counts_lem r members = omega (arith, count_all-in_region r (alive_members d members) [])
