-- ===== src/Cluster/Member/Known.antt =====
-- The regions that the region view knows.
use hier_kv_gateway.Prelude.{
  ◌≡◌, ◌≢◌, ◌↔◌, sym, List, [], ◌∷◌, dec→Bool, not, keep, In, inl, inr, ◌⊎◌, arith, ◌∙◌,
}
use hier_kv_gateway.Ids.{InstanceId_discrete, RegionId, RegionId_discrete}
use hier_kv_gateway.Interface.DashMap.{DashMap}
use hier_kv_gateway.Cluster.Member.{
  ClusterMember, dedup_after, dedup, regions_of, alive_members, known_regions, foreign_regions,
}

-- What is used of the standard library's `sort`: the elements stay the same.
pub record KeepsMembers (sort : List RegionId → List RegionId) : Type 0 where
  pub sorted_in : (r : RegionId) (l : List RegionId) → In r l → In r (sort l)
  pub sorted_of : (r : RegionId) (l : List RegionId) → In r (sort l) → In r l

dedup_after-In : (r p : RegionId) (l : List RegionId) → In r l → (r ≡ p) ⊎ In r (dedup_after p l)
unfolding dedup_after
dedup_after-In r p [] i = absurd i
dedup_after-In r p (s ∷ l) i = elim (RegionId_discrete s p) [
  | yes q ↦ elim i [ inl e ↦ inl (e ∙ q) | inr j ↦ ground (arith, dedup_after-In r p l j) ]
  | no q ↦ elim i [ inl e ↦ ground (arith, e) | inr j ↦ ground (arith, dedup_after-In r s l j) ]
]

In-dedup_after : (r p : RegionId) (l : List RegionId) → In r (dedup_after p l) → In r l
unfolding dedup_after
In-dedup_after r p [] i = i
In-dedup_after r p (s ∷ l) i = ground (arith, In-dedup_after r p l, In-dedup_after r s l)

dedup_lem : (r : RegionId) (l : List RegionId) → In r (dedup l) ↔ In r l
unfolding dedup
dedup_lem r [] = (λ i. i, λ i. i)
dedup_lem r (s ∷ l) = ground (arith, In-dedup_after r s l, dedup_after-In r s l)

In-foreign :
    (r self : RegionId) (l : List RegionId)
    → In r (keep (λ s. not (dec→Bool (RegionId_discrete s self))) l) ↔ ((r ≢ self) × In r l)
In-foreign r self [] = (λ i. absurd i, λ p. absurd p.1)
In-foreign r self (s ∷ l) = elim (RegionId_discrete s self) [
  | yes p ↦ ground (arith, In-foreign r self l, λ (e : r ≡ s). e ∙ p)
  | no p ↦ ground (arith, In-foreign r self l, λ (e : r ≡ s) (f : r ≡ self). p (sym e ∙ f))
]

module _ {M : Type 0} (d : DashMap M InstanceId_discrete ClusterMember) where
  -- If `sort` keeps the elements: `foreign_regions` holds a region exactly if it is another than the
  -- own one and one of those that `known_regions` holds.
  pub foreign_regions_lem :
      (sort : List RegionId → List RegionId) (self r : RegionId) (members : M)
      → KeepsMembers sort
      → In r (foreign_regions d sort self members)
        ↔ ((r ≢ self) × In r (known_regions d sort members))
  unfolding foreign_regions known_regions
  foreign_regions_lem sort self r members k =
      let all = regions_of (alive_members d members) in
      let others = keep (λ s. not (dec→Bool (RegionId_discrete s self))) all in
      ground (
        arith,
        dedup_lem r (sort others),
        dedup_lem r (sort all),
        k.sorted_in r others,
        k.sorted_of r others,
        k.sorted_in r all,
        k.sorted_of r all,
        In-foreign r self all,
      )
