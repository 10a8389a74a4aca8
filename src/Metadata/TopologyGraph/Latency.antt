-- ===== src/Metadata/TopologyGraph/Latency.antt =====
-- The round-trip times after any sequence of calls.
use hier_kv_gateway.Prelude.{◌≡◌, ◌≢◌, refl, sym, ap, List, [], ◌∷◌, arith, Option-cases, inl, inr}
use hier_kv_gateway.Ids.{RegionId, RegionId_discrete}
use hier_kv_gateway.HashMap.{lookup, insert, lookup-insert}
use hier_kv_gateway.Metadata.TopologyGraph.{
  RegionPair, RegionPair_discrete, RegionInfo, LatencyEstimate, TopologyGraph, new, estimate,
  rtt_ms, update_latency, add_region, remove_region,
}

pub data GraphCall (F : Type 0) : Type 0 where
  updated : RegionId → RegionId → LatencyEstimate F → GraphCall F
  added : RegionInfo F → GraphCall F
  dropped_region : RegionId → GraphCall F

abbrev swapped : RegionPair → RegionPair
swapped (a, b) = (b, a)

module _ {F : Type 0} (zero_ms infinity : F) where
  unfoldable pub graph_call : GraphCall F → TopologyGraph F → TopologyGraph F
  graph_call (updated a b e) g = update_latency a b e g
  graph_call (added info) g = add_region info g
  graph_call (dropped_region r) g = remove_region r g

  unfoldable pub graph_calls : List (GraphCall F) → TopologyGraph F → TopologyGraph F
  graph_calls [] g = g
  graph_calls (c ∷ cs) g = graph_calls cs (graph_call c g)

  abbrev IsSymmetric : TopologyGraph F → Type 0
  IsSymmetric g =
      (x y : RegionId)
      → lookup RegionPair_discrete (x, y) g.latency_matrix
        ≡ lookup RegionPair_discrete (y, x) g.latency_matrix

  both-inserted :
      (a b x y : RegionId) (e : LatencyEstimate F) (m : List (RegionPair × LatencyEstimate F))
      → lookup RegionPair_discrete (x, y) m ≡ lookup RegionPair_discrete (y, x) m
      → lookup RegionPair_discrete
          (x, y)
          (insert RegionPair_discrete (b, a) e (insert RegionPair_discrete (a, b) e m))
        ≡ lookup RegionPair_discrete
            (y, x)
            (insert RegionPair_discrete (b, a) e (insert RegionPair_discrete (a, b) e m))
  both-inserted a b x y e m h =
      let here = insert RegionPair_discrete (a, b) e m in
      let one = lookup-insert RegionPair_discrete (b, a) (x, y) e here in
      let two = lookup-insert RegionPair_discrete (a, b) (x, y) e m in
      let three = lookup-insert RegionPair_discrete (b, a) (y, x) e here in
      let four = lookup-insert RegionPair_discrete (a, b) (y, x) e m in
      elim (RegionPair_discrete (b, a) (x, y)) [
        | yes p ↦ elim (RegionPair_discrete (a, b) (y, x)) [
          | yes q ↦ ground (arith, one, three, four)
          | no q ↦ absurd (q (ap swapped p))
        ]
        | no p ↦ elim (RegionPair_discrete (a, b) (y, x)) [
          | yes q ↦ absurd (p (ap swapped q))
          | no q ↦ elim (RegionPair_discrete (a, b) (x, y)) [
            | yes r ↦ elim (RegionPair_discrete (b, a) (y, x)) [
              | yes s ↦ ground (arith, one, two, three)
              | no s ↦ absurd (s (ap swapped r))
            ]
            | no r ↦ elim (RegionPair_discrete (b, a) (y, x)) [
              | yes s ↦ absurd (r (ap swapped s))
              | no s ↦ ground (arith, one, two, three, four, h)
            ]
          ]
        ]
      ]

  graph_call-IsSymmetric :
      (c : GraphCall F) (g : TopologyGraph F) → IsSymmetric g → IsSymmetric (graph_call c g)
  unfolding graph_call update_latency add_region remove_region
  graph_call-IsSymmetric (updated a b e) g h x y = elim (RegionId_discrete a b) [
    | yes p ↦ ground (arith, h x y)
    | no p ↦ ground (arith, both-inserted a b x y e g.latency_matrix (h x y))
  ]
  graph_call-IsSymmetric (added info) g h x y = h x y
  graph_call-IsSymmetric (dropped_region r) g h x y = h x y

  graph_calls-IsSymmetric :
      (cs : List (GraphCall F)) (g : TopologyGraph F)
      → IsSymmetric g
      → IsSymmetric (graph_calls cs g)
  unfolding graph_calls
  graph_calls-IsSymmetric [] g h = h
  graph_calls-IsSymmetric (c ∷ cs) g h =
      graph_calls-IsSymmetric cs (graph_call c g) (graph_call-IsSymmetric c g h)

  rtt_ms-IsSymmetric :
      (g : TopologyGraph F) (a b : RegionId)
      → IsSymmetric g
      → rtt_ms zero_ms infinity g a b ≡ rtt_ms zero_ms infinity g b a
  unfolding rtt_ms estimate
  rtt_ms-IsSymmetric g a b h = elim (RegionId_discrete a b) [
    | yes p ↦ ground (arith, sym p)
    | no p ↦ elim (RegionId_discrete b a) [
      | yes q ↦ absurd (p (sym q))
      | no q ↦ elim (Option-cases (lookup RegionPair_discrete (a, b) g.latency_matrix)) [
        | inl e ↦ ground (arith, h a b, e)
        | inr (v, e) ↦ ground (arith, h a b, e)
      ]
    ]
  ]

  -- From an empty graph, after any updates of latencies, additions and removals of regions, the
  -- round-trip time is the same in both directions.
  pub rtt_ms-symmetric :
      (cs : List (GraphCall F)) (a b : RegionId)
      → rtt_ms zero_ms infinity (graph_calls cs new) a b
        ≡ rtt_ms zero_ms infinity (graph_calls cs new) b a
  unfolding lookup
  rtt_ms-symmetric cs a b =
      rtt_ms-IsSymmetric (graph_calls cs new) a b (graph_calls-IsSymmetric cs new (λ x y. refl))

  -- Between two different regions, the round-trip time after an update is the one of the update,
  -- whatever regions are removed afterwards: the removal of a region keeps its latencies.
  pub rtt_ms-remove_region :
      (g : TopologyGraph F) (a b r : RegionId) (e : LatencyEstimate F)
      → a ≢ b
      → rtt_ms zero_ms infinity (remove_region r (update_latency a b e g)) a b ≡ e.rtt_p50_ms
  unfolding rtt_ms estimate update_latency remove_region
  rtt_ms-remove_region g a b r e ne = ground (
    arith,
    lookup-insert RegionPair_discrete (b, a) (a, b) e
        (insert RegionPair_discrete (a, b) e g.latency_matrix),
    lookup-insert RegionPair_discrete (a, b) (a, b) e g.latency_matrix,
  )
