-- ===== src/Metadata/TopologyGraph.antt =====
-- crates/hier-kv-gateway-metadata/src/topology_graph.rs: the regions and the round-trip times between
-- them. A lock around a map is held for one access. `F` is the type of `f64`, with its zero and its
-- infinity.
pub mod Latency
use hier_kv_gateway.Prelude.{ℕ, Option, none, some, List, [], ◌∷◌, if◌then◌else◌, String, dec→Bool}
use hier_kv_gateway.Ids.{RegionId, RegionId_discrete}
use hier_kv_gateway.HashMap.{lookup, insert, remove, keys}
use hier_kv_gateway.Core.Metrics.{ℤ}

-- `RegionTier` of ids.rs.
pub data RegionTier : Type 0 where
  cloud_tier edge_tier device_tier : RegionTier

-- The types of topology.rs.
pub record GeoCoord (F : Type 0) : Type 0 where
  pub lat : F
  pub lon : F

pub record RegionInfo (F : Type 0) : Type 0 where
  pub id : RegionId
  pub tier : RegionTier
  pub geo : Option (GeoCoord F)
  pub network_zone : String
  pub endpoints : List String

pub record LatencyEstimate (F : Type 0) : Type 0 where
  pub rtt_p50_ms : F
  pub rtt_p99_ms : F
  pub bandwidth_mbps : F
  pub last_updated_unix : ℤ

abbrev pub RegionPair : Type 0
RegionPair = RegionId × RegionId

unfoldable pub RegionPair_discrete : Discrete RegionPair
RegionPair_discrete = hlevel RegionId_discrete

pub record TopologyGraph (F : Type 0) : Type 0 where
  pub regions : List (RegionId × RegionInfo F)
  pub latency_matrix : List (RegionPair × LatencyEstimate F)

module _ {F : Type 0} where
  abbrev pub new : TopologyGraph F
  new = record { regions = []; latency_matrix = [] }

  -- The estimate for the pair, or else for the reverse pair.
  unfoldable pub estimate :
      List (RegionPair × LatencyEstimate F) → RegionId → RegionId → Option (LatencyEstimate F)
  estimate matrix from to = elim (lookup RegionPair_discrete (from, to) matrix) [
    | some e ↦ some e
    | none ↦ lookup RegionPair_discrete (to, from) matrix
  ]

  unfoldable pub get_region : TopologyGraph F → RegionId → Option (RegionInfo F)
  get_region g region = lookup RegionId_discrete region g.regions

  unfoldable pub update_latency :
      RegionId → RegionId → LatencyEstimate F → TopologyGraph F → TopologyGraph F
  update_latency a b e g = if dec→Bool (RegionId_discrete a b) then g else record g {
    latency_matrix =
        insert RegionPair_discrete (b, a) e (insert RegionPair_discrete (a, b) e g.latency_matrix);
  }

  unfoldable pub add_region : RegionInfo F → TopologyGraph F → TopologyGraph F
  add_region info g = record g { regions = insert RegionId_discrete info.id info g.regions }

  unfoldable pub remove_region : RegionId → TopologyGraph F → TopologyGraph F
  remove_region region g = record g { regions = remove RegionId_discrete region g.regions }

  unfoldable pub all_regions : TopologyGraph F → List RegionId
  all_regions g = keys g.regions

  module _ (zero_ms infinity : F) where
    unfoldable pub rtt_ms : TopologyGraph F → RegionId → RegionId → F
    unfolding estimate
    rtt_ms g from to =
        if dec→Bool (RegionId_discrete from to)
        then zero_ms
        else elim (estimate g.latency_matrix from to) [ some e ↦ e.rtt_p50_ms | none ↦ infinity ]
