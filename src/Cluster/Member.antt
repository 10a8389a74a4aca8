-- ===== src/Cluster/Member.antt =====
-- crates/hier-kv-gateway-cluster/src/member.rs: the members of the cluster that this instance
-- knows, and crates/hier-kv-gateway-cluster/src/region_view.rs: queries of them by region. A read
-- of the clock is the argument `now`, in Unix milliseconds. `shuffle` is the `rand` crate's.
pub mod History
pub mod Regions
pub mod Known
use hier_kv_gateway.Prelude.{
  ℕ, zero, suc, Bool, true, false, Option, none, some, List, [], ◌∷◌, ◌++◌, if◌then◌else◌, ltb, not,
  String, map, take, keep, length, dec→Bool,
}
use hier_kv_gateway.Ids.{InstanceId, InstanceId_discrete, RegionId, RegionId_discrete}
use hier_kv_gateway.HashMap.{lookup, insert}
use hier_kv_gateway.Interface.DashMap.{DashMap}

pub data MemberStatus : Type 0 where
  alive : MemberStatus
  suspect : MemberStatus
  dead : MemberStatus

abbrev pub is_alive : MemberStatus → Bool
is_alive alive = true
is_alive suspect = false
is_alive dead = false

-- `MetaDigest` of messages.rs.
pub record MetaDigest : Type 0 where
  pub kv_version : ℕ
  pub model_version : ℕ
  pub load_version : ℕ
  pub topology_version : ℕ
  pub members_version : ℕ

pub record ClusterMember : Type 0 where
  pub instance_id : InstanceId
  pub region : RegionId
  pub addr : String
  pub last_pong_unix : ℕ
  pub status : MemberStatus
  pub meta_digest : MetaDigest

abbrev pub new_member : ℕ → InstanceId → RegionId → String → MetaDigest → ClusterMember
new_member now instance_id region addr meta_digest = record {
  instance_id = instance_id;
  region = region;
  addr = addr;
  last_pong_unix = now;
  status = alive;
  meta_digest = meta_digest;
}

abbrev pub values : List (InstanceId × ClusterMember) → List ClusterMember
values l = map (λ e. e.1) l

-- The buckets of `foreign_alive_per_region`, in a hash map by region.
abbrev pub Buckets : Type 0
Buckets = List (RegionId × List ClusterMember)

abbrev pub or_default : {A : Type 0} → Option (List A) → List A
or_default none = []
or_default (some l) = l

abbrev pub or_zero : Option ℕ → ℕ
or_zero none = 0
or_zero (some n) = n

-- One round of the loop of `foreign_alive_per_region`.
unfoldable pub add_foreign : RegionId → ℕ → Buckets → ClusterMember → Buckets
add_foreign self_region n by_region m =
    let bucket = or_default (lookup RegionId_discrete m.region by_region) in
    if dec→Bool (RegionId_discrete m.region self_region)
    then by_region
    else if ltb (length bucket) n
    then insert RegionId_discrete m.region (bucket ++ m ∷ []) by_region
    else insert RegionId_discrete m.region bucket by_region

unfoldable pub add_all_foreign : RegionId → ℕ → Buckets → List ClusterMember → Buckets
add_all_foreign self_region n by_region [] = by_region
add_all_foreign self_region n by_region (m ∷ ms) =
    add_all_foreign self_region n (add_foreign self_region n by_region m) ms

-- The loop of `region_counts`.
unfoldable pub count_all : List (RegionId × ℕ) → List ClusterMember → List (RegionId × ℕ)
count_all counts [] = counts
count_all counts (m ∷ ms) =
    count_all
      (insert RegionId_discrete m.region (suc (or_zero (lookup RegionId_discrete m.region counts)))
        counts)
      ms

-- `dedup` on the elements after `r`: an element equal to the one before it goes.
unfoldable pub dedup_after : RegionId → List RegionId → List RegionId
dedup_after r [] = []
dedup_after r (s ∷ ss) =
    if dec→Bool (RegionId_discrete s r) then dedup_after r ss else s ∷ dedup_after s ss

unfoldable pub dedup : List RegionId → List RegionId
unfolding dedup_after
dedup [] = []
dedup (r ∷ rs) = r ∷ dedup_after r rs

abbrev pub regions_of : List ClusterMember → List RegionId
regions_of ms = map (λ m. m.region) ms

module _ {M : Type 0} (d : DashMap M InstanceId_discrete ClusterMember) where
  unfoldable pub new : M
  new = d.empty

  unfoldable pub upsert : ClusterMember → M → M
  upsert member members = d.insert member.instance_id member members

  -- `get_mut` and a write through it.
  unfoldable pub modify : (ClusterMember → ClusterMember) → InstanceId → M → M
  modify f instance_id members = elim (d.get instance_id members) [
    | none ↦ members
    | some m ↦ d.insert instance_id (f m) members
  ]

  unfoldable pub update_pong : ℕ → InstanceId → MetaDigest → M → M
  update_pong now instance_id digest members =
      modify (λ m. record m { last_pong_unix = now; status = alive; meta_digest = digest })
        instance_id members

  unfoldable pub mark_suspect : InstanceId → M → M
  mark_suspect instance_id members = modify (λ m. record m { status = suspect }) instance_id members

  unfoldable pub mark_dead : InstanceId → M → M
  mark_dead instance_id members = modify (λ m. record m { status = dead }) instance_id members

  unfoldable pub get : InstanceId → M → Option ClusterMember
  get instance_id members = d.get instance_id members

  unfoldable pub all_members : M → List ClusterMember
  all_members members = values (d.entries members)

  unfoldable pub alive_members : M → List ClusterMember
  alive_members members = keep (λ m. is_alive m.status) (values (d.entries members))

  unfoldable pub random_members :
      (List ClusterMember → List ClusterMember) → ℕ → M → List ClusterMember
  random_members shuffle n members = elim (alive_members members) [
    | [] ↦ []
    | m ∷ ms ↦ take n (shuffle (m ∷ ms))
  ]

  unfoldable pub len : M → ℕ
  len members = length (d.entries members)

  unfoldable pub remove : InstanceId → M → M × Option ClusterMember
  remove instance_id members = (d.remove instance_id members, d.get instance_id members)

  unfoldable pub alive_in_region : RegionId → M → List ClusterMember
  alive_in_region region members =
      keep (λ m. dec→Bool (RegionId_discrete m.region region)) (alive_members members)

  unfoldable pub foreign_alive : RegionId → M → List ClusterMember
  foreign_alive self_region members =
      keep (λ m. not (dec→Bool (RegionId_discrete m.region self_region))) (alive_members members)

  unfoldable pub foreign_alive_per_region : RegionId → ℕ → M → Buckets
  foreign_alive_per_region self_region n members =
      add_all_foreign self_region n [] (alive_members members)

  unfoldable pub region_counts : M → List (RegionId × ℕ)
  region_counts members = count_all [] (alive_members members)

  unfoldable pub alive_count : M → ℕ
  alive_count members = length (alive_members members)

  -- `sort` is the standard library's `sort`.
  unfoldable pub known_regions : (List RegionId → List RegionId) → M → List RegionId
  known_regions sort members = dedup (sort (regions_of (alive_members members)))

  unfoldable pub foreign_regions : (List RegionId → List RegionId) → RegionId → M → List RegionId
  foreign_regions sort self_region members = dedup (
      sort (
        keep (λ r. not (dec→Bool (RegionId_discrete r self_region)))
          (regions_of (alive_members members))))
