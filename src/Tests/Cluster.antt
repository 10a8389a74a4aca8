-- ===== src/Tests/Cluster.antt =====
-- The crate crates/hier-kv-gateway-cluster at concrete inputs.
use Prim.Native.String.{len}
use hier_kv_gateway.Prelude.{
  ℕ, ◌≡◌, ◌≢◌, refl, true, false, List, [], ◌∷◌, String, arith, inr, ℕ_discrete, ap,
}
use hier_kv_gateway.Ids.{
  BackendId, BackendId_discrete, InstanceId, InstanceId_discrete, SessionId, SessionId_discrete,
  String_discrete,
}
use hier_kv_gateway.HashMap.{lookup}
use hier_kv_gateway.Interface.DashMap.{DashMap}
use hier_kv_gateway.Interface.DashMap.Assoc.{assoc_map}
use hier_kv_gateway.Cluster.SharedState.{
  InstanceEntry, PrefixDispatchEntry, LocalSharedState, expiry_at, try_lock,
}
use hier_kv_gateway.Cluster.SharedState.Locks.{lock_at, release, lock_calls, try_lock_excludes}
use hier_kv_gateway.Cluster.Member.{ClusterMember, MetaDigest, new_member, get}
use hier_kv_gateway.Cluster.Member.History.{
  MemberCall, upserted, ponged, marked_suspect, marked_dead, member_calls, member_steps,
  get-member_calls,
}
use hier_kv_gateway.Tests.Data.{edge, cloud}

abbrev di :
    DashMap (List (InstanceId × (InstanceEntry × ℕ))) InstanceId_discrete (InstanceEntry × ℕ)
di = assoc_map InstanceId_discrete

abbrev ds : DashMap (List (SessionId × (BackendId × ℕ))) SessionId_discrete (BackendId × ℕ)
ds = assoc_map SessionId_discrete

abbrev dp : DashMap (List (ℕ × (PrefixDispatchEntry × ℕ))) ℕ_discrete (PrefixDispatchEntry × ℕ)
dp = assoc_map ℕ_discrete

abbrev dl : DashMap (List (String × (String × ℕ))) String_discrete (String × ℕ)
dl = assoc_map String_discrete

-- The metrics are numbers here.
abbrev db : DashMap (List (BackendId × (ℕ × ℕ))) BackendId_discrete (ℕ × ℕ)
db = assoc_map BackendId_discrete

abbrev start :
    LocalSharedState
      (List (InstanceId × (InstanceEntry × ℕ)))
      (List (SessionId × (BackendId × ℕ)))
      (List (ℕ × (PrefixDispatchEntry × ℕ)))
      (List (String × (String × ℕ)))
      (List (BackendId × (ℕ × ℕ)))
start = record { instances = []; sessions = []; prefix_history = []; locks = []; metrics = [] }

got : (try_lock di ds dp dl db 100 start "key" "holder" 60).1 ≡ true
unfolding try_lock lookup
got = refl

other≢holder : ◌≢◌ {A = String} "other_one" "holder"
other≢holder p = omega (arith, ap len p)

try_lock_excludes_example :
    (try_lock di ds dp dl db 130
      (lock_calls di ds dp dl db
        (try_lock di ds dp dl db 100 start "key" "holder" 60).0
        (lock_at 110 "key" "other_one" 60 ∷ release "key" "other_one" ∷ []))
      "key"
      "other_one"
      60).1
    ≡ false
unfolding expiry_at
try_lock_excludes_example =
    try_lock_excludes di ds dp dl db start 100 60 "key" "holder"
      (lock_at 110 "key" "other_one" 60 ∷ release "key" "other_one" ∷ []) 130 60 "other_one" got
      ((omega arith, inr other≢holder), (inr other≢holder, tt)) (omega arith) other≢holder

abbrev members_map : DashMap (List (InstanceId × ClusterMember)) InstanceId_discrete ClusterMember
members_map = assoc_map InstanceId_discrete

abbrev digest : MetaDigest
digest = record {
  kv_version = 0;
  model_version = 0;
  load_version = 0;
  topology_version = 0;
  members_version = 0;
}

abbrev one : InstanceId
one = record { name = "one" }

abbrev two : InstanceId
two = record { name = "two" }

abbrev calls : List MemberCall
calls =
    upserted (new_member 10 one edge "h:1" digest)
    ∷ upserted (new_member 11 two cloud "h:2" digest)
    ∷ marked_suspect one
    ∷ ponged 20 one digest
    ∷ marked_dead two
    ∷ ponged 30 two digest
    ∷ []

get-member_calls_example :
    get members_map one (member_calls members_map calls [])
    ≡ member_steps one calls (get members_map one [])
get-member_calls_example = get-member_calls members_map one calls []
