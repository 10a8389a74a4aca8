-- ===== src/Tests/Admission.antt =====
-- Request coalescing and the admission of tenants at concrete inputs. `f64` and the shared futures are
-- natural numbers here.
use hier_kv_gateway.Prelude.{
  ℕ, ◌+◌, ◌-◌, ◌*◌, ◌/◌, ◌%◌, ◌^◌, ◌≡◌, refl, min, max, true, false, some, List, [], ◌∷◌, leb, ltb,
  ℕ_discrete,
}
use hier_kv_gateway.Ids.{TenantId, TenantId_discrete}
use hier_kv_gateway.HashMap.{lookup, insert, remove}
use hier_kv_gateway.Interface.DashMap.Assoc.{assoc_map, dedup}
use hier_kv_gateway.Api.Coalescer.{
  CoalescingConfig, SharedHandle, RequestCoalescer, Attachment, waiter, leader, no_stats, is_full,
  attach, after_await, wake, schedule_cleanup,
}
use hier_kv_gateway.Api.Coalescer as Coalescer
use hier_kv_gateway.Api.Coalescer.Flights.{
  Action, call, resumed, run, calls, forwards, NeverRemoves, removes, attach-single_flight,
  run-forwards,
}
use hier_kv_gateway.Routing.TenantScheduler.{
  Float, premium, TenantConfig, TenantQuotaConfig, TenantBucket, TenantScheduler, admitted, queued,
  is_premium, get_or_create_bucket, check_admission, try_consume, update_capacity, bucket_of,
  tenant_bucket, resolve_quota, quota_in, new_bucket, refill, by_concurrency, by_priority,
  record_request_start, total_reserved_fraction, reserved_sum,
}
use hier_kv_gateway.Routing.TenantScheduler as Tenants
use hier_kv_gateway.Routing.TenantScheduler.Admission.{
  tokens_at, IsAllowed, check_admission-admitted,
}
use hier_kv_gateway.Routing.TenantScheduler.Isolation.{
  Call, check, start, finish, act_all, own_calls, get-act_all,
}

abbrev Handles : Type 0
Handles = List (ℕ × SharedHandle ℕ)

abbrev config : CoalescingConfig
config = record { enabled = true; ttl_ms = 0; max_inflight = 2 }

abbrev flying : RequestCoalescer Handles
flying = record {
  inflight = (1, record { future = 100; inserted_at = 0 }) ∷ [];
  stats = no_stats;
  pending = [];
}

abbrev actions : List (Action ℕ)
actions = call 1 101 5 ∷ call 2 200 6 ∷ resumed (leader 200) 2 ∷ []

actions_keep : NeverRemoves (assoc_map ℕ_discrete) config 1 actions
unfolding removes
actions_keep = (refl, (refl, (refl, tt)))

room_left :
    is_full (assoc_map ℕ_discrete) config (run (assoc_map ℕ_discrete) config actions flying).1
    ≡ false
unfolding run attach after_await schedule_cleanup lookup insert remove ℕ_discrete dedup
room_left = refl

entry_1 :
    (assoc_map ℕ_discrete).get 1 flying.inflight ≡ some (record { future = 100; inserted_at = 0 })
unfolding lookup ℕ_discrete
entry_1 = refl

attach-single_flight_example :
    (attach
      (assoc_map ℕ_discrete)
      config
      1
      300
      9
      (run (assoc_map ℕ_discrete) config actions flying).1).0
    ≡ waiter 100
attach-single_flight_example =
    attach-single_flight (assoc_map ℕ_discrete) config 1 (record { future = 100; inserted_at = 0 })
      actions flying 300 9 entry_1 actions_keep room_left

abbrev all_counted : RequestCoalescer Handles
all_counted =
    (run (assoc_map ℕ_discrete) config actions (Coalescer.new (assoc_map ℕ_discrete) config)).1

abbrev attached : List (Attachment ℕ)
attached =
    (run (assoc_map ℕ_discrete) config actions (Coalescer.new (assoc_map ℕ_discrete) config)).0

run-forwards_example :
    ((all_counted.stats.leaders + all_counted.stats.bypassed) % 2 ^ 64 ≡ forwards attached % 2 ^ 64)
    × ((all_counted.stats.forwards_saved + forwards attached) % 2 ^ 64 ≡ calls actions % 2 ^ 64)
run-forwards_example = run-forwards (assoc_map ℕ_discrete) config actions

after_leader :
    is_full
      (assoc_map ℕ_discrete)
      config
      (after_await (assoc_map ℕ_discrete) config (leader 100) 1 flying)
    ≡ false
unfolding after_await schedule_cleanup lookup remove ℕ_discrete dedup
after_leader = refl

-- Numbers of tenths: the threshold is 0.8.
abbrev tenths : Float ℕ
tenths = record {
  add = λ a b. a + b;
  sub = λ a b. a - b;
  mul = λ a b. a * b / 10;
  div = λ a b. a * 10 / max b 1;
  min_of = min;
  max_of = max;
  le = leb;
  lt = ltb;
  of_u64 = λ n. n * 10;
  as_secs = λ n. n / 100_000_000;
  ceil_u64 = λ n. (n + 9) / 10;
  zero_point_eight = 8;
  zero_point_nine = 9;
  smallest_rate = 1;
  max_value = 1_000_000;
}

abbrev tenants : TenantConfig ℕ
tenants = record {
  enabled = true;
  default_max_rps = some 100;
  default_max_concurrent = some 2;
  saturation_threshold = 8;
  tenants = [];
}

abbrev acme : TenantId
acme = record { name = "acme" }

abbrev Buckets : Type 0
Buckets = List (TenantId × TenantBucket ℕ)

abbrev idle : TenantScheduler ℕ Buckets
idle = Tenants.new tenths (assoc_map TenantId_discrete) tenants

abbrev busy : TenantScheduler ℕ Buckets
busy = record idle { used_capacity = 100 }

idle_admits : (check_admission tenths (assoc_map TenantId_discrete) acme 0 idle).0 ≡ admitted
unfolding check_admission get_or_create_bucket bucket_of tenant_bucket resolve_quota quota_in
    new_bucket try_consume refill by_concurrency by_priority total_reserved_fraction reserved_sum
    lookup insert
idle_admits = refl

busy_queues : (check_admission tenths (assoc_map TenantId_discrete) acme 0 busy).0 ≡ queued
unfolding check_admission get_or_create_bucket bucket_of tenant_bucket resolve_quota quota_in
    new_bucket try_consume refill by_concurrency by_priority total_reserved_fraction reserved_sum
    lookup insert dedup remove
busy_queues = refl

check_admission-admitted_example :
    let dm = assoc_map TenantId_discrete in
    let b = get_or_create_bucket tenths dm acme 0 idle in
    (tenths.le (tenths.of_u64 1) (tokens_at tenths dm 0 b.bucket) ≡ true)
    × (c : TenantBucket ℕ) × (dm.get acme
          (record_request_start tenths dm acme 7 (check_admission tenths dm acme 0 idle).1).buckets
        ≡ some c)
    × (c.quota ≡ b.quota)
    × (c.bucket.tokens ≡ tenths.sub (tokens_at tenths dm 0 b.bucket) (tenths.of_u64 1))
    × IsAllowed tenths dm b.quota.max_concurrent c.in_flight
check_admission-admitted_example =
    check_admission-admitted tenths (assoc_map TenantId_discrete) acme 0 7 idle refl idle_admits

abbrev traffic : List Call
traffic = check acme 0 ∷ start acme 0 ∷ finish (record { name = "other" }) ∷ finish acme ∷ []

get-act_all_example :
    (assoc_map TenantId_discrete).get acme
      (act_all tenths (assoc_map TenantId_discrete) traffic idle).buckets
    ≡ own_calls tenths
        (assoc_map TenantId_discrete)
        idle.config
        acme
        traffic
        ((assoc_map TenantId_discrete).get acme idle.buckets)
get-act_all_example = get-act_all tenths (assoc_map TenantId_discrete) acme traffic idle
