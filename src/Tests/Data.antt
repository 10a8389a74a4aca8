-- ===== src/Tests/Data.antt =====
-- Backends, sessions and the maps that the tests share.
use Prim.Native.String.{len}
use hier_kv_gateway.Prelude.{arith, ◌≢◌, ap}
use hier_kv_gateway.Ids.{BackendId, RegionId}
use hier_kv_gateway.Core.KvEvent.{WorkerWithRank}

abbrev pub edge : RegionId
edge = record { name = "edge" }

abbrev pub cloud : RegionId
cloud = record { name = "cloud" }

abbrev pub backend_a : BackendId
backend_a = record { region = edge; instance_id = record { name = "gpu_one" } }

abbrev pub backend_b : BackendId
backend_b = record { region = edge; instance_id = record { name = "gpu_three" } }

pub backend_a≢backend_b : backend_a ≢ backend_b
backend_a≢backend_b p = omega (arith, ap (λ b. len b.instance_id.name) p)

abbrev pub worker : WorkerWithRank
worker = record { worker_id = 7; dp_rank = 0 }
