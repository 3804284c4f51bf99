-- ===== src/Tests/Clusters.antt =====
-- Two processes and one lease table: the second takes a router over when the first's lease has expired.
use go_xidized.Prelude.{ℕ, pos, codes, [], ◌∷◌, none}
use go_xidized.Scheduler.Lease.{WorkerLease}
use go_xidized.Scheduler.System.{System, enqueue}
use go_xidized.Scheduler.System.Cluster.{Nodes, Cluster, started_nodes, after, with_table}
use go_xidized.Metadata.Leases.{LeaseDb, lease_store}
use go_xidized.Tests.Jobs.{config, request}

-- A worker id is one number.
abbrev nodes : Nodes
nodes = record {
  host = λ i. [];
  cfg = λ i. record config { worker_id = i ∷ []; lease_ttl = pos 30_000 };
  workers = λ i. pos 1;
}

abbrev empty : LeaseDb
empty = record { rows = λ id. none; outcomes = [] }

abbrev submitted : ℕ → ℕ → Cluster → System LeaseDb
submitted i now c = (enqueue lease_store [] now request (with_table c.db (c.node i))).1

abbrev first : Cluster
first = let c = started_nodes nodes 5_000 empty in after 0 (submitted 0 5_000 c) c

abbrev later : Cluster
later = record first { now = 50_000 }

abbrev second : Cluster
second = after 1 (submitted 1 50_000 later) later

abbrev lease_of_second : WorkerLease
lease_of_second = record {
  target_id = codes "r1";
  worker_id = 1 ∷ [];
  job_id = codes "j1";
  now = 50_000;
  expires_at = 80_000;
}
