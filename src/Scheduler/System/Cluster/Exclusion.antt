-- ===== src/Scheduler/System/Cluster/Exclusion.antt =====
-- manager.go over the lease table of store.go: one process at a time has a target's lease.
use go_xidized.Prelude.{◌≡◌, ℕ, Text}
use go_xidized.Types.{Time}
use go_xidized.Scheduler.Manager.{Manager}
use go_xidized.Scheduler.Manager.Leases.Shared.{Owns}
use go_xidized.Scheduler.System.{System}
use go_xidized.Scheduler.System.Cluster.{Nodes, Cluster, worker_id}
use go_xidized.Metadata.Leases.{LeaseDb}

-- The process has its worker id, and its leases are held in the table.
abbrev IsMember : Text → Time → Manager → LeaseDb → Type 0
IsMember w now m db = (m.cfg.worker_id ≡ w) × Owns now m db

abbrev IsSound : Nodes → Cluster → Type 0
IsSound ns c = (i : ℕ) → IsMember (worker_id ns i) c.now (c.node i).mgr c.db
