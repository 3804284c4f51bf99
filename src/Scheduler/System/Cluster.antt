-- ===== src/Scheduler/System/Cluster.antt =====
-- Several processes, each with its manager (manager.go), that share the lease table of
-- internal/metadata/postgres/store.go. Their clocks agree.
pub mod Exclusion
pub mod Moves
use go_xidized.Prelude.{◌≡◌, ℕ, ◌==◌, ℤ, Bool, Text, Option, some, if◌then◌else◌, ◌≤◌}
use go_xidized.Types.{Time}
use go_xidized.Scheduler.Config.{Config, normalize}
use go_xidized.Scheduler.System.{
  System, Event, submit, send, cancel_send, take, acquire, cancel_acquire, cancel_limiter, handled,
  release, leave, fire, cancel_timer, renew, start, step,
}
use go_xidized.Metadata.Leases.{LeaseDb, lease_store}

-- How each process was started.
pub record Nodes : Type 0 where
  pub host : ℕ → Text
  pub cfg : ℕ → Config
  pub workers : ℕ → ℤ

-- Each node's own copy of the table is out of date between its steps.
pub record Cluster : Type 0 where
  pub now : Time
  pub db : LeaseDb
  pub node : ℕ → System LeaseDb

unfoldable pub started_nodes : Nodes → Time → LeaseDb → Cluster
unfolding start
started_nodes ns now db = record {
  now = now;
  db = db;
  node = λ i. start lease_store (ns.host i) (ns.cfg i) (ns.workers i) db;
}

-- The event reads the clock at this time, if at all.
abbrev pub IsAt : Time → Event → Type 0
IsAt now (submit new_id t req) = t ≡ now
IsAt now (handled i status t) = t ≡ now
IsAt now (fire i new_id t) = t ≡ now
IsAt now (renew t) = t ≡ now
IsAt now _ = Unit

abbrev pub set_node : ℕ → System LeaseDb → (ℕ → System LeaseDb) → ℕ → System LeaseDb
set_node i s node j = if i == j then s else node j

-- A process with the table as it is now.
abbrev pub with_table : LeaseDb → System LeaseDb → System LeaseDb
with_table db s = record s { store = db }

abbrev pub after : ℕ → System LeaseDb → Cluster → Cluster
after i s c = record c { db = s.store; node = set_node i s c.node }

-- What a cluster can come to: time passes, or one process makes a step.
pub data Reaches (ns : Nodes) : Cluster → Type 0 where
  starts : (now : Time) (db : LeaseDb) → Reaches ns (started_nodes ns now db)
  waits : {c : Cluster} → Reaches ns c → (t : Time) → c.now ≤ t → Reaches ns (record c { now = t })
  moves :
      {c : Cluster}
      → Reaches ns c
      → (i : ℕ) (e : Event) → IsAt c.now e
      → {s : System LeaseDb} → step lease_store (with_table c.db (c.node i)) e ≡ some s
      → Reaches ns (after i s c)

-- `scheduler.Config.WorkerID` after its default.
abbrev pub worker_id : Nodes → ℕ → Text
worker_id ns i = (normalize (ns.host i) (ns.cfg i)).worker_id

-- No two processes have one worker id.
abbrev pub IsDistinct : Nodes → Type 0
IsDistinct ns = (i j : ℕ) → worker_id ns i ≡ worker_id ns j → i ≡ j
