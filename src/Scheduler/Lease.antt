-- ===== src/Scheduler/Lease.antt =====
-- internal/scheduler/lease.go: worker leases and the interface of the store that grants them.
use go_xidized.Prelude.{Text, Option, none, some, is_empty, ltb, ◌==◌, if◌then◌else◌}
use go_xidized.Types.{Time}

pub record WorkerLease : Type 0 where
  pub target_id : Text
  pub worker_id : Text
  pub job_id : Text
  pub now : Time
  pub expires_at : Time

-- The pair `(bool, error)`: `failed` is an error, `denied` is `false` with no error.
pub data LeaseReply : Type 0 where
  granted denied failed : LeaseReply

-- `σ` is the state of the store, which other processes share.
pub record LeaseStore (σ : Type 0) : Type 0 where
  pub try_acquire : WorkerLease → σ → LeaseReply × σ
  pub renew : WorkerLease → σ → LeaseReply × σ
  pub release : WorkerLease → σ → σ

pub data LeaseError : Type 0 where
  no_target no_worker no_job no_now not_after_now : LeaseError

unfoldable pub validate : WorkerLease → Option LeaseError
validate l =
    if is_empty l.target_id
    then some no_target
    else if is_empty l.worker_id
    then some no_worker
    else if is_empty l.job_id
    then some no_job
    else if l.now == 0
    then some no_now
    else if l.expires_at == 0
    then some not_after_now
    else if ltb l.now l.expires_at
    then none
    else some not_after_now
