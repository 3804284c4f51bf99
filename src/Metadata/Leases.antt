-- ===== src/Metadata/Leases.antt =====
-- internal/metadata/postgres/store.go: the statements on the table of worker leases, whose key is the
-- target. Each statement is one step, as in the database; the times are those of the caller's clock,
-- which the database gets in whole microseconds.
pub mod Held
use go_xidized.Prelude.{
  Bool, true, false, ◌&&◌, ◌||◌, Text, is_empty, text_eq, List, [], ◌∷◌, Option, none, some, ltb,
  leb, if◌then◌else◌,
}
use go_xidized.Types.{Time}
use go_xidized.Scheduler.Lease.{
  WorkerLease, LeaseReply, granted, denied, failed, LeaseStore, LeaseError, validate,
}
use go_xidized.Scheduler.Manager.{update}
use go_xidized.Metadata.{micros, Outcome, works, lost, unanswered}

pub record LeaseRow : Type 0 where
  pub worker_id : Text
  pub job_id : Text
  pub expires_at : Time
  pub updated_at : Time

abbrev pub Rows : Type 0
Rows = Text → Option LeaseRow

-- The table, and the outcomes of the statements to come; a statement past their end works.
pub record LeaseDb : Type 0 where
  pub rows : Rows
  pub outcomes : List Outcome

abbrev pub is_holder : WorkerLease → LeaseRow → Bool
is_holder l r = text_eq r.worker_id l.worker_id && text_eq r.job_id l.job_id

abbrev pub is_free : WorkerLease → Option LeaseRow → Bool
is_free l none = true
is_free l (some r) = leb r.expires_at (micros l.now) || is_holder l r

abbrev pub row_of : WorkerLease → LeaseRow
row_of l = record {
  worker_id = l.worker_id;
  job_id = l.job_id;
  expires_at = micros l.expires_at;
  updated_at = micros l.now;
}

-- `INSERT … ON CONFLICT (target_id) DO UPDATE … WHERE … RETURNING target_id`, and whether it returns a
-- row.
unfoldable pub insert_lease : WorkerLease → Rows → Bool × Rows
insert_lease l rows =
    if is_free l (rows l.target_id)
    then (true, update rows l.target_id (some (row_of l)))
    else (false, rows)

abbrev pub is_renewable : WorkerLease → Option LeaseRow → Bool
is_renewable l none = false
is_renewable l (some r) = is_holder l r && ltb (micros l.now) r.expires_at

abbrev pub renewed : WorkerLease → Option LeaseRow → Option LeaseRow
renewed l none = none
renewed l (some r) = some (record r { expires_at = micros l.expires_at; updated_at = micros l.now })

-- `UPDATE … WHERE …`, and whether it affects one row.
unfoldable pub update_lease : WorkerLease → Rows → Bool × Rows
update_lease l rows =
    if is_renewable l (rows l.target_id)
    then (true, update rows l.target_id (renewed l (rows l.target_id)))
    else (false, rows)

abbrev pub is_held : WorkerLease → Option LeaseRow → Bool
is_held l none = false
is_held l (some r) = is_holder l r

-- `DELETE … WHERE …`
unfoldable pub delete_row : WorkerLease → Rows → Bool × Rows
delete_row l rows =
    if is_held l (rows l.target_id) then (true, update rows l.target_id none) else (false, rows)

abbrev pub executed : Outcome → Bool × Rows → Rows → LeaseReply × Rows
executed works (true, after) before = (granted, after)
executed works (false, after) before = (denied, after)
executed (lost e) (b, after) before = (failed, before)
executed (unanswered e) (b, after) before = (failed, after)

abbrev pub answered : List Outcome → Bool × Rows → Rows → LeaseReply × LeaseDb
answered [] p before =
    let (reply, rows) = executed works p before in (reply, record { rows = rows; outcomes = [] })
answered (o ∷ os) p before =
    let (reply, rows) = executed o p before in (reply, record { rows = rows; outcomes = os })

-- A statement after the check of its lease.
unfoldable pub checked : Option LeaseError → (Rows → Bool × Rows) → LeaseDb → LeaseReply × LeaseDb
checked (some e) statement db = (failed, db)
checked none statement db = answered db.outcomes (statement db.rows) db.rows

unfoldable pub try_acquire_lease : WorkerLease → LeaseDb → LeaseReply × LeaseDb
unfolding checked validate insert_lease
try_acquire_lease l db = checked (validate l) (insert_lease l) db

unfoldable pub renew_lease : WorkerLease → LeaseDb → LeaseReply × LeaseDb
unfolding checked validate update_lease
renew_lease l db = checked (validate l) (update_lease l) db

-- The caller drops the error.
unfoldable pub release_lease : WorkerLease → LeaseDb → LeaseDb
unfolding checked delete_row
release_lease l db =
    if is_empty l.target_id || is_empty l.worker_id || is_empty l.job_id
    then db
    else (checked none (delete_row l) db).1

-- What the manager takes for its lease store.
abbrev pub lease_store : LeaseStore LeaseDb
lease_store = record {
  try_acquire = try_acquire_lease;
  renew = renew_lease;
  release = release_lease;
}
