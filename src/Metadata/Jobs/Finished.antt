-- ===== src/Metadata/Jobs/Finished.antt =====
-- store.go: a job from its start to its result.
use go_xidized.Prelude.{
  ◌≡◌, ◌≢◌, refl, sym, ap, ◌∙◌, subst, Bool, true, false, Text, text_eq, text_eq_iff, List, [], ◌∷◌,
  map, any, keep_if, All, Bool-cases, inl, inr, arith,
}
use go_xidized.Types.{Time, Job, JobStatus}
use go_xidized.Types.Errors.{GoError, Result, ok}
use go_xidized.Metadata.{micros, Statement, plainly, Database, statement, select}
use go_xidized.Metadata.Statements.{
  statement_ind, statement-ok, each_after, transaction-ok, transaction_ind,
}
use go_xidized.Metadata.Jobs.{
  JobRow, JobResult, JobTables, or_time, started_job, stored_job, insert_job, record_job_start,
  finished_row, update_jobs, insert_result, result_row, record_job_finish, get_job,
}

abbrev is_job : Text → JobRow → Bool
is_job id r = text_eq r.job.id id

-- The one row of the job.
abbrev IsOnly : Text → JobRow → JobTables → Type 0
IsOnly id row t = keep_if (is_job id) t.jobs ≡ row ∷ []

-- What a backup makes the store do with its jobs.
pub data JobCall : Type 0 where
  start : Text → Time → Job → JobCall
  finish : Time → JobResult → JobCall

-- The job that the call is about.
abbrev pub job_of : JobCall → Text
job_of (start new_id now job) = (started_job new_id now job).id
job_of (finish now r) = r.job_id

keep_if-none : (p : JobRow → Bool) (rows : List JobRow) → any p rows ≡ false → keep_if p rows ≡ []
keep_if-none p [] h = refl
keep_if-none p (r ∷ rows) h = ground (arith, keep_if-none p rows)

finished_row-id :
    (id : Text) (s : JobStatus) (t : Time) (r : JobRow) → (finished_row id s t r).job.id ≡ r.job.id
finished_row-id id s t r = elim (Bool-cases (is_job id r)) [
  | inl same ↦ simp same refl
  | inr other ↦ simp other refl
]

-- An update of a job's rows is one of the rows that are found under its id.
keep_if-finished :
    (id key : Text) (s : JobStatus) (t : Time) (rows : List JobRow)
    → keep_if (is_job key) (map (finished_row id s t) rows)
      ≡ map (finished_row id s t) (keep_if (is_job key) rows)
keep_if-finished id key s t [] = refl
keep_if-finished id key s t (r ∷ rows) = elim (Bool-cases (is_job key r)) [
  | inl here ↦ rw (finished_row-id id s t r, here, keep_if-finished id key s t rows) refl
  | inr apart ↦ rw (finished_row-id id s t r, apart) (keep_if-finished id key s t rows)
]

finished-IsOnly :
    (id key : Text) (s : JobStatus) (at_time : Time) (row : JobRow) (t : JobTables)
    → IsOnly key row t
    → IsOnly key (finished_row id s at_time row) (update_jobs id s at_time t).1
finished-IsOnly id key s at_time row t h =
    keep_if-finished id key s at_time t.jobs ∙ ap (map (finished_row id s at_time)) h

text_eq-apart : (s t : Text) → s ≢ t → text_eq s t ≡ false
text_eq-apart s t h = elim (Bool-cases (text_eq s t)) [
  | inl same ↦ absurd (h ((text_eq_iff s t).0 same))
  | inr other ↦ other
]

finished_row-other :
    (id : Text) (s : JobStatus) (t : Time) (r : JobRow) → r.job.id ≢ id → finished_row id s t r ≡ r
finished_row-other id s t r h = simp (text_eq-apart r.job.id id h)

-- The statements of `record_job_finish`.
abbrev finishing : (GoError → Text) → Time → JobResult → List (Statement JobTables)
finishing error_text now r =
    plainly (update_jobs r.job_id r.status (or_time r.finished_at now))
    ∷ plainly (insert_result (result_row error_text now r))
    ∷ []

module _ (error_text : GoError → Text) where
  abbrev pub job_call : JobCall → Database JobTables → Database JobTables
  job_call (start new_id now job) db = (record_job_start new_id now job db).1
  job_call (finish now r) db = (record_job_finish error_text now r db).1

  abbrev pub job_calls : List JobCall → Database JobTables → Database JobTables
  job_calls [] db = db
  job_calls (c ∷ cs) db = job_calls cs (job_call c db)

  -- Calls about other jobs leave the row.
  job_call-IsOnly :
      (key : Text) (row : JobRow) (c : JobCall) (db : Database JobTables)
      → job_of c ≢ key
      → row.job.id ≡ key
      → IsOnly key row db.tables
      → IsOnly key row (job_call c db).tables
  unfolding record_job_start record_job_finish
  job_call-IsOnly key row (start new_id now job) db apart named h =
      statement_ind (insert_job now (started_job new_id now job)) db (IsOnly key row) h
        (rw (text_eq-apart _ key apart) h)
  job_call-IsOnly key row (finish now r) db apart named h =
      transaction_ind (IsOnly key row) (finishing error_text now r) db h (
        subst (λ x. IsOnly key x (each_after (finishing error_text now r) db.tables))
          (finished_row-other r.job_id r.status (or_time r.finished_at now) row
            (λ e. apart (sym e ∙ named)))
          (finished-IsOnly r.job_id key r.status (or_time r.finished_at now) row db.tables h))

  job_calls-IsOnly :
      (key : Text) (row : JobRow) (cs : List JobCall) (db : Database JobTables)
      → All (λ c. job_of c ≢ key) cs
      → row.job.id ≡ key
      → IsOnly key row db.tables
      → IsOnly key row (job_calls cs db).tables
  job_calls-IsOnly key row [] db apart named h = h
  job_calls-IsOnly key row (c ∷ cs) db (apart, rest) named h =
      job_calls-IsOnly key row cs (job_call c db) rest named
        (job_call-IsOnly key row c db apart named h)

  get_job-only :
      (no_rows : GoError) (key : Text) (row : JobRow) (db : Database JobTables)
      → db.outcomes ≡ []
      → IsOnly key row db.tables
      → (get_job no_rows key db).0 ≡ ok row.job
  unfolding get_job select statement
  get_job-only no_rows key row db working h = rw (working, h) refl

  -- The start of a job, other calls, and its finish.
  abbrev pub run_job :
      Text
      → Time
      → Job
      → List JobCall
      → Time
      → JobResult
      → Database JobTables
      → Result Text × Database JobTables
  run_job new_id now job cs later r db =
      record_job_finish error_text later r (job_calls cs (record_job_start new_id now job db).1)

  start-IsOnly :
      (new_id : Text) (now : Time) (job : Job) (db : Database JobTables) {started : Job}
      → any (is_job (started_job new_id now job).id) db.tables.jobs ≡ false
      → (record_job_start new_id now job db).0 ≡ ok started
      → IsOnly
          (started_job new_id now job).id
          (record { job = stored_job (started_job new_id now job); created_at = micros now })
          (record_job_start new_id now job db).1.tables
  unfolding record_job_start
  start-IsOnly new_id now job db fresh begun =
      let key = (started_job new_id now job).id in
      let row : JobRow = record {
        job = stored_job (started_job new_id now job);
        created_at = micros now;
      } in
      let (same, stored) = statement-ok (insert_job now (started_job new_id now job)) db begun in
      let mine : is_job key row ≡ true = (text_eq_iff key key).1 refl in
      subst (IsOnly key row) (sym stored)
        (rw mine (ap (λ rows. row ∷ rows) (keep_if-none (is_job key) db.tables.jobs fresh)))

  run_job-IsOnly :
      (key : Text) (row : JobRow) (later : Time) (r : JobResult) (db : Database JobTables)
      {done : Text}
      → row.job.id ≡ key
      → r.job_id ≡ key
      → IsOnly key row db.tables
      → (record_job_finish error_text later r db).0 ≡ ok done
      → IsOnly key
          (record row {
            job = record (row.job) {
              status = r.status;
              updated_at = micros (or_time r.finished_at later);
            };
          })
          (record_job_finish error_text later r db).1.tables
  unfolding record_job_finish
  run_job-IsOnly key row later r db mine named h finished =
      let all = transaction-ok (finishing error_text later r) db finished in
      let hit : is_job r.job_id row ≡ true =
        (text_eq_iff row.job.id r.job_id).1 (mine ∙ sym named) in
      let ended_row = record row {
        job = record (row.job) {
          status = r.status;
          updated_at = micros (or_time r.finished_at later);
        };
      } in
      subst (IsOnly key ended_row) (sym all) (
        rw hit at
          (finished-IsOnly r.job_id key r.status (or_time r.finished_at later) row db.tables h))

  -- Where no row had the job's id, the result is that job's, and its start and its finish have
  -- succeeded, a read that works gives the job with the status and the time of its result and otherwise
  -- as it was started, its times cut to microseconds, whatever was recorded of other jobs before or after the finish and however those
  -- statements ended.
  pub record_job-get_job :
      (no_rows : GoError) (new_id : Text) (now later : Time) (job started : Job) (r : JobResult)
      (done : Text) (db : Database JobTables) (cs ds : List JobCall)
      → any (is_job (started_job new_id now job).id) db.tables.jobs ≡ false
      → (record_job_start new_id now job db).0 ≡ ok started
      → All (λ c. job_of c ≢ (started_job new_id now job).id) cs
      → r.job_id ≡ (started_job new_id now job).id
      → (run_job new_id now job cs later r db).0 ≡ ok done
      → All (λ c. job_of c ≢ (started_job new_id now job).id) ds
      → (job_calls ds (run_job new_id now job cs later r db).1).outcomes ≡ []
      → (get_job no_rows
          (started_job new_id now job).id
          (job_calls ds (run_job new_id now job cs later r db).1)).0
        ≡ ok (record (started_job new_id now job) {
          queued_at = micros (or_time job.queued_at now);
          started_at = micros now;
          status = r.status;
          updated_at = micros (or_time r.finished_at later);
        })
  unfolding started_job
  record_job-get_job no_rows new_id now later job started r done db cs ds fresh begun apart named
        finished others working =
      let j = started_job new_id now job in
      let row : JobRow = record { job = stored_job j; created_at = micros now } in
      let first = start-IsOnly new_id now job db fresh begun in
      let second =
        job_calls-IsOnly j.id row cs (record_job_start new_id now job db).1 apart refl first in
      let third = run_job-IsOnly j.id row later r _ refl named second finished in
      get_job-only no_rows j.id _ (job_calls ds (run_job new_id now job cs later r db).1) working
        (job_calls-IsOnly j.id _ ds (run_job new_id now job cs later r db).1 others refl third)
