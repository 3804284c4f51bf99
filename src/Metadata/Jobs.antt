-- ===== src/Metadata/Jobs.antt =====
-- internal/metadata/postgres/store.go: the tables of jobs and of their results. No key keeps two rows
-- of a job apart.
pub mod Finished
use go_xidized.Prelude.{
  ℕ, zero, suc, ◌+◌, ◌/◌, ◌-◌, ℤ, pos, negsuc, pos_part, Bool, true, false, ◌||◌, Text, text_eq,
  is_empty, List, [], ◌∷◌, map, keep_if, take, Option, none, some, ltb, ◌==◌, lebℤ, ltbℤ,
  if◌then◌else◌,
}
use go_xidized.Types.{Time, Duration, Job, JobStatus, unset, running}
use go_xidized.Types.Errors.{GoError, Result, ok, err}
use go_xidized.Metadata.{micros, Database, statement, select, and_then, transaction, plainly}

pub record JobRow : Type 0 where
  pub job : Job
  pub created_at : Time

-- `goxidized.JobResult`; the duration and the numbers of the row are signed.
pub record JobResult : Type 0 where
  pub job_id : Text
  pub target_id : Text
  pub status : JobStatus
  pub attempt : ℤ
  pub failure : Option GoError
  pub error_text : Text
  pub started_at : Time
  pub finished_at : Time
  pub duration : Duration
  pub revision_id : Text

pub record ResultRow : Type 0 where
  pub job_id : Text
  pub target_id : Text
  pub status : JobStatus
  pub attempt : ℤ
  pub error_text : Text
  pub started_at : Time
  pub finished_at : Time
  pub duration_ms : ℤ
  pub revision_id : Text
  pub created_at : Time

pub record JobTables : Type 0 where
  pub jobs : List JobRow
  pub results : List ResultRow

abbrev pub or_time : Time → Time → Time
or_time t now = if t == 0 then now else t

abbrev pub or_running : JobStatus → JobStatus
or_running unset = running
or_running s = s

abbrev pub or_one : ℤ → ℤ
or_one (pos zero) = pos 1
or_one n = n

-- The job as it is stored; `new_id` is what `newID` gives.
unfoldable pub started_job : Text → Time → Job → Job
started_job new_id now job = record job {
  id = if is_empty job.id then new_id else job.id;
  queued_at = or_time job.queued_at now;
  started_at = now;
  updated_at = now;
  status = or_running job.status;
  attempt = or_one job.attempt;
}

-- What the database keeps of the job.
abbrev pub stored_job : Job → Job
stored_job job = record job {
  queued_at = micros job.queued_at;
  started_at = micros job.started_at;
  updated_at = micros job.updated_at;
}

-- `INSERT INTO backup_jobs …`; the caller gives back its own job.
abbrev pub insert_job : Time → Job → JobTables → Result Job × JobTables
insert_job now job t =
    (ok job, record t { jobs = record { job = stored_job job; created_at = micros now } ∷ t.jobs })

unfoldable pub record_job_start :
    Text → Time → Job → Database JobTables → Result Job × Database JobTables
unfolding started_job statement
record_job_start new_id now job db = statement (insert_job now (started_job new_id now job)) db

-- `Duration.Milliseconds`, which cuts towards zero.
abbrev pub milliseconds : Duration → ℤ
milliseconds (pos n) = pos (n / 1_000_000)
milliseconds (negsuc n) = let ms = suc n / 1_000_000 in if ms == 0 then pos 0 else negsuc (ms - 1)

-- `UPDATE backup_jobs SET … WHERE id=$1`
abbrev pub finished_row : Text → JobStatus → Time → JobRow → JobRow
finished_row id status at_time r =
    if text_eq r.job.id id
    then record r { job = record (r.job) { status = status; updated_at = micros at_time } }
    else r

abbrev pub update_jobs : Text → JobStatus → Time → JobTables → Result Text × JobTables
update_jobs id status at_time t =
    (ok [], record t { jobs = map (finished_row id status at_time) t.jobs })

abbrev pub insert_result : ResultRow → JobTables → Result Text × JobTables
insert_result row t = (ok [], record t { results = row ∷ t.results })

abbrev pub text_of_failure : (GoError → Text) → Text → Option GoError → Text
text_of_failure error_text t none = t
text_of_failure error_text t (some e) = if is_empty t then error_text e else t

abbrev pub result_row : (GoError → Text) → Time → JobResult → ResultRow
result_row error_text now r = record {
  job_id = r.job_id;
  target_id = r.target_id;
  status = r.status;
  attempt = r.attempt;
  error_text = text_of_failure error_text r.error_text r.failure;
  started_at = micros r.started_at;
  finished_at = micros (or_time r.finished_at now);
  duration_ms = milliseconds r.duration;
  revision_id = r.revision_id;
  created_at = micros (or_time r.finished_at now);
}

-- `error_text` is `Error()`, `now` is read where the result has no time.
unfoldable pub record_job_finish :
    (GoError → Text) → Time → JobResult → Database JobTables → Result Text × Database JobTables
unfolding transaction
record_job_finish error_text now r db =
    transaction
      (plainly (update_jobs r.job_id r.status (or_time r.finished_at now))
        ∷ plainly (insert_result (result_row error_text now r))
        ∷ [])
      db

-- `ORDER BY created_at DESC`; of two rows of one time the one inserted later comes first here.
abbrev pub insert_newest : JobRow → List JobRow → List JobRow
insert_newest r [] = r ∷ []
insert_newest r (x ∷ xs) =
    if ltb r.created_at x.created_at then x ∷ insert_newest r xs else r ∷ x ∷ xs

abbrev pub newest_first : List JobRow → List JobRow
newest_first [] = []
newest_first (r ∷ rs) = insert_newest r (newest_first rs)

abbrev pub limited : ℤ → ℕ
limited n = if lebℤ n (pos 0) || ltbℤ (pos 1000) n then 100 else pos_part n

unfoldable pub list_jobs : ℤ → Database JobTables → Result (List Job) × Database JobTables
unfolding select
list_jobs n db = select (λ t. ok (map (λ r. r.job) (take (limited n) (newest_first t.jobs)))) db

abbrev pub first_job : GoError → List JobRow → Result Job
first_job no_rows [] = err no_rows
first_job no_rows (r ∷ rs) = ok r.job

unfoldable pub get_job : GoError → Text → Database JobTables → Result Job × Database JobTables
unfolding select
get_job no_rows id db =
    select (λ t. first_job no_rows (newest_first (keep_if (λ r. text_eq r.job.id id) t.jobs))) db
