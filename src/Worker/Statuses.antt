-- ===== src/Worker/Statuses.antt =====
-- backup.go: the status of a backup's result.
use go_xidized.Prelude.{
  ℕ, ◌≤◌, ◌≡◌, refl, ap, Bool, true, false, List, [], ◌∷◌, ◌++◌, none, some, arith, total,
  total-append,
}
use go_xidized.Types.{RedactedConfig, Job, RedactionReport, Revision, DiffResult, failed_storage}
use go_xidized.Types.Errors.{
  Result, ok, err, GoError, FailureCategory, storage, classify_error, status_for_failure,
}
use go_xidized.Scheduler.Manager.{Request, is_success}
use go_xidized.Worker.{
  M, ◌>>=◌, Call, close_session, save_config, Answers, JobResult, handle, handle_started, run_job,
  finish_session, in_session, connect_to, redacted_config, store_config, diff_of, failed, succeeded,
  job_result, Fetched,
}

-- Does the call hand a configuration to the storage?
abbrev pub is_save : Call → ℕ
is_save (save_config r meta) = 1
is_save _ = 0

-- An error after the configuration was handed over is one of the storage.
abbrev IsReported : {A : Type 0} → M A → Type 0
IsReported m = (e : GoError) → m.0 ≡ err e → 1 ≤ total is_save m.1 → classify_error e ≡ storage

failure-no_success : (c : FailureCategory) → is_success (status_for_failure c) ≡ false
unfolding is_success status_for_failure
failure-no_success c = ground arith

abbrev pub is_begun : Result Job → Bool
is_begun (ok job) = true
is_begun (err e) = false

-- The status tells whether there is an error, and where it tells a failure after the storage was asked,
-- or of a job whose start is not recorded, it tells one of the storage.
pub record HasStatus (begun : Bool) (r : JobResult) (cs : List Call) : Type 0 where
  pub told : is_success r.status ≡ elim r.error [ none ↦ true | some e ↦ false ]
  pub asked : is_success r.status ≡ false → 1 ≤ total is_save cs → r.status ≡ failed_storage
  pub unrecorded : begun ≡ false → r.status ≡ failed_storage

module _ (a : Answers) (req : Request) where
  connect_to-saves : total is_save (connect_to a req).1 ≡ 0
  unfolding connect_to
  connect_to-saves = ground arith

  redacted_config-saves : total is_save (redacted_config a).1 ≡ 0
  unfolding redacted_config
  redacted_config-saves = ground arith

  store_config-IsReported :
      (job : Job) (r : Fetched × RedactedConfig × RedactionReport)
      → IsReported (store_config a req job r)
  unfolding store_config diff_of classify_error
  store_config-IsReported job (cfg, r, report) e h n = ground arith

  in_session-IsReported : (job : Job) → IsReported (in_session a req job)
  unfolding in_session
  in_session-IsReported job = chained (redacted_config a) redacted_config-saves
    where
      chained :
          (m : M (Fetched × RedactedConfig × RedactionReport))
          → total is_save m.1 ≡ 0
          → IsReported (m >>= store_config a req job)
      chained (ok r, cs) none_saved e h n =
          store_config-IsReported job r e h
            (omega (arith, total-append is_save cs (store_config a req job r).1))
      chained (err f, cs) none_saved e h n = absurd (omega arith)

  failed-HasStatus :
      (job : Job) (e : GoError) (cs ds : List Call)
      → (1 ≤ total is_save cs → classify_error e ≡ storage)
      → total is_save ds ≡ 0
      → HasStatus true (failed req job e).0 (cs ++ ((failed req job e).1 ++ ds))
  unfolding failed job_result status_for_failure
  failed-HasStatus job e cs ds h rest = record {
    told = failure-no_success (classify_error e);
    asked = λ _ n.
        ap status_for_failure
          (h (omega (arith, total-append is_save cs ((failed req job e).1 ++ ds))));
    unrecorded = λ never. cc;
  }

  finish_session-HasStatus :
      (job : Job) (m : M (Revision × DiffResult))
      → IsReported m
      → HasStatus true (finish_session a req job m).0 (finish_session a req job m).1
  unfolding finish_session succeeded job_result is_success
  finish_session-HasStatus job (ok (rev, d), cs) h = record {
    told = ground arith;
    asked = λ never n. ground arith;
    unrecorded = λ never. cc;
  }
  finish_session-HasStatus job (err e, cs) h =
      failed-HasStatus job e cs (close_session ∷ []) (h e refl) refl

  run_job-HasStatus :
      (job : Job) (m : M (Unit {0}))
      → total is_save m.1 ≡ 0
      → HasStatus true (run_job a req job m).0 (run_job a req job m).1
  unfolding run_job failed
  run_job-HasStatus job (ok u, cs) h =
      let v = finish_session-HasStatus job (in_session a req job) (in_session-IsReported job) in
      let ds = (finish_session a req job (in_session a req job)).1 in
      record {
        told = v.told;
        asked = λ bad n. v.asked bad (omega (arith, total-append is_save cs ds));
        unrecorded = v.unrecorded;
      }
  run_job-HasStatus job (err e, cs) h = record {
    told = failure-no_success (classify_error e);
    asked = λ _ n. absurd (omega (arith, total-append is_save cs (failed req job e).1));
    unrecorded = λ never. cc;
  }

  handle_started-HasStatus :
      (r : Result Job)
      → HasStatus (is_begun r) (handle_started a req r).0 (handle_started a req r).1
  unfolding handle_started job_result is_success
  handle_started-HasStatus (err e) = record {
    told = refl;
    asked = λ _ n. refl;
    unrecorded = λ _. refl;
  }
  handle_started-HasStatus (ok job) = run_job-HasStatus job (connect_to a req) connect_to-saves

  -- The status of a result is one of success exactly where the result has no error. A backup that
  -- fails after its configuration was handed to the storage, or whose start could not be recorded, has
  -- the status of a storage failure, whichever service failed and with whatever error.
  pub handle-HasStatus : HasStatus (is_begun a.job_start) (handle a req).0 (handle a req).1
  unfolding handle
  handle-HasStatus =
      let v = handle_started-HasStatus a.job_start in
      record {
        told = v.told;
        asked = λ bad n. v.asked bad (omega arith);
        unrecorded = v.unrecorded;
      }
