-- ===== src/Worker.antt =====
-- internal/worker/backup.go: one backup of one device. The stores, the drivers and the network are
-- services behind interfaces: `Answers` says what each of them answers, and the model returns the
-- job's result with the list of the calls that it made, in order.
pub mod Trace
pub mod Redacted
pub mod Statuses
use go_xidized.Prelude.{
  ℕ, Bool, true, false, ◌&&◌, ◌||◌, Text, codes, text_eq, is_empty, if◌then◌else◌, List, [], ◌∷◌,
  ◌++◌, Option, none, some, any, not, ℤ, pos,
}
use go_xidized.Types.{
  Time, Target, Job, JobStatus, failed_storage, success_no_change, success_changed, RiskLevel,
  RedactionReport, DiffResult, CommitMeta, Revision, RedactedConfig,
}
use go_xidized.Types.Errors.{
  Result, ok, err, GoError, plain, backup, FailureCategory, command, connect, storage,
  classify_error, status_for_failure,
}
use go_xidized.Pipeline.Diff.{unified_diff}
use go_xidized.Scheduler.Manager.{Request}

-- The times, their difference and the text of the error are left out.
pub record JobResult : Type 0 where
  pub job_id : Text
  pub target_id : Text
  pub status : JobStatus
  pub attempt : ℤ
  pub error : Option GoError
  pub revision_id : Text

pub record Fetched : Type 0 where
  pub target_id : Text
  pub raw_config : Text
  pub metadata : List (Text × Text)

pub data Call : Type 0 where
  record_job_start : Job → Call
  record_job_finish : JobResult → Call
  audit : Text → Text → Call
  resolve : Text → Call
  look_up_driver : Text → Call
  dial : Bool → Call
  close_session : Call
  prepare_session : Call
  fetch_config : Call
  normalize_config : Fetched → Call
  redact_config : Fetched → Call
  latest_revision : Text → Call
  save_config : RedactedConfig → CommitMeta → Call
  save_revision : Revision → CommitMeta → Call
  save_diff : DiffResult → Call
  notify_changed notify_high_risk : DiffResult → Call

-- A nil dialer is `none`; a call whose only answer is an error that may be nil is an `Option`.
pub record Answers : Type 0 where
  pub job_start : Result Job
  pub credentials : Option GoError
  pub driver : Option GoError
  pub ssh_dialer : Option (Option GoError)
  pub telnet_dialer : Option (Option GoError)
  pub prepare : Option GoError
  pub fetch : Result Fetched
  pub normalize : Fetched → Result Fetched
  pub redact : Fetched → Result (RedactedConfig × RedactionReport)
  pub latest : RedactedConfig × Text
  pub save : RedactedConfig → CommitMeta → Result Revision
  pub done_before_diff : Bool
  pub revision_saved : Option GoError
  pub diff_saved : Option GoError
  pub has_notifier : Bool

-- Calls, and a value or an error.
abbrev pub M : Type 0 → Type 0
M A = Result A × List Call

infixl 5 ◌>>=◌ ◌>>◌
abbrev pub ◌>>=◌ : {A B : Type 0} → M A → (A → M B) → M B
(ok a, cs) >>= f = let (r, ds) = f a in (r, cs ++ ds)
(err e, cs) >>= f = (err e, cs)

abbrev pub ◌>>◌ : {B : Type 0} → M (Unit {0}) → M B → M B
m >> k = m >>= λ _. k

abbrev pub call : {A : Type 0} → Call → Result A → M A
call c r = (r, c ∷ [])

abbrev note : Call → M (Unit {0})
note c = (ok tt, c ∷ [])

abbrev pub done_if : Option GoError → Result (Unit {0})
done_if none = ok tt
done_if (some e) = err e

-- The error of a step, in a `BackupError` of its own.
abbrev within : {A : Type 0} → FailureCategory → Text → Result A → Result A
within cat op (ok a) = ok a
within cat op (err e) = err (backup cat op e)

abbrev pub ruleset_version : Text
ruleset_version = codes "2026-06-23.1"

is_telnet : Target → Bool
is_telnet t =
    t.telnet_enabled
    || any (λ (k, v). text_eq k (codes "transport") && text_eq v (codes "telnet")) t.metadata

-- `Resolve`, the driver, the dialer and `Dial`.
pub connect_to : Answers → Request → M (Unit {0})
unfolding is_telnet
connect_to a req = elim a.credentials [
  | some e ↦ (
    err e,
    resolve req.target.credential_ref ∷ audit (codes "credential_resolve") (codes "failure") ∷ [],
  )
  | none ↦ do
    note (resolve req.target.credential_ref)
    note (audit (codes "credential_resolve") (codes "success"))
    call (look_up_driver req.target.vendor)
        (within command (codes "driver lookup") (done_if a.driver))
    let telnet = is_telnet req.target
    (elim (if telnet then a.telnet_dialer else a.ssh_dialer) [
      | none ↦
          (err (backup connect (codes "transport") (plain (codes "dialer not configured"))), [])
      | some answer ↦ call (dial telnet) (done_if answer)
    ])
]

redact_normal : Answers → Fetched → Fetched → M (Fetched × RedactedConfig × RedactionReport)
redact_normal a cfg norm = do
  r ← call (redact_config norm) (a.redact norm)
  (ok (cfg, r.0, r.1), [])

redact_fetched : Answers → Fetched → M (Fetched × RedactedConfig × RedactionReport)
unfolding redact_normal
redact_fetched a cfg = call (normalize_config cfg) (a.normalize cfg) >>= redact_normal a cfg

-- `Prepare` to `Redact`.
redacted_config : Answers → M (Fetched × RedactedConfig × RedactionReport)
unfolding redact_fetched
redacted_config a = do
  call prepare_session (done_if a.prepare)
  call fetch_config a.fetch >>= redact_fetched a

commit_meta : Job → RedactionReport → Fetched → CommitMeta
commit_meta job report cfg = record {
  job_id = job.id;
  trigger = job.trigger;
  actor = job.actor;
  ruleset_version = ruleset_version;
  redaction_report = report;
  risk = RiskLevel.unset;
  device_metadata = cfg.metadata;
}

-- The diff to store: a comparison with the last revision, if there is one and it changed.
diff_of : Answers → Request → Revision → RedactedConfig → Result DiffResult
diff_of a req rev redacted =
    let (previous, previous_id) = a.latest in
    if not (is_empty previous_id) && rev.changed
    then elim (unified_diff a.done_before_diff req.target.id previous_id rev.id previous.content
        redacted.content) [
          | none ↦ err (backup storage (codes "diff") (plain (codes "context canceled")))
          | some d ↦ ok d
        ]
    else ok (record {
      target_id = req.target.id;
      from_revision = [];
      to_revision = rev.id;
      unified_diff = [];
      added_lines = 0;
      removed_lines = 0;
      risk = RiskLevel.low;
      categories = [];
      rule_hits = [];
    })

-- `Latest` to `SaveDiff`.
store_config :
    Answers → Request → Job → Fetched × RedactedConfig × RedactionReport → M (Revision × DiffResult)
unfolding commit_meta diff_of
store_config a req job (cfg, redacted, report) = do
  note (latest_revision req.target.id)
  let meta = commit_meta job report cfg
  rev ← call (save_config redacted meta) (within storage (codes "git save") (a.save redacted meta))
  diff ← (diff_of a req rev redacted, [])
  call (save_revision rev (record meta { risk = diff.risk }))
      (within storage (codes "metadata revision") (done_if a.revision_saved))
  (if rev.changed
      then call (save_diff diff) (within storage (codes "metadata diff") (done_if a.diff_saved))
      else (ok tt, []))
  (ok (rev, diff), [])

-- What runs while the session is open.
in_session : Answers → Request → Job → M (Revision × DiffResult)
unfolding redacted_config store_config
in_session a req job = redacted_config a >>= store_config a req job

job_result : Request → Job → JobStatus → Option GoError → Text → JobResult
job_result req job status e rev = record {
  job_id = job.id;
  target_id = req.target.id;
  status = status;
  attempt = job.attempt;
  error = e;
  revision_id = rev;
}

-- The closure `fail`.
failed : Request → Job → GoError → JobResult × List Call
unfolding job_result
failed req job e =
    let res = job_result req job (status_for_failure (classify_error e)) (some e) [] in
    (res, record_job_finish res ∷ audit (codes "backup_failed") (codes "failure") ∷ [])

is_grave : RiskLevel → Bool
is_grave RiskLevel.high = true
is_grave RiskLevel.critical = true
is_grave _ = false

notices : Answers → Revision → DiffResult → List Call
unfolding is_grave
notices a rev diff =
    if a.has_notifier && rev.changed
    then notify_changed diff ∷ (if is_grave diff.risk then notify_high_risk diff ∷ [] else [])
    else []

succeeded : Answers → Request → Job → Revision × DiffResult → JobResult × List Call
unfolding job_result notices
succeeded a req job (rev, diff) =
    let status = if rev.changed then success_changed else success_no_change in
    let res = job_result req job status none rev.id in
    (
      res,
      record_job_finish res
          ∷ audit (codes "backup_complete") (codes "success")
          ∷ notices a rev diff,
    )

-- The result of a session, followed by the deferred `Close`.
finish_session : Answers → Request → Job → M (Revision × DiffResult) → JobResult × List Call
unfolding failed succeeded
finish_session a req job (ok r, cs) =
    let (res, ds) = succeeded a req job r in (res, cs ++ (ds ++ close_session ∷ []))
finish_session a req job (err e, cs) =
    let (res, ds) = failed req job e in (res, cs ++ (ds ++ close_session ∷ []))

run_job : Answers → Request → Job → M (Unit {0}) → JobResult × List Call
unfolding failed in_session finish_session
run_job a req job (ok u, cs) =
    let (res, ds) = finish_session a req job (in_session a req job) in (res, cs ++ ds)
run_job a req job (err e, cs) = let (res, ds) = failed req job e in (res, cs ++ ds)

-- `Handle`, once the job's start is recorded or not.
handle_started : Answers → Request → Result Job → JobResult × List Call
unfolding connect_to run_job
handle_started a req (err e) =
    (record (job_result req req.job failed_storage (some e) []) { attempt = pos 0 }, [])
handle_started a req (ok job) = run_job a req job (connect_to a req)

unfoldable pub handle : Answers → Request → JobResult × List Call
unfolding handle_started
handle a req =
    let (res, cs) = handle_started a req a.job_start in (res, record_job_start req.job ∷ cs)
