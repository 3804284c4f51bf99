-- ===== src/Worker/Redacted.antt =====
-- backup.go: what may be stored of a device's configuration.
use go_xidized.Prelude.{◌≡◌, refl, List, [], ◌∷◌, ◌++◌, arith, All}
use go_xidized.Types.{RedactedConfig, Job, RedactionReport, Revision, DiffResult}
use go_xidized.Types.Errors.{Result, ok, err}
use go_xidized.Scheduler.Manager.{Request}
use go_xidized.Worker.{
  M, ◌>>=◌, Call, save_config, Answers, handle, handle_started, run_job, finish_session, in_session,
  connect_to, redacted_config, store_config, failed, succeeded, notices, Fetched, call, done_if,
  prepare_session, fetch_config, normalize_config, redact_fetched, redact_normal,
}

All-append : (P : Call → Type 0) (cs ds : List Call) → All P cs → All P ds → All P (cs ++ ds)
All-append P [] ds h k = k
All-append P (c ∷ cs) ds h k = (h.0, All-append P cs ds h.1 k)

-- The redacted form of what the device sent.
abbrev pub IsRedacted : Answers → RedactedConfig → RedactionReport → Type 0
IsRedacted a r report =
    (cfg : Fetched) × (norm : Fetched) × (a.fetch ≡ ok cfg)
    × (a.normalize cfg ≡ ok norm)
    × (a.redact norm ≡ ok (r, report))

abbrev pub StoresRedacted : Answers → Call → Type 0
StoresRedacted a (save_config r meta) = IsRedacted a r meta.redaction_report
StoresRedacted a _ = Unit

bind-ok :
    {A B : Type 0} (m : M A) (f : A → M B) {b : B}
    → (m >>= f).0 ≡ ok b
    → (x : A) × (m.0 ≡ ok x) × ((f x).0 ≡ ok b)
bind-ok (ok x, cs) f h = (x, refl, h)
bind-ok (err e, cs) f h = cc

All-bind :
    {A B : Type 0} (P : Call → Type 0) (m : M A) (f : A → M B)
    → All P m.1
    → ((x : A) → m.0 ≡ ok x → All P (f x).1)
    → All P (m >>= f).1
All-bind P (ok x, cs) f h g = All-append P cs (f x).1 h (g x refl)
All-bind P (err e, cs) f h g = h

module _ (a : Answers) (req : Request) where
  redact_normal-value :
      (cfg norm : Fetched) {c : Fetched} {r : RedactedConfig} {report : RedactionReport}
      → (redact_normal a cfg norm).0 ≡ ok (c, r, report)
      → a.redact norm ≡ ok (r, report)
  unfolding redact_normal
  redact_normal-value cfg norm h = ground arith

  redacted_config-value :
      (r : Fetched × RedactedConfig × RedactionReport)
      → (redacted_config a).0 ≡ ok r
      → IsRedacted a r.1 r.2
  unfolding redacted_config
  redacted_config-value (c, r, report) h =
      let (u, prepared, h₁) =
        bind-ok (call prepare_session (done_if a.prepare))
          (λ _. call fetch_config a.fetch >>= redact_fetched a) h in
      let (cfg, fetched, h₂) = bind-ok (call fetch_config a.fetch) (redact_fetched a) h₁ in
      let (norm, normal, h₃) =
        bind-ok (call (normalize_config cfg) (a.normalize cfg)) (redact_normal a cfg) h₂ in
      (cfg, norm, fetched, normal, redact_normal-value cfg norm h₃)

  redacted_config-stores : All (StoresRedacted a) (redacted_config a).1
  unfolding redacted_config
  redacted_config-stores = ground arith

  store_config-stores :
      (job : Job) (r : Fetched × RedactedConfig × RedactionReport)
      → IsRedacted a r.1 r.2
      → All (StoresRedacted a) (store_config a req job r).1
  unfolding store_config
  store_config-stores job (cfg, r, report) h = ground arith

  connect_to-stores : All (StoresRedacted a) (connect_to a req).1
  unfolding connect_to
  connect_to-stores = ground arith

  notices-stores : (rev : Revision) (d : DiffResult) → All (StoresRedacted a) (notices a rev d)
  unfolding notices
  notices-stores rev d = ground arith

  in_session-stores : (job : Job) → All (StoresRedacted a) (in_session a req job).1
  unfolding in_session
  in_session-stores job =
      All-bind (StoresRedacted a) (redacted_config a) (store_config a req job)
        redacted_config-stores (λ r e. store_config-stores job r (redacted_config-value r e))

  finish_session-stores :
      (job : Job) (m : M (Revision × DiffResult))
      → All (StoresRedacted a) m.1
      → All (StoresRedacted a) (finish_session a req job m).1
  unfolding finish_session succeeded failed
  finish_session-stores job (ok (rev, d), cs) h =
      All-append _ cs _ h
        (tt, (tt, All-append _ (notices a rev d) _ (notices-stores rev d) (tt, tt)))
  finish_session-stores job (err e, cs) h = All-append _ cs _ h (tt, (tt, (tt, tt)))

  run_job-stores :
      (job : Job) (m : M (Unit {0}))
      → All (StoresRedacted a) m.1
      → All (StoresRedacted a) (run_job a req job m).1
  unfolding run_job failed
  run_job-stores job (ok u, cs) h =
      All-append _ cs _ h (finish_session-stores job (in_session a req job) (in_session-stores job))
  run_job-stores job (err e, cs) h = All-append _ cs _ h (tt, (tt, tt))

  handle_started-stores : (r : Result Job) → All (StoresRedacted a) (handle_started a req r).1
  unfolding handle_started
  handle_started-stores (err e) = tt
  handle_started-stores (ok job) = run_job-stores job (connect_to a req) connect_to-stores

  -- Whatever the services answer, a configuration is handed to the storage only as the redaction of
  -- the normal form of what the device sent, with the report of that redaction in its trailers.
  pub handle-stores : All (StoresRedacted a) (handle a req).1
  unfolding handle
  handle-stores = (tt, handle_started-stores a.job_start)
