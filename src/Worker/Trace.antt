-- ===== src/Worker/Trace.antt =====
-- backup.go: how often the calls that come in pairs are made.
use go_xidized.Prelude.{
  sym, ap, ap₂, ◌∙◌, true, false, Text, Option, none, some, ℕ, ◌+◌, ◌≡◌, refl, List, [], ◌∷◌, ◌++◌,
  arith, total, total-append,
}
use mathlib.Core.List.{append_assoc}
use go_xidized.Types.{RedactedConfig, Job, RedactionReport, Revision, DiffResult}
use go_xidized.Types.Errors.{Result, ok, err, GoError}
use go_xidized.Scheduler.Manager.{Request}
use go_xidized.Worker.{
  M, ◌>>=◌, Call, record_job_finish, close_session, dial, job_result, Answers, handle,
  handle_started, run_job, finish_session, in_session, connect_to, redacted_config, store_config,
  failed, succeeded, notices, Fetched,
}

abbrev is_finish : Call → ℕ
is_finish (record_job_finish r) = 1
is_finish _ = 0

abbrev finished_id : Call → List Text
finished_id (record_job_finish r) = r.job_id ∷ []
finished_id _ = []

-- The jobs whose results are recorded, one for each time.
abbrev pub finishes : List Call → List Text
finishes [] = []
finishes (c ∷ cs) = finished_id c ++ finishes cs

abbrev pub is_close : Call → ℕ
is_close close_session = 1
is_close _ = 0

-- Does a dialer answer with a session?
abbrev pub answers_session : Option (Option GoError) → ℕ
answers_session (some none) = 1
answers_session _ = 0

-- Does the call open a session?
abbrev pub is_open : Answers → Call → ℕ
is_open a (dial true) = answers_session a.telnet_dialer
is_open a (dial false) = answers_session a.ssh_dialer
is_open a _ = 0

-- A call that ends a job or a session.
abbrev is_end : Call → ℕ
is_end c = is_finish c + is_close c

abbrev is_paired : Answers → Call → ℕ
is_paired a c = is_end c + is_open a c

abbrev is_ok : {A : Type 0} → Result A → ℕ
is_ok (ok a) = 1
is_ok (err e) = 0

-- A chain of steps that each make none of some calls makes none.
bind-none :
    {A B : Type 0} (f : Call → ℕ) (m : M A) (k : A → M B)
    → total f m.1 ≡ 0
    → ((a : A) → total f (k a).1 ≡ 0)
    → total f (m >>= k).1 ≡ 0
bind-none f (ok a, cs) k h g = omega (arith, total-append f cs (k a).1, g a)
bind-none f (err e, cs) k h g = h

connect_to-none : (a : Answers) (req : Request) → total is_end (connect_to a req).1 ≡ 0
unfolding connect_to
connect_to-none a req = ground arith

-- `connect_to` gives a session exactly where a dialer has given one.
connect_to-opens :
    (a : Answers) (req : Request)
    → total (is_open a) (connect_to a req).1 ≡ is_ok (connect_to a req).0
unfolding connect_to
connect_to-opens a req = ground arith

redacted_config-none : (a : Answers) → total (is_paired a) (redacted_config a).1 ≡ 0
unfolding redacted_config
redacted_config-none a = ground arith

store_config-none :
    (a : Answers) (req : Request) (job : Job) (r : Fetched × RedactedConfig × RedactionReport)
    → total (is_paired a) (store_config a req job r).1 ≡ 0
unfolding store_config
store_config-none a req job (cfg, redacted, report) = ground arith

in_session-none :
    (a : Answers) (req : Request) (job : Job) → total (is_paired a) (in_session a req job).1 ≡ 0
unfolding in_session
in_session-none a req job =
    bind-none (is_paired a) (redacted_config a) (store_config a req job) (redacted_config-none a)
      (store_config-none a req job)

finishes-append : (cs ds : List Call) → finishes (cs ++ ds) ≡ finishes cs ++ finishes ds
finishes-append [] ds = refl
finishes-append (c ∷ cs) ds =
    ap (λ xs. finished_id c ++ xs) (finishes-append cs ds)
    ∙ sym (append_assoc (finished_id c) (finishes cs) (finishes ds))

no_finishes : (cs : List Call) → total is_finish cs ≡ 0 → finishes cs ≡ []
no_finishes [] h = refl
no_finishes (record_job_finish r ∷ cs) h = absurd (omega arith)
no_finishes (_ ∷ cs) h = no_finishes cs (omega arith)

-- The jobs whose results are recorded, and how many sessions are closed and opened.
record Counts (a : Answers) (ids : List Text) (closes opens : ℕ) (cs : List Call) : Type 0 where
  recorded : finishes cs ≡ ids
  closed : total is_close cs ≡ closes
  opened : total (is_open a) cs ≡ opens

is_paired-sum :
    (a : Answers) (cs : List Call)
    → total (is_paired a) cs ≡ total is_finish cs + total is_close cs + total (is_open a) cs
is_paired-sum a [] = refl
is_paired-sum a (c ∷ cs) = omega (arith, is_paired-sum a cs)

is_end-sum : (cs : List Call) → total is_end cs ≡ total is_finish cs + total is_close cs
is_end-sum [] = refl
is_end-sum (c ∷ cs) = omega (arith, is_end-sum cs)

module _ (a : Answers) where
  no-Counts : (cs : List Call) → total (is_paired a) cs ≡ 0 → Counts a [] 0 0 cs
  no-Counts cs h = record {
    recorded = no_finishes cs (omega (arith, is_paired-sum a cs));
    closed = omega (arith, is_paired-sum a cs);
    opened = omega (arith, is_paired-sum a cs);
  }

  Counts-append :
      {ids js : List Text} {m n k l : ℕ} (cs ds : List Call)
      → Counts a ids m n cs
      → Counts a js k l ds
      → Counts a (ids ++ js) (m + k) (n + l) (cs ++ ds)
  Counts-append cs ds v w = record {
    recorded = finishes-append cs ds ∙ ap₂ (λ xs ys. xs ++ ys) v.recorded w.recorded;
    closed = omega (arith, total-append is_close cs ds, v.closed, w.closed);
    opened = omega (arith, total-append (is_open a) cs ds, v.opened, w.opened);
  }

  connect_to-Counts :
      (req : Request) → Counts a [] 0 (is_ok (connect_to a req).0) (connect_to a req).1
  connect_to-Counts req =
      let none_ended = connect_to-none a req in
      let sum = is_end-sum (connect_to a req).1 in
      record {
        recorded = no_finishes (connect_to a req).1 (omega arith);
        closed = omega arith;
        opened = connect_to-opens a req;
      }

  notices-none : (rev : Revision) (d : DiffResult) → total (is_paired a) (notices a rev d) ≡ 0
  unfolding notices
  notices-none rev d = ground arith

  succeeded-Counts :
      (req : Request) (job : Job) (r : Revision × DiffResult)
      → Counts a (job.id ∷ []) 0 0 (succeeded a req job r).1
  unfolding succeeded job_result
  succeeded-Counts req job (rev, d) =
      let rest = no-Counts (notices a rev d) (notices-none rev d) in
      record {
        recorded = ap (λ xs. job.id ∷ xs) rest.recorded;
        closed = omega (arith, rest.closed);
        opened = omega (arith, rest.opened);
      }

  failed-Counts :
      (req : Request) (job : Job) (e : GoError) → Counts a (job.id ∷ []) 0 0 (failed req job e).1
  unfolding failed job_result
  failed-Counts req job e = record { recorded = refl; closed = refl; opened = refl }

  closing :
      (id : Text) (ds : List Call)
      → Counts a (id ∷ []) 0 0 ds
      → Counts a (id ∷ []) 1 0 (ds ++ close_session ∷ [])
  closing id ds v =
      Counts-append ds (close_session ∷ []) v
        (record { recorded = refl; closed = refl; opened = refl })

  finish_session-Counts :
      (req : Request) (job : Job) (m : M (Revision × DiffResult))
      → total (is_paired a) m.1 ≡ 0
      → Counts a (job.id ∷ []) 1 0 (finish_session a req job m).1
  unfolding finish_session
  finish_session-Counts req job (ok r, cs) h =
      Counts-append cs _ (no-Counts cs h) (closing job.id _ (succeeded-Counts req job r))
  finish_session-Counts req job (err e, cs) h =
      Counts-append cs _ (no-Counts cs h) (closing job.id _ (failed-Counts req job e))

  -- As many sessions are closed as were opened, whatever happens in them.
  run_job-Counts :
      (req : Request) (job : Job) (m : M (Unit {0}))
      → Counts a [] 0 (is_ok m.0) m.1
      → Counts a (job.id ∷ []) (is_ok m.0) (is_ok m.0) (run_job a req job m).1
  unfolding run_job
  run_job-Counts req job (ok u, cs) h =
      Counts-append cs _ h
        (finish_session-Counts req job (in_session a req job) (in_session-none a req job))
  run_job-Counts req job (err e, cs) h = Counts-append cs _ h (failed-Counts req job e)

  -- The result of this one job is recorded, if of any, and each session that was opened is closed.
  pub record Ends (ids : List Text) (cs : List Call) : Type 0 where
    pub recorded : finishes cs ≡ ids
    pub closed : total is_close cs ≡ total (is_open a) cs

  -- The job whose start is recorded, if it is.
  abbrev pub started : Result Job → List Text
  started (err e) = []
  started (ok job) = job.id ∷ []

  handle_started-Ends :
      (req : Request) (r : Result Job) → Ends (started r) (handle_started a req r).1
  unfolding handle_started
  handle_started-Ends req (err e) = record { recorded = refl; closed = refl }
  handle_started-Ends req (ok job) =
      let v = run_job-Counts req job (connect_to a req) (connect_to-Counts req) in
      record { recorded = v.recorded; closed = v.closed ∙ sym v.opened }

  -- Whatever the services answer, a backup records one result where the start of its job was recorded,
  -- under the id of that job, and none where it was not, and it closes as many sessions as its calls of
  -- a dialer have opened.
  pub handle-Ends : (req : Request) → Ends (started a.job_start) (handle a req).1
  unfolding handle
  handle-Ends req =
      let v = handle_started-Ends req a.job_start in
      record { recorded = v.recorded; closed = omega (arith, v.closed) }
