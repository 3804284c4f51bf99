-- ===== src/App.antt =====
-- internal/app/app.go: what the parts of the program are given to do: the inventory is loaded, the
-- planner is built from the configuration, and a sweep asks the manager for a backup of each device.
pub mod Sweeps
use go_xidized.Prelude.{
  ℕ, zero, suc, Bool, true, false, ◌&&◌, not, Text, codes, is_empty, text_eq, List, [], ◌∷◌, ◌++◌,
  Option, none, some, if◌then◌else◌, ℤ, pos, lebℤ,
}
use go_xidized.Types.{Time, Target, Job, queued}
use go_xidized.Types.Errors.{GoError, Result, ok, err}
use go_xidized.Inventory.{LoadError, load}
use go_xidized.Scheduler.Calendar.{Calendar, Weekday}
use go_xidized.Scheduler.Clock.{parse_clock, parse_weekdays}
use go_xidized.Scheduler.Window.{ScheduleWindow}
use go_xidized.Scheduler.Manager.{Request}
use go_xidized.Scheduler.Planner.{
  SchedulePolicy, ScheduleDecision, Planner, new_planner, initial_base, next_base, queue_time,
}
use go_xidized.Settings.{InventorySource, Window, Scheduler}
use go_xidized.Worker.{Answers, JobResult, Call, handle}

abbrev job_for : Target → Text → Text → Time → Job
job_for t trigger actor at = record {
  id = [];
  target_id = t.id;
  group = t.group;
  trigger = trigger;
  actor = actor;
  status = queued;
  attempt = pos 0;
  queued_at = at;
  started_at = 0;
  updated_at = 0;
}

unfoldable pub run_backup : Answers → Time → Target → Text → Text → JobResult × List Call
unfolding handle
run_backup a now t trigger actor = handle a record { target = t; job = job_for t trigger actor now }

-- The error of ReloadInventory.
pub data ReloadError : Type 0 where
  unsupported_type : Text → ReloadError
  load_failed : LoadError → ReloadError
  upsert_failed : GoError → ReloadError

abbrev or_first : Option ReloadError → Option ReloadError → Option ReloadError
or_first (some e) next = some e
or_first none next = next

abbrev loading : Option LoadError → Option ReloadError
loading none = none
loading (some e) = some (load_failed e)

-- What is read for a path, what encoding/csv makes of a text, and the rounds in which the context is
-- done.
module _ (read_file : Text → Option (Option (List Text))) (csv : Text → Option (List (List Text)))
    (done : ℕ → Bool) where
  -- The targets of all sources, and the first error.
  unfoldable pub load_sources :
      List InventorySource → List Target → Option ReloadError → List Target × Option ReloadError
  unfolding load
  load_sources [] all first = (all, first)
  load_sources (x ∷ xs) all first =
      let (targets, e) = load csv done (read_file x.path) in
      let unsupported =
        load_sources xs all (or_first first (some (unsupported_type x.source_type))) in
      let supported = load_sources xs (all ++ targets) (or_first first (loading e)) in
      if not (text_eq x.source_type (codes "csv")) then unsupported else supported

  abbrev upserted :
      (List Target → Option GoError)
      → List Target × Option ReloadError
      → Option (List Target) × Option ReloadError
  upserted upsert ([], first) = (none, first)
  upserted upsert (t ∷ ts, first) = elim (upsert (t ∷ ts)) [
    | some e ↦ (some (t ∷ ts), some (upsert_failed e))
    | none ↦ (some (t ∷ ts), first)
  ]

  -- The devices that the metadata store is given, and the error.
  unfoldable pub reload_inventory :
      (List Target → Option GoError)
      → List InventorySource
      → Option (List Target) × Option ReloadError
  unfolding load_sources
  reload_inventory upsert sources = upserted upsert (load_sources sources [] none)

pub data WindowProblem : Type 0 where
  bad_timezone bad_start bad_end bad_days bad_scheduler_timezone bad_policy : Text → WindowProblem

pub data Built {ℓ} (A : Type ℓ) : Type ℓ where
  built : A → Built A
  failed : WindowProblem → Built A

infixl 5 ◌then_build◌
abbrev ◌then_build◌ {ℓ} : {A B : Type ℓ} → Built A → (A → Built B) → Built B
built a then_build f = f a
failed e then_build f = failed e

abbrev or_failed {ℓ} : {A : Type ℓ} → WindowProblem → Option A → Built A
or_failed e none = failed e
or_failed e (some a) = built a

module _ {Loc : Type 0} (cal : Calendar Loc) (load_location : Text → Option Loc) where
  abbrev location_of : Text → WindowProblem → Loc → Built Loc
  location_of timezone problem fallback =
      if is_empty timezone then built fallback else or_failed problem (load_location timezone)

  unfoldable pub build_window : Loc → Window → Built (ScheduleWindow Loc)
  unfolding parse_clock parse_weekdays
  build_window fallback w = location_of w.timezone (bad_timezone w.name) fallback then_build λ loc.
      or_failed (bad_start w.name) (parse_clock w.start) then_build λ start.
      or_failed (bad_end w.name) (parse_clock w.end) then_build λ stop.
      or_failed (bad_days w.name) (parse_weekdays w.days) then_build λ days. built (record {
        name = w.name;
        days = days;
        start = start;
        stop = stop;
        location = some loc;
        groups = w.groups;
        sites = w.sites;
        vendors = w.vendors;
        roles = w.roles;
      })

  unfoldable pub build_schedule_windows : List Window → Loc → Built (List (ScheduleWindow Loc))
  unfolding build_window
  build_schedule_windows [] fallback = built []
  build_schedule_windows (w ∷ ws) fallback = build_window fallback w then_build λ x.
      build_schedule_windows ws fallback then_build λ xs. built (x ∷ xs)

  abbrev policy_of :
      Scheduler → Loc → List (ScheduleWindow Loc) → List (ScheduleWindow Loc) → SchedulePolicy Loc
  policy_of cfg loc windows blackouts = record {
    interval = cfg.default_interval;
    cron = cfg.cron;
    location = some loc;
    jitter_percent = cfg.jitter_percent;
    jitter_max = cfg.jitter_max;
    jitter = none;
    windows = windows;
    blackouts = blackouts;
  }

  -- `built none` is no planner and no error.
  unfoldable pub build_schedule_planner : Scheduler → Built (Option (Planner Loc))
  unfolding build_schedule_windows new_planner
  build_schedule_planner cfg =
      if lebℤ cfg.default_interval (pos 0) && is_empty cfg.cron
      then built none
      else (location_of cfg.timezone (bad_scheduler_timezone []) cal.utc then_build λ loc.
          build_schedule_windows cfg.windows loc then_build λ windows.
          build_schedule_windows cfg.blackouts loc then_build λ blackouts.
          or_failed (bad_policy []) (new_planner cal (policy_of cfg loc windows blackouts))
          then_build λ p. built (some p))

  -- The bases of at most `n` sweeps, which begin when the base has come.
  unfoldable pub bases_from : ℕ → Planner Loc → Option Time → List Time
  unfolding next_base
  bases_from n p none = []
  bases_from zero p (some base) = []
  bases_from (suc n) p (some base) = base ∷ bases_from n p (next_base cal p base)

  unfoldable pub sweep_bases : ℕ → Planner Loc → Time → List Time
  unfolding bases_from initial_base
  sweep_bases n p now = bases_from n p (initial_base cal p now)

  abbrev pub scheduled : Target → ScheduleDecision → Request
  scheduled t d = record {
    target = t;
    job = job_for t (codes "schedule") (codes "scheduler") d.queue_at;
  }

  abbrev cons_scheduled : Target → Option ScheduleDecision → List Request → List Request
  cons_scheduled t none rest = rest
  cons_scheduled t (some d) rest = scheduled t d ∷ rest

  -- What a sweep asks the manager for; an error of Enqueue is only logged.
  unfoldable pub sweep_each : Planner Loc → Time → List Target → List Request
  unfolding queue_time
  sweep_each p base [] = []
  sweep_each p base (t ∷ ts) =
      let rest = sweep_each p base ts in
      if not t.enabled then rest else cons_scheduled t (queue_time cal p base t) rest

  unfoldable pub enqueue_sweep : Planner Loc → Time → Result (List Target) → List Request
  unfolding sweep_each
  enqueue_sweep p base (err e) = []
  enqueue_sweep p base (ok devices) = sweep_each p base devices
