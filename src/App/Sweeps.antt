-- ===== src/App/Sweeps.antt =====
-- app.go: which jobs a sweep asks for, and when.
use go_xidized.Prelude.{
  Text, ◌≡◌, refl, Bool, true, false, not, List, [], ◌∷◌, All, Option, none, some, if◌then◌else◌,
}
use go_xidized.Types.{Time, Target}
use go_xidized.Scheduler.Calendar.{Calendar}
use go_xidized.Scheduler.Manager.{Request}
use go_xidized.Scheduler.Planner.{ScheduleDecision, Planner, queue_time}
use go_xidized.Scheduler.Planner.Allowed.{IsSound, queue_time-IsSound}
use go_xidized.App.{sweep_each, cons_scheduled}

module _ {Loc : Type 0} (cal : Calendar Loc) (load_location : Text → Option Loc) where
  -- A request for an enabled device, at the time that a sound decision gives for it.
  abbrev pub IsScheduled : Planner Loc → Time → Request → Type 0
  IsScheduled p base r =
      (r.target.enabled ≡ true)
      × ((d : ScheduleDecision) × IsSound cal p r.target base d
          × (r.job.queued_at ≡ d.queue_at)
          × (r.job.target_id ≡ r.target.id))

  cons-IsScheduled :
      (p : Planner Loc) (base : Time) (t : Target) (o : Option ScheduleDecision)
      (rest : List Request)
      → t.enabled ≡ true
      → queue_time cal p base t ≡ o
      → All (IsScheduled p base) rest
      → All (IsScheduled p base) (cons_scheduled cal load_location t o rest)
  cons-IsScheduled p base t none rest on e h = h
  cons-IsScheduled p base t (some d) rest on e h =
      ((on, (d, queue_time-IsSound cal p t base d e, refl, refl)), h)

  kept-IsScheduled :
      (p : Planner Loc) (base : Time) (t : Target) (b : Bool) (rest : List Request)
      → t.enabled ≡ b
      → All (IsScheduled p base) rest
      → All (IsScheduled p base) (
          if not b then rest else cons_scheduled cal load_location t (queue_time cal p base t) rest)
  kept-IsScheduled p base t true rest on h = cons-IsScheduled p base t _ rest on refl h
  kept-IsScheduled p base t false rest off h = h

  -- Each job that a sweep asks for is one of an enabled device, and is queued at a time that the
  -- windows and blackouts allow its target: the time of a decision that keeps the sweep's base, adds a
  -- jitter between 0 and the maximum, and is not before the jittered time.
  pub sweep_each-IsScheduled :
      (p : Planner Loc) (base : Time) (ts : List Target)
      → All (IsScheduled p base) (sweep_each cal load_location p base ts)
  unfolding sweep_each
  sweep_each-IsScheduled p base [] = record {}
  sweep_each-IsScheduled p base (t ∷ ts) =
      kept-IsScheduled p base t t.enabled _ refl (sweep_each-IsScheduled p base ts)
