-- ===== src/Scheduler/Window.antt =====
-- internal/scheduler/schedule.go: maintenance windows and blackouts.
pub mod Occurrence
use go_xidized.Prelude.{
  ℕ, ℤ, pos, Bool, true, false, ◌&&◌, ◌||◌, not, Text, text_eq, ltbℤ, lebℤ, if◌then◌else◌, List, [],
  ◌∷◌, Option, none, some, any, keep_if,
}
use go_xidized.Types.{Time, Duration, Target}
use go_xidized.Scheduler.Calendar.{
  Weekday, same_day, Civil, Calendar, previous_weekday, time_of_day,
}

pub record ScheduleWindow (Loc : Type 0) : Type 0 where
  pub name : Text
  pub days : List Weekday
  pub start : Duration
  pub stop : Duration
  pub location : Option Loc
  pub groups : List Text
  pub sites : List Text
  pub vendors : List Text
  pub roles : List Text

unfoldable pub matches_selector : List Text → Text → Bool
matches_selector [] got = true
matches_selector (v ∷ vs) got = any (λ value. text_eq value got) (v ∷ vs)

abbrev day_in : List Weekday → Weekday → Bool
day_in [] day = true
day_in (d ∷ ds) day = any (λ allowed. same_day allowed day) (d ∷ ds)

module _ {Loc : Type 0} where
  unfoldable pub day_allowed : ScheduleWindow Loc → Weekday → Bool
  day_allowed w day = day_in w.days day

  unfoldable pub applies_to : ScheduleWindow Loc → Target → Bool
  unfolding matches_selector
  applies_to w t =
      matches_selector w.groups t.group
      && matches_selector w.sites t.site
      && matches_selector w.vendors t.vendor
      && matches_selector w.roles t.role

  unfoldable pub applicable_windows : List (ScheduleWindow Loc) → Target → List (ScheduleWindow Loc)
  applicable_windows windows target = keep_if (λ w. applies_to w target) windows

  -- `Contains`, given the local time.
  unfoldable pub contains_civil : ScheduleWindow Loc → Civil → Bool
  unfolding time_of_day
  contains_civil w local =
      let tod = pos (time_of_day local) in
      let today = day_allowed w local.weekday in
      let yesterday = day_allowed w (previous_weekday local.weekday) in
      if lebℤ w.start w.stop && lebℤ w.stop w.start
      then today
      else if ltbℤ w.start w.stop
      then today && lebℤ w.start tod && ltbℤ tod w.stop
      else if lebℤ w.start tod
      then today
      else if ltbℤ tod w.stop
      then yesterday
      else false

-- The three results of `allowedAt`.
pub record Verdict : Type 0 where
  pub ok : Bool
  pub window_blocked : Bool
  pub blackout_blocked : Bool

module _ {Loc : Type 0} (cal : Calendar Loc) where
  abbrev pub or_utc : Option Loc → Loc
  or_utc none = cal.utc
  or_utc (some loc) = loc

  unfoldable pub contains : Time → ScheduleWindow Loc → Bool
  contains t w = contains_civil w (cal.civil (or_utc w.location) t)

  -- `len(windows) > 0` and no window contains the time.
  abbrev pub outside : Time → List (ScheduleWindow Loc) → Bool
  outside t [] = false
  outside t (w ∷ ws) = not (any (contains t) (w ∷ ws))

  unfoldable pub allowed_at : Time → List (ScheduleWindow Loc) → List (ScheduleWindow Loc) → Verdict
  allowed_at t windows blackouts =
      if outside t windows
      then record { ok = false; window_blocked = true; blackout_blocked = false }
      else if any (contains t) blackouts
      then record { ok = false; window_blocked = false; blackout_blocked = true }
      else record { ok = true; window_blocked = false; blackout_blocked = false }
