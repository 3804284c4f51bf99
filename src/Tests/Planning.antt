-- ===== src/Tests/Planning.antt =====
-- The planner: a calendar in which every day is a Monday, with windows and cron expressions.
use go_xidized.Prelude.{
  ℕ, ◌+◌, ◌*◌, ◌/◌, ◌%◌, ◌≤◌, ◌≡◌, refl, ◌↔◌, ℤ, pos, negsuc, Bool, true, false, codes, List, [],
  ◌∷◌, Option, none, some, arith,
}
use go_xidized.Types.{Time, minute, hour, second}
use go_xidized.Scheduler.Calendar.{monday, sunday, Civil, Calendar, time_of_day, previous_weekday}
use go_xidized.Scheduler.Window.{
  ScheduleWindow, applicable_windows, applies_to, day_allowed, contains_civil, allowed_at, contains,
}
use go_xidized.Scheduler.Window.Occurrence.{IsOpen, contains_civil-iff-IsOpen}
use go_xidized.Scheduler.Search.{IsFirst}
use go_xidized.Scheduler.Cron.{
  CronSpec, spec_matches, next, first_minute, collect_values, collect_fuel,
}
use go_xidized.Scheduler.Cron.Next.{next-IsFirst}
use go_xidized.Scheduler.Cron.Values.{collect_values_iff, collect_ends, in_values, field_key}
use go_xidized.Scheduler.Planner.{
  Planner, SchedulePolicy, ScheduleDecision, queue_time, next_allowed, clamped_jitter, max_jitter,
}
use go_xidized.Scheduler.Planner.Allowed.{
  next_allowed-IsFirst, IsAnswer, queue_time-IsSound, IsSound,
}
use go_xidized.Tests.Jobs.{request}

abbrev at : ℕ → ℕ → Civil
at h m = record {
  month = 1;
  day = 1;
  weekday = monday;
  hours = h;
  minutes = m;
  seconds = 0;
  nanos = 0;
}

-- One zone, whose days all begin at a multiple of 24 hours.
abbrev pub mondays : Calendar (Unit {0})
mondays = record {
  utc = tt;
  civil = λ l t. at (t / hour % 24) (t / minute % 60);
  add_years = λ l y t. t + y * 8760 * hour;
}

-- From 22:00 on Sundays to 04:00 the next day.
abbrev night : ScheduleWindow (Unit {0})
night = record {
  name = codes "night";
  days = sunday ∷ [];
  start = pos (22 * hour);
  stop = pos (4 * hour);
  location = none;
  groups = [];
  sites = [];
  vendors = [];
  roles = [];
}

contains_civil-iff-IsOpen_example :
    (contains_civil night (at 3 0) ≡ true) ↔ IsOpen night (at 3 0) (22 * hour) (4 * hour)
contains_civil-iff-IsOpen_example =
    contains_civil-iff-IsOpen night (at 3 0) (22 * hour) (4 * hour) refl refl (omega arith)
      (omega arith) (omega arith) (unfold time_of_day in omega arith)

early_monday : contains_civil night (at 3 0) ≡ true
unfolding contains_civil day_allowed previous_weekday
early_monday = refl

-- Runs every hour, within the nights, with a constant jitter of ten seconds.
abbrev policy : SchedulePolicy (Unit {0})
policy = record {
  interval = pos hour;
  cron = [];
  location = none;
  jitter_percent = pos 10;
  jitter_max = pos minute;
  jitter = none;
  windows = night ∷ [];
  blackouts = [];
}

abbrev pub planner : Planner (Unit {0})
planner = record { policy = policy; cron = none; loc = tt; jitter = λ id m. pos (10 * second) }

next_allowed-IsFirst_example :
    (o : Option (Time × Bool × Bool)) × (next_allowed mondays planner (5 * hour) request.target
      ≡ some o)
    × IsAnswer mondays planner request.target (5 * hour) o
next_allowed-IsFirst_example = next_allowed-IsFirst mondays planner request.target (5 * hour)

abbrev decision : ScheduleDecision
decision = record {
  base_time = 2 * hour;
  jittered_time = 2 * hour + 10 * second;
  queue_at = 2 * hour + 10 * second;
  jitter = pos (10 * second);
  delayed_by_window = false;
  delayed_by_blackout = false;
}

queue_time-IsSound_example : IsSound mondays planner request.target (2 * hour) decision
unfolding queue_time next_allowed allowed_at applicable_windows applies_to contains contains_civil
    clamped_jitter max_jitter day_allowed previous_weekday
queue_time-IsSound_example =
    queue_time-IsSound mondays planner request.target (2 * hour) decision refl

abbrev never : CronSpec
never = record {
  minute_field = record { values = pos 30 ∷ []; wildcard = false };
  hour_field = record { values = pos 2 ∷ []; wildcard = false };
  dom = record { values = pos 1 ∷ []; wildcard = true };
  month = record { values = pos 1 ∷ []; wildcard = true };
  dow = record { values = pos 1 ∷ []; wildcard = true };
}

next-IsFirst_example :
    let first = first_minute mondays (2 * hour) in
    (o : Option Time) × (next mondays never (2 * hour) tt ≡ some o)
    × IsFirst (λ t. spec_matches never (mondays.civil tt t)) (mondays.add_years tt 5 first) first o
next-IsFirst_example = next-IsFirst mondays never (2 * hour) tt

collect_values_iff_example :
    (r : List ℤ) × (collect_values (collect_fuel (pos 59)) (pos 5) (pos 59) 20 false ≡ some r)
    × ((x : ℕ)
        → (in_values x r ≡ true)
          ↔ ((k : ℕ) × (5 + k * 20 ≤ 59) × (field_key false (5 + k * 20) ≡ x)))
collect_values_iff_example =
    collect_values_iff 5 59 20 false (omega arith) (omega arith) (omega arith)

collect_ends_example :
    (r : List ℤ) × (collect_values
        (collect_fuel (pos 2))
        (pos 2)
        (pos 2)
        9_223_372_036_854_775_807
        false
      ≡ some r)
collect_ends_example =
    collect_ends 2 2 9_223_372_036_854_775_807 false (omega arith) (omega arith) (omega arith)
      (omega arith)

-- `2/9223372036854775807` stands for 2, but the addition wraps around and adds 0.
wraps_to_zero :
    collect_values (collect_fuel (pos 2)) (pos 2) (pos 2) 9_223_372_036_854_775_807 false
    ≡ some (pos 2 ∷ negsuc 9_223_372_036_854_775_806 ∷ pos 0 ∷ [])
unfolding collect_values
wraps_to_zero = refl
