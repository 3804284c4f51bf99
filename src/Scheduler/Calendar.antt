-- ===== src/Scheduler/Calendar.antt =====
-- What schedule.go asks of Go's `time` package: weekdays, local times and the calendar.
use go_xidized.Prelude.{ℕ, ◌+◌, ◌*◌, Bool, ◌==◌}
use go_xidized.Types.{Time, minute, hour, second}

pub data Weekday : Type 0 where
  sunday monday tuesday wednesday thursday friday saturday : Weekday

abbrev pub weekday_number : Weekday → ℕ
weekday_number sunday = 0
weekday_number monday = 1
weekday_number tuesday = 2
weekday_number wednesday = 3
weekday_number thursday = 4
weekday_number friday = 5
weekday_number saturday = 6

abbrev pub same_day : Weekday → Weekday → Bool
same_day a b = weekday_number a == weekday_number b

-- The fields of a local time.
pub record Civil : Type 0 where
  pub month : ℕ
  pub day : ℕ
  pub weekday : Weekday
  pub hours : ℕ
  pub minutes : ℕ
  pub seconds : ℕ
  pub nanos : ℕ

-- `t.In(loc)` and `t.AddDate(years, 0, 0)`.
pub record Calendar (Loc : Type 0) : Type 0 where
  pub utc : Loc
  pub civil : Loc → Time → Civil
  pub add_years : Loc → ℕ → Time → Time

unfoldable pub previous_weekday : Weekday → Weekday
previous_weekday sunday = saturday
previous_weekday monday = sunday
previous_weekday tuesday = monday
previous_weekday wednesday = tuesday
previous_weekday thursday = wednesday
previous_weekday friday = thursday
previous_weekday saturday = friday

-- The time of day in nanoseconds.
unfoldable pub time_of_day : Civil → ℕ
time_of_day c = c.hours * hour + c.minutes * minute + c.seconds * second + c.nanos
