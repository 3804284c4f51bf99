-- ===== src/Scheduler/Window/Occurrence.antt =====
-- schedule.go: a window as a set of occurrences, each of which begins on an allowed day.
use go_xidized.Prelude.{
  ℕ, ◌+◌, ◌-◌, ◌≤◌, ◌<◌, ◌≡◌, ◌↔◌, ◌⊎◌, ◌≢◌, pos, true, arith, ltb, if◌then◌else◌, ◌*◌,
}
use go_xidized.Types.{hour}
use go_xidized.Scheduler.Calendar.{Civil, previous_weekday, time_of_day}
use go_xidized.Scheduler.Window.{ScheduleWindow, day_allowed, contains_civil}

abbrev pub day : ℕ
day = 24 * hour

module _ {Loc : Type 0} where
  -- Some occurrence, of today or of yesterday, has begun and has not ended.
  abbrev pub IsOpen : ScheduleWindow Loc → Civil → ℕ → ℕ → Type 0
  IsOpen w c start stop =
      ((day_allowed w c.weekday ≡ true)
        × (start ≤ time_of_day c)
        × (time_of_day c - start < stop + (if ltb start stop then 0 else day) - start))
      ⊎ ((day_allowed w (previous_weekday c.weekday) ≡ true)
          × (time_of_day c + day - start < stop + (if ltb start stop then 0 else day) - start))

  -- A window that begins and ends at different times of the day contains a local time exactly when
  -- an occurrence that began on an allowed day, that day or the day before, is still open.
  pub contains_civil-iff-IsOpen :
      (w : ScheduleWindow Loc) (c : Civil) (start stop : ℕ)
      → w.start ≡ pos start
      → w.stop ≡ pos stop
      → start < day
      → stop ≤ day
      → start ≢ stop
      → time_of_day c < day
      → (contains_civil w c ≡ true) ↔ IsOpen w c start stop
  unfolding contains_civil
  contains_civil-iff-IsOpen w c start stop es ee hs he ne ht = ground arith
