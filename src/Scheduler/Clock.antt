-- ===== src/Scheduler/Clock.antt =====
-- internal/scheduler/schedule.go: times of day and lists of weekdays as text.
pub mod Bounds
use go_xidized.Prelude.{
  ℕ, zero, suc, ◌+◌, ◌-◌, ◌*◌, ◌≤◌, ◌<◌, ◌≡◌, refl, ℤ, pos, negsuc, pos_part, ◌≤ℤ◌, Bool, true,
  false, ◌&&◌, ◌||◌, not, Text, codes, is_empty, ltbℤ, lebℤ, if◌then◌else◌, List, [], ◌∷◌, ◌++◌,
  Option, none, some, any, arith, text_eq, ◌==◌, or_none,
}
use go_xidized.Prelude.Strings.{split, trim_space, to_lower, atoi}
use go_xidized.Types.{Duration, hour, minute, second}
use go_xidized.Scheduler.Calendar.{
  Weekday, sunday, monday, tuesday, wednesday, thursday, friday, saturday, same_day,
}
use go_xidized.Scheduler.Cron.Names.{look_up}

abbrev is_zero : ℤ → Bool
is_zero n = lebℤ n (pos 0) && lebℤ (pos 0) n

-- The bounds and the value, once the parts are numbers.
clock_value : ℤ → ℤ → ℤ → Option Duration
clock_value h m s =
    if ltbℤ h (pos 0)
      || ltbℤ (pos 24) h
      || ltbℤ m (pos 0)
      || ltbℤ (pos 59) m
      || ltbℤ s (pos 0)
      || ltbℤ (pos 59) s
    then none
    else if lebℤ (pos 24) h && (not (is_zero m) || not (is_zero s))
    then none
    else some (pos (pos_part h * hour + pos_part m * minute + pos_part s * second))

-- Two or three parts; every error is `none`.
clock_parts : List Text → Option Duration
unfolding clock_value
clock_parts (a ∷ b ∷ []) = or_none (atoi a) λ h. or_none (atoi b) λ m. clock_value h m (pos 0)
clock_parts (a ∷ b ∷ c ∷ []) =
    or_none (atoi a) λ h. or_none (atoi b) λ m. or_none (atoi c) λ s. clock_value h m s
clock_parts _ = none

unfoldable pub parse_clock : Text → Option Duration
unfolding clock_parts trim_space split
parse_clock value =
    if is_empty (trim_space value) then none else clock_parts (split (λ c. c == b':') value)

abbrev weekday_aliases : List (Text × Weekday)
weekday_aliases =
    (codes "0", sunday)
    ∷ (codes "7", sunday)
    ∷ (codes "sun", sunday)
    ∷ (codes "sunday", sunday)
    ∷ (codes "1", monday)
    ∷ (codes "mon", monday)
    ∷ (codes "monday", monday)
    ∷ (codes "2", tuesday)
    ∷ (codes "tue", tuesday)
    ∷ (codes "tues", tuesday)
    ∷ (codes "tuesday", tuesday)
    ∷ (codes "3", wednesday)
    ∷ (codes "wed", wednesday)
    ∷ (codes "wednesday", wednesday)
    ∷ (codes "4", thursday)
    ∷ (codes "thu", thursday)
    ∷ (codes "thur", thursday)
    ∷ (codes "thurs", thursday)
    ∷ (codes "thursday", thursday)
    ∷ (codes "5", friday)
    ∷ (codes "fri", friday)
    ∷ (codes "friday", friday)
    ∷ (codes "6", saturday)
    ∷ (codes "sat", saturday)
    ∷ (codes "saturday", saturday)
    ∷ []

abbrev pub has_day : Weekday → List Weekday → Bool
has_day d = any λ x. same_day x d

dedupe_from : List Weekday → List Weekday → List Weekday
dedupe_from seen [] = []
dedupe_from seen (d ∷ ds) =
    let skip = dedupe_from seen ds in
    let keep = d ∷ dedupe_from (d ∷ seen) ds in if has_day d seen then skip else keep

unfoldable pub dedupe_weekdays : List Weekday → List Weekday
unfolding dedupe_from
dedupe_weekdays days = dedupe_from [] days

-- What one word says.
pub data Word : Type 0 where
  every : Word
  these : List Weekday → Word
  unknown : Word

abbrev one_of : Text → List Text → Bool
one_of w = any λ x. text_eq x w

weekday_word : Text → Word
weekday_word w =
    if one_of w (codes "" ∷ codes "*" ∷ codes "all" ∷ codes "daily" ∷ codes "everyday" ∷ [])
    then every
    else if one_of w (codes "weekday" ∷ codes "weekdays" ∷ [])
    then these (monday ∷ tuesday ∷ wednesday ∷ thursday ∷ friday ∷ [])
    else if one_of w (codes "weekend" ∷ codes "weekends" ∷ [])
    then these (saturday ∷ sunday ∷ [])
    else elim (look_up w weekday_aliases) [ none ↦ unknown | some d ↦ these (d ∷ []) ]

-- The loop of `ParseWeekdays` over the values left and the days so far; `none` is the error.
weekdays_loop : List Weekday → List Text → Option (List Weekday)
unfolding weekday_word trim_space to_lower dedupe_weekdays
weekdays_loop out [] = some (dedupe_weekdays out)
weekdays_loop out (raw ∷ rest) = elim (weekday_word (to_lower (trim_space raw))) [
  | every ↦ some []
  | these ds ↦ weekdays_loop (out ++ ds) rest
  | unknown ↦ none
]

unfoldable pub parse_weekdays : List Text → Option (List Weekday)
unfolding weekdays_loop
parse_weekdays values = weekdays_loop [] values
