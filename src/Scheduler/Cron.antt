-- ===== src/Scheduler/Cron.antt =====
-- internal/scheduler/schedule.go: cron expressions and the next time that one matches.
pub mod Names
pub mod Values
pub mod Next
use go_xidized.Prelude.{
  ℕ, zero, suc, ◌+◌, ◌-◌, ◌*◌, ◌%◌, ◌^◌, ℤ, pos, negsuc, pos_part, neg_part, wrap64, Bool, true,
  false, ◌&&◌, ◌||◌, not, Text, codes, text_eq, is_empty, ltb, ltbℤ, lebℤ, positive, ◌==◌,
  if◌then◌else◌, List, [], ◌∷◌, ◌++◌, Option, none, some, any, or_none, add64,
}
use go_xidized.Prelude.Strings.{split, fields, trim_space, to_lower, atoi, contains}
use go_xidized.Types.{Time, minute}
use go_xidized.Scheduler.Calendar.{Civil, Calendar, weekday_number}
use go_xidized.Scheduler.Search.{rounds}
use Names.{month_aliases, weekday_number_aliases, look_up}

-- The keys of the map `values`, with repetitions.
pub record CronField : Type 0 where
  pub values : List ℤ
  pub wildcard : Bool

pub record CronSpec : Type 0 where
  pub minute_field : CronField
  pub hour_field : CronField
  pub dom : CronField
  pub month : CronField
  pub dow : CronField

abbrev same : ℤ → ℤ → Bool
same a b = lebℤ a b && lebℤ b a

unfoldable pub field_matches : CronField → ℕ → Bool
field_matches f v = any (λ w. same w (pos v)) f.values

-- `(*cronSpec).matches`, on the local time.
unfoldable pub spec_matches : CronSpec → Civil → Bool
unfolding field_matches
spec_matches c t =
    if not (field_matches c.minute_field t.minutes)
      || not (field_matches c.hour_field t.hours)
      || not (field_matches c.month t.month)
    then false
    else let dom = field_matches c.dom t.day in
      let dow = field_matches c.dow (weekday_number t.weekday) in
      (if not c.dom.wildcard && not c.dow.wildcard then dom || dow else dom && dow)

unfoldable pub cron_value : Text → List (Text × ℕ) → Option ℤ
unfolding trim_space to_lower
cron_value raw aliases =
    let key = to_lower (trim_space raw) in
    elim (look_up key aliases) [ some v ↦ some (pos v) | none ↦ atoi key ]

infixl 5 ◌>>=◌
abbrev ◌>>=◌ {ℓ κ} : {A : Type ℓ} {B : Type κ} → Option A → (A → Option B) → Option B
m >>= f = or_none m f

-- The bounds of a range after `strings.Split(raw, "-")`.
cron_bounds : List Text → ℤ → ℤ → List (Text × ℕ) → Option (ℤ × ℤ)
cron_bounds (a ∷ b ∷ []) min max aliases = or_none (cron_value a aliases) λ start.
    or_none (cron_value b aliases) λ end.
      if ltbℤ end start
      then none
      else if ltbℤ start min || ltbℤ max end
      then none
      else some (start, end)
cron_bounds _ min max aliases = none

unfoldable pub cron_range : Text → ℤ → ℤ → List (Text × ℕ) → Option (ℤ × ℤ)
unfolding cron_bounds contains
cron_range raw min max aliases =
    if text_eq raw (codes "*") || is_empty raw
    then some (min, max)
    else if contains (codes "-") raw
    then cron_bounds (split (λ c. c == b'-') raw) min max aliases
    else or_none (cron_value raw aliases)
        λ v. if ltbℤ v min || ltbℤ max v then none else some (v, v)

-- The loop over `value`, on fuel: the key of 7 is 0 in the field of weekdays.
unfoldable pub collect_values : ℕ → ℤ → ℤ → ℕ → Bool → Option (List ℤ)
unfolding add64
collect_values zero value end step is_dow = none
collect_values (suc fuel) value end step is_dow =
    let rest = collect_values fuel (add64 value step) end step is_dow in
    let key = if is_dow && same value (pos 7) then pos 0 else value in
    if ltbℤ end value then some [] else or_none rest (λ vs. some (key ∷ vs))

-- The fuel that a range ending at `end` needs, also where the addition wraps around.
abbrev pub collect_fuel : ℤ → ℕ
collect_fuel end = pos_part end + 5

-- The part before the slash, and the step.
step_of : List Text → Option (Text × ℕ)
step_of (p ∷ []) = some (p, 1)
step_of (p ∷ s ∷ []) = or_none (atoi s) λ n. if positive n then some (p, pos_part n) else none
step_of _ = none

parse_part : Text → ℤ → ℤ → List (Text × ℕ) → Option (List ℤ)
unfolding step_of trim_space split
parse_part raw min max aliases =
    let part = trim_space raw in
    if is_empty part
    then none
    else or_none (step_of (split (λ c. c == b'/') part)) λ (p, step).
      or_none (cron_range p min max aliases)
        λ (start, end). collect_values (collect_fuel end) start end step (same max (pos 7))

parse_parts : List Text → ℤ → ℤ → List (Text × ℕ) → Option (List ℤ)
unfolding parse_part
parse_parts [] min max aliases = some []
parse_parts (p ∷ ps) min max aliases =
    or_none (parse_part p min max aliases)
      λ vs. or_none (parse_parts ps min max aliases) λ ws. some (vs ++ ws)

unfoldable pub parse_cron_field : Text → ℤ → ℤ → List (Text × ℕ) → Option CronField
unfolding parse_parts
parse_cron_field raw min max aliases =
    or_none (parse_parts (split (λ c. c == b',') raw) min max aliases)
      λ vs. some (record { values = vs; wildcard = text_eq raw (codes "*") })

parse_fields : List Text → Option CronSpec
unfolding parse_cron_field
parse_fields (a ∷ b ∷ c ∷ d ∷ e ∷ []) = do
  minutes ← parse_cron_field a (pos 0) (pos 59) []
  hours ← parse_cron_field b (pos 0) (pos 23) []
  dom ← parse_cron_field c (pos 1) (pos 31) []
  month ← parse_cron_field d (pos 1) (pos 12) month_aliases
  dow ← parse_cron_field e (pos 0) (pos 7) weekday_number_aliases
  some (record { minute_field = minutes; hour_field = hours; dom = dom; month = month; dow = dow })
parse_fields _ = none

unfoldable pub parse_cron : Text → Option CronSpec
unfolding parse_fields fields
parse_cron expr = parse_fields (fields expr)

-- The loop of `next`: `none` is out of fuel, `some none` is the error.
unfoldable pub next_loop : ℕ → (Time → Bool) → Time → Time → Option (Option Time)
next_loop zero test deadline next = none
next_loop (suc fuel) test deadline next =
    let rest = next_loop fuel test deadline (next + minute) in
    if ltb deadline next then some none else if test next then some (some next) else rest

module _ {Loc : Type 0} (cal : Calendar Loc) where
  -- `after.In(loc).Truncate(time.Minute).Add(time.Minute)`
  unfoldable pub first_minute : Time → Time
  first_minute after = after - after % minute + minute

  unfoldable pub next : CronSpec → Time → Loc → Option (Option Time)
  unfolding next_loop first_minute
  next c after loc =
      let first = first_minute after in
      let deadline = cal.add_years loc 5 first in
      next_loop (rounds deadline first) (λ t. spec_matches c (cal.civil loc t)) deadline first
