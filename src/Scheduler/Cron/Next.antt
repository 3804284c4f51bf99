-- ===== src/Scheduler/Cron/Next.antt =====
-- schedule.go: what `next` finds.
use go_xidized.Prelude.{
  ℕ, zero, suc, ◌+◌, ◌*◌, ◌%◌, ◌≤◌, ◌<◌, ◌≡◌, Bool, Option, none, some, arith, Bool-cases, inl, inr,
  dec_lt,
}
use go_xidized.Types.{Time, minute}
use go_xidized.Scheduler.Calendar.{Calendar}
use go_xidized.Scheduler.Search.{IsFirst, rounds, IsFirst-past, IsFirst-here, IsFirst-later}
use go_xidized.Scheduler.Cron.{CronSpec, spec_matches, next_loop, first_minute, next}

module _ (test : Time → Bool) (deadline : Time) where
  next_loop-IsFirst :
      (fuel : ℕ) (t : Time)
      → deadline + minute < t + fuel * minute
      → 0 < fuel
      → (o : Option Time) × (next_loop fuel test deadline t ≡ some o) × IsFirst test deadline t o
  unfolding next_loop
  next_loop-IsFirst zero t h p = absurd (omega arith)
  next_loop-IsFirst (suc fuel) t h p = elim (dec_lt deadline t) [
    | yes past ↦ (none, ground arith, IsFirst-past test deadline t past)
    | no more ↦ elim (Bool-cases (test t)) [
      | inl hit ↦ (some t, ground arith, IsFirst-here test deadline t (omega arith) hit)
      | inr miss ↦
          let (o, e, f) = next_loop-IsFirst fuel (t + minute) (omega arith) (omega arith) in
          (o, ground arith, IsFirst-later test deadline t o miss f)
    ]
  ]

rounds_enough : (deadline t : ℕ) → deadline + minute < t + rounds deadline t * minute
rounds_enough deadline t = omega arith

-- The search always ends. It finds the first whole minute after the given time, at or before the
-- deadline, that the expression matches in the zone; where there is none it gives the error.
pub next-IsFirst :
    {Loc : Type 0} (cal : Calendar Loc) (c : CronSpec) (after : Time) (loc : Loc)
    → let first = first_minute cal after in
      (o : Option Time) × (next cal c after loc ≡ some o)
      × IsFirst (λ t. spec_matches c (cal.civil loc t)) (cal.add_years loc 5 first) first o
unfolding next
next-IsFirst cal c after loc = next_loop-IsFirst _ _ _ _ (rounds_enough _ _) (omega arith)

-- The first candidate is a whole minute, after the given time and by at most a minute.
pub first_minute_lem :
    {Loc : Type 0} (cal : Calendar Loc) (t : Time)
    → (first_minute cal t % minute ≡ 0)
      × (t < first_minute cal t)
      × (first_minute cal t ≤ t + minute)
unfolding first_minute
first_minute_lem cal t = (omega arith, omega arith, omega arith)
