-- ===== src/Scheduler/Planner/Allowed.antt =====
-- schedule.go: the time that `nextAllowed` and `QueueTime` give.
use go_xidized.Prelude.{
  ℕ, zero, suc, ◌+◌, ◌*◌, ◌≤◌, ◌<◌, ◌≡◌, refl, ◌⊎◌, inl, inr, ◌↔◌, ℤ, pos, pos_part, ◌≤ℤ◌, Bool,
  Text, true, false, ◌||◌, ◌&&◌, not, List, Option, none, some, any, arith, Bool-cases, dec_lt,
}
use go_xidized.Types.{Time, Target, minute}
use go_xidized.Scheduler.Manager.{add_time}
use go_xidized.Scheduler.Calendar.{Calendar}
use go_xidized.Scheduler.Window.{
  Verdict, allowed_at, applicable_windows, outside, contains, ScheduleWindow,
}
use go_xidized.Scheduler.Search.{IsFirst, rounds, IsFirst-past, IsFirst-here, IsFirst-later}
use go_xidized.Scheduler.Cron.{first_minute}
use go_xidized.Scheduler.Cron.Next.{first_minute_lem}
use go_xidized.Scheduler.Planner.{
  Planner, ScheduleDecision, allowed_loop, next_allowed, decided, queue_time, clamped_jitter,
  max_jitter,
}

-- The time of an answer, without the flags.
abbrev pub time_of : Option (Time × Bool × Bool) → Option Time
time_of none = none
time_of (some (t, w, b)) = some t

module _ {Loc : Type 0} (cal : Calendar Loc) where
  -- A time is allowed exactly when some window holds it, if there are any, and no blackout does; a
  -- refusal has one reason, and windows come first.
  pub allowed_at_cases :
      (t : Time) (ws bs : List (ScheduleWindow Loc))
      → let v = allowed_at cal t ws bs in
        ((v.ok ≡ true) ↔ ((outside cal t ws ≡ false) × (any (contains cal t) bs ≡ false)))
        × (v.window_blocked ≡ outside cal t ws)
        × (v.blackout_blocked ≡ (not (outside cal t ws) && any (contains cal t) bs))
  unfolding allowed_at
  allowed_at_cases t ws bs = ground arith

  module _ (verdict : Time → Verdict) (deadline : Time) where
    abbrev is_ok : Time → Bool
    is_ok u = (verdict u).ok

    allowed_loop-IsFirst :
        (fuel : ℕ) (t : Time) (w b : Bool)
        → deadline + minute < t + fuel * minute
        → 0 < fuel
        → (o : Option (Time × Bool × Bool)) × (allowed_loop cal fuel verdict deadline t w b
            ≡ some o)
          × IsFirst is_ok deadline t (time_of o)
    unfolding allowed_loop
    allowed_loop-IsFirst zero t w b h p = absurd (omega arith)
    allowed_loop-IsFirst (suc fuel) t w b h p = elim (dec_lt deadline t) [
      | yes past ↦ (none, ground arith, IsFirst-past is_ok deadline t past)
      | no more ↦ elim (Bool-cases (verdict t).ok) [
        | inl hit ↦ (
          some (t, w || (verdict t).window_blocked, b || (verdict t).blackout_blocked),
          ground arith,
          IsFirst-here is_ok deadline t (omega arith) hit,
        )
        | inr miss ↦
            let (o, e, f) =
              allowed_loop-IsFirst fuel (t + minute) (w || (verdict t).window_blocked)
                (b || (verdict t).blackout_blocked) (omega arith) (omega arith) in
            (o, ground arith, IsFirst-later is_ok deadline t (time_of o) miss f)
      ]
    ]

  module _ (p : Planner Loc) (target : Target) where
    -- The verdict on a time for the target.
    abbrev pub verdict_for : Time → Verdict
    verdict_for t =
        allowed_at cal t (applicable_windows p.policy.windows target)
          (applicable_windows p.policy.blackouts target)

    abbrev pub allowed_for : Time → Bool
    allowed_for t = (verdict_for t).ok

    rounds_enough : (deadline t : ℕ) → deadline + minute < t + rounds deadline t * minute
    rounds_enough deadline t = omega arith

    abbrev pub IsAnswer : Time → Option (Time × Bool × Bool) → Type 0
    IsAnswer c o =
        ((allowed_for c ≡ true) × (o ≡ some (c, false, false)))
        ⊎ ((allowed_for c ≡ false)
            × IsFirst allowed_for (cal.add_years cal.utc 1 c) (first_minute cal c) (time_of o))

    -- The search always ends. A candidate that is allowed is kept, with no delay noted; for any
    -- other the answer is the first whole minute after it, within a year, that is allowed, and the
    -- error where there is none.
    pub next_allowed-IsFirst :
        (c : Time)
        → (o : Option (Time × Bool × Bool)) × (next_allowed cal p c target ≡ some o) × IsAnswer c o
    unfolding next_allowed
    next_allowed-IsFirst c = elim (Bool-cases (allowed_for c)) [
      | inl hit ↦ (some (c, false, false), ground arith, inl (hit, refl))
      | inr miss ↦
          let (o, e, f) =
            allowed_loop-IsFirst verdict_for (cal.add_years cal.utc 1 c)
              (rounds (cal.add_years cal.utc 1 c) (first_minute cal c)) (first_minute cal c)
              (verdict_for c).window_blocked (verdict_for c).blackout_blocked
              (rounds_enough (cal.add_years cal.utc 1 c) (first_minute cal c)) (omega arith) in
          (o, ground arith, inr (miss, f))
    ]

    clamped_jitter_bounds :
        (id : Text)
        → (pos 0 ≤ℤ clamped_jitter cal p id)
          × ((clamped_jitter cal p id ≤ℤ max_jitter cal p) ⊎ (clamped_jitter cal p id ≡ pos 0))
    unfolding clamped_jitter
    clamped_jitter_bounds id = ground arith

    -- What a decision for a base time promises.
    pub record IsSound (base : Time) (d : ScheduleDecision) : Type 0 where
      pub base_kept : d.base_time ≡ base
      pub jitter_from_zero : pos 0 ≤ℤ d.jitter
      pub jitter_bounded : (d.jitter ≤ℤ max_jitter cal p) ⊎ (d.jitter ≡ pos 0)
      pub jittered : d.jittered_time ≡ base + pos_part d.jitter
      pub not_early : d.jittered_time ≤ d.queue_at
      pub within_a_year :
          (d.queue_at ≡ d.jittered_time) ⊎ (d.queue_at ≤ cal.add_years cal.utc 1 d.jittered_time)
      pub allowed : allowed_for d.queue_at ≡ true

    found_sound :
        (c t : Time) (w b : Bool) (o : Option (Time × Bool × Bool))
        → o ≡ some (t, w, b)
        → IsAnswer c o
        → (c ≤ t) × ((t ≡ c) ⊎ (t ≤ cal.add_years cal.utc 1 c)) × (allowed_for t ≡ true)
    found_sound c t w b none h f = cc
    found_sound c t w b (some (u, x, y)) h (inl (hit, f)) =
        let same : t ≡ c = cc in rw same (omega arith, inl refl, hit)
    found_sound c t w b (some (u, x, y)) h (inr (miss, (k, at, before, ok, rest))) =
        let same : t ≡ u = cc in rw same (omega (arith, first_minute_lem cal c), inr before, ok)

    -- A candidate's answer is never before it, and always allowed.
    next_allowed_sound :
        (c t : Time) (w b : Bool)
        → next_allowed cal p c target ≡ some (some (t, w, b))
        → (c ≤ t) × ((t ≡ c) ⊎ (t ≤ cal.add_years cal.utc 1 c)) × (allowed_for t ≡ true)
    next_allowed_sound c t w b h =
        let (o, e, f) = next_allowed-IsFirst c in found_sound c t w b o (cc) f

    add_positive : (base : Time) (j : ℤ) → pos 0 ≤ℤ j → add_time base j ≡ base + pos_part j
    add_positive base j h = ground arith

    decided-IsSound :
        (base : Time) (d : ScheduleDecision) (r : Option (Option (Time × Bool × Bool)))
        → next_allowed cal p (add_time base (clamped_jitter cal p target.id)) target ≡ r
        → decided cal base (clamped_jitter cal p target.id) r ≡ some d
        → IsSound base d
    unfolding decided
    decided-IsSound base d none e h = cc
    decided-IsSound base d (some none) e h = cc
    decided-IsSound base d (some (some (t, w, b))) e h =
        let j = clamped_jitter cal p target.id in
        ground (
          arith,
          clamped_jitter_bounds target.id,
          add_positive base j,
          next_allowed_sound (add_time base j) t w b e,
        )

    -- A decision of `QueueTime` keeps the base time, adds a jitter between 0 and the maximum, and
    -- queues the job at a time that the windows and blackouts allow, not before the jittered time
    -- and at most a year after it.
    pub queue_time-IsSound :
        (base : Time) (d : ScheduleDecision)
        → queue_time cal p base target ≡ some d
        → IsSound base d
    unfolding queue_time
    queue_time-IsSound base d h = decided-IsSound base d _ refl h
