-- ===== src/Scheduler/Planner.antt =====
-- internal/scheduler/schedule.go: the planner of base times and of the time at which a job is
-- queued. The time zones and the calendar are Go's.
pub mod Allowed
use Prim.Native.Nat.{bit_xor}
use go_xidized.Prelude.{
  ℕ, zero, suc, ◌+◌, ◌-◌, ◌*◌, ◌%◌, ◌^◌, ℤ, pos, negsuc, pos_part, neg_part, wrap64, quot, mul64,
  Bool, true, false, ◌&&◌, ◌||◌, Text, is_empty, ltb, ltbℤ, lebℤ, positive, if◌then◌else◌, List, [],
  ◌∷◌, ◌++◌, Option, none, some, any,
}
use go_xidized.Prelude.Strings.{trim_space}
use go_xidized.Types.{Time, Duration, Target, minute, hour}
use go_xidized.Scheduler.Manager.{add_time}
use go_xidized.Scheduler.Calendar.{Calendar}
use go_xidized.Scheduler.Window.{ScheduleWindow, Verdict, applicable_windows, allowed_at}
use go_xidized.Scheduler.Search.{rounds}
use go_xidized.Scheduler.Cron.{CronSpec, parse_cron, next, first_minute}

abbrev pub JitterFunc : Type 0
JitterFunc = Text → Duration → Duration

pub record SchedulePolicy (Loc : Type 0) : Type 0 where
  pub interval : Duration
  pub cron : Text
  pub location : Option Loc
  pub jitter_percent : ℤ
  pub jitter_max : Duration
  pub jitter : Option JitterFunc
  pub windows : List (ScheduleWindow Loc)
  pub blackouts : List (ScheduleWindow Loc)

pub record ScheduleDecision : Type 0 where
  pub base_time : Time
  pub jittered_time : Time
  pub queue_at : Time
  pub jitter : Duration
  pub delayed_by_window : Bool
  pub delayed_by_blackout : Bool

pub record Planner (Loc : Type 0) : Type 0 where
  pub policy : SchedulePolicy Loc
  pub cron : Option CronSpec
  pub loc : Loc
  pub jitter : JitterFunc

-- FNV-1a of `hash/fnv`, over the bytes of the key.
fnv1a : ℕ → Text → ℕ
fnv1a h [] = h
fnv1a h (b ∷ bs) = fnv1a ((bit_xor h b * 1_099_511_628_211) % 2 ^ 64) bs

unfoldable pub deterministic_jitter : JitterFunc
unfolding fnv1a
deterministic_jitter key (pos zero) = pos 0
deterministic_jitter key (pos (suc n)) = pos (fnv1a 14_695_981_039_346_656_037 key % suc n)
deterministic_jitter key (negsuc n) = pos 0

-- `none` is an error and `some none` is that the search ran out of fuel.
module _ {Loc : Type 0} (cal : Calendar Loc) where
  invalid_window : ScheduleWindow Loc → Bool
  invalid_window w =
      ltbℤ w.start (pos 0)
      || lebℤ (pos (24 * hour)) w.start
      || ltbℤ w.stop (pos 0)
      || ltbℤ (pos (24 * hour)) w.stop

  abbrev planner_with : SchedulePolicy Loc → Option CronSpec → Planner Loc
  planner_with policy spec = record {
    policy = policy;
    cron = spec;
    loc = elim policy.location [ none ↦ cal.utc | some l ↦ l ];
    jitter = elim policy.jitter [ none ↦ deterministic_jitter | some f ↦ f ];
  }

  abbrev if_valid : SchedulePolicy Loc → Option CronSpec → Option (Planner Loc)
  if_valid policy spec =
      if any invalid_window (policy.windows ++ policy.blackouts)
      then none
      else some (planner_with policy spec)

  unfoldable pub new_planner : SchedulePolicy Loc → Option (Planner Loc)
  unfolding invalid_window trim_space
  new_planner policy =
      if is_empty (trim_space policy.cron)
      then if_valid policy none
      else elim (parse_cron policy.cron) [ none ↦ none | some spec ↦ if_valid policy (some spec) ]

  -- The fuel of `next`, which never runs out, is looked through: its end is the error.
  abbrev searched : Option (Option Time) → Option Time
  searched none = none
  searched (some o) = o

  base_of : Option CronSpec → Planner Loc → Time → Time → Option Time
  base_of (some spec) p t plain = searched (next cal spec t p.loc)
  base_of none p t plain = if positive p.policy.interval then some plain else none

  unfoldable pub initial_base : Planner Loc → Time → Option Time
  unfolding base_of
  initial_base p now = base_of p.cron p now now

  unfoldable pub next_base : Planner Loc → Time → Option Time
  unfolding base_of
  next_base p after = base_of p.cron p after (add_time after p.policy.interval)

  unfoldable pub max_jitter : Planner Loc → Duration
  unfolding quot mul64
  max_jitter p =
      if positive p.policy.jitter_percent
      then (if positive p.policy.jitter_max
          then p.policy.jitter_max
          else if positive p.policy.interval
          then quot (mul64 p.policy.interval p.policy.jitter_percent) 100
          else pos 0)
      else pos 0

  unfoldable pub clamped_jitter : Planner Loc → Text → Duration
  clamped_jitter p id =
      let limit = max_jitter p in
      let j = p.jitter id limit in
      if positive limit
      then (if ltbℤ j (pos 0) then pos 0 else if ltbℤ limit j then limit else j)
      else pos 0

  -- The loop of `nextAllowed`: `none` is out of fuel, `some none` the error; the flags add up.
  allowed_loop :
      ℕ → (Time → Verdict) → Time → Time → Bool → Bool → Option (Option (Time × Bool × Bool))
  allowed_loop zero verdict deadline next window blackout = none
  allowed_loop (suc fuel) verdict deadline next window blackout =
      let v = verdict next in
      let window' = window || v.window_blocked in
      let blackout' = blackout || v.blackout_blocked in
      let rest = allowed_loop fuel verdict deadline (next + minute) window' blackout' in
      if ltb deadline next
      then some none
      else if v.ok
      then some (some (next, window', blackout'))
      else rest

  unfoldable pub next_allowed : Planner Loc → Time → Target → Option (Option (Time × Bool × Bool))
  unfolding allowed_loop
  next_allowed p candidate target =
      let windows = applicable_windows p.policy.windows target in
      let blackouts = applicable_windows p.policy.blackouts target in
      let v = allowed_at cal candidate windows blackouts in
      let first = first_minute cal candidate in
      let deadline = cal.add_years cal.utc 1 candidate in
      if v.ok
      then some (some (candidate, false, false))
      else allowed_loop (rounds deadline first) (λ t. allowed_at cal t windows blackouts) deadline
          first v.window_blocked v.blackout_blocked

  decided : Time → Duration → Option (Option (Time × Bool × Bool)) → Option ScheduleDecision
  decided base j (some (some (t, window, blackout))) = some (record {
    base_time = base;
    jittered_time = add_time base j;
    queue_at = t;
    jitter = j;
    delayed_by_window = window;
    delayed_by_blackout = blackout;
  })
  decided base j _ = none

  -- `none` is the error; `next_allowed` always ends.
  unfoldable pub queue_time : Planner Loc → Time → Target → Option ScheduleDecision
  unfolding decided
  queue_time p base target =
      let j = clamped_jitter p target.id in decided base j (next_allowed p (add_time base j) target)
