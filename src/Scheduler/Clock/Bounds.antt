-- ===== src/Scheduler/Clock/Bounds.antt =====
-- schedule.go: what `ParseClock` and `ParseWeekdays` accept.
use go_xidized.Prelude.{
  ◌*◌, ◌≡◌, ℤ, pos, ◌≤ℤ◌, true, Text, List, [], ◌∷◌, some, arith, or_none-some, none≢some,
  Bool-cases, inl, inr, is_empty, ◌==◌, ◌↔◌,
}
use go_xidized.Prelude.Strings.{atoi, split, trim_space}
use go_xidized.Types.{Duration, hour}
use go_xidized.Scheduler.Calendar.{Weekday, same_day}
use go_xidized.Scheduler.Clock.{clock_value, clock_parts, parse_clock}

-- The range that a window of a planner may begin or end in.
abbrev pub IsClock : Duration → Type 0
IsClock d = (pos 0 ≤ℤ d) × (d ≤ℤ pos (24 * hour))

clock_value_bounds : (h m s : ℤ) (d : Duration) → clock_value h m s ≡ some d → IsClock d
unfolding clock_value
clock_value_bounds (pos h) (pos m) (pos s) d e = ground arith
clock_value_bounds _ _ _ d e = ground arith

clock_parts_bounds : (ps : List Text) (d : Duration) → clock_parts ps ≡ some d → IsClock d
unfolding clock_parts
clock_parts_bounds (a ∷ b ∷ []) d e =
    let (h, p, e₁) = or_none-some (atoi a) _ e in
    let (m, q, e₂) = or_none-some (atoi b) _ e₁ in clock_value_bounds h m (pos 0) d e₂
clock_parts_bounds (a ∷ b ∷ c ∷ []) d e =
    let (h, p, e₁) = or_none-some (atoi a) _ e in
    let (m, q, e₂) = or_none-some (atoi b) _ e₁ in
    let (s, r, e₃) = or_none-some (atoi c) _ e₂ in clock_value_bounds h m s d e₃
clock_parts_bounds _ d e = cc

-- A clock value that is accepted lies between 0 and 24 hours, so `NewPlanner` accepts it as the end
-- of a window.
pub parse_clock_bounds : (v : Text) (d : Duration) → parse_clock v ≡ some d → IsClock d
unfolding parse_clock
parse_clock_bounds v d e = elim (Bool-cases (is_empty (trim_space v))) [
  | inl blank ↦ absurd (none≢some (rw (blank, parse_clock) at e))
  | inr text ↦ clock_parts_bounds (split (λ c. c == b':') v) d (rw (text, parse_clock) at e)
]

same_day_iff : (a b : Weekday) → (same_day a b ≡ true) ↔ (a ≡ b)
same_day_iff a b = ground arith
