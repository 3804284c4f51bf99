-- ===== src/Scheduler/Search.antt =====
-- What the two loops of schedule.go that step through time minute by minute look for.
use go_xidized.Prelude.{
  ℕ, zero, suc, ◌+◌, ◌-◌, ◌*◌, ◌/◌, ◌≤◌, ◌<◌, ◌≡◌, Bool, true, false, Option, none, some, arith,
}
use native.Mathlib.Nat.{add-zero}
use go_xidized.Types.{Time, minute}

-- The first time not after the deadline, in steps of a minute from `next`, that passes the test;
-- `none` says that none does.
abbrev pub IsFirst : (Time → Bool) → Time → Time → Option Time → Type 0
IsFirst test deadline next none =
    (j : ℕ) → next + j * minute ≤ deadline → test (next + j * minute) ≡ false
IsFirst test deadline next (some t) =
    (k : ℕ) × (t ≡ next + k * minute)
    × (t ≤ deadline)
    × (test t ≡ true)
    × ((j : ℕ) → j < k → test (next + j * minute) ≡ false)

-- Enough rounds for a search from `next` to the deadline.
abbrev pub rounds : Time → Time → ℕ
rounds deadline next = (deadline - next) / minute + 2

module _ (test : Time → Bool) (deadline : Time) where
  pub IsFirst-past : (next : Time) → deadline < next → IsFirst test deadline next none
  IsFirst-past next h j b = absurd (omega arith)

  pub IsFirst-here :
      (next : Time) → next ≤ deadline → test next ≡ true → IsFirst test deadline next (some next)
  IsFirst-here next h p = (0, omega arith, h, p, (λ j b. absurd (omega arith)))

  next-suc : (next j : ℕ) → next + suc j * minute ≡ next + minute + j * minute
  next-suc next j = omega arith

  later_fails :
      (next : Time) (P : ℕ → Type 0)
      → test next ≡ false
      → ((j : ℕ) → P (suc j) → test (next + minute + j * minute) ≡ false)
      → (j : ℕ) → P j
      → test (next + j * minute) ≡ false
  later_fails next P p f zero h = rw add-zero p
  later_fails next P p f (suc j) h = rw (next-suc next j) (f j h)

  pub IsFirst-later :
      (next : Time) (o : Option Time)
      → test next ≡ false
      → IsFirst test deadline (next + minute) o
      → IsFirst test deadline next o
  IsFirst-later next none p f =
      later_fails next (λ j. next + j * minute ≤ deadline) p (λ j b. f j (omega arith))
  IsFirst-later next (some t) p (k, e, b, q, f) =
      (suc k, omega arith, b, q, later_fails next (λ j. j < suc k) p (λ j h. f j (omega arith)))
