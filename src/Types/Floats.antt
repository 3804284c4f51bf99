-- ===== src/Types/Floats.antt =====
-- The float64 of a rate, in internal/config/config.go and internal/scheduler/manager.go. A finite one is
-- a whole number of units of `2 ^ -1074`, the least positive float64.
use go_xidized.Prelude.{
  ℕ, ◌*◌, ◌^◌, ◌≡◌, refl, ℤ, pos, Bool, true, false, not, lebℤ, positive, if◌then◌else◌, arith,
}

pub data Float : Type 0 where
  finite : ℤ → Float
  infinite negative_infinite not_a_number : Float

abbrev pub float_of : ℕ → Float
float_of n = finite (pos (n * 2 ^ 1074))

-- `x <= 0`
abbrev pub is_at_most_zero : Float → Bool
is_at_most_zero (finite n) = lebℤ n (pos 0)
is_at_most_zero negative_infinite = true
is_at_most_zero infinite = false
is_at_most_zero not_a_number = false

-- `if x <= 0 { x = d }`
abbrev pub or_float : Float → Float → Float
or_float x d = if is_at_most_zero x then d else x

-- A positive number, an infinite one included, or none at all: every comparison with that fails.
abbrev pub is_rate : Float → Bool
is_rate (finite n) = positive n
is_rate negative_infinite = false
is_rate infinite = true
is_rate not_a_number = true

pub is_at_most_zero-is_rate : (x : Float) → is_at_most_zero x ≡ not (is_rate x)
is_at_most_zero-is_rate (finite n) = ground arith
is_at_most_zero-is_rate infinite = refl
is_at_most_zero-is_rate negative_infinite = refl
is_at_most_zero-is_rate not_a_number = refl

pub or_float-is_rate : (x d : Float) → is_rate d ≡ true → is_rate (or_float x d) ≡ true
or_float-is_rate x d h = ground (arith, is_at_most_zero-is_rate x)

pub or_float_kept : (x d : Float) → is_rate x ≡ true → or_float x d ≡ x
or_float_kept x d h = rw (is_at_most_zero-is_rate x, h) refl
