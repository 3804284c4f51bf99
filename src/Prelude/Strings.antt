-- ===== src/Prelude/Strings.antt =====
-- What the source uses of Go's `strings` and `strconv`, over code points. White space is that of
-- Latin-1.
pub mod Cuts
pub mod Parts
use Prim.Native.Nat.{ℕ, ◌+◌, ◌-◌, ◌*◌, ◌^◌}
use mathlib.Core.Bool.{Bool, true, false, ◌&&◌, ◌||◌, not}
use mathlib.Core.List.{List, [], ◌∷◌, ◌++◌, map}
use mathlib.Core.Option.{Option, none, some}
use go_xidized.Prelude.Tests.{◌==◌, ltb, leb, if◌then◌else◌}
use go_xidized.Prelude.Texts.{Text, is_empty}
use go_xidized.Prelude.Lists.{keep_if}
use go_xidized.Prelude.Int.{ℤ, pos, negsuc}

unfoldable pub is_space : ℕ → Bool
is_space c = (leb 9 c && leb c 13) || c == 32 || c == 133 || c == 160

-- `strings.TrimRight(s, cutset)` and `strings.TrimLeft`, for the characters of a test.
unfoldable pub trim_right : (ℕ → Bool) → Text → Text
trim_right p [] = []
trim_right p (c ∷ s) = let r = trim_right p s in if p c && is_empty r then [] else c ∷ r

unfoldable pub trim_left : (ℕ → Bool) → Text → Text
trim_left p [] = []
trim_left p (c ∷ s) = if p c then trim_left p s else c ∷ s

unfoldable pub trim_space : Text → Text
unfolding is_space trim_left trim_right
trim_space s = trim_right is_space (trim_left is_space s)

-- The letters that are lowered to ASCII: those of ASCII, the Kelvin sign, and the capital I with a dot.
-- The others stay as they are: what is lowered is compared with ASCII words only.
abbrev lower_char : ℕ → ℕ
lower_char c =
    if leb b'A' c && leb c b'Z'
    then c + 32
    else if c == 0x212a
    then b'k'
    else if c == 0x130
    then b'i'
    else c

unfoldable pub to_lower : Text → Text
to_lower = map lower_char

abbrev cons_head : ℕ → List Text → List Text
cons_head c [] = (c ∷ []) ∷ []
cons_head c (s ∷ ss) = (c ∷ s) ∷ ss

-- `strings.Split` at a single character, for the characters of a test.
unfoldable pub split : (ℕ → Bool) → Text → List Text
split p [] = [] ∷ []
split p (c ∷ s) = let rest = split p s in if p c then [] ∷ rest else cons_head c rest

unfoldable pub fields : Text → List Text
unfolding is_space split
fields s = keep_if (λ t. not (is_empty t)) (split is_space s)

unfoldable pub join : Text → List Text → Text
join sep [] = []
join sep (s ∷ []) = s
join sep (s ∷ t ∷ ts) = s ++ (sep ++ join sep (t ∷ ts))

unfoldable pub has_prefix : Text → Text → Bool
has_prefix [] s = true
has_prefix (c ∷ p) [] = false
has_prefix (c ∷ p) (d ∷ s) = c == d && has_prefix p s

-- `strings.Contains(s, sub)`
unfoldable pub contains : Text → Text → Bool
unfolding has_prefix
contains sub [] = is_empty sub
contains sub (c ∷ s) = has_prefix sub (c ∷ s) || contains sub s

digits_value : ℕ → Text → Option ℕ
digits_value acc [] = some acc
digits_value acc (c ∷ s) =
    if leb b'0' c && leb c b'9' then digits_value (10 * acc + (c - b'0')) s else none

unsigned_value : Text → Option ℕ
unfolding digits_value
unsigned_value [] = none
unsigned_value (c ∷ s) = digits_value 0 (c ∷ s)

abbrev in_range : Bool → Option ℕ → Option ℤ
in_range minus none = none
in_range true (some n) =
    if leb n (2 ^ 63) then some (if n == 0 then pos 0 else negsuc (n - 1)) else none
in_range false (some n) = if ltb n (2 ^ 63) then some (pos n) else none

-- `strconv.Atoi`: a sign, and digits whose value fits an int64.
unfoldable pub atoi : Text → Option ℤ
unfolding unsigned_value
atoi [] = none
atoi (c ∷ s) =
    if c == b'-'
    then in_range true (unsigned_value s)
    else if c == b'+'
    then in_range false (unsigned_value s)
    else in_range false (unsigned_value (c ∷ s))
