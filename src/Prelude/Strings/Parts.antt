-- ===== src/Prelude/Strings/Parts.antt =====
-- More of Go's `strings` and `strconv`: prefixes, parts of a text, upper case, decimal numbers.
use Prim.Native.Nat.{ℕ, zero, suc, ◌+◌, ◌-◌, ◌/◌, ◌%◌}
use mathlib.Core.Bool.{Bool, ◌&&◌}
use mathlib.Core.List.{[], ◌∷◌, map}
use mathlib.Core.Option.{Option, none, some}
use go_xidized.Prelude.Tests.{leb, if◌then◌else◌}
use go_xidized.Prelude.Lists.{length}
use go_xidized.Prelude.Texts.{Text, is_empty}
use go_xidized.Prelude.Int.{ℤ, pos, negsuc}
use go_xidized.Prelude.Strings.{has_prefix, trim_left, trim_right}

abbrev drop_length : Text → Text → Text
drop_length [] s = s
drop_length (c ∷ p) [] = []
drop_length (c ∷ p) (d ∷ s) = drop_length p s

-- `strings.TrimPrefix(s, prefix)`
unfoldable pub trim_prefix : Text → Text → Text
unfolding has_prefix
trim_prefix s prefix = if has_prefix prefix s then drop_length prefix s else s

-- `strings.Trim(s, cutset)`, for the characters of a test.
unfoldable pub trim : (ℕ → Bool) → Text → Text
unfolding trim_left trim_right
trim p s = trim_right p (trim_left p s)

abbrev cons_before : ℕ → Option (Text × Text) → Option (Text × Text)
cons_before c none = none
cons_before c (some (b, a)) = some (c ∷ b, a)

-- `strings.Cut(s, sep)`: the texts before and after the first occurrence.
unfoldable pub cut : Text → Text → Option (Text × Text)
unfolding has_prefix
cut sep [] = if is_empty sep then some ([], []) else none
cut sep (c ∷ s) =
    let rest = cons_before c (cut sep s) in
    if has_prefix sep (c ∷ s) then some ([], drop_length sep (c ∷ s)) else rest

unfoldable pub to_upper : Text → Text
to_upper = map λ c. if leb b'a' c && leb c b'z' then c - 32 else c

digits_loop : ℕ → ℕ → Text → Text
digits_loop zero n acc = acc
digits_loop (suc f) n acc =
    let rest = digits_loop f (n / 10) ((b'0' + n % 10) ∷ acc) in
    if leb n 9 then (b'0' + n) ∷ acc else rest

-- `strconv.Itoa`
unfoldable pub itoa : ℤ → Text
unfolding digits_loop
itoa (pos n) = digits_loop (suc n) n []
itoa (negsuc n) = b'-' ∷ digits_loop (suc (suc n)) (suc n) []

remove_from : Text → ℕ → Text → Text
unfolding has_prefix
remove_from sub k [] = []
remove_from sub (suc k) (c ∷ s) = remove_from sub k s
remove_from sub zero (c ∷ s) =
    let found = remove_from sub (length sub - 1) s in
    let kept = c ∷ remove_from sub zero s in if has_prefix sub (c ∷ s) then found else kept

-- `strings.ReplaceAll(s, sub, "")`, for a text `sub` that is not empty.
unfoldable pub remove_all : Text → Text → Text
unfolding remove_from
remove_all sub s = remove_from sub 0 s

-- The position of the last such character: the texts before and after it.
unfoldable pub cut_last : (ℕ → Bool) → Text → Option (Text × Text)
cut_last p [] = none
cut_last p (c ∷ s) = elim (cut_last p s) [
  | some (b, a) ↦ some (c ∷ b, a)
  | none ↦ if p c then some ([], s) else none
]

unfoldable pub drop : ℕ → Text → Text
drop n [] = []
drop zero (c ∷ s) = c ∷ s
drop (suc n) (c ∷ s) = drop n s
