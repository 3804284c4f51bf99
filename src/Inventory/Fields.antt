-- ===== src/Inventory/Fields.antt =====
-- source.go: the fields of a row (get, parseBoolDefault, parsePort, splitList).
use go_xidized.Prelude.{
  ℕ, zero, suc, ℤ, pos, Bool, true, false, not, ◌||◌, Text, codes, is_empty, List, [], ◌∷◌, map,
  Option, none, some, if◌then◌else◌, ltbℤ, lebℤ, any, text_eq, keep_if, ◌==◌,
}
use go_xidized.Prelude.Strings.{split, trim_space, to_lower, atoi}

-- The names of the header with their positions. A later name hides an earlier one that is equal.
abbrev columns : ℕ → List Text → List (Text × ℕ) → List (Text × ℕ)
columns i [] acc = acc
columns i (h ∷ hs) acc = columns (suc i) hs ((to_lower (trim_space h), i) ∷ acc)

unfoldable pub header_of : List Text → List (Text × ℕ)
header_of hs = columns 0 hs []

abbrev column_of : Text → List (Text × ℕ) → Option ℕ
column_of name [] = none
column_of name ((h, i) ∷ hs) = if text_eq h name then some i else column_of name hs

abbrev field_at : ℕ → List Text → Text
field_at n [] = []
field_at zero (f ∷ fs) = trim_space f
field_at (suc n) (f ∷ fs) = field_at n fs

unfoldable pub get : List Text → List (Text × ℕ) → Text → Text
get rec header name = elim (column_of name header) [ none ↦ [] | some i ↦ field_at i rec ]

abbrev is_one_of : List Text → Text → Bool
is_one_of ws v = any (λ w. text_eq w v) ws

-- `strconv.ParseBool`
abbrev parse_bool : Text → Option Bool
parse_bool v =
    if is_one_of (map codes ("1" ∷ "t" ∷ "T" ∷ "TRUE" ∷ "true" ∷ "True" ∷ [])) v
    then some true
    else if is_one_of (map codes ("0" ∷ "f" ∷ "F" ∷ "FALSE" ∷ "false" ∷ "False" ∷ [])) v
    then some false
    else none

unfoldable pub parse_bool_default : Text → Bool → Bool
parse_bool_default v def =
    if is_empty v then def else elim (parse_bool v) [ none ↦ def | some b ↦ b ]

abbrev port_of : Option ℤ → Option ℤ
port_of none = none
port_of (some n) = if lebℤ n (pos 0) || ltbℤ (pos 65535) n then none else some n

-- `none` is the error; its text quotes the value.
unfoldable pub parse_port : Text → Option ℤ
unfolding atoi
parse_port v = if is_empty v then some (pos 22) else port_of (atoi v)

unfoldable pub split_list : Text → List Text
unfolding split trim_space
split_list v =
    keep_if (λ f. not (is_empty f)) (map trim_space (split (λ c. c == b';' || c == b'|') v))
