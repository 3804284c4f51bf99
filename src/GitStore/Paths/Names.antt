-- ===== src/GitStore/Paths/Names.antt =====
-- gitstore/store.go: the names that `sanitize` gives, and why no path leaves its repository.
use go_xidized.Prelude.{
  ℕ, ◌≡◌, refl, sym, ap, ◌∙◌, Bool, true, false, not, ◌||◌, Text, codes, is_empty, text_eq, [], ◌∷◌,
  ◌++◌, any, ◌==◌, arith, Bool-cases, inl, inr, ℤ, text_eq_refl,
}
use mathlib.Core.List.{append_assoc, append-nil}
use go_xidized.Prelude.Strings.{trim_left, trim_right, trim_space}
use go_xidized.Prelude.Strings.Cuts.{no_sep-trim_right, trim_right-trim_right, split_self}
use go_xidized.Prelude.Strings.Parts.{trim}
use go_xidized.Types.{Target}
use go_xidized.Types.Errors.{ok}
use go_xidized.GitStore.Paths.{
  ShardStrategy, FilePath, is_name_char, is_edge, replace_runs, or_default, sanitize, shard_key,
  join_path, repo_path, config_path, is_below, is_git, walk,
}

-- Does the text begin with such a character?
abbrev pub heads : (ℕ → Bool) → Text → Bool
heads p [] = false
heads p (c ∷ s) = p c

abbrev bad_char : ℕ → Bool
bad_char c = not (is_name_char c)

-- A text that names one file: not empty, of letters, digits, `.`, `_` and `-`, and with none of the
-- latter three at its ends.
abbrev pub IsName : Text → Type 0
IsName s =
    (is_empty s ≡ false)
    × (any bad_char s ≡ false)
    × (heads is_edge s ≡ false)
    × (trim_right is_edge s ≡ s)

or_false : (a b : Bool) → a ≡ false → b ≡ false → a || b ≡ false
or_false a b h k = ground arith

false_or : (a b : Bool) → a || b ≡ false → (a ≡ false) × (b ≡ false)
false_or a b h = ground arith

replace_runs-good : (r : Bool) (s : Text) → any bad_char (replace_runs r s) ≡ false
unfolding replace_runs is_name_char
replace_runs-good r [] = refl
replace_runs-good r (c ∷ s) = ground (arith, replace_runs-good false s, replace_runs-good true s)

heads-trim_left : (p : ℕ → Bool) (s : Text) → heads p (trim_left p s) ≡ false
unfolding trim_left
heads-trim_left p [] = refl
heads-trim_left p (c ∷ s) = elim (Bool-cases (p c)) [
  | inl edge ↦ rw edge (heads-trim_left p s)
  | inr other ↦ rw other other
]

any-trim_left : (p q : ℕ → Bool) (s : Text) → any p s ≡ false → any p (trim_left q s) ≡ false
unfolding trim_left
any-trim_left p q [] h = refl
any-trim_left p q (c ∷ s) h = elim (Bool-cases (q c)) [
  | inl edge ↦ rw edge (any-trim_left p q s (false_or (p c) _ h).1)
  | inr other ↦ rw other h
]

heads-trim_right : (p : ℕ → Bool) (s : Text) → heads p s ≡ false → heads p (trim_right p s) ≡ false
unfolding trim_right
heads-trim_right p [] h = refl
heads-trim_right p (c ∷ s) h = rw h h

IsName-or_default :
    (s : Text)
    → any bad_char s ≡ false
    → heads is_edge s ≡ false
    → trim_right is_edge s ≡ s
    → IsName (or_default s)
unfolding trim_right is_name_char
IsName-or_default [] b h t = (refl, refl, refl, refl)
IsName-or_default (c ∷ s) b h t = (refl, b, h, t)

-- Whatever the text, `sanitize` gives a name.
pub sanitize-IsName : (v : Text) → IsName (sanitize v)
unfolding sanitize trim
sanitize-IsName v =
    let s = replace_runs false (trim_space v) in
    let left = any-trim_left bad_char is_edge s (replace_runs-good false (trim_space v)) in
    IsName-or_default (trim_right is_edge (trim_left is_edge s))
      (no_sep-trim_right bad_char is_edge (trim_left is_edge s) left)
      (heads-trim_right is_edge (trim_left is_edge s) (heads-trim_left is_edge s))
      (trim_right-trim_right is_edge (trim_left is_edge s))

no_slash_of_good : (s : Text) → any bad_char s ≡ false → any (λ c. c == b'/') s ≡ false
unfolding is_name_char
no_slash_of_good [] h = refl
no_slash_of_good (c ∷ s) h = ground (arith, no_slash_of_good s)

not_dot : (c : ℕ) → is_edge c ≡ false → (c == b'.') ≡ false
not_dot c h = ground arith

-- A text without a slash that does not begin like `.` and `..` is a component of its own.
join_path-cons :
    (path : FilePath) (c : ℕ) (s : Text)
    → is_edge c ≡ false
    → any (λ x. x == b'/') (c ∷ s) ≡ false
    → join_path path (c ∷ s) ≡ path ++ ((c ∷ s) ∷ [])
unfolding join_path text_eq
join_path-cons path c s e h =
    ap (walk path) (split_self (λ x. x == b'/') (c ∷ s) h) ∙ rw (not_dot c e) refl

any-append :
    (p : ℕ → Bool) (s t : Text) → any p s ≡ false → any p t ≡ false → any p (s ++ t) ≡ false
any-append p [] t h k = k
any-append p (c ∷ s) t h k =
    let (h₁, h₂) = false_or (p c) _ h in or_false (p c) _ h₁ (any-append p s t h₂ k)

-- A name, with an ending that has no slash.
join_path-name :
    (path : FilePath) (s ending : Text)
    → IsName s
    → any (λ c. c == b'/') ending ≡ false
    → join_path path (s ++ ending) ≡ path ++ ((s ++ ending) ∷ [])
join_path-name path [] ending (e, b, h, t) k = cc
join_path-name path (c ∷ s) ending (e, b, h, t) k =
    join_path-cons path c (s ++ ending) h
      (any-append (λ x. x == b'/') (c ∷ s) ending (no_slash_of_good (c ∷ s) b) k)

join_path-sanitize :
    (path : FilePath) (v : Text) → join_path path (sanitize v) ≡ path ++ (sanitize v ∷ [])
join_path-sanitize path v =
    ap (join_path path) (sym (append-nil (sanitize v)))
    ∙ (join_path-name path (sanitize v) [] (sanitize-IsName v) refl
        ∙ ap (λ s. path ++ (s ∷ [])) (append-nil (sanitize v)))

pub is_below-append : (dir path : FilePath) → is_below dir (dir ++ path) ≡ true
is_below-append [] path = refl
is_below-append (d ∷ dir) path = rw (text_eq_refl d) (is_below-append dir path)

-- Whatever its texts, a target's repository stands two levels below the base, under two names.
pub repo_path-sanitize :
    (fnv32a : Text → ℕ) (base : FilePath) (strategy : ShardStrategy) (name : Text) (count : ℤ)
    (t : Target)
    → (repo_path fnv32a base strategy name count t).0
      ≡ base ++ (sanitize name ∷ sanitize (shard_key fnv32a t strategy count) ∷ [])
unfolding repo_path
repo_path-sanitize fnv32a base strategy name count t =
    rw (join_path-sanitize base name, join_path-sanitize)
      (append_assoc base (sanitize name ∷ []) (sanitize (shard_key fnv32a t strategy count) ∷ []))

-- Whatever the target's texts, its file stands in the repository, two levels down: in the directory of
-- the vendor's name, under the name of the id. The path never leaves the repository, so that
-- `configPath` never gives its error.
pub config_path-ok :
    (repo : FilePath) (t : Target)
    → let file = sanitize t.vendor ∷ (sanitize t.id ++ codes ".cfg") ∷ [] in
      config_path repo t ≡ ok (file, repo ++ file)
unfolding config_path
config_path-ok repo t =
    let id = λ (p : FilePath).
      join_path-name p (sanitize t.id) (codes ".cfg") (sanitize-IsName t.id) refl in
    rw
      (
        join_path-sanitize [] t.vendor,
        join_path-sanitize repo t.vendor,
        id (sanitize t.vendor ∷ []),
        id (repo ++ (sanitize t.vendor ∷ [])),
        append_assoc repo (sanitize t.vendor ∷ []) ((sanitize t.id ++ codes ".cfg") ∷ []),
        is_below-append repo (sanitize t.vendor ∷ (sanitize t.id ++ codes ".cfg") ∷ []),
      )
      refl

git-name : (s : Text) → heads is_edge s ≡ false → text_eq (codes ".git") s ≡ false
unfolding text_eq
git-name [] h = refl
git-name (c ∷ s) h = ground arith

is_git-append :
    (repo : FilePath) (name : Text) (rest : FilePath)
    → text_eq (codes ".git") name ≡ false
    → is_git repo (repo ++ (name ∷ rest)) ≡ false
is_git-append [] name rest h = rw h refl
is_git-append (d ∷ repo) name rest h = rw (text_eq_refl d) (is_git-append repo name rest h)

-- No vendor puts a target's file into the `.git` of its repository.
pub config-is_git :
    (repo : FilePath) (t : Target) (name : Text)
    → is_git repo (repo ++ (sanitize t.vendor ∷ name ∷ [])) ≡ false
config-is_git repo t name =
    let (_, _, edge, _) = sanitize-IsName t.vendor in
    is_git-append repo (sanitize t.vendor) (name ∷ []) (git-name (sanitize t.vendor) edge)
