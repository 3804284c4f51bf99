-- ===== src/Drivers/Transcript.antt =====
-- cli.go: the profile of a vendor, and what a driver makes of a device's answers.
use go_xidized.Prelude.{
  ℕ, Bool, true, false, ◌&&◌, ◌||◌, not, Text, codes, is_empty, text_eq, List, [], ◌∷◌, ◌++◌, any,
  Option, none, some, if◌then◌else◌, ltb, ◌==◌, length, ℤ, keep_if, map,
}
use go_xidized.Prelude.Strings.{split, join, trim_space, trim_right, to_lower, fields}
use go_xidized.Prelude.Strings.Parts.{drop}
use go_xidized.Types.Errors.{GoError, plain, backup, wrapping, FailureCategory, command, timeout}
use go_xidized.Pipeline.Diff.{unify_newlines}
use go_xidized.Pipeline.Redaction.{Rule, unify_returns}
use go_xidized.Transport.Output.{take}

pub record ProfileCommand : Type 0 where
  pub command : Text
  pub allow_failure : Bool

pub record OutputMarker : Type 0 where
  pub name : Text
  pub category : FailureCategory
  -- `Pattern.FindString`
  pub find : Text → Text

pub record CommandProfile : Type 0 where
  pub vendor : Text
  pub prepare : List ProfileCommand
  pub fetch_command : Text
  -- `FindStringIndex`: the begin and the end of the first match
  pub prompt_patterns : List (Text → Option (ℕ × ℕ))
  -- `ReplaceAllString(text, "")`
  pub paging_patterns : List (Text → Text)
  pub markers : List OutputMarker
  pub normalize_rules : List (Text → Text)
  pub redaction_rules : List Rule
  pub max_bytes : ℤ

unfoldable pub compact_marker : Text → Text
unfolding fields join take
compact_marker s =
    let compact = join (codes " ") (fields s) in
    if ltb 96 (length compact) then take 96 compact ++ codes "..." else compact

abbrev by_markers : List OutputMarker → Text → Text → Option GoError
by_markers [] cmd text = none
by_markers (m ∷ ms) cmd text =
    let rest = by_markers ms cmd text in
    let found = m.find text in
    if is_empty found
    then rest
    else some (
        backup m.category cmd
          (plain (m.name ++ (codes " marker matched: " ++ compact_marker found))))

unfoldable pub classify_output : CommandProfile → Text → Text → Option GoError
unfolding compact_marker
classify_output p cmd out = if is_empty out then none else by_markers p.markers cmd out

-- `errors.As` with a `BackupError`
abbrev has_backup : GoError → Bool
has_backup (plain t) = false
has_backup (backup c op e) = true
has_backup (wrapping t e) = has_backup e

-- `is_timeout`: is the error a deadline that is exceeded, or a cancellation?
unfoldable pub wrap_command_error : (GoError → Bool) → Text → GoError → GoError
wrap_command_error is_timeout op e =
    if has_backup e then e else backup (if is_timeout e then timeout else command) op e

abbrev same_command : Text → Text → Bool
same_command a b = text_eq (to_lower (trim_space a)) (to_lower (trim_space b))

unfoldable pub is_prepare_command : CommandProfile → Text → Bool
unfolding to_lower trim_space
is_prepare_command p line = any (λ c. same_command line c.command) p.prepare

abbrev is_command : CommandProfile → Text → Bool
is_command p line = same_command line p.fetch_command || is_prepare_command p line

-- A match at the begin of the line, with nothing or a command behind it.
abbrev is_prompt : CommandProfile → Text → Option (ℕ × ℕ) → Bool
is_prompt p line none = false
is_prompt p line (some (start, end)) =
    let rest = trim_space (drop end line) in start == 0 && (is_empty rest || is_command p rest)

unfoldable pub is_prompt_or_command_echo : CommandProfile → Text → Bool
unfolding is_prepare_command trim_space to_lower drop
is_prompt_or_command_echo p line =
    let trimmed = trim_space line in
    not (is_empty trimmed)
    && (is_command p trimmed || any (λ find. is_prompt p trimmed (find trimmed)) p.prompt_patterns)

abbrev replace_each : List (Text → Text) → Text → Text
replace_each [] s = s
replace_each (f ∷ fs) s = replace_each fs (f s)

-- A line without backspaces, and without blanks and tabs at its end.
abbrev cleaned_line : Text → Text
cleaned_line line = trim_right (λ c. c == b' ' || c == 9) (keep_if (λ c. not (c == 8)) line)

-- `strip_ansi` is `ansiSequence.ReplaceAllString(text, "")`.
unfoldable pub strip_transcript_artifacts : (Text → Text) → CommandProfile → Text → Text
unfolding is_prompt_or_command_echo unify_newlines split join trim_right
strip_transcript_artifacts strip_ansi p s =
    let text = replace_each p.paging_patterns (strip_ansi (unify_returns (unify_newlines s))) in
    join (codes "\n") (
      keep_if (λ l. not (is_prompt_or_command_echo p l))
        (map cleaned_line (split (λ c. c == 10) text)))
