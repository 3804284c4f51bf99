-- ===== src/Drivers/Profiles.antt =====
-- internal/drivers/profiles.go: how the profiles are put together from regular expressions, which are
-- texts; `regexp.MustCompile` is a parameter.
pub mod Vendors
use go_xidized.Prelude.{ℕ, false, Text, codes, List, [], ◌∷◌, ◌++◌, map, Option}
use go_xidized.Types.Errors.{FailureCategory, command}
use go_xidized.Pipeline.Redaction.{Rule}
use go_xidized.Drivers.Transcript.{CommandProfile, ProfileCommand, OutputMarker}

-- What the drivers ask of a `*regexp.Regexp`: `FindString`, `FindStringIndex`, `FindAllStringSubmatch`
-- and `ReplaceAllString` with its replacement.
pub record Regexp : Type 0 where
  pub find : Text → Text
  pub find_index : Text → Option (ℕ × ℕ)
  pub find_all : Text → List (List Text)
  pub replace_all : Text → Text → Text

abbrev pub commands : List Text → List ProfileCommand
commands values = map (λ c. record { command = c; allow_failure = false }) values

module _ (compile : Text → Regexp) where
  -- Patterns whose matches are searched for.
  abbrev pub prompts : List Text → List (Text → Option (ℕ × ℕ))
  prompts patterns = map (λ p. (compile p).find_index) patterns

  -- Patterns whose matches are removed.
  abbrev pub removals : List Text → List (Text → Text)
  removals patterns = map (λ p text. (compile p).replace_all text []) patterns

  abbrev pub rule : Text → Text → Text → Text → Rule
  rule name category pattern replacement = record {
    name = name;
    category = category;
    find_all = (compile pattern).find_all;
    replace_all = λ text. (compile pattern).replace_all text replacement;
  }

  abbrev pub marker : Text → FailureCategory → Text → OutputMarker
  marker name category pattern = record {
    name = name;
    category = category;
    find = (compile pattern).find;
  }

  abbrev pub common_paging_patterns : List (Text → Text)
  common_paging_patterns = removals (
      codes "(?i)[ \\t]*<---[ \\t]*more[ \\t]*--->[ \\t]*"
      ∷ codes "(?i)[ \\t]*----[ \\t]*more[ \\t]*----[ \\t]*"
      ∷ codes "(?i)[ \\t]*--+[ \\t]*more[ \\t]*--+[ \\t]*"
      ∷ codes "(?i)[ \\t]*-+\\(?more(?:[ \\t]+\\d+%)?\\)?-+[ \\t]*"
      ∷ [])

  abbrev pub common_cisco_markers : List OutputMarker
  common_cisco_markers =
      marker (codes "cisco command") command
        (codes "(?im)^% ?(?:Invalid input|Incomplete command|Ambiguous command|Unknown command).*$")
      ∷ []

  abbrev pub common_cisco_normalize_rules : List (Text → Text)
  common_cisco_normalize_rules = removals (
      codes "(?im)^Building configuration\\.\\.\\..*$"
      ∷ codes "(?im)^Current configuration\\s*:.*$"
      ∷ [])
