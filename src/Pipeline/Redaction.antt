-- ===== src/Pipeline/Redaction.antt =====
-- internal/pipeline/pipeline.go: Normalize and Redact. A regular expression is what it finds, as a
-- function, and what it replaces; the patterns of looksSecretLike and HMAC-SHA256 are parameters.
pub mod Strict
use go_xidized.Prelude.{
  ℕ, suc, Bool, true, false, not, ◌&&◌, Text, codes, is_empty, List, [], ◌∷◌, ◌++◌, Option, none,
  some, if◌then◌else◌, any, text_eq, map, keep_if, ◌==◌, ◌||◌, ◌⊎◌, inl, inr, leb, ltb,
}
use go_xidized.Prelude.Strings.{split, join, trim_space, trim_right, contains}
use go_xidized.Types.{RedactionReport}
use go_xidized.Types.Errors.{GoError, plain, backup, redaction}
use go_xidized.Pipeline.Diff.{unify_newlines}

pub record Rule : Type 0 where
  pub name : Text
  pub category : Text
  -- `Pattern.FindAllStringSubmatch(text, -1)`
  pub find_all : Text → List (List Text)
  -- `Pattern.ReplaceAllString(text, Replacement)`
  pub replace_all : Text → Text

pub record Processor : Type 0 where
  pub strict_mode : Bool
  pub hmac_key : Text
  -- `ReplaceAll(out, nil)` of each rule
  pub normalize_rules : List (Text → Text)
  pub redaction_rules : List Rule

abbrev pub unify_returns : Text → Text
unify_returns = map λ c. if c == 13 then 10 else c

abbrev apply_each : List (Text → Text) → Text → Text
apply_each [] s = s
apply_each (f ∷ fs) s = apply_each fs (f s)

-- The lines that are kept, without blanks and tabs at their ends.
unfoldable pub kept_lines : List Text → List Text
unfolding trim_right trim_space
kept_lines lines =
    keep_if (λ l. not (is_empty (trim_space l))) (map (trim_right λ c. c == b' ' || c == 9) lines)

-- `done`: is the context done?
unfoldable pub normalize : Processor → Bool → Text → Option Text
unfolding kept_lines split join unify_newlines
normalize p true s = none
normalize p false s = some (
    join (codes "\n") (
      kept_lines
        (split (λ c. c == 10) (apply_each p.normalize_rules (unify_returns (unify_newlines s)))))
    ++ codes "\n")

-- `m[key] = value`
abbrev pub set_entry : Text → Text → List (Text × Text) → List (Text × Text)
set_entry k v [] = (k, v) ∷ []
set_entry k v ((k', w) ∷ m) = if text_eq k' k then (k', v) ∷ m else (k', w) ∷ set_entry k v m

abbrev pub set_add : Text → List Text → List Text
set_add c cs = if any (λ x. text_eq x c) cs then cs else c ∷ cs

text_leb : Text → Text → Bool
text_leb [] t = true
text_leb (c ∷ s) [] = false
text_leb (c ∷ s) (d ∷ t) = if c == d then text_leb s t else ltb c d

insert : Text → List Text → List Text
unfolding text_leb
insert c [] = c ∷ []
insert c (d ∷ ds) = if text_leb c d then c ∷ d ∷ ds else d ∷ insert c ds

-- `sort.Strings`
unfoldable pub sort : List Text → List Text
unfolding insert
sort [] = []
sort (c ∷ cs) = insert c (sort cs)

-- The variables of the loop over the rules.
pub record Scan : Type 0 where
  pub text : Text
  pub secrets_found : ℕ
  pub category_set : List Text
  pub fingerprints : List (Text × Text)

module _ (hmac : Text → Text → Text) (secret_patterns : List (Text → Bool)) where
  -- `len(match) > 2`, and then `match[2]`
  unfoldable pub on_match : Text → Rule → Scan → List Text → Scan
  on_match key rule s (a ∷ b ∷ v ∷ rest) = record s {
    secrets_found = suc s.secrets_found;
    category_set = set_add rule.category s.category_set;
    fingerprints =
        if is_empty key
        then s.fingerprints
        else set_entry rule.category (hmac key v) s.fingerprints;
  }
  on_match key rule s _ = s

  unfoldable pub on_matches : Text → Rule → Scan → List (List Text) → Scan
  unfolding on_match
  on_matches key rule s [] = s
  on_matches key rule s (m ∷ ms) = on_matches key rule (on_match key rule s m) ms

  unfoldable pub apply_rules : Text → List Rule → Scan → Scan
  unfolding on_matches
  apply_rules key [] s = s
  apply_rules key (r ∷ rs) s =
      apply_rules key rs
        (record (on_matches key r s (r.find_all s.text)) { text = r.replace_all s.text })

  unfoldable pub looks_secret_like : Text → Bool
  unfolding split contains
  looks_secret_like text =
      any (λ line. not (contains (codes "<redacted:") line) && any (λ p. p line) secret_patterns)
        (split (λ c. c == 10) text)

  abbrev report_of : Scan → RedactionReport
  report_of s = record {
    secrets_found = s.secrets_found;
    categories = sort s.category_set;
    fingerprints = s.fingerprints;
  }

  unfoldable pub finish_redact : Processor → Scan → GoError ⊎ Text
  unfolding looks_secret_like
  finish_redact p s =
      if p.strict_mode && looks_secret_like s.text
      then inl (
          backup redaction (codes "strict mode")
            (plain (codes "unclassified secret-shaped content remains")))
      else inr s.text

  -- The text or the error, and the report.
  unfoldable pub redact : GoError → Processor → Bool → Text → (GoError ⊎ Text) × RedactionReport
  unfolding finish_redact apply_rules sort
  redact cancelled p true text =
      (inl cancelled, record { secrets_found = 0; categories = []; fingerprints = [] })
  redact cancelled p false text =
      let s =
        apply_rules p.hmac_key p.redaction_rules
          record { text = text; secrets_found = 0; category_set = []; fingerprints = [] } in
      (finish_redact p s, report_of s)
