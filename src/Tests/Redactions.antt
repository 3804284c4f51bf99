-- ===== src/Tests/Redactions.antt =====
-- Normalizing and redacting two lines, with a rule that finds the word after `community`.
use go_xidized.Prelude.{
  ◌≡◌, refl, Bool, true, false, Text, codes, List, [], ◌∷◌, ◌++◌, inr, All, ◌==◌, if◌then◌else◌,
}
use go_xidized.Prelude.Strings.{split, contains, has_prefix}
use go_xidized.Types.Errors.{GoError, plain}
use go_xidized.Pipeline.Redaction.{
  Rule, Processor, redact, finish_redact, apply_rules, on_matches, on_match, looks_secret_like,
  sort,
}
use go_xidized.Pipeline.Redaction.Strict.{IsHarmless, redact-IsHarmless}

abbrev community : Rule
community = record {
  name = codes "snmp-community";
  category = codes "snmp_community";
  find_all = λ t.
      if contains (codes "community public") t
      then (codes "community public" ∷ codes "community " ∷ codes "public" ∷ []) ∷ []
      else [];
  replace_all = λ t.
      if has_prefix (codes "community public") t
      then codes "community <redacted:snmp_community>"
      else t;
}

abbrev processor : Processor
processor = record {
  strict_mode = true;
  hmac_key = codes "k";
  normalize_rules = [];
  redaction_rules = community ∷ [];
}

abbrev digest : Text → Text → Text
digest key v = key ++ v

abbrev patterns : List (Text → Bool)
patterns = (λ l. contains (codes "community") l) ∷ (λ l. contains (codes "password") l) ∷ []

abbrev cancelled : GoError
cancelled = plain (codes "context canceled")

abbrev redacted : Text
redacted = codes "community <redacted:snmp_community>"

redact_once : redact digest patterns cancelled processor false (codes "community public") ≡ (
  inr redacted,
  record {
    secrets_found = 1;
    categories = codes "snmp_community" ∷ [];
    fingerprints = (codes "snmp_community", codes "kpublic") ∷ [];
  },
)
unfolding redact finish_redact apply_rules on_matches on_match looks_secret_like sort contains
    has_prefix split
redact_once = refl

redact-IsHarmless_example : All (IsHarmless digest patterns) (split (λ c. c == 10) redacted)
unfolding redact finish_redact apply_rules on_matches on_match looks_secret_like contains has_prefix
    split
redact-IsHarmless_example =
    redact-IsHarmless digest patterns cancelled processor false (codes "community public") redacted
      refl refl
