-- ===== src/Drivers.antt =====
-- internal/drivers/cli.go and registry.go: a driver that talks to a device by commands. A regular
-- expression is what it finds or replaces, as a function; a session is a state with what it answers.
pub mod Transcript
pub mod Harmless
pub mod Profiles
use go_xidized.Prelude.{
  ℕ, zero, suc, ◌≡◌, Bool, true, false, ◌&&◌, ◌||◌, not, Text, codes, is_empty, text_eq, List, [],
  ◌∷◌, ◌++◌, any, Option, none, some, ◌⊎◌, inl, inr, if◌then◌else◌, ltb, ◌==◌, length, ℤ, pos, ltbℤ,
  pos_part, keep_if, map,
}
use go_xidized.Prelude.Strings.{split, join, trim_space, trim_right, to_lower, fields}
use go_xidized.Prelude.Strings.Parts.{drop}
use go_xidized.Types.{RedactedConfig, RedactionReport, Target}
use go_xidized.Types.Errors.{
  Result, ok, err, GoError, plain, backup, wrapping, FailureCategory, command, timeout,
  normalization,
}
use go_xidized.Pipeline.Diff.{unify_newlines}
use go_xidized.Pipeline.Redaction.{Rule, Processor, unify_returns, normalize, redact, sort}
use go_xidized.Transport.Output.{take}
use go_xidized.Worker.{Fetched}
use go_xidized.Drivers.Transcript.{
  CommandProfile, ProfileCommand, OutputMarker, classify_output, wrap_command_error,
  strip_transcript_artifacts,
}

pub record CliDriver : Type 0 where
  pub profile : CommandProfile
  pub processor : Processor

abbrev pub default_max_config_bytes : ℤ
default_max_config_bytes = pos 16_777_216

abbrev or_default : ℤ → ℤ
or_default (pos zero) = default_max_config_bytes
or_default n = n

-- The copy of a profile that a driver keeps.
abbrev pub clone : CommandProfile → CommandProfile
clone p = record p { max_bytes = or_default p.max_bytes }

-- The rules of `pipeline.NewProcessor` are the first two arguments.
unfoldable pub new_cli_profile : List (Text → Text) → List Rule → CommandProfile → CliDriver
new_cli_profile normalize_rules redaction_rules profile = record {
  profile = clone profile;
  processor = record {
    strict_mode = true;
    hmac_key = [];
    normalize_rules = normalize_rules ++ profile.normalize_rules;
    redaction_rules = redaction_rules ++ profile.redaction_rules;
  };
}

unfoldable pub new_cli : List (Text → Text) → List Rule → Text → List Text → Text → CliDriver
unfolding new_cli_profile
new_cli normalize_rules redaction_rules vendor prepare fetch_command =
    new_cli_profile normalize_rules redaction_rules record {
      vendor = vendor;
      prepare = map (λ c. record { command = c; allow_failure = false }) prepare;
      fetch_command = fetch_command;
      prompt_patterns = [];
      paging_patterns = [];
      markers = [];
      normalize_rules = [];
      redaction_rules = [];
      max_bytes = default_max_config_bytes;
    }

abbrev normalized : Text → Fetched → Option Text → Result Fetched
normalized vendor r none = err (backup normalization vendor (plain (codes "context canceled")))
normalized vendor r (some out) = ok (record r { raw_config = out })

-- `done`: is the context done?
unfoldable pub driver_normalize : (Text → Text) → CliDriver → Bool → Fetched → Result Fetched
unfolding strip_transcript_artifacts normalize
driver_normalize strip_ansi d done r =
    normalized d.profile.vendor r
      (normalize d.processor done (strip_transcript_artifacts strip_ansi d.profile r.raw_config))

abbrev redacted : Text → GoError ⊎ Text → Result RedactedConfig
redacted id (inl e) = err e
redacted id (inr out) = ok (record { target_id = id; content = out })

module _ (hmac : Text → Text → Text) (secret_patterns : List (Text → Bool)) where
  unfoldable pub driver_redact :
      GoError → CliDriver → Bool → Fetched → Result RedactedConfig × RedactionReport
  unfolding redact
  driver_redact cancelled d done r =
      let (out, report) = redact hmac secret_patterns cancelled d.processor done r.raw_config in
      (redacted r.target_id out, report)

module _ {S : Type 0} (run : Text → S → Text × Option GoError × S)
    (is_timeout : GoError → Bool) where
  -- The error of a command: that of its output, before that of the session.
  unfoldable pub command_error :
      CommandProfile → Text → Text → Text × Option GoError → Option GoError
  unfolding classify_output wrap_command_error
  command_error p cmd op (out, e) = elim (classify_output p cmd out) [
    | some marked ↦ some marked
    | none ↦ elim e [ none ↦ none | some x ↦ some (wrap_command_error is_timeout op x) ]
  ]

  abbrev pub continued : Bool → Option GoError → S → Option GoError × S → Option GoError × S
  continued allowed none s rest = rest
  continued allowed (some e) s rest = if allowed then rest else (some e, s)

  unfoldable pub prepare_each : CommandProfile → List ProfileCommand → S → Option GoError × S
  unfolding command_error
  prepare_each p [] s = (none, s)
  prepare_each p (c ∷ cs) s =
      let (out, e, s') = run c.command s in
      let rest = prepare_each p cs s' in
      let failure = command_error p c.command (codes "prepare " ++ p.vendor) (out, e) in
      continued c.allow_failure failure s' rest

  unfoldable pub prepare : CliDriver → S → Option GoError × S
  unfolding prepare_each
  prepare d s = prepare_each d.profile d.profile.prepare s

  abbrev pub fetched : CommandProfile → Target → Text → Option GoError → Result Fetched
  fetched p t out (some e) = err e
  fetched p t out none =
      if ltbℤ (pos 0) p.max_bytes && ltb (pos_part p.max_bytes) (length out)
      then err
          (backup command p.fetch_command (plain (codes "config output exceeded profile limit")))
      else ok (record {
        target_id = t.id;
        raw_config = out;
        metadata = (codes "vendor", p.vendor) ∷ (codes "fetch_command", p.fetch_command) ∷ [];
      })

  unfoldable pub fetch_config : CliDriver → Target → S → Result Fetched × S
  unfolding command_error
  fetch_config d t s =
      let p = d.profile in
      let (out, e, s') = run p.fetch_command s in
      (fetched p t out (command_error p p.fetch_command p.fetch_command (out, e)), s')

-- The registry, with one factory for each name.
abbrev pub Registry : Type 0
Registry = List (Text × CliDriver)

unfoldable pub register : Text → CliDriver → Registry → Registry
register name d [] = (name, d) ∷ []
register name d ((n, e) ∷ r) =
    let rest = register name d r in if text_eq n name then (name, d) ∷ r else (n, e) ∷ rest

unfoldable pub get : Text → Registry → Result CliDriver
get name [] = err (plain (codes "driver not registered"))
get name ((n, d) ∷ r) = let rest = get name r in if text_eq n name then ok d else rest

unfoldable pub list_names : Registry → List Text
unfolding sort
list_names r = sort (map (λ (n, d). n) r)

-- `RegisterDefaults`, with the profiles of profiles.go.
unfoldable pub register_each :
    List (Text → Text) → List Rule → List CommandProfile → Registry → Registry
unfolding register new_cli_profile
register_each normalize_rules redaction_rules [] r = r
register_each normalize_rules redaction_rules (p ∷ ps) r =
    register_each normalize_rules redaction_rules ps
      (register p.vendor (new_cli_profile normalize_rules redaction_rules p) r)
