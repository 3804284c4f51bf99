-- ===== src/Drivers/Harmless.antt =====
-- cli.go: what a driver of this package lets through, and what it runs.
use go_xidized.Prelude.{◌≡◌, refl, Bool, Text, List, All, ◌⊎◌, inl, inr, ◌==◌, ap}
use go_xidized.Prelude.Strings.{split}
use go_xidized.Types.{RedactedConfig}
use go_xidized.Types.Errors.{ok, GoError}
use go_xidized.Pipeline.Redaction.{Rule}
use go_xidized.Pipeline.Redaction.Strict.{IsHarmless, redact-IsHarmless}
use go_xidized.Worker.{Fetched}
use go_xidized.Drivers.Transcript.{CommandProfile}
use go_xidized.Drivers.{new_cli_profile, driver_redact, redacted}

module _ (hmac : Text → Text → Text) (secret_patterns : List (Text → Bool)) where
  redacted-ok :
      (id : Text) (r : GoError ⊎ Text) {c : RedactedConfig}
      → redacted id r ≡ ok c
      → r ≡ inr c.content
  redacted-ok id (inl e) h = cc
  redacted-ok id (inr out) h = ap inr (text_of_ok _ _ h)
    where
      text_of_ok : (a b : RedactedConfig) → ok a ≡ ok b → a.content ≡ b.content
      text_of_ok a b h = cc

  -- Whatever the profile and the rules, a driver of this package gives no configuration with a line
  -- that looks like a secret, but where the line carries a mark of redaction.
  pub driver_redact-IsHarmless :
      (normalize_rules : List (Text → Text)) (redaction_rules : List Rule)
      (profile : CommandProfile) (cancelled : GoError) (done : Bool) (r : Fetched)
      (c : RedactedConfig)
      → (driver_redact hmac secret_patterns cancelled
          (new_cli_profile normalize_rules redaction_rules profile)
          done
          r).0
        ≡ ok c
      → All (IsHarmless hmac secret_patterns) (split (λ x. x == 10) c.content)
  unfolding driver_redact new_cli_profile
  driver_redact-IsHarmless normalize_rules redaction_rules profile cancelled done r c h =
      redact-IsHarmless hmac secret_patterns cancelled
        (new_cli_profile normalize_rules redaction_rules profile).processor done r.raw_config
        c.content refl (redacted-ok r.target_id _ h)
