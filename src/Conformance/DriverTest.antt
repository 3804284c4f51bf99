-- ===== src/Conformance/DriverTest.antt =====
-- internal/cli/root.go: `driver test`, which replays one transcript for every command that fetches a
-- configuration.
pub mod Vendors
use go_xidized.Prelude.{
  ℕ, ℤ, pos, Bool, true, false, ◌&&◌, ◌||◌, not, Text, codes, is_empty, text_eq, List, [], ◌∷◌,
  ◌++◌, any, Option, none, some, if◌then◌else◌,
}
use go_xidized.Prelude.Strings.{contains}
use go_xidized.Types.{Target, RedactedConfig, RedactionReport}
use go_xidized.Types.Errors.{GoError, plain, Result, ok, err}
use go_xidized.Worker.{Fetched}
use go_xidized.Pipeline.Redaction.{Rule}
use go_xidized.Drivers.{CliDriver, get, driver_normalize, driver_redact}
use go_xidized.Drivers.Profiles.{Regexp}
use go_xidized.Drivers.Profiles.Vendors.{register_defaults}
use go_xidized.Conformance.{DriverFixture, DriverRun, Driver, run_driver_fixture_detailed}
use go_xidized.Conformance.Replay.{replayed}

-- Code that is not the repository's: HMAC, regular expressions (also the ones of `NewProcessor` and the
-- one for escape sequences), `%q`, and which errors are time-outs; and `os.ReadFile`.
pub record Libraries : Type 0 where
  pub hmac : Text → Text → Text
  pub compile : Text → Regexp
  pub secret_patterns : List (Text → Bool)
  pub base_normalize_rules : List (Text → Text)
  pub base_redaction_rules : List Rule
  pub strip_ansi : Text → Text
  pub quote : Text → Text
  pub quote_all : List Text → Text
  pub is_timeout : GoError → Bool
  pub cancelled : GoError
  pub read_file : Text → Result Text

-- A map of Go as a function; of two entries with one key the last counts, and they are alike.
unfoldable pub fixture_responses : Text → Text → Text → Option Text
unfolding contains text_eq
fixture_responses vendor transcript c =
    if text_eq c (codes "display current-configuration") && contains (codes "huawei") vendor
    then some transcript
    else if text_eq c (codes "terminal length 0") || text_eq c (codes "screen-length 0 temporary")
    then some []
    else if text_eq c (codes "show running-config")
        || text_eq c (codes "display current-configuration")
        || text_eq c (codes "show configuration | display set")
        || text_eq c (codes "show configuration")
    then some transcript
    else none

abbrev pub fixture_target : Text → Target
fixture_target vendor = record {
  id = codes "fixture";
  hostname = codes "fixture";
  ip_address = codes "127.0.0.1";
  port = pos 0;
  vendor = vendor;
  group = codes "fixture";
  site = [];
  role = [];
  tags = [];
  metadata = [];
  jump_host = [];
  credential_ref = codes "dotenv://fixture";
  enabled = true;
  telnet_enabled = false;
}

abbrev pub fixture_of : Text → Text → DriverFixture
fixture_of vendor transcript = record {
  target = fixture_target vendor;
  responses = fixture_responses vendor transcript;
  errors = λ c. none;
  expected_command = [];
  expected_commands = [];
}

module _ (lib : Libraries) where
  abbrev pub cli_driver : DriverFixture → CliDriver → Driver (List Text)
  cli_driver fixture d =
      replayed lib.quote lib.is_timeout fixture d (driver_normalize lib.strip_ansi d false)
        (driver_redact lib.hmac lib.secret_patterns lib.cancelled d false)

  -- `RunDriverFixture`
  abbrev pub run_result :
      DriverRun × Option GoError → Result (Option RedactedConfig × RedactionReport)
  run_result (run, some e) = err e
  run_result (run, none) = ok (run.redacted, run.report)

  abbrev pub run_driver_fixture :
      DriverFixture → CliDriver → Result (Option RedactedConfig × RedactionReport)
  run_driver_fixture fixture d =
      run_result
        (run_driver_fixture_detailed lib.quote none lib.quote_all (cli_driver fixture d) fixture)

  abbrev pub with_data :
      Text → CliDriver → Result Text → Result (Option RedactedConfig × RedactionReport)
  with_data vendor d (err e) = err e
  with_data vendor d (ok transcript) = run_driver_fixture (fixture_of vendor transcript) d

  abbrev pub with_driver :
      Text → Text → Result CliDriver → Result (Option RedactedConfig × RedactionReport)
  with_driver vendor path (err e) = err e
  with_driver vendor path (ok d) = with_data vendor d (lib.read_file path)

  -- The command with its two flags, before it prints; its context is not done.
  unfoldable pub driver_test : Text → Text → Result (Option RedactedConfig × RedactionReport)
  unfolding register_defaults get
  driver_test vendor path =
      if is_empty vendor || is_empty path
      then err (plain (codes "--vendor and --fixture are required"))
      else with_driver vendor path (
          get vendor
            (register_defaults lib.compile lib.base_normalize_rules lib.base_redaction_rules []))
