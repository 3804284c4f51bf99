-- ===== src/Tests/Replays.antt =====
-- Replayed devices, and a logout.
use go_xidized.Prelude.{ℕ, ◌≡◌, refl, true, false, codes, text_eq, [], ◌∷◌, All, none, some, ◌⊎◌}
use go_xidized.Prelude.Strings.{contains, has_prefix}
use go_xidized.Types.{RedactedConfig, RedactionReport}
use go_xidized.Types.Errors.{plain, Result, ok}
use go_xidized.Worker.{Fetched}
use go_xidized.Drivers.{
  CliDriver, new_cli_profile, prepare, fetch_config, driver_normalize, driver_redact,
}
use go_xidized.Drivers.Profiles.{Regexp}
use go_xidized.Drivers.Profiles.Vendors.{zte_zxr10_profile}
use go_xidized.Conformance.{DriverFixture, run_driver_fixture_detailed, empty_report, replay}
use go_xidized.Conformance.Replay.{replayed, IsAnswered, run_driver_fixture_detailed-IsPlayed}
use go_xidized.Conformance.DriverTest.{Libraries, fixture_of, fixture_responses, driver_test}
use go_xidized.Conformance.DriverTest.Vendors.{is_testable, driver_test-testable}
use go_xidized.Api.Requests.{Server, Request, audit_of, session_cookie_name}
use go_xidized.Api.{devices, serve, permission}
use go_xidized.Api.Auth.{auth_token, logout}
use go_xidized.Api.Access.{denied}
use go_xidized.Api.Logout.{logout_ends_session}
use go_xidized.Metadata.{Database}
use go_xidized.Metadata.Accounts.{AuthTables}
use go_xidized.Metadata.Tokens.{auth_store, create_oidc_session, revoke_auth_token}
use go_xidized.Metadata.Tokens.Revoked.{calls, validate, create}
use go_xidized.Tests.Requests.{server, answers, request, is_blank, may}
use go_xidized.Tests.Tables.{token, principal, database, libraries}

abbrev nothing : Regexp
nothing = record {
  find = λ t. [];
  find_index = λ t. none;
  find_all = λ t. [];
  replace_all = λ t r. t;
}

abbrev lib : Libraries
lib = record {
  hmac = λ k t. t;
  compile = λ p. nothing;
  secret_patterns = [];
  base_normalize_rules = [];
  base_redaction_rules = [];
  strip_ansi = λ t. t;
  quote = λ t. t;
  quote_all = λ ts. [];
  is_timeout = λ e. false;
  cancelled = plain (codes "context canceled");
  read_file = λ p. ok (codes "hostname r1\n");
}

abbrev zte : CliDriver
zte = new_cli_profile [] [] (zte_zxr10_profile lib.compile)

abbrev fixture : DriverFixture
fixture = fixture_of (codes "zte_zxr10") (codes "hostname r1\n")

abbrev kept : Fetched → Result RedactedConfig × RedactionReport
kept f = (ok (record { target_id = f.target_id; content = f.raw_config }), empty_report)

run_driver_fixture_detailed-IsPlayed_example :
    ((run_driver_fixture_detailed lib.quote none lib.quote_all
        (replayed lib.quote lib.is_timeout fixture zte ok kept)
        fixture).0.commands
      ≡ codes "terminal length 0" ∷ codes "show running-config" ∷ [])
    × All (λ c. (c.allow_failure ≡ true) ⊎ IsAnswered fixture c.command) zte.profile.prepare
    × IsAnswered fixture (codes "show running-config")
unfolding new_cli_profile run_driver_fixture_detailed prepare fetch_config replay fixture_responses
    text_eq contains
run_driver_fixture_detailed-IsPlayed_example =
    run_driver_fixture_detailed-IsPlayed lib.quote lib.quote_all lib.is_timeout fixture zte ok kept
      refl

driver_test-testable_example : is_testable (codes "zte_zxr10") ≡ true
unfolding driver_test text_eq fixture_responses contains new_cli_profile run_driver_fixture_detailed
    prepare fetch_config replay driver_normalize driver_redact
driver_test-testable_example =
    driver_test-testable lib (codes "zte_zxr10") (codes "f")
      (some (record { target_id = codes "fixture"; content = codes "hostname r1\n" }), empty_report)
      refl

-- The session is in the table, then it is revoked, and something else goes on.
abbrev opened : Database AuthTables
opened = (create_oidc_session libraries (codes "s1") (0 ∷ token) principal 100 database).1

abbrev closed : Database AuthTables
closed =
    calls libraries (validate 20 token ∷ create (codes "s2") (0 ∷ token) principal 90 ∷ [])
      (revoke_auth_token libraries 10 token opened).1

abbrev with_cookie : Request
with_cookie = record request { authorization = []; cookie = λ name. some token }

abbrev server_with : ℕ → Database AuthTables → Server
server_with now db = record server { auth_store = some (auth_store libraries now (codes "s3") db) }

logout_ends_session_example :
    denied (serve is_blank may devices (server_with 30 closed) answers with_cookie) ≡ true
unfolding create_oidc_session logout auth_token permission audit_of has_prefix session_cookie_name
    revoke_auth_token text_eq
logout_ends_session_example =
    logout_ends_session is_blank may libraries (server_with 10 opened) with_cookie principal token
      (codes "s3") 10 opened refl refl refl refl
      (validate 20 token ∷ create (codes "s2") (0 ∷ token) principal 90 ∷ []) 30 (codes "s3")
      (server_with 30 closed) answers with_cookie devices (codes "devices:read") refl refl refl refl
      (λ e. cc)
