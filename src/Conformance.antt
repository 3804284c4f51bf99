-- ===== src/Conformance.antt =====
-- pkg/conformance/driver.go: a driver against a session that replays a device's answers; and the command
-- `driver test` of internal/cli/root.go, which uses it.
pub mod Replay
pub mod DriverTest
use go_xidized.Prelude.{
  ℕ, zero, Bool, true, false, ◌&&◌, ◌||◌, not, Text, codes, is_empty, text_eq, List, [], ◌∷◌, ◌++◌,
  Option, none, some, if◌then◌else◌,
}
use go_xidized.Types.{Target, RedactedConfig, RedactionReport}
use go_xidized.Types.Errors.{GoError, plain, Result, ok, err}
use go_xidized.Worker.{Fetched}

pub record DriverFixture : Type 0 where
  pub target : Target
  pub responses : Text → Option Text
  pub errors : Text → Option GoError
  pub expected_command : Text
  pub expected_commands : List Text

pub record DriverRun : Type 0 where
  pub config : Option Fetched
  pub normalized : Option Fetched
  pub redacted : Option RedactedConfig
  pub report : RedactionReport
  pub commands : List Text

-- What the kit asks of a driver over a session's state.
pub record Driver (S : Type 0) : Type 0 where
  pub prepare : S → Option GoError × S
  pub fetch_config : Target → S → Result Fetched × S
  pub normalize : Fetched → Result Fetched
  pub redact : Fetched → Result RedactedConfig × RedactionReport

abbrev pub empty_report : RedactionReport
empty_report = record { secrets_found = 0; categories = []; fingerprints = [] }

abbrev pub run_of : List Text → DriverRun
run_of commands = record {
  config = none;
  normalized = none;
  redacted = none;
  report = empty_report;
  commands = commands;
}

abbrev last_of : Text → List Text → Text
last_of x [] = x
last_of x (y ∷ ys) = last_of y ys

abbrev texts_eq : List Text → List Text → Bool
texts_eq [] [] = true
texts_eq (x ∷ xs) (y ∷ ys) = text_eq x y && texts_eq xs ys
texts_eq _ _ = false

-- `%q`; what `ctx.Err()` says, if the context is done.
module _ (quote : Text → Text) (cancelled : Option GoError) where
  abbrev pub answer : Text → Option GoError → Option Text → Text × Option GoError
  answer command (some e) out = ([], some e)
  answer command none none =
      ([], some (plain (codes "no replay response for command " ++ quote command)))
  answer command none (some out) = (out, none)

  -- `ReplaySession.Run`; the state is the commands so far.
  unfoldable pub replay : DriverFixture → Text → List Text → Text × Option GoError × List Text
  replay fixture command done = elim cancelled [
    | some e ↦ ([], some e, done)
    | none ↦
        let (out, e) = answer command (fixture.errors command) (fixture.responses command) in
        (out, e, done ++ command ∷ [])
  ]

  -- The last command is the expected one.
  abbrev last_error : Text → List Text → Option GoError
  last_error expected [] =
      if is_empty expected
      then none
      else some (plain (codes "last command = <none>, want " ++ quote expected))
  last_error expected (c ∷ cs) =
      if is_empty expected || text_eq (last_of c cs) expected
      then none
      else some (
          plain (
            codes "last command = "
            ++ (quote (last_of c cs) ++ (codes ", want " ++ quote expected))))

  -- `quote_all` is `%q` of a list.
  abbrev all_error : (List Text → Text) → List Text → List Text → Option GoError
  all_error quote_all [] commands = none
  all_error quote_all (x ∷ xs) commands =
      if texts_eq commands (x ∷ xs)
      then none
      else some (
          plain (
            codes "commands = " ++ (quote_all commands ++ (codes ", want " ++ quote_all (x ∷ xs)))))

  abbrev pub check_commands : (List Text → Text) → DriverFixture → List Text → Option GoError
  check_commands quote_all fixture commands = elim (last_error fixture.expected_command commands) [
    | some e ↦ some e
    | none ↦ all_error quote_all fixture.expected_commands commands
  ]

  module _ (quote_all : List Text → Text) (driver : Driver (List Text))
      (fixture : DriverFixture) where
    after_redact :
        Fetched
        → Fetched
        → List Text
        → Result RedactedConfig × RedactionReport
        → DriverRun × Option GoError
    after_redact cfg norm commands (err e, report) = (
      record (run_of commands) { config = some cfg; normalized = some norm; report = report },
      some e,
    )
    after_redact cfg norm commands (ok redacted, report) = (
      record (run_of commands) {
        config = some cfg;
        normalized = some norm;
        redacted = some redacted;
        report = report;
      },
      check_commands quote_all fixture commands,
    )

    after_normalize : Fetched → List Text → Result Fetched → DriverRun × Option GoError
    unfolding after_redact
    after_normalize cfg commands (err e) = (record (run_of commands) { config = some cfg }, some e)
    after_normalize cfg commands (ok norm) = after_redact cfg norm commands (driver.redact norm)

    after_fetch : Result Fetched × List Text → DriverRun × Option GoError
    unfolding after_normalize
    after_fetch (err e, commands) = (run_of commands, some e)
    after_fetch (ok cfg, commands) = after_normalize cfg commands (driver.normalize cfg)

    after_prepare : Option GoError × List Text → DriverRun × Option GoError
    unfolding after_fetch
    after_prepare (some e, commands) = (run_of commands, some e)
    after_prepare (none, commands) = after_fetch (driver.fetch_config fixture.target commands)

    unfoldable pub run_driver_fixture_detailed : DriverRun × Option GoError
    unfolding after_prepare
    run_driver_fixture_detailed =
        if is_empty fixture.target.id
        then (run_of [], some (plain (codes "fixture target id is required")))
        else after_prepare (driver.prepare [])
