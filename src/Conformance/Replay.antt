-- ===== src/Conformance/Replay.antt =====
-- driver.go with internal/drivers/cli.go: a command line driver against a replayed device.
use go_xidized.Prelude.{
  ◌≡◌, refl, sym, ap, ◌∙◌, Bool, true, false, Text, codes, is_empty, List, [], ◌∷◌, ◌++◌, map, All,
  Option, none, some, Bool-cases, ◌⊎◌, inl, inr,
}
use go_xidized.Types.{Target, RedactedConfig, RedactionReport}
use go_xidized.Worker.{Fetched}
use go_xidized.Types.Errors.{GoError, Result, ok, err}
use go_xidized.Drivers.{
  CliDriver, prepare, prepare_each, fetch_config, fetched, command_error, continued,
}
use go_xidized.Drivers.Transcript.{CommandProfile, ProfileCommand, classify_output}
use go_xidized.Conformance.{
  DriverFixture, Driver, answer, replay, run_driver_fixture_detailed, after_prepare, after_fetch,
  after_normalize, after_redact,
}

-- The device answers the command.
abbrev pub IsAnswered : DriverFixture → Text → Type 0
IsAnswered fixture command =
    (out : Text) × (fixture.responses command ≡ some out) × (fixture.errors command ≡ none)

module _ (quote : Text → Text) (is_timeout : GoError → Bool) (fixture : DriverFixture) where
  answer-IsAnswered :
      (p : CommandProfile) (command op : Text)
      → command_error
          (replay quote none fixture)
          is_timeout
          p
          command
          op
          (answer quote none command (fixture.errors command) (fixture.responses command))
        ≡ none
      → IsAnswered fixture command
  unfolding command_error classify_output
  answer-IsAnswered p command op h =
      by_answer (fixture.errors command) (fixture.responses command) refl refl h
    where
      by_answer :
          (e : Option GoError) (o : Option Text)
          → fixture.errors command ≡ e
          → fixture.responses command ≡ o
          → command_error
              (replay quote none fixture)
              is_timeout
              p
              command
              op
              (answer quote none command e o)
            ≡ none
          → IsAnswered fixture command
      by_answer (some x) o a b k = cc
      by_answer none none a b k = cc
      by_answer none (some out) a b k = (out, b, a)

  replay-commands :
      (command : Text) (s : List Text) → (replay quote none fixture command s).2 ≡ s ++ command ∷ []
  unfolding replay
  replay-commands command s = refl

  append-step : (s : List Text) (c : Text) (cs : List Text) → (s ++ c ∷ []) ++ cs ≡ s ++ (c ∷ cs)
  append-step [] c cs = refl
  append-step (x ∷ s) c cs = ap (λ l. x ∷ l) (append-step s c cs)

  append-nil : (s : List Text) → s ++ [] ≡ s
  append-nil [] = refl
  append-nil (x ∷ s) = ap (λ l. x ∷ l) (append-nil s)

  continued-none :
      (b : Bool) (o : Option GoError) (s : List Text) (rest : Option GoError × List Text)
      → (continued (replay quote none fixture) is_timeout b o s rest).0 ≡ none
      → (rest.0 ≡ none)
        × ((continued (replay quote none fixture) is_timeout b o s rest).1 ≡ rest.1)
        × ((b ≡ true) ⊎ (o ≡ none))
  continued-none b none s rest h = (h, refl, inr refl)
  continued-none true (some e) s rest h = (h, refl, inl refl)
  continued-none false (some e) s rest h = cc

  -- The commands that a driver has given, in order, and each that has to succeed is answered.
  abbrev IsPlayed : List ProfileCommand → List Text → List Text → Type 0
  IsPlayed cs before after =
      (after ≡ before ++ map (λ c. c.command) cs)
      × All (λ c. (c.allow_failure ≡ true) ⊎ IsAnswered fixture c.command) cs

  prepare_each-IsPlayed :
      (p : CommandProfile) (cs : List ProfileCommand) (s : List Text)
      → (prepare_each (replay quote none fixture) is_timeout p cs s).0 ≡ none
      → IsPlayed cs s (prepare_each (replay quote none fixture) is_timeout p cs s).1
  unfolding prepare_each replay
  prepare_each-IsPlayed p [] s h = (sym (append-nil s), tt)
  prepare_each-IsPlayed p (c ∷ cs) s h =
      let op = codes "prepare " ++ p.vendor in
      let session = replay quote none fixture in
      let given = s ++ c.command ∷ [] in
      let failure =
        command_error session is_timeout p c.command op
          (answer quote none c.command (fixture.errors c.command) (fixture.responses c.command)) in
      let rest = prepare_each session is_timeout p cs given in
      let (fine, same, why) = continued-none c.allow_failure failure given rest h in
      let (log, all) = prepare_each-IsPlayed p cs given fine in
      (
        same ∙ log ∙ append-step s c.command (map (λ x. x.command) cs),
        (
          elim why [
            | inl allowed ↦ inl allowed
            | inr none_failed ↦ inr (answer-IsAnswered p c.command op none_failed)
          ],
          all,
        ),
      )

  fetched-none :
      (p : CommandProfile) (t : Target) (out : Text) (o : Option GoError) {cfg : Fetched}
      → fetched (replay quote none fixture) is_timeout p t out o ≡ ok cfg
      → o ≡ none
  fetched-none p t out none h = refl
  fetched-none p t out (some e) h = cc

  fetch_config-IsPlayed :
      (d : CliDriver) (s : List Text) {cfg : Fetched}
      → (fetch_config (replay quote none fixture) is_timeout d fixture.target s).0 ≡ ok cfg
      → ((fetch_config (replay quote none fixture) is_timeout d fixture.target s).1
          ≡ s ++ d.profile.fetch_command ∷ [])
        × IsAnswered fixture d.profile.fetch_command
  unfolding fetch_config replay
  fetch_config-IsPlayed d s h =
      let command = d.profile.fetch_command in
      (
        refl,
        answer-IsAnswered d.profile command command (fetched-none d.profile fixture.target _ _ h),
      )

  -- The command line driver in the replayed session.
  abbrev pub replayed :
      CliDriver
      → (Fetched → Result Fetched)
      → (Fetched → Result RedactedConfig × RedactionReport)
      → Driver (List Text)
  replayed d normalize redact = record {
    prepare = prepare (replay quote none fixture) is_timeout d;
    fetch_config = fetch_config (replay quote none fixture) is_timeout d;
    normalize = normalize;
    redact = redact;
  }

  module _ (quote_all : List Text → Text) (driver : Driver (List Text)) where
    after_redact_commands :
        (cfg norm : Fetched) (commands : List Text) (r : Result RedactedConfig × RedactionReport)
        → (after_redact quote none quote_all driver fixture cfg norm commands r).0.commands
          ≡ commands
    unfolding after_redact
    after_redact_commands cfg norm commands (err e, report) = refl
    after_redact_commands cfg norm commands (ok out, report) = refl

    after_normalize_commands :
        (cfg : Fetched) (commands : List Text) (r : Result Fetched)
        → (after_normalize quote none quote_all driver fixture cfg commands r).0.commands ≡ commands
    unfolding after_normalize
    after_normalize_commands cfg commands (err e) = refl
    after_normalize_commands cfg commands (ok norm) =
        after_redact_commands cfg norm commands (driver.redact norm)

    after_fetch-none :
        (r : Result Fetched) (commands : List Text)
        → (after_fetch quote none quote_all driver fixture (r, commands)).1 ≡ none
        → (cfg : Fetched) × (r ≡ ok cfg)
          × ((after_fetch quote none quote_all driver fixture (r, commands)).0.commands ≡ commands)
    unfolding after_fetch
    after_fetch-none (err e) commands h = cc
    after_fetch-none (ok cfg) commands h =
        (cfg, refl, after_normalize_commands cfg commands (driver.normalize cfg))

    after_prepare-none :
        (o : Option GoError) (commands : List Text)
        → (after_prepare quote none quote_all driver fixture (o, commands)).1 ≡ none
        → (o ≡ none)
          × ((after_prepare quote none quote_all driver fixture (o, commands))
              ≡ after_fetch quote none quote_all driver fixture
                  (driver.fetch_config fixture.target commands))
    unfolding after_prepare
    after_prepare-none (some e) commands h = cc
    after_prepare-none none commands h = (refl, refl)

-- A driver that runs through its fixture without an error has given the commands of its profile, each
-- once and in order, the one that fetches the configuration last; the fixture has an answer for this one
-- and for each of the others that must not fail. (The context is not done.)
pub run_driver_fixture_detailed-IsPlayed :
    (quote : Text → Text) (quote_all : List Text → Text) (is_timeout : GoError → Bool)
    (fixture : DriverFixture) (d : CliDriver) (normalize : Fetched → Result Fetched)
    (redact : Fetched → Result RedactedConfig × RedactionReport)
    → (run_driver_fixture_detailed quote none quote_all
        (replayed quote is_timeout fixture d normalize redact)
        fixture).1
      ≡ none
    → ((run_driver_fixture_detailed quote none quote_all
          (replayed quote is_timeout fixture d normalize redact)
          fixture).0.commands
        ≡ map (λ c. c.command) d.profile.prepare ++ d.profile.fetch_command ∷ [])
      × All (λ c. (c.allow_failure ≡ true) ⊎ IsAnswered fixture c.command) d.profile.prepare
      × IsAnswered fixture d.profile.fetch_command
unfolding run_driver_fixture_detailed prepare
run_driver_fixture_detailed-IsPlayed quote quote_all is_timeout fixture d normalize redact h =
    elim (Bool-cases (is_empty fixture.target.id)) [
      | inl blank ↦ cc (rw blank at h)
      | inr given ↦
          let driver = replayed quote is_timeout fixture d normalize redact in
          let (fine, same) =
            after_prepare-none quote is_timeout fixture quote_all driver (driver.prepare []).0
              (driver.prepare []).1 (rw given at h) in
          let log = (driver.prepare []).1 in
          let reply = driver.fetch_config fixture.target log in
          let (cfg, found, commands) =
            after_fetch-none quote is_timeout fixture quote_all driver reply.0 reply.1
              (ap (λ x. x.1) (sym same) ∙ (rw given at h)) in
          let (last, answered) = fetch_config-IsPlayed quote is_timeout fixture d log found in
          let (first, all) =
            prepare_each-IsPlayed quote is_timeout fixture d.profile d.profile.prepare [] fine in
          rw given (
            ap (λ x. x.0.commands) same
                ∙ commands
                ∙ last
                ∙ ap (λ l. l ++ d.profile.fetch_command ∷ []) first,
            all,
            answered,
          )
    ]
