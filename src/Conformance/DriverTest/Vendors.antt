-- ===== src/Conformance/DriverTest/Vendors.antt =====
-- root.go: the drivers that `driver test` can test.
use go_xidized.Prelude.{
  ◌≡◌, refl, subst, Bool, true, false, ◌||◌, Text, codes, is_empty, text_eq, text_eq_iff, List, [],
  ◌∷◌, All, Option, none, some, Bool-cases, inl, inr, ◌⊎◌,
}
use go_xidized.Types.{RedactedConfig, RedactionReport}
use go_xidized.Types.Errors.{GoError, Result, ok, err}
use go_xidized.Pipeline.Redaction.{Rule}
use go_xidized.Drivers.{
  CliDriver, Registry, get, register, register_each, new_cli_profile, driver_normalize,
  driver_redact,
}
use go_xidized.Drivers.Transcript.{CommandProfile}
use go_xidized.Drivers.Profiles.Vendors.{
  register_defaults, profiles, cisco_iosxe_profile, cisco_iosxr_profile, juniper_junos_profile,
  ericsson_ipos_profile,
}
use go_xidized.Conformance.{DriverRun, run_driver_fixture_detailed}
use go_xidized.Conformance.Replay.{IsAnswered, run_driver_fixture_detailed-IsPlayed}
use go_xidized.Conformance.DriverTest.{
  Libraries, fixture_responses, fixture_of, cli_driver, run_result, run_driver_fixture, with_data,
  with_driver, driver_test,
}

-- What a registry gives has a property of all its entries.
get-All :
    (P : Text → CliDriver → Type 0) (name : Text) (r : Registry) {d : CliDriver}
    → All (λ (n, x). P n x) r
    → get name r ≡ ok d
    → P name d
unfolding get
get-All P name [] h e = cc
get-All P name ((n, x) ∷ r) {d} (p, h) e = elim (Bool-cases (text_eq n name)) [
  | inl same ↦
      let here : x ≡ d = cc (rw same at e) in
      let named : n ≡ name = (text_eq_iff n name).0 same in
      subst (λ v. P v d) named (subst (P n) here p)
  | inr other ↦ get-All P name r h (rw other at e)
]

register-All :
    (P : Text → CliDriver → Type 0) (name : Text) (d : CliDriver) (r : Registry)
    → P name d
    → All (λ (n, x). P n x) r
    → All (λ (n, x). P n x) (register name d r)
unfolding register
register-All P name d [] p h = (p, tt)
register-All P name d ((n, x) ∷ r) p (q, h) = elim (Bool-cases (text_eq n name)) [
  | inl same ↦ rw same (p, h)
  | inr other ↦ rw other (q, register-All P name d r p h)
]

register_each-All :
    (P : Text → CliDriver → Type 0) (ns : List (Text → Text)) (rs : List Rule)
    (ps : List CommandProfile) (r : Registry)
    → All (λ p. P p.vendor (new_cli_profile ns rs p)) ps
    → All (λ (n, x). P n x) r
    → All (λ (n, x). P n x) (register_each ns rs ps r)
unfolding register_each
register_each-All P ns rs [] r h k = k
register_each-All P ns rs (p ∷ ps) r (q, h) k =
    register_each-All P ns rs ps _ h (register-All P p.vendor (new_cli_profile ns rs p) r q k)

unanswered :
    (vendor transcript command : Text)
    → fixture_responses vendor transcript command ≡ none
    → IsAnswered (fixture_of vendor transcript) command
    → ⊥
unanswered vendor transcript command e (out, h, k) = cc

-- The two drivers whose commands are all in the map of `fixtureResponses`.
abbrev pub is_testable : Text → Bool
is_testable vendor = text_eq vendor (codes "huawei_vrp") || text_eq vendor (codes "zte_zxr10")

module _ (lib : Libraries) (vendor transcript : Text) where
  -- A test that has a result has a testable vendor.
  abbrev TestsOnly : Text → CliDriver → Type 0
  TestsOnly name d =
      (out : Option RedactedConfig × RedactionReport)
      → run_driver_fixture lib (fixture_of vendor transcript) d ≡ ok out
      → is_testable name ≡ true

  run_result-ok :
      (p : DriverRun × Option GoError) {out : Option RedactedConfig × RedactionReport}
      → run_result lib p ≡ ok out
      → p.1 ≡ none
  run_result-ok (run, none) h = refl
  run_result-ok (run, some e) h = cc

  -- A profile one of whose commands has no answer.
  fails :
      (name : Text) (p : CommandProfile)
      → (All
            (λ c. (c.allow_failure ≡ true) ⊎ IsAnswered (fixture_of vendor transcript) c.command)
            p.prepare
          → ⊥)
      → TestsOnly name (new_cli_profile lib.base_normalize_rules lib.base_redaction_rules p)
  unfolding new_cli_profile
  fails name p missing out h =
      let fixture = fixture_of vendor transcript in
      let d = new_cli_profile lib.base_normalize_rules lib.base_redaction_rules p in
      let (log, all, last) =
        run_driver_fixture_detailed-IsPlayed lib.quote lib.quote_all lib.is_timeout fixture d
          (driver_normalize lib.strip_ansi d false)
          (driver_redact lib.hmac lib.secret_patterns lib.cancelled d false)
          (run_result-ok
            (run_driver_fixture_detailed lib.quote none lib.quote_all (cli_driver lib fixture d)
              fixture)
            h) in
      absurd (missing all)

  -- The second command of three profiles and the first of another have no answer.
  All-TestsOnly :
      All
        (λ p.
          TestsOnly p.vendor (new_cli_profile lib.base_normalize_rules lib.base_redaction_rules p))
        (profiles lib.compile)
  unfolding fixture_responses text_eq
  All-TestsOnly =
      let width = λ (h : IsAnswered (fixture_of vendor transcript) (codes "terminal width 0")).
        unanswered vendor transcript (codes "terminal width 0") refl h in
      let screen =
        λ (h : IsAnswered (fixture_of vendor transcript) (codes "set cli screen-length 0")).
          unanswered vendor transcript (codes "set cli screen-length 0") refl h in
      (
        fails (codes "cisco_iosxe") (cisco_iosxe_profile lib.compile)
            (λ (a, (b, c)). elim b [ inl e ↦ cc | inr h ↦ width h ]),
        (
          (λ out h. refl),
          (
            fails (codes "cisco_iosxr") (cisco_iosxr_profile lib.compile)
                (λ (a, (b, c)). elim b [ inl e ↦ cc | inr h ↦ width h ]),
            (
              fails (codes "juniper_junos") (juniper_junos_profile lib.compile)
                  (λ (a, (b, c)). elim a [ inl e ↦ cc | inr h ↦ screen h ]),
              (
                fails (codes "ericsson_ipos") (ericsson_ipos_profile lib.compile)
                    (λ (a, (b, c)). elim b [ inl e ↦ cc | inr h ↦ width h ]),
                ((λ out h. refl), tt),
              ),
            ),
          ),
        ),
      )

-- The command `driver test` gives a result for the vendors `huawei_vrp` and `zte_zxr10` only: for each
-- other registered driver it ends with an error, whatever the transcript is.
pub driver_test-testable :
    (lib : Libraries) (vendor path : Text) (out : Option RedactedConfig × RedactionReport)
    → driver_test lib vendor path ≡ ok out
    → is_testable vendor ≡ true
unfolding driver_test register_defaults
driver_test-testable lib vendor path out h = elim (Bool-cases (is_empty vendor || is_empty path)) [
  | inl missing ↦ cc (rw missing at h)
  | inr given ↦
      by_driver
        (get vendor (
          register_each lib.base_normalize_rules lib.base_redaction_rules (profiles lib.compile)
            []))
        refl (rw given at h)
]
  where
    by_data :
        (d : CliDriver) (r : Result Text)
        → ((transcript : Text) → TestsOnly lib vendor transcript vendor d)
        → with_data lib vendor d r ≡ ok out
        → is_testable vendor ≡ true
    by_data d (err e) tests k = cc
    by_data d (ok transcript) tests k = tests transcript out k

    by_driver :
        (r : Result CliDriver)
        → get vendor (
            register_each lib.base_normalize_rules lib.base_redaction_rules
              (profiles lib.compile)
              [])
          ≡ r
        → with_driver lib vendor path r ≡ ok out
        → is_testable vendor ≡ true
    by_driver (err e) found k = cc
    by_driver (ok d) found k =
        by_data d (lib.read_file path)
          (λ transcript.
            get-All (λ name x. TestsOnly lib vendor transcript name x) vendor _
              (register_each-All (λ name x. TestsOnly lib vendor transcript name x)
                lib.base_normalize_rules lib.base_redaction_rules (profiles lib.compile) []
                (All-TestsOnly lib vendor transcript) tt)
              found)
          k
