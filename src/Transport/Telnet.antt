-- ===== src/Transport/Telnet.antt =====
-- internal/transport/telnettransport/telnet.go: defaults, the filter of telnet commands, the login and
-- the sequence of a connection.
pub mod Commands
use go_xidized.Prelude.{
  ℕ, ◌*◌, ◌^◌, Bool, true, false, ◌&&◌, ◌||◌, not, Text, codes, is_empty, List, [], ◌∷◌, ◌++◌,
  Option, none, some, if◌then◌else◌, ◌==◌, ℤ, pos, lebℤ,
}
use go_xidized.Prelude.Strings.{contains, to_lower}
use go_xidized.Prelude.Strings.Parts.{itoa}
use go_xidized.Types.{Target, Duration, second}
use go_xidized.Types.Secrets.{Secret, is_zero}
use go_xidized.Types.Errors.{Result, ok, err, GoError, plain, backup, connect, auth}

pub record Config : Type 0 where
  pub enabled : Bool
  pub connect_timeout : Duration
  pub login_timeout : Duration
  pub command_timeout : Duration
  pub idle_timeout : Duration
  pub prompt_pattern : Text
  pub max_output_bytes : ℤ

abbrev or_default : ℤ → ℕ → ℤ
or_default n def = if lebℤ n (pos 0) then pos def else n

abbrev pub default_prompt_pattern : Text
default_prompt_pattern = codes "(?m)(^|\\n)[^\\n]{1,96}[>#]\\s*$"

-- `NewConfig`
unfoldable pub new_config : Config → Config
new_config cfg = record {
  enabled = cfg.enabled;
  connect_timeout = or_default cfg.connect_timeout (20 * second);
  login_timeout = or_default cfg.login_timeout (20 * second);
  command_timeout = or_default cfg.command_timeout (60 * second);
  idle_timeout = or_default cfg.idle_timeout (30 * second);
  prompt_pattern =
      if is_empty cfg.prompt_pattern then default_prompt_pattern else cfg.prompt_pattern;
  max_output_bytes = or_default cfg.max_output_bytes (16 * 2 ^ 20);
}

-- The answer to a command with its option: every offer and every request is refused.
unfoldable pub refusal : ℕ → ℕ → List Text
refusal cmd opt =
    if cmd == 253 || cmd == 254
    then (255 ∷ 252 ∷ opt ∷ []) ∷ []
    else if cmd == 251 || cmd == 252
    then (255 ∷ 254 ∷ opt ∷ []) ∷ []
    else []

abbrev keep : ℕ → Text × List Text → Text × List Text
keep b (bs, answers) = (b ∷ bs, answers)

abbrev answer : List Text → Text × List Text → Text × List Text
answer new (bs, answers) = (bs, new ++ answers)

-- `read`, of the bytes that the connection gave: what is kept, and what is written back, in order.
unfoldable pub filter_commands : Text → Text × List Text
unfolding refusal
filter_commands [] = ([], [])
filter_commands (b ∷ []) = if b == 255 then ([], []) else (b ∷ [], [])
filter_commands (b ∷ c ∷ []) =
    let rest = filter_commands (c ∷ []) in if b == 255 then rest else keep b rest
filter_commands (b ∷ c ∷ d ∷ s) =
    let command = answer (refusal c d) (filter_commands s) in
    let text = keep b (filter_commands (c ∷ d ∷ s)) in if b == 255 then command else text

-- What `login` sends.
pub data Sent : Type 0 where
  username password : Sent

pub record Login : Type 0 where
  pub name : Text
  pub secret : Secret

-- One answer of the device: what was read, the error of the read, and the error of the write, if one is
-- made.
pub record Answer : Type 0 where
  pub out : Text
  pub read_error : Option GoError
  pub write_error : Option GoError

-- What the text asks for; the prompt is looked for last.
pub data Asked : Type 0 where
  for_username for_password ready other : Asked

unfoldable pub asked : (Text → Bool) → Text → Asked
unfolding contains to_lower
asked prompt out =
    let text = to_lower out in
    if contains (codes "username") text || contains (codes "login") text
    then for_username
    else if contains (codes "password") text
    then for_password
    else if prompt out
    then ready
    else other

abbrev auth_error : Text → Text → GoError
auth_error op text = backup auth op (plain text)

-- After a write, and after the text has been looked at.
abbrev then_next : Option GoError → Option GoError → Option (Result (Unit {0}))
then_next (some e) r = some (err e)
then_next none (some e) = some (err e)
then_next none none = none

-- What is sent in a round, and its end, or `none` where the loop goes on.
unfoldable pub login_round : (Text → Bool) → Login → Answer → List Sent × Option (Result (Unit {0}))
unfolding asked is_zero
login_round prompt l a = elim (asked prompt a.out) [
  | for_username ↦
      if is_empty l.name
      then ([], some (err (auth_error (codes "telnet username") (codes "username is required"))))
      else (username ∷ [], then_next a.write_error a.read_error)
  | for_password ↦
      if is_zero l.secret
      then ([], some (err (auth_error (codes "telnet password") (codes "password is required"))))
      else (password ∷ [], then_next a.write_error a.read_error)
  | ready ↦ ([], some (ok tt))
  | other ↦ elim a.read_error [
    | some e ↦ ([], some (err e))
    | none ↦ ([], if is_empty a.out then none else some (ok tt))
  ]
]

-- `login` over the answers of the device; `none` where they are used up.
unfoldable pub login : (Text → Bool) → Login → List Answer → List Sent × Option (Result (Unit {0}))
unfolding login_round
login prompt l [] = ([], none)
login prompt l (a ∷ more) =
    let (sent, end) = login_round prompt l a in
    let (later, last) = login prompt l more in
    elim end [ some r ↦ (sent, some r) | none ↦ (sent ++ later, last) ]

unfoldable pub port_string : ℤ → ℤ → Text
unfolding itoa
port_string port fallback =
    if lebℤ port (pos 0) && lebℤ (pos 0) port then itoa fallback else itoa port

-- What `Dial` does to its connection.
pub data Step : Type 0 where
  opens closes : Step

-- The answers to `DialContext`, to `Compile` and to the login.
unfoldable pub dial :
    Config → Target → Option GoError → Option GoError → Option GoError → List Step × Option GoError
dial cfg t dialled compiled logged_in =
    if not cfg.enabled || not t.telnet_enabled
    then (
      [],
      some (
          backup connect (codes "telnet gate")
            (plain (codes "telnet requires both global and target opt-in"))),
    )
    else elim dialled [
      | some e ↦ ([], some (backup connect (codes "telnet dial") e))
      | none ↦ elim compiled [
        | some e ↦ (opens ∷ closes ∷ [], some (backup connect (codes "telnet prompt pattern") e))
        | none ↦ elim logged_in [
          | some e ↦ (opens ∷ closes ∷ [], some e)
          | none ↦ (opens ∷ [], none)
        ]
      ]
    ]
