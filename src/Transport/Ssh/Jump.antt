-- ===== src/Transport/Ssh/Jump.antt =====
-- ssh.go: the text of a jump host, `user@host:port`.
use go_xidized.Prelude.{
  Bool, true, false, ◌||◌, Text, codes, is_empty, Option, none, some, if◌then◌else◌, ◌==◌, ℤ,
}
use go_xidized.Prelude.Strings.{trim_space, atoi}
use go_xidized.Prelude.Strings.Parts.{cut_last, trim}
use go_xidized.Types.Errors.{Result, ok, err, GoError, plain}

pub record JumpSpec : Type 0 where
  pub username : Text
  pub host : Text
  pub port : Text

-- The user and what comes after the last `@`.
unfoldable pub user_of : Text → Text → Text × Text
unfolding cut_last
user_of spec default_user = elim (cut_last (λ c. c == b'@') spec) [
  | none ↦ (default_user, spec)
  | some (user, rest) ↦ (user, rest)
]

abbrev is_none : Option ℤ → Bool
is_none none = true
is_none (some n) = false

unfoldable pub checked : Text → Text × Text → Result JumpSpec
unfolding atoi
checked user (host, port) =
    if is_empty user
    then err (plain (codes "jump host user is empty"))
    else if is_empty host
    then err (plain (codes "jump host address is empty"))
    else if is_none (atoi port)
    then err (plain (codes "invalid jump host port"))
    else ok (record { username = user; host = host; port = port })

-- The host and the port, or those of a text without a port.
unfoldable pub host_port :
    (Text → Result (Text × Text)) → (GoError → Bool) → Text → Result (Text × Text)
unfolding trim
host_port split is_missing_port spec = elim (split spec) [
  | ok hp ↦ ok hp
  | err e ↦
      if is_missing_port e then ok (trim (λ c. c == b'[' || c == b']') spec, codes "22") else err e
]

-- `split` is `net.SplitHostPort`.
unfoldable pub parse_jump_host :
    (Text → Result (Text × Text)) → (GoError → Bool) → Text → Text → Result JumpSpec
unfolding trim_space user_of host_port checked
parse_jump_host split is_missing_port raw default_user =
    if is_empty (trim_space raw)
    then err (plain (codes "jump host is empty"))
    else let (user, rest) = user_of (trim_space raw) default_user in
      elim (host_port split is_missing_port rest) [ err e ↦ err e | ok hp ↦ checked user hp ]
