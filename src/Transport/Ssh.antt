-- ===== src/Transport/Ssh.antt =====
-- internal/transport/sshtransport/ssh.go: what a connection is made of, in which order it is opened
-- and closed, and the jump host's text. The network and the SSH library answer from outside.
pub mod Connections
pub mod Jump
pub mod Shell
use go_xidized.Prelude.{
  ℕ, ◌+◌, ◌^◌, ◌*◌, Bool, true, false, ◌&&◌, ◌||◌, not, Text, codes, is_empty, text_eq, List, [],
  ◌∷◌, ◌++◌, Option, none, some, if◌then◌else◌, ltb, ℤ, pos, lebℤ, ltbℤ, pos_part, length, ◌==◌,
}
use go_xidized.Prelude.Strings.{contains, to_lower, trim_space}
use go_xidized.Types.{Target, Time, Duration}
use go_xidized.Types.Secrets.{Secret, is_zero, reveal}
use go_xidized.Types.Errors.{Result, ok, err, GoError, plain, backup, connect, auth, command}
use go_xidized.Transport.Output.{take}
use go_xidized.Transport.Ssh.Jump.{JumpSpec, parse_jump_host}

pub record Config : Type 0 where
  pub connect_timeout : Duration
  pub auth_timeout : Duration
  pub command_timeout : Duration
  pub idle_timeout : Duration
  pub session_deadline : Duration
  pub interactive_shell : Bool
  pub prompt_pattern : Text
  pub max_output_bytes : ℤ
  pub host_key_mode : Text
  pub known_hosts_path : Text
  pub tofu_path : Text

unfoldable pub new : Config → Text → Config
new cfg default_prompt_pattern = record cfg {
  prompt_pattern =
      if is_empty cfg.prompt_pattern then default_prompt_pattern else cfg.prompt_pattern;
  max_output_bytes =
      if lebℤ cfg.max_output_bytes (pos 0) then pos (16 * 2 ^ 20) else cfg.max_output_bytes;
}

-- The methods of authentication, in the order in which they are tried.
pub data AuthMethod : Type 0 where
  public_key by_password : Text → AuthMethod

abbrev password_methods : Secret → List AuthMethod
password_methods password = if is_zero password then [] else by_password (reveal password) ∷ []

abbrev some_method : List AuthMethod → Result (List AuthMethod)
some_method [] = err (plain (codes "no SSH auth method available"))
some_method (m ∷ ms) = ok (m ∷ ms)

-- `parse_key` is `ssh.ParsePrivateKey`.
unfoldable pub auth_methods : (Text → Option GoError) → Secret → Secret → Result (List AuthMethod)
unfolding is_zero reveal
auth_methods parse_key private_key password =
    if is_zero private_key
    then some_method (password_methods password)
    else elim (parse_key (reveal private_key)) [
      | some e ↦ err e
      | none ↦ some_method (public_key (reveal private_key) ∷ password_methods password)
    ]

-- How the key of a host is checked, with the file of known keys.
pub data HostKeyCheck : Type 0 where
  known_hosts trust_on_first_use : Text → HostKeyCheck
  unchecked : HostKeyCheck

-- `open_known` is `knownhosts.New`, whose error the strict mode gives on.
unfoldable pub host_key_callback : (Text → Option GoError) → Config → Result HostKeyCheck
unfolding to_lower
host_key_callback open_known cfg =
    let mode = to_lower cfg.host_key_mode in
    let path = if is_empty cfg.tofu_path then cfg.known_hosts_path else cfg.tofu_path in
    if is_empty mode || text_eq mode (codes "strict")
    then (if is_empty cfg.known_hosts_path
        then err (plain (codes "known_hosts path is required in strict mode"))
        else elim (open_known cfg.known_hosts_path) [
          | some e ↦ err e
          | none ↦ ok (known_hosts cfg.known_hosts_path)
        ])
    else if text_eq mode (codes "tofu")
    then (if is_empty path
        then err (plain (codes "tofu path is required in tofu mode"))
        else ok (trust_on_first_use path))
    else if text_eq mode (codes "insecure")
    then ok unchecked
    else err (plain (codes "unknown host key mode"))

-- What the file of known keys says of a host's key.
pub data Known : Type 0 where
  matches no_file : Known
  -- a key error with the keys that are wanted
  differs : List Text → GoError → Known
  other_error : GoError → Known

-- `tofuCallback`: the error, if any, and whether the key is appended to the file.
unfoldable pub tofu_check : Known → Option GoError → Option GoError × Bool
tofu_check matches append = (none, false)
tofu_check no_file append = (append, true)
tofu_check (differs [] e) append = (append, true)
tofu_check (differs (k ∷ ks) e) append = (some e, false)
tofu_check (other_error e) append = (some e, false)

-- Connections that are opened and closed.
pub data Step : Type 0 where
  open_conn close_conn open_jump_conn close_jump_conn open_jump_client close_jump_client : Step

pub record Answers : Type 0 where
  pub parse_key : Text → Option GoError
  pub open_known : Text → Option GoError
  pub split_host_port : Text → Result (Text × Text)
  pub is_missing_port : GoError → Bool
  pub tcp_dial : Option GoError
  pub jump_tcp_dial : Option GoError
  pub jump_handshake : Option GoError
  pub jump_dial : Option GoError
  pub handshake : Option GoError
  pub error_text : GoError → Text
  pub compile_prompt : Option GoError

-- The error of the dialer, or the connection.
unfoldable pub direct : Option GoError → List Step × Result Bool
direct (some e) = ([], err (backup connect (codes "tcp dial") e))
direct none = (open_conn ∷ [], ok false)

-- From the jump host to the target, once there is a client.
unfoldable pub from_jump : Option GoError → List Step × Result Bool
from_jump (some e) = (
  open_jump_conn ∷ open_jump_client ∷ close_jump_client ∷ [],
  err (backup connect (codes "jump target dial") e),
)
from_jump none = (open_jump_conn ∷ open_jump_client ∷ open_conn ∷ [], ok true)

unfoldable pub jump_handshaken : Answers → Option GoError → List Step × Result Bool
unfolding from_jump
jump_handshaken a (some e) =
    (open_jump_conn ∷ close_jump_conn ∷ [], err (backup connect (codes "jump ssh handshake") e))
jump_handshaken a none = from_jump a.jump_dial

unfoldable pub jump_dialled : Answers → Option GoError → List Step × Result Bool
unfolding jump_handshaken
jump_dialled a (some e) = ([], err (backup connect (codes "jump tcp dial") e))
jump_dialled a none = jump_handshaken a a.jump_handshake

unfoldable pub through_jump : Answers → Result JumpSpec → List Step × Result Bool
unfolding jump_dialled
through_jump a (err e) = ([], err (backup connect (codes "ssh jump host") e))
through_jump a (ok jump) = jump_dialled a a.jump_tcp_dial

-- The network connection, and whether there is a client of a jump host.
unfoldable pub network_conn : Answers → Target → Text → List Step × Result Bool
unfolding parse_jump_host direct through_jump
network_conn a t user =
    if is_empty t.jump_host
    then direct a.tcp_dial
    else through_jump a (parse_jump_host a.split_host_port a.is_missing_port t.jump_host user)

abbrev pub close_both : Bool → List Step
close_both jump = close_conn ∷ (if jump then close_jump_client ∷ [] else [])

-- The category of an error of the handshake.
unfoldable pub handshake_error : (GoError → Text) → GoError → GoError
unfolding contains to_lower
handshake_error error_text e =
    if contains (codes "unable to authenticate") (to_lower (error_text e))
    then backup auth (codes "ssh handshake") e
    else backup connect (codes "ssh handshake") e

-- The prompt's pattern, for an open connection.
unfoldable pub compiled : List Step → Bool → Option GoError → List Step × Result Bool
compiled steps jump (some e) =
    (steps ++ close_both jump, err (backup connect (codes "ssh prompt pattern") e))
compiled steps jump none = (steps, ok jump)

unfoldable pub handshaken : Answers → List Step → Bool → Option GoError → List Step × Result Bool
unfolding compiled handshake_error
handshaken a steps jump (some e) = (steps ++ close_both jump, err (handshake_error a.error_text e))
handshaken a steps jump none = compiled steps jump a.compile_prompt

-- After the network connection.
unfoldable pub on_conn : Answers → List Step × Result Bool → List Step × Result Bool
unfolding handshaken
on_conn a (steps, err e) = (steps, err e)
on_conn a (steps, ok jump) = handshaken a steps jump a.handshake

unfoldable pub with_host_key :
    Answers → Target → Text → Result HostKeyCheck → List Step × Result Bool
unfolding network_conn on_conn
with_host_key a t user (err e) = ([], err (backup connect (codes "ssh host key") e))
with_host_key a t user (ok check) = on_conn a (network_conn a t user)

unfoldable pub with_auth :
    Config → Answers → Target → Text → Result (List AuthMethod) → List Step × Result Bool
unfolding with_host_key host_key_callback
with_auth cfg a t user (err e) = ([], err (backup auth (codes "ssh auth") e))
with_auth cfg a t user (ok methods) = with_host_key a t user (host_key_callback a.open_known cfg)

-- `Dial`: what it opens and closes, and the session, which says whether it has a jump host.
unfoldable pub dial : Config → Answers → Target → Text → Secret → Secret → List Step × Result Bool
unfolding auth_methods with_auth
dial cfg a t user private_key password =
    with_auth cfg a t user (auth_methods a.parse_key private_key password)

-- `Session.Close`, of the connections.
unfoldable pub close : Bool → List Step
close jump = close_both jump

-- `deadline`, at a time; 0 is no deadline.
unfoldable pub deadline : Time → Time → Duration → Time
deadline now session_deadline command_timeout =
    let command_deadline = now + pos_part command_timeout in
    if session_deadline == 0
    then (if lebℤ command_timeout (pos 0) then 0 else command_deadline)
    else if lebℤ command_timeout (pos 0)
    then session_deadline
    else if ltb command_deadline session_deadline
    then command_deadline
    else session_deadline

unfoldable pub exec_result : ℤ → Text → Option GoError → Text → Text × Option GoError
unfolding take
exec_result max_output cmd e out =
    if ltbℤ max_output (pos (length out))
    then (
      take (pos_part max_output) out,
      some (backup command cmd (plain (codes "output exceeded limit"))),
    )
    else (out, e)
