-- ===== src/Tests/Sessions.antt =====
-- Sessions with devices: what is read, what is refused and what stays open.
use go_xidized.Prelude.{
  ◌≡◌, refl, Bool, true, false, Text, codes, List, [], ◌∷◌, ◌++◌, none, some, pos,
}
use go_xidized.Types.{Target}
use go_xidized.Types.Errors.{ok, plain, GoError}
use go_xidized.Types.Secrets.{new_secret}
use go_xidized.Inventory.Router.{router_target}
use go_xidized.Transport.Output.{
  Round, bytes, timed_out, ended, read_until_prompt, clean_output, read_idle,
}
use go_xidized.Transport.Output.Ends.{
  IsEnd, IsAllOf, IsRead, read_until_prompt-IsEnd, read_until_prompt-IsRead,
}
use go_xidized.Transport.Telnet.{filter_commands}
use go_xidized.Transport.Telnet.Commands.{Item, byte, will}
use go_xidized.Transport.Ssh.{Config, Answers, dial}
use go_xidized.Transport.Ssh.Connections.{IsTidy, dial-IsTidy}

abbrev as_it_is : Text → Text
as_it_is t = t

abbrev no_prompt : Text → Bool
no_prompt t = false

abbrev failure : GoError
failure = plain (codes "deadline exceeded")

abbrev rounds : List Round
rounds =
    record { expired = none; read = bytes (codes "hostname r1") }
    ∷ record { expired = some failure; read = timed_out }
    ∷ []

abbrev pauses : List Round
pauses =
    record { expired = none; read = bytes (codes "hostname r1") }
    ∷ record { expired = none; read = timed_out }
    ∷ []

read_until_prompt-IsEnd_example :
    IsEnd as_it_is no_prompt
      (pos 100)
      (codes "show")
      (read_until_prompt as_it_is no_prompt (pos 100) (codes "show") [] rounds)
read_until_prompt-IsEnd_example =
    read_until_prompt-IsEnd as_it_is no_prompt (pos 100) (codes "show") [] rounds refl

-- A pause ends the output, also where the prompt has not come, and without an error.
pause_ends :
    read_until_prompt as_it_is no_prompt (pos 100) (codes "show") [] pauses
    ≡ ended (clean_output as_it_is no_prompt (codes "show") (codes "hostname r1")) none
unfolding read_until_prompt
pause_ends = refl

read_until_prompt-IsRead_example :
    (raw : Text) × IsAllOf as_it_is no_prompt (pos 100) (codes "show") [] pauses raw
    × IsRead as_it_is no_prompt (pos 100) (codes "show") raw
    × (clean_output as_it_is no_prompt (codes "show") (codes "hostname r1")
        ≡ clean_output as_it_is no_prompt (codes "show") raw)
read_until_prompt-IsRead_example =
    read_until_prompt-IsRead as_it_is no_prompt (pos 100) (codes "show") [] pauses
      (clean_output as_it_is no_prompt (codes "show") (codes "hostname r1")) pause_ends

-- A longer idle timeout has no effect.
idle_is_capped : read_idle (pos 30_000_000_000) ≡ pos 2_000_000_000
unfolding read_idle
idle_is_capped = refl

-- "ok" with an offer to echo in it.
abbrev items : List Item
items = byte 111 ∷ will 1 ∷ byte 107 ∷ []

-- A command that two reads divide is taken as text in the second.
divided_command :
    (filter_commands (111 ∷ 255 ∷ 251 ∷ [])).0 ++ (filter_commands (1 ∷ 107 ∷ [])).0
    ≡ 111 ∷ 251 ∷ 1 ∷ 107 ∷ []
unfolding filter_commands
divided_command = refl

abbrev through : Target
through =
    record (router_target (codes "r1") (codes "eos") (codes "10.0.0.1") (codes "core") (codes "env")
      [] []) { jump_host = codes "hop@gate:22" }

abbrev ssh_config : Config
ssh_config = record {
  connect_timeout = pos 0;
  auth_timeout = pos 0;
  command_timeout = pos 0;
  idle_timeout = pos 0;
  session_deadline = pos 0;
  interactive_shell = true;
  prompt_pattern = codes "#";
  max_output_bytes = pos 100;
  host_key_mode = codes "strict";
  known_hosts_path = codes "known_hosts";
  tofu_path = [];
}

-- The handshake with the target fails behind the jump host.
abbrev no_handshake : Answers
no_handshake = record {
  parse_key = λ k. none;
  open_known = λ p. none;
  split_host_port = λ s. ok (codes "gate", codes "22");
  is_missing_port = λ e. false;
  tcp_dial = none;
  jump_tcp_dial = none;
  jump_handshake = none;
  jump_dial = none;
  handshake = some failure;
  error_text = λ e. codes "reset";
  compile_prompt = none;
}

dial-IsTidy_example :
    IsTidy
      (dial ssh_config no_handshake through (codes "ana") (new_secret []) (new_secret (codes "p")))
dial-IsTidy_example =
    dial-IsTidy no_handshake ssh_config through (codes "ana") (new_secret [])
      (new_secret (codes "p"))
