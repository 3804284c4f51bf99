-- ===== src/Transport/Ssh/Connections.antt =====
-- ssh.go: which connections are open after Dial and after Close.
use go_xidized.Prelude.{
  ◌≡◌, refl, Bool, true, false, Text, is_empty, List, [], ◌∷◌, ◌++◌, Option, none, some, Bool-cases,
  inl, inr, ap, ◌∙◌,
}
use go_xidized.Types.{Target}
use go_xidized.Types.Secrets.{Secret}
use go_xidized.Types.Errors.{Result, ok, err, GoError}
use go_xidized.Transport.Ssh.Jump.{JumpSpec, parse_jump_host}
use go_xidized.Transport.Ssh.{
  Config, Answers, Step, open_conn, close_conn, open_jump_conn, close_jump_conn, open_jump_client,
  close_jump_client, close_both, direct, from_jump, jump_handshaken, jump_dialled, through_jump,
  network_conn, compiled, handshaken, on_conn, handshake_error, HostKeyCheck, AuthMethod,
  with_host_key, with_auth, host_key_callback, auth_methods, dial, close,
}

-- What is open: the connection to the target, and that to the jump host. To close the client of the
-- jump host closes its connection.
pub record Links : Type 0 where
  pub target : Bool
  pub jump : Bool

abbrev after : Step → Links → Links
after open_conn l = record l { target = true }
after close_conn l = record l { target = false }
after open_jump_conn l = record l { jump = true }
after close_jump_conn l = record l { jump = false }
after open_jump_client l = l
after close_jump_client l = record l { jump = false }

abbrev pub links : Links → List Step → Links
links l [] = l
links l (s ∷ ss) = links (after s l) ss

abbrev pub closed : Links
closed = record { target = false; jump = false }

-- A failure leaves nothing open; a session has its connection, and that of its jump host.
abbrev pub IsTidy : List Step × Result Bool → Type 0
IsTidy (steps, err e) = links closed steps ≡ closed
IsTidy (steps, ok jump) = links closed steps ≡ record { target = true; jump = jump }

links-append : (l : Links) (ss ts : List Step) → links l (ss ++ ts) ≡ links (links l ss) ts
links-append l [] ts = refl
links-append l (s ∷ ss) ts = links-append (after s l) ss ts

direct-IsTidy : (x : Option GoError) → IsTidy (direct x)
unfolding direct
direct-IsTidy none = refl
direct-IsTidy (some e) = refl

from_jump-IsTidy : (x : Option GoError) → IsTidy (from_jump x)
unfolding from_jump
from_jump-IsTidy none = refl
from_jump-IsTidy (some e) = refl

closing :
    (steps : List Step) (jump : Bool) (e : GoError)
    → links closed steps ≡ record { target = true; jump = jump }
    → IsTidy (steps ++ close_both jump, err e)
closing steps true e h =
    links-append closed steps (close_both true) ∙ ap (λ l. links l (close_both true)) h
closing steps false e h =
    links-append closed steps (close_both false) ∙ ap (λ l. links l (close_both false)) h

compiled-IsTidy :
    (steps : List Step) (jump : Bool) (x : Option GoError)
    → links closed steps ≡ record { target = true; jump = jump }
    → IsTidy (compiled steps jump x)
unfolding compiled
compiled-IsTidy steps jump none h = h
compiled-IsTidy steps jump (some e) h = closing steps jump e h

module _ (a : Answers) where
  through_jump-IsTidy : (x : Result JumpSpec) → IsTidy (through_jump a x)
  unfolding through_jump
  through_jump-IsTidy (err e) = refl
  through_jump-IsTidy (ok jump) = by_dial a.jump_tcp_dial
    where
      by_handshake : (x : Option GoError) → IsTidy (jump_handshaken a x)
      by_handshake (some e) = refl
      by_handshake none = from_jump-IsTidy a.jump_dial

      by_dial : (x : Option GoError) → IsTidy (jump_dialled a x)
      by_dial (some e) = refl
      by_dial none = by_handshake a.jump_handshake

  network_conn-IsTidy : (t : Target) (user : Text) → IsTidy (network_conn a t user)
  unfolding network_conn
  network_conn-IsTidy t user = elim (Bool-cases (is_empty t.jump_host)) [
    | inl plain ↦ rw plain (direct-IsTidy a.tcp_dial)
    | inr named ↦
        rw named (
          through_jump-IsTidy
            (parse_jump_host a.split_host_port a.is_missing_port t.jump_host user))
  ]

  handshaken-IsTidy :
      (steps : List Step) (jump : Bool) (x : Option GoError)
      → links closed steps ≡ record { target = true; jump = jump }
      → IsTidy (handshaken a steps jump x)
  unfolding handshaken
  handshaken-IsTidy steps jump (some e) h = closing steps jump (handshake_error a.error_text e) h
  handshaken-IsTidy steps jump none h = compiled-IsTidy steps jump a.compile_prompt h

  on_conn-IsTidy : (r : List Step × Result Bool) → IsTidy r → IsTidy (on_conn a r)
  unfolding on_conn
  on_conn-IsTidy (steps, err e) h = h
  on_conn-IsTidy (steps, ok jump) h = handshaken-IsTidy steps jump a.handshake h

  -- Dial leaves no connection open where it fails, whatever fails. Where it succeeds the connection to
  -- the target is open, and that to the jump host where there is one.
  pub dial-IsTidy :
      (cfg : Config) (t : Target) (user : Text) (private_key password : Secret)
      → IsTidy (dial cfg a t user private_key password)
  unfolding dial
  dial-IsTidy cfg t user private_key password =
      by_auth (auth_methods a.parse_key private_key password)
    where
      by_host_key : (x : Result HostKeyCheck) → IsTidy (with_host_key a t user x)
      by_host_key (err e) = refl
      by_host_key (ok check) = on_conn-IsTidy (network_conn a t user) (network_conn-IsTidy t user)

      by_auth : (x : Result (List AuthMethod)) → IsTidy (with_auth cfg a t user x)
      by_auth (err e) = refl
      by_auth (ok methods) = by_host_key (host_key_callback a.open_known cfg)

-- Close closes what Dial left open.
close-closed : (jump : Bool) → links (record { target = true; jump = jump }) (close jump) ≡ closed
unfolding close
close-closed true = refl
close-closed false = refl
