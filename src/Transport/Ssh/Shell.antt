-- ===== src/Transport/Ssh/Shell.antt =====
-- internal/transport/sshtransport/ssh.go: the shell of an interactive session.
use go_xidized.Prelude.{◌≡◌, refl, Bool, true, false, List, [], ◌∷◌, Option, none, some}
use go_xidized.Types.Errors.{GoError}

-- What is opened and closed; the pipe brings standard output and standard error together.
pub data ShellStep : Type 0 where
  open_session close_session open_pipe close_pipe : ShellStep

-- The errors of `NewSession`, of `RequestPty` and of the three pipes, and of `Shell`.
pub record ShellAnswers : Type 0 where
  pub new_session : Option GoError
  pub request_pty : Option GoError
  pub stdin_pipe : Option GoError
  pub stdout_pipe : Option GoError
  pub stderr_pipe : Option GoError
  pub shell : Option GoError

infixr 6 ◌or_error◌
abbrev ◌or_error◌ : Option GoError → Option GoError → Option GoError
none or_error next = next
some e or_error next = some e

unfoldable pub started : Option GoError → List ShellStep × Option GoError
started (some e) = (open_session ∷ open_pipe ∷ close_session ∷ close_pipe ∷ [], some e)
started none = (open_session ∷ open_pipe ∷ [], none)

unfoldable pub prepared : ShellAnswers → Option GoError → List ShellStep × Option GoError
unfolding started
prepared a (some e) = (open_session ∷ close_session ∷ [], some e)
prepared a none = started a.shell

unfoldable pub on_session : ShellAnswers → Option GoError → List ShellStep × Option GoError
unfolding prepared
on_session a (some e) = ([], some e)
on_session a none =
    prepared a (a.request_pty or_error a.stdin_pipe or_error a.stdout_pipe or_error a.stderr_pipe)

-- Is there a shell already?
unfoldable pub ensure_shell : Bool → ShellAnswers → List ShellStep × Option GoError
unfolding on_session
ensure_shell true a = ([], none)
ensure_shell false a = on_session a a.new_session

-- Is a session open at the end of the steps?
abbrev pub is_left_open : Bool → List ShellStep → Bool
is_left_open b [] = b
is_left_open b (open_session ∷ ss) = is_left_open true ss
is_left_open b (close_session ∷ ss) = is_left_open false ss
is_left_open b (open_pipe ∷ ss) = is_left_open b ss
is_left_open b (close_pipe ∷ ss) = is_left_open b ss

abbrev IsClosed : List ShellStep × Option GoError → Type 0
IsClosed (steps, some e) = is_left_open false steps ≡ false
IsClosed (steps, none) = Unit

-- Where there is no shell after ensureShell, the session that was opened for it is closed.
ensure_shell-IsClosed : (has_shell : Bool) (a : ShellAnswers) → IsClosed (ensure_shell has_shell a)
unfolding ensure_shell
ensure_shell-IsClosed true a = tt
ensure_shell-IsClosed false a = by_session a.new_session
  where
    by_shell : (x : Option GoError) → IsClosed (started x)
    by_shell (some e) = refl
    by_shell none = tt

    by_pipes : (x : Option GoError) → IsClosed (prepared a x)
    by_pipes (some e) = refl
    by_pipes none = by_shell a.shell

    by_session : (x : Option GoError) → IsClosed (on_session a x)
    by_session (some e) = refl
    by_session none =
        by_pipes (a.request_pty or_error a.stdin_pipe or_error a.stdout_pipe or_error a.stderr_pipe)
