-- ===== src/Transport/Output.antt =====
-- What sshtransport/ssh.go and telnettransport/telnet.go share: reading up to the prompt and cleaning
-- what was read. Bytes are those of ASCII texts; the prompt's pattern is a parameter.
pub mod Ends
use go_xidized.Prelude.{
  ℕ, zero, suc, ◌≡◌, Bool, true, false, ◌&&◌, ◌||◌, not, Text, codes, is_empty, text_eq, List, [],
  ◌∷◌, ◌++◌, map, Option, none, some, if◌then◌else◌, ltb, leb, ◌==◌, length, ℤ, pos, lebℤ, ltbℤ,
  pos_part,
}
use go_xidized.Prelude.Strings.{split, trim_space, trim_right, join}
use go_xidized.Prelude.Strings.Parts.{remove_all}
use go_xidized.Types.{Duration, second}
use go_xidized.Types.Errors.{GoError, plain, backup, command, timeout}
use go_xidized.Pipeline.Diff.{unify_newlines}
use go_xidized.Pipeline.Redaction.{unify_returns}

-- The lines that are kept: `strip` removes control sequences, and telnet has none to remove.
unfoldable pub clean_lines : (Text → Text) → (Text → Bool) → Text → List Text → List Text
unfolding trim_space trim_right
clean_lines strip prompt cmd [] = []
clean_lines strip prompt cmd (line ∷ lines) =
    let rest = clean_lines strip prompt cmd lines in
    let trimmed = trim_space (strip line) in
    if is_empty trimmed
      || (not (is_empty cmd) && text_eq trimmed cmd)
      || prompt (codes "\n" ++ trimmed)
    then rest
    else trim_right (λ c. c == b' ' || c == 9) (strip line) ∷ rest

-- `cleanOutput`, and `cleanInteractiveOutput`
unfoldable pub clean_output : (Text → Text) → (Text → Bool) → Text → Text → Text
unfolding clean_lines unify_newlines remove_all split join trim_space
clean_output strip prompt cmd raw =
    let text = remove_all (codes "--More--") (unify_returns (unify_newlines raw)) in
    trim_space
      (join (codes "\n") (clean_lines strip prompt (trim_space cmd) (split (λ c. c == 10) text)))
    ++ codes "\n"

-- What one read gives; an error that is neither of the time-outs is `failed`.
pub data Read : Type 0 where
  bytes : Text → Read
  nothing timed_out : Read
  failed : GoError → Read

-- One round of the loop: the error of the context, if it is done, and the read.
pub record Round : Type 0 where
  pub expired : Option GoError
  pub read : Read

-- The output and the error, or the output so far where the rounds are used up.
pub data Outcome : Type 0 where
  ended : Text → Option GoError → Outcome
  waiting : Text → Outcome

abbrev pub go_on : Outcome → (Text → Outcome) → Outcome
go_on (ended text e) next = ended text e
go_on (waiting out) next = next out

unfoldable pub take : ℕ → Text → Text
take n [] = []
take zero (c ∷ s) = []
take (suc n) (c ∷ s) = c ∷ take n s

module _ (strip : Text → Text) (prompt : Text → Bool) (max_output : ℤ) (cmd : Text) where
  abbrev pub is_too_long : Text → Bool
  is_too_long out = ltbℤ (pos 0) max_output && ltb (pos_part max_output) (length out)

  abbrev pub is_complete : Text → Bool
  is_complete out = not (is_empty out) && prompt out

  abbrev pub too_long : Text → Outcome
  too_long out =
      ended (take (pos_part max_output) out)
        (some (backup command cmd (plain (codes "output exceeded limit"))))

  -- What the read leads to: the end of the loop, or the output with which it goes on.
  unfoldable pub on_read : Text → Read → Outcome
  unfolding clean_output
  on_read out (bytes b) = waiting (out ++ b)
  on_read out nothing = waiting out
  on_read out timed_out =
      if is_empty out then waiting out else ended (clean_output strip prompt cmd out) none
  on_read out (failed e) =
      if is_empty out then ended [] (some e) else ended (clean_output strip prompt cmd out) none

  -- What comes before the read.
  unfoldable pub round : Text → Round → Outcome
  unfolding on_read
  round out r =
      if is_too_long out
      then too_long out
      else if is_complete out
      then ended (clean_output strip prompt cmd out) none
      else elim r.expired [
        | some e ↦ ended (clean_output strip prompt cmd out) (some (backup timeout cmd e))
        | none ↦ on_read out r.read
      ]

  -- `readUntilPrompt`
  unfoldable pub read_until_prompt : Text → List Round → Outcome
  unfolding round
  read_until_prompt out [] = waiting out
  read_until_prompt out (r ∷ rs) = go_on (round out r) (λ more. read_until_prompt more rs)

unfoldable pub read_idle : Duration → Duration
read_idle idle =
    if lebℤ idle (pos 0)
    then pos 500_000_000
    else if ltbℤ (pos 2_000_000_000) idle
    then pos 2_000_000_000
    else idle
