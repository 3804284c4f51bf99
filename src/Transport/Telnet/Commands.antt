-- ===== src/Transport/Telnet/Commands.antt =====
-- telnet.go: what `read` makes of a stream of text and commands.
use go_xidized.Prelude.{ℕ, ◌≢◌, Text, List, [], ◌∷◌, ◌<◌, ◌⊎◌}

-- What a device sends: a byte of text; WILL, WONT, DO and DONT with an option; or another command of
-- three bytes.
pub data Item : Type 0 where
  byte will wont demand dont : ℕ → Item
  command : ℕ → ℕ → Item

-- On the wire a byte of text is not 255, which begins a command, and the codes from 251 to 254 are those
-- of the four commands.
abbrev pub IsPlain : Item → Type 0
IsPlain (byte b) = b ≢ 255
IsPlain (command c o) = (c < 251) ⊎ (254 < c)
IsPlain _ = Unit

pub encode : List Item → Text
encode [] = []
encode (byte b ∷ is) = b ∷ encode is
encode (will o ∷ is) = 255 ∷ 251 ∷ o ∷ encode is
encode (wont o ∷ is) = 255 ∷ 252 ∷ o ∷ encode is
encode (demand o ∷ is) = 255 ∷ 253 ∷ o ∷ encode is
encode (dont o ∷ is) = 255 ∷ 254 ∷ o ∷ encode is
encode (command c o ∷ is) = 255 ∷ c ∷ o ∷ encode is

pub text_of : List Item → Text
text_of [] = []
text_of (byte b ∷ is) = b ∷ text_of is
text_of (_ ∷ is) = text_of is

-- DONT for each WILL and WONT, WONT for each DO and DONT, with its option, and nothing else.
pub refusals_of : List Item → List Text
refusals_of [] = []
refusals_of (will o ∷ is) = (255 ∷ 254 ∷ o ∷ []) ∷ refusals_of is
refusals_of (wont o ∷ is) = (255 ∷ 254 ∷ o ∷ []) ∷ refusals_of is
refusals_of (demand o ∷ is) = (255 ∷ 252 ∷ o ∷ []) ∷ refusals_of is
refusals_of (dont o ∷ is) = (255 ∷ 252 ∷ o ∷ []) ∷ refusals_of is
refusals_of (_ ∷ is) = refusals_of is
