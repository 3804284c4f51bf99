-- ===== src/Credentials.antt =====
-- internal/credentials/router.go: which provider resolves a reference. A provider is what it answers.
pub mod Dotenv
pub mod EncryptedFile
pub mod Usable
use go_xidized.Prelude.{
  Bool, Text, codes, is_empty, text_eq, List, [], ◌∷◌, Option, none, some, if◌then◌else◌, not,
}
use go_xidized.Prelude.Strings.Parts.{cut}
use go_xidized.Types.Errors.{Result, err, plain}
use go_xidized.Credentials.Dotenv.{Credentials}

abbrev pub Provider : Type 0
Provider = Text → Result Credentials

pub record Router : Type 0 where
  pub default_provider : Option Provider
  pub providers : List (Text × Provider)

-- The text before `://`, if there is one.
unfoldable pub scheme_of : Text → Text
unfolding cut
scheme_of ref = elim (cut (codes "://") ref) [ none ↦ [] | some (before, rest) ↦ before ]

unfoldable pub by_scheme : Text → Text → List (Text × Provider) → Result Credentials
by_scheme name ref [] = err (plain (codes "unknown credential provider scheme"))
by_scheme name ref ((n, p) ∷ ps) =
    let rest = by_scheme name ref ps in if text_eq n name then p ref else rest

abbrev by_default : Text → Option Provider → Result Credentials
by_default ref none = err (plain (codes "no credential provider configured"))
by_default ref (some p) = p ref

unfoldable pub route : Router → Text → Result Credentials
unfolding scheme_of by_scheme
route r ref =
    let name = scheme_of ref in
    if not (is_empty name)
    then by_scheme name ref r.providers
    else by_default ref r.default_provider
