-- ===== src/Credentials/Dotenv.antt =====
-- internal/credentials/dotenv/provider.go: credentials from the environment and from a file. The
-- environment and the file are a parameter.
use go_xidized.Prelude.{
  ℕ, ◌%◌, Bool, true, false, ◌&&◌, ◌||◌, not, Text, codes, is_empty, text_eq, List, [], ◌∷◌, ◌++◌,
  map, Option, none, some, if◌then◌else◌, ◌==◌,
}
use go_xidized.Prelude.Strings.{trim_space, has_prefix}
use go_xidized.Prelude.Strings.Parts.{trim, trim_prefix, cut, to_upper}
use go_xidized.Types.Secrets.{Secret, new_secret, is_zero}
use go_xidized.Types.Errors.{Result, ok, err, GoError, plain, backup, credential_provider}
use go_xidized.Pipeline.Redaction.{set_entry}

pub record Credentials : Type 0 where
  pub username : Text
  pub password : Secret
  pub private_key_pem : Secret
  pub enable_secret : Secret
  pub source : Text
  pub auth_type : Text

abbrev pub Values : Type 0
Values = List (Text × Text)

-- `values[key]`, and whether the key is there.
abbrev pub look_up {ℓ} : {A : Type ℓ} → Text → List (Text × A) → Option A
look_up key [] = none
look_up key ((k, v) ∷ m) = let rest = look_up key m in if text_eq k key then some v else rest

pub record DotenvProvider : Type 0 where
  pub path : Text
  pub require_chmod_600 : Bool
  -- `none` is the nil map
  pub values : Option Values

-- What the system answers: `Environ`, the permission bits of the file or the error of `Stat`, and the
-- lines of the file with the scanner's error or the error of `Open`.
pub record System : Type 0 where
  pub is_windows : Bool
  pub environ : List Text
  pub stat : Result ℕ
  pub scan : Result (List Text × Option GoError)

abbrev set_env : Option (Text × Text) → Values → Values
set_env none values = values
set_env (some (k, v)) values = set_entry k v values

unfoldable pub environment : List Text → Values → Values
unfolding cut
environment [] values = values
environment (e ∷ es) values = environment es (set_env (cut (codes "=") e) values)

abbrev is_quote : ℕ → Bool
is_quote c = c == 34 || c == 39

abbrev set_line : Option (Text × Text) → Values → Values
set_line none values = values
set_line (some (k, v)) values = set_entry (trim_space k) (trim is_quote (trim_space v)) values

unfoldable pub file_values : List Text → Values → Values
unfolding cut trim_space trim has_prefix
file_values [] values = values
file_values (l ∷ ls) values =
    let line = trim_space l in
    let skipped = file_values ls values in
    let taken = file_values ls (set_line (cut (codes "=") line) values) in
    if is_empty line || has_prefix (codes "#") line then skipped else taken

abbrev scanned : Values → Result (List Text × Option GoError) → Result Values
scanned values (err e) = err e
scanned values (ok (ls, none)) = ok (file_values ls values)
scanned values (ok (ls, some e)) = err e

abbrev is_private : Result ℕ → Option GoError
is_private (err e) = some e
is_private (ok perm) =
    if perm % 64 == 0
    then none
    else some (plain (codes "permissions must not allow group/other access"))

unfoldable pub dotenv_load : System → DotenvProvider → Result Values
unfolding environment file_values
dotenv_load s p =
    let values = environment s.environ [] in
    let read = scanned values s.scan in
    if is_empty p.path
    then ok values
    else if p.require_chmod_600 && not s.is_windows
    then elim (is_private s.stat) [ some e ↦ err e | none ↦ read ]
    else read

abbrev underscored : ℕ → ℕ
underscored c = if c == b'-' || c == b'.' then b'_' else c

unfoldable pub normalize_key : Text → Text
unfolding trim_space trim to_upper
normalize_key ref = to_upper (map underscored (trim (λ c. c == b'/') (trim_space ref)))

unfoldable pub key_of : Text → Text
unfolding trim_prefix normalize_key
key_of ref =
    let name = trim_prefix ref (codes "dotenv://") in
    normalize_key (if text_eq name ref then trim_prefix ref (codes "env://") else name)

abbrev value_of : Values → Text → Text
value_of values key = elim (look_up key values) [ none ↦ [] | some v ↦ v ]

unfoldable pub auth_type_of : Secret → Secret → Text
unfolding is_zero
auth_type_of private_key_pem password =
    if not (is_zero private_key_pem)
    then codes "private_key"
    else if not (is_zero password)
    then codes "password"
    else []

abbrev pub credentials_of : Values → Text → Credentials
credentials_of values name =
    let password = new_secret (value_of values (name ++ codes "_PASSWORD")) in
    let private_key_pem = new_secret (value_of values (name ++ codes "_PRIVATE_KEY_PEM")) in
    record {
      username = value_of values (name ++ codes "_USERNAME");
      password = password;
      private_key_pem = private_key_pem;
      enable_secret = new_secret (value_of values (name ++ codes "_ENABLE_SECRET"));
      source = codes "dotenv";
      auth_type = auth_type_of private_key_pem password;
    }

abbrev unresolved : Text → GoError
unresolved text = backup credential_provider (codes "dotenv resolve") (plain text)

unfoldable pub complete : Credentials → Result Credentials
unfolding is_zero
complete c =
    if is_empty c.username
    then err (unresolved (codes "USERNAME is required"))
    else if is_zero c.password && is_zero c.private_key_pem
    then err (unresolved (codes "PASSWORD or PRIVATE_KEY_PEM is required"))
    else ok c

unfoldable pub named : Values → Text → Result Credentials
unfolding complete new_secret auth_type_of
named values name =
    if is_empty name
    then err (unresolved (codes "empty credential ref"))
    else complete (credentials_of values name)

unfoldable pub with_values :
    DotenvProvider → Text → Result Values → Result Credentials × DotenvProvider
unfolding named key_of
with_values p ref (err e) = (err (backup credential_provider (codes "dotenv load") e), p)
with_values p ref (ok values) = (named values (key_of ref), record p { values = some values })

abbrev pub values_or : Option Values → Result Values → Result Values
values_or (some v) loaded = ok v
values_or none loaded = loaded

-- The values are loaded once. `done`: is the context done?
unfoldable pub dotenv_resolve :
    GoError → System → Bool → DotenvProvider → Text → Result Credentials × DotenvProvider
unfolding with_values dotenv_load
dotenv_resolve cancelled s true p ref = (err cancelled, p)
dotenv_resolve cancelled s false p ref = with_values p ref (values_or p.values (dotenv_load s p))
