-- ===== src/Credentials/Usable.antt =====
-- dotenv/provider.go: what resolved credentials are good for.
use go_xidized.Prelude.{
  ◌≡◌, refl, Bool, true, false, ◌&&◌, Text, is_empty, List, ◌∷◌, Option, none, Bool-cases, inl, inr,
}
use go_xidized.Types.Secrets.{Secret, is_zero, reveal}
use go_xidized.Types.Errors.{Result, ok, err, GoError}
use go_xidized.Credentials.Dotenv.{
  Credentials, Values, DotenvProvider, System, complete, named, with_values, dotenv_resolve,
  credentials_of, dotenv_load, values_or,
}
use go_xidized.Transport.Ssh.{AuthMethod, auth_methods}

-- A user name, and a password or a key.
abbrev pub IsUsable : Credentials → Type 0
IsUsable c =
    (is_empty c.username ≡ false) × (is_zero c.password && is_zero c.private_key_pem ≡ false)

complete-IsUsable : (c : Credentials) {d : Credentials} → complete c ≡ ok d → IsUsable d
unfolding complete
complete-IsUsable c {d} e = elim (Bool-cases (is_empty c.username)) [
  | inl blank ↦ cc (rw blank at e)
  | inr given ↦ elim (Bool-cases (is_zero c.password && is_zero c.private_key_pem)) [
    | inl neither ↦ cc (rw (given, neither) at e)
    | inr either ↦ let same : c ≡ d = cc (rw (given, either) at e) in rw⁻¹ same (given, either)
  ]
]

named-IsUsable : (v : Values) (name : Text) {d : Credentials} → named v name ≡ ok d → IsUsable d
unfolding named
named-IsUsable v name e = elim (Bool-cases (is_empty name)) [
  | inl blank ↦ cc (rw blank at e)
  | inr given ↦ complete-IsUsable (credentials_of v name) (rw given at e)
]

with_values-IsUsable :
    (p : DotenvProvider) (ref : Text) (r : Result Values) {d : Credentials}
    → (with_values p ref r).0 ≡ ok d
    → IsUsable d
unfolding with_values
with_values-IsUsable p ref (err e) h = cc
with_values-IsUsable p ref (ok v) h = named-IsUsable v _ h

dotenv_resolve-IsUsable :
    (cancelled : GoError) (s : System) (done : Bool) (p : DotenvProvider) (ref : Text)
    (c : Credentials)
    → (dotenv_resolve cancelled s done p ref).0 ≡ ok c
    → IsUsable c
unfolding dotenv_resolve
dotenv_resolve-IsUsable cancelled s true p ref c h = cc
dotenv_resolve-IsUsable cancelled s false p ref c h =
    with_values-IsUsable p ref (values_or p.values (dotenv_load s p)) h

-- The password is a method by itself, and a key that parses is one.
auth_methods-ok :
    (parse_key : Text → Option GoError) (private_key password : Secret)
    → (is_zero private_key ≡ false → parse_key (reveal private_key) ≡ none)
    → is_zero password && is_zero private_key ≡ false
    → (m : AuthMethod) × (ms : List AuthMethod) × (auth_methods parse_key private_key password
        ≡ ok (m ∷ ms))
unfolding auth_methods
auth_methods-ok parse_key private_key password parses h = elim (Bool-cases (is_zero private_key)) [
  | inl no_key ↦ elim (Bool-cases (is_zero password)) [
    | inl no_password ↦ cc (rw (no_key, no_password) at h)
    | inr given ↦ rw (no_key, given) (_, _, refl)
  ]
  | inr key ↦ rw (key, parses key) (_, _, refl)
]

-- Credentials that the dotenv provider resolves have a user name, and an SSH connection has a method of
-- authentication for them, if the key that they have, where they have one, parses: the dialer never fails for want of a method.
pub dotenv_resolve-auth_methods :
    (cancelled : GoError) (s : System) (done : Bool) (p : DotenvProvider) (ref : Text)
    (c : Credentials) (parse_key : Text → Option GoError)
    → (dotenv_resolve cancelled s done p ref).0 ≡ ok c
    → (is_zero c.private_key_pem ≡ false → parse_key (reveal c.private_key_pem) ≡ none)
    → (is_empty c.username ≡ false)
      × ((m : AuthMethod) × (ms : List AuthMethod) × (auth_methods parse_key c.private_key_pem
              c.password
            ≡ ok (m ∷ ms)))
dotenv_resolve-auth_methods cancelled s done p ref c parse_key h parses =
    let (user, secret) = dotenv_resolve-IsUsable cancelled s done p ref c h in
    (user, auth_methods-ok parse_key c.private_key_pem c.password parses secret)
