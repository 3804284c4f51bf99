-- ===== src/Api/Oidc.antt =====
-- router.go: readiness and the login by OpenID Connect.
pub mod Login
pub mod Exchange
use go_xidized.Prelude.{
  ℕ, Bool, true, false, ◌&&◌, ◌||◌, not, Text, codes, is_empty, text_eq, List, [], ◌∷◌, ◌++◌,
  Option, none, some, if◌then◌else◌, ◌+◌, ◌*◌, ℤ, pos, lebℤ, pos_part,
}
use go_xidized.Types.{Time, Duration, hour}
use go_xidized.Types.Errors.{Result, ok, err}
use go_xidized.Api.Requests.{
  Principal, Request, Effect, reply, message, redirect, create_session, set_cookie, clear_cookie,
  Server, AuthStore, audit_of, session_cookie_name,
}

pub record Identity : Type 0 where
  pub subject : Text
  pub display_name : Text
  pub email_verified : Bool

pub record Provider : Type 0 where
  pub issuer : Text
  pub auth_code_url : Text → Text → Text
  -- `Exchange(code, nonce)`
  pub exchange : Text → Text → Result Identity

pub record Settings : Type 0 where
  pub provider : Option Provider
  pub oidc_enabled : Bool
  pub session_ttl : Duration
  pub require_email_verified : Bool

abbrev pub state_cookie : Text
state_cookie = codes "goxidized_oidc_state"

abbrev pub nonce_cookie : Text
nonce_cookie = codes "goxidized_oidc_nonce"

unfoldable pub ready : Server → List Effect
ready s =
    if not s.has_metadata || not s.has_storage || not s.has_scheduler
    then reply 503 (message (codes "dependencies not ready")) ∷ []
    else reply 200 (message (codes "ready")) ∷ []

-- `state` and `nonce` are the random texts, `none` where the source of randomness fails.
unfoldable pub oidc_login : Settings → Option Text → Option Text → List Effect
oidc_login g state nonce = elim (if g.oidc_enabled then g.provider else none) [
  | none ↦ reply 404 (message (codes "oidc login is not enabled")) ∷ []
  | some o ↦ elim state [
    | none ↦ reply 500 (message (codes "failed to create oidc state")) ∷ []
    | some st ↦ elim nonce [
      | none ↦ reply 500 (message (codes "failed to create oidc nonce")) ∷ []
      | some n ↦
          set_cookie state_cookie st
          ∷ set_cookie nonce_cookie n
          ∷ reply 302 (redirect (o.auth_code_url st n))
          ∷ []
    ]
  ]
]

unfoldable pub oidc_subject : Provider → Text → Text
oidc_subject o sub = codes "oidc:" ++ (o.issuer ++ (codes "#" ++ sub))

abbrev pub session_hours : Duration → ℕ
session_hours ttl = if lebℤ ttl (pos 0) then 8 * hour else pos_part ttl

module _ (is_zero : Principal → Bool) (token_hash : Text → Text) where
  abbrev pub failed : Server → ℕ → Text → List Effect
  failed s status text =
      audit_of is_zero s none (codes "auth.oidc.login") (codes "failed") []
      ++ (reply status (message text) ∷ [])

  -- The principal of the session, with the name that the provider gives where it has none.
  abbrev pub session_principal : Principal → Identity → Principal
  session_principal p i = record p {
    auth_method = codes "oidc_session";
    display_name = if is_empty p.display_name then i.display_name else p.display_name;
  }

  -- The answer of the store to a new session.
  unfoldable pub session_opened : Server → Principal → Time → Text → Result Text → List Effect
  unfolding audit_of session_cookie_name
  session_opened s user expires tok (err e) = failed s 500 (codes "failed to create oidc session")
  session_opened s user expires tok (ok id) =
      set_cookie (session_cookie_name s) tok
      ∷ (audit_of is_zero s (some (record user { token_id = id; expires_at = expires }))
            (codes "auth.oidc.login") (codes "success") []
          ++ (reply 302 (redirect (codes "/ui/")) ∷ []))

  -- The session, once the user is known; `token` is a random text.
  unfoldable pub open_session :
      Server → Settings → AuthStore → Time → Option Text → Identity → Principal → List Effect
  unfolding session_opened
  open_session s g store now none i p =
      reply 500 (message (codes "failed to create session token")) ∷ []
  open_session s g store now (some tok) i p =
      let user = session_principal p i in
      let expires = now + session_hours g.session_ttl in
      create_session (token_hash tok) user expires
      ∷ session_opened s user expires tok (store.create_oidc_session (token_hash tok) user expires)

  abbrev pub has_roles : Principal → Bool
  has_roles p = elim p.roles [ [] ↦ false | x ∷ xs ↦ true ]

  unfoldable pub for_user :
      Server → Settings → AuthStore → Time → Option Text → Identity → Result Principal → List Effect
  unfolding open_session audit_of
  for_user s g store now token i (err e) = failed s 403 (codes "oidc user is not provisioned")
  for_user s g store now token i (ok p) =
      if has_roles p
      then open_session s g store now token i p
      else failed s 403 (codes "oidc user has no roles")

  unfoldable pub sign_in :
      Server → Settings → Provider → AuthStore → Time → Option Text → Result Identity → List Effect
  unfolding for_user oidc_subject audit_of
  sign_in s g o store now token (err e) = failed s 401 (codes "oidc token verification failed")
  sign_in s g o store now token (ok i) =
      if g.require_email_verified && not i.email_verified
      then failed s 403 (codes "oidc email is not verified")
      else for_user s g store now token i (store.resolve_oidc (oidc_subject o i.subject))

  -- The state and the nonce that the browser sends back; both cookies have to be there.
  unfoldable pub returned_nonce : Request → Option Text → Option Text → Option Text
  returned_nonce r none b = none
  returned_nonce r (some state) none = none
  returned_nonce r (some state) (some nonce) =
      if is_empty (r.query (codes "code"))
        || is_empty (r.query (codes "state"))
        || not (text_eq state (r.query (codes "state")))
      then none
      else some nonce

  unfoldable pub exchanged :
      Server
      → Settings
      → Provider
      → AuthStore
      → Time
      → Option Text
      → Request
      → Option Text
      → List Effect
  unfolding sign_in audit_of
  exchanged s g o store now token r none = failed s 400 (codes "invalid oidc state")
  exchanged s g o store now token r (some nonce) =
      sign_in s g o store now token (o.exchange (r.query (codes "code")) nonce)

  unfoldable pub call_back :
      Server
      → Settings
      → Time
      → Option Text
      → Request
      → Option Provider
      → Option AuthStore
      → List Effect
  unfolding exchanged returned_nonce audit_of
  call_back s g now token r none store =
      reply 404 (message (codes "oidc login is not enabled")) ∷ []
  call_back s g now token r (some o) none =
      reply 404 (message (codes "oidc login is not enabled")) ∷ []
  call_back s g now token r (some o) (some store) =
      clear_cookie state_cookie
      ∷ clear_cookie nonce_cookie
      ∷ (if not (is_empty (r.query (codes "error")))
          then failed s 401 (codes "oidc login failed")
          else exchanged s g o store now token r
              (returned_nonce r (r.cookie state_cookie) (r.cookie nonce_cookie)))

  abbrev pub enabled_provider : Settings → Option Provider
  enabled_provider g = if g.oidc_enabled then g.provider else none

  unfoldable pub oidc_callback : Server → Settings → Time → Option Text → Request → List Effect
  unfolding call_back
  oidc_callback s g now token r = call_back s g now token r (enabled_provider g) s.auth_store
