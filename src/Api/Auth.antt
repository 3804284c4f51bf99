-- ===== src/Api/Auth.antt =====
-- router.go: auth, require, authToken and logout.
use go_xidized.Prelude.{
  Bool, true, false, ◌&&◌, ◌||◌, not, Text, codes, is_empty, text_eq, List, [], ◌∷◌, ◌++◌, Option,
  none, some, if◌then◌else◌,
}
use go_xidized.Prelude.Strings.{has_prefix, trim_space}
use go_xidized.Prelude.Strings.Parts.{trim_prefix}
use go_xidized.Types.Errors.{ok, err}
use go_xidized.Api.Requests.{
  Principal, Request, Effect, reply, message, revoke, clear_cookie, Server, AuthStore, audit_of,
  session_cookie_name,
}

-- Where a token comes from.
pub data Source : Type 0 where
  bearer cookie absent : Source

abbrev source_text : Source → Text
source_text bearer = codes "bearer"
source_text cookie = codes "cookie"
source_text absent = []

abbrev cookie_token : Option Text → Text × Source
cookie_token none = ([], absent)
cookie_token (some v) = (v, cookie)

unfoldable pub auth_token : Server → Request → Text × Source
unfolding has_prefix trim_prefix trim_space session_cookie_name
auth_token s r =
    if has_prefix (codes "Bearer ") r.authorization
    then (trim_space (trim_prefix r.authorization (codes "Bearer ")), bearer)
    else cookie_token (r.cookie (session_cookie_name s))

abbrev pub is_bearer : Source → Bool
is_bearer bearer = true
is_bearer cookie = false
is_bearer absent = false

-- The principal of requests where no authentication is required.
abbrev pub everyone : Principal
everyone = record {
  actor_id = codes "anonymous";
  actor_type = codes "anonymous";
  auth_method = codes "disabled";
  subject = [];
  display_name = [];
  roles = [];
  permissions = codes "*" ∷ [];
  token_id = [];
  expires_at = 0;
}

abbrev pub bootstrap : Principal
bootstrap = record {
  actor_id = codes "bootstrap";
  actor_type = codes "bootstrap";
  auth_method = codes "bootstrap";
  subject = [];
  display_name = [];
  roles = codes "admin" ∷ [];
  permissions = codes "*" ∷ [];
  token_id = [];
  expires_at = 0;
}

abbrev pub with_method : Source → Principal → Principal
with_method source p =
    if is_empty p.auth_method then record p { auth_method = source_text source } else p

module _ (is_zero : Principal → Bool) where
  -- The principal that the store gives for the token.
  abbrev pub known : Option AuthStore → Text → Option Principal
  known none token = none
  known (some a) token = elim (a.validate_token token) [
    | ok p ↦ if is_zero p then none else some p
    | err e ↦ none
  ]

  -- The principal of a token that is not empty.
  unfoldable pub identify : Server → Text → Source → Option Principal
  identify s token source = elim (known s.auth_store token) [
    | some p ↦ some (with_method source p)
    | none ↦
        if is_bearer source && not (is_empty s.bootstrap_token) && text_eq token s.bootstrap_token
        then some bootstrap
        else none
  ]

  abbrev pub refused : Server → Text → List Effect
  refused s outcome =
      audit_of is_zero s none (codes "auth.failed") outcome []
      ++ (reply 401 (message (codes "unauthorized")) ∷ [])

  abbrev pub has_validator : Server → Bool
  has_validator s =
      not (is_empty s.bootstrap_token) || elim s.auth_store [ none ↦ false | some a ↦ true ]

  abbrev pub continue_as :
      Server → Text → Option Principal → (Principal → Text → List Effect) → List Effect
  continue_as s token none next = refused s (codes "invalid_token")
  continue_as s token (some p) next = next p token

  -- The middleware before a handler, which takes the principal and the token.
  unfoldable pub auth : Server → Request → (Principal → Text → List Effect) → List Effect
  unfolding auth_token identify audit_of
  auth s r next =
      let (token, source) = auth_token s r in
      if not s.auth_required
      then next everyone []
      else if not (has_validator s)
      then reply 503 (message (codes "auth is enabled but no token validator is configured")) ∷ []
      else if is_empty token
      then refused s (codes "missing_token")
      else continue_as s token (identify s token source) next

  unfoldable pub require :
      (Principal → Text → Bool) → Text → Server → Request → Principal → List Effect → List Effect
  unfolding audit_of
  require has_permission permission s r p effects =
      if has_permission p permission
      then effects
      else audit_of is_zero s (some p) (codes "permission.denied") (codes "denied")
          (r.url_param (codes "id"))
        ++ (reply 403 (message (codes "forbidden")) ∷ [])

  abbrev pub revoked : Option AuthStore → Text → List Effect × Bool
  revoked none token = ([], true)
  revoked (some a) token =
      if is_empty token
      then ([], true)
      else (revoke token ∷ [], elim (a.revoke_token token) [ none ↦ true | some e ↦ false ])

  unfoldable pub logout : Server → Request → Principal → Text → List Effect
  unfolding audit_of session_cookie_name
  logout s r p token =
      let (calls, done) = revoked s.auth_store token in
      calls
      ++ (clear_cookie (session_cookie_name s)
          ∷ (audit_of is_zero s (some p) (codes "auth.logout")
                (if done then codes "success" else codes "failed") []
              ++ ((if done
                    then reply 200 (message (codes "logged_out"))
                    else reply 500 (message (codes "failed to revoke session")))
                  ∷ [])))
