-- ===== src/Metadata/Tokens.antt =====
-- internal/metadata/postgres/store.go: tokens, sessions, users and roles. The clock of these statements
-- is the database's.
pub mod Revoked
pub mod Rows
pub mod Sessions
use go_xidized.Prelude.{
  Bool, true, false, ◌&&◌, ◌||◌, not, Text, codes, is_empty, text_eq, List, [], ◌∷◌, ◌++◌, map, any,
  keep_if, Option, none, some, ltb, ◌==◌, if◌then◌else◌,
}
use go_xidized.Types.{Time}
use go_xidized.Types.Errors.{GoError, plain, Result, ok, err}
use go_xidized.Pipeline.Redaction.{sort, set_add}
use go_xidized.Api.Requests.{Principal, AuthStore}
use go_xidized.Metadata.Accounts.{
  TokenRow, UserRow, RoleRow, AuthTables, Libraries, or_error, user_principal, roles_of, add_each,
  roles_loop, with_roles, principal_by, decoded_sorted, permissions_for_role,
}
use go_xidized.Metadata.{micros, Database, statement, select, and_then, find_row}

abbrev pub is_null : {A : Type 0} → Option A → Bool
is_null none = true
is_null (some a) = false

abbrev pub has_hash : Text → TokenRow → Bool
has_hash hash r = text_eq r.token_hash hash

abbrev pub unexpired : Time → Option Time → Bool
unexpired now none = true
unexpired now (some t) = ltb now t

abbrev pub is_valid : Text → Time → TokenRow → Bool
is_valid hash now r = has_hash hash r && (is_null r.revoked_at && unexpired now r.expires_at)

abbrev pub or_zero : Option Time → Time
or_zero none = 0
or_zero (some t) = t

abbrev pub touched : Text → Time → TokenRow → TokenRow
touched hash now r = if is_valid hash now r then record r { last_used_at = some now } else r

abbrev pub revoked_row : Text → Time → TokenRow → TokenRow
revoked_row hash now r =
    if has_hash hash r && is_null r.revoked_at then record r { revoked_at = some now } else r

-- `UPDATE api_tokens SET revoked_at = now() WHERE …`
unfoldable pub revoke_rows : Text → Time → AuthTables → Result Text × AuthTables
revoke_rows hash now t = (ok [], record t { tokens = map (revoked_row hash now) t.tokens })

module _ (lib : Libraries) where
  -- `UPDATE api_tokens SET last_used_at = now() WHERE … RETURNING …`
  unfoldable pub touch_token : Text → Time → AuthTables → Result TokenRow × AuthTables
  touch_token hash now t = (
    or_error lib.no_rows (find_row (is_valid hash now) t.tokens),
    record t { tokens = map (touched hash now) t.tokens },
  )

  -- `INSERT INTO api_tokens …`
  unfoldable pub insert_token : TokenRow → AuthTables → Result Text × AuthTables
  insert_token row t =
      if any (λ r. text_eq r.id row.id || text_eq r.token_hash row.token_hash) t.tokens
      then (err lib.unique_violation, t)
      else (ok row.id, record t { tokens = row ∷ t.tokens })

  abbrev pub session_principal : TokenRow → Principal → Principal
  session_principal r p = record p {
    auth_method = codes "oidc_session";
    token_id = r.id;
    expires_at = or_zero r.expires_at;
  }

  abbrev pub api_principal : TokenRow → List Text → Principal
  api_principal r ps = record {
    actor_id = r.actor_id;
    actor_type = codes "api_token";
    auth_method = codes "api_token";
    subject = [];
    display_name = [];
    roles = r.role_id ∷ [];
    permissions = ps;
    token_id = r.id;
    expires_at = or_zero r.expires_at;
  }

  -- What the kind of a valid token makes of it.
  unfoldable pub token_principal :
      TokenRow → Database AuthTables → Result Principal × Database AuthTables
  unfolding principal_by permissions_for_role
  token_principal r db =
      if text_eq r.token_type (codes "oidc_session")
      then (and_then (principal_by lib (λ u. text_eq u.id r.actor_id) db)
          λ p db'. (ok (session_principal r p), db'))
      else (and_then (permissions_for_role lib r.role_id db)
          λ ps db'. (ok (api_principal r ps), db'))

  unfoldable pub validate_auth_token :
      Time → Text → Database AuthTables → Result Principal × Database AuthTables
  unfolding token_principal touch_token statement
  validate_auth_token now token db =
      if is_empty token
      then (err lib.no_rows, db)
      else and_then (statement (touch_token (lib.digest token) now) db) token_principal

  abbrev pub actor_of : Result Principal → Result Text
  actor_of (ok p) = ok p.actor_id
  actor_of (err e) = err e

  unfoldable pub validate_api_token :
      Time → Text → Database AuthTables → Result Text × Database AuthTables
  unfolding validate_auth_token
  validate_api_token now token db =
      let (r, db') = validate_auth_token now token db in (actor_of r, db')

  abbrev pub with_oidc : List Text → Principal → Result Principal
  with_oidc [] p = err (plain (codes "oidc user has no roles"))
  with_oidc (r ∷ rs) p = ok (record p { auth_method = codes "oidc" })

  unfoldable pub resolve_oidc_principal :
      Text → Database AuthTables → Result Principal × Database AuthTables
  unfolding principal_by
  resolve_oidc_principal subject db =
      if is_empty subject
      then (err lib.no_rows, db)
      else and_then (principal_by lib (λ u. text_eq u.subject subject) db)
          λ p db'. (with_oidc p.roles p, db')

  abbrev pub session_row : Text → Text → Principal → Time → Text → TokenRow
  session_row id hash p expires role = record {
    id = id;
    token_hash = hash;
    actor_id = p.actor_id;
    role_id = role;
    token_type = codes "oidc_session";
    expires_at = some (micros expires);
    revoked_at = none;
    last_used_at = none;
  }

  -- The last guards, by the principal's roles.
  abbrev pub insert_session :
      Text
      → Text
      → Principal
      → Time
      → List Text
      → Database AuthTables
      → Result Text × Database AuthTables
  insert_session id hash p expires [] db =
      (err (plain (codes "session principal must have at least one role")), db)
  insert_session id hash p expires (role ∷ roles) db =
      if expires == 0
      then (err (plain (codes "session expiry is required")), db)
      else statement (insert_token (session_row id hash p expires role)) db

  -- `id` is what `newID` gives, where no guard fails.
  unfoldable pub create_oidc_session :
      Text → Text → Principal → Time → Database AuthTables → Result Text × Database AuthTables
  unfolding insert_token statement
  create_oidc_session id hash p expires db =
      if is_empty hash
      then (err (plain (codes "session token hash is required")), db)
      else if is_empty p.actor_id
      then (err (plain (codes "session principal actor id is required")), db)
      else insert_session id hash p expires p.roles db

  unfoldable pub revoke_auth_token :
      Time → Text → Database AuthTables → Result Text × Database AuthTables
  unfolding revoke_rows statement
  revoke_auth_token now token db =
      if is_empty token then (ok [], db) else statement (revoke_rows (lib.digest token) now) db

  abbrev pub error_of : {A : Type 0} → Result A → Option GoError
  error_of (ok a) = none
  error_of (err e) = some e

  -- What the HTTP API takes for its store of tokens at a time; `id` is what `newID` gives.
  abbrev pub auth_store : Time → Text → Database AuthTables → AuthStore
  auth_store now id db = record {
    validate_token = λ token. (validate_auth_token now token db).0;
    resolve_oidc = λ subject. (resolve_oidc_principal subject db).0;
    create_oidc_session = λ hash p expires. (create_oidc_session id hash p expires db).0;
    revoke_token = λ token. error_of (revoke_auth_token now token db).0;
  }
