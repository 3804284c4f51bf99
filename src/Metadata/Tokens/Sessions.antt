-- ===== src/Metadata/Tokens/Sessions.antt =====
-- store.go: a session between its creation and its expiry.
use go_xidized.Prelude.{
  ◌≡◌, refl, sym, ap₂, ◌∙◌, subst, true, false, ◌||◌, Text, codes, text_eq, text_eq_iff, is_empty,
  List, [], ◌∷◌, any, some, Bool-cases, inl, inr, arith, ◌<◌, ◌==◌,
}
use go_xidized.Types.{Time}
use go_xidized.Types.Errors.{ok}
use go_xidized.Api.Requests.{Principal}
use go_xidized.Metadata.{micros, Database, Outcome, statement, select, find_row}
use go_xidized.Metadata.Statements.{statement-ok}
use go_xidized.Metadata.Accounts.{
  TokenRow, UserRow, AuthTables, Libraries, with_roles, principal_by, user_principal, roles_loop,
  roles_of,
}
use go_xidized.Metadata.Tokens.{
  is_valid, touch_token, insert_token, validate_auth_token, create_oidc_session, token_principal,
  session_row, session_principal, insert_session,
}

database :
    {db : Database AuthTables} {t : AuthTables} {os : List Outcome}
    → db.tables ≡ t
    → db.outcomes ≡ os
    → db ≡ record { tables = t; outcomes = os }
database e f = ap₂ (λ t os. record { tables = t; outcomes = os }) e f

module _ (lib : Libraries) where
  insert_token-ok :
      (row : TokenRow) (t : AuthTables) {x : Text}
      → (insert_token lib row t).0 ≡ ok x
      → (insert_token lib row t).1 ≡ record t { tokens = row ∷ t.tokens }
  unfolding insert_token
  insert_token-ok row t h =
      elim (Bool-cases
        (any (λ r. text_eq r.id row.id || text_eq r.token_hash row.token_hash) t.tokens)) [
          | inl taken ↦ cc (rw taken at h)
          | inr fresh ↦ rw fresh refl
        ]

  abbrev with_row : TokenRow → AuthTables → AuthTables
  with_row row t = record t { tokens = row ∷ t.tokens }

  -- A session that is created has its row, which the first role is named in.
  created :
      (id hash : Text) (p : Principal) (expires : Time) (db : Database AuthTables) {x : Text}
      → (create_oidc_session lib id hash p expires db).0 ≡ ok x
      → (role : Text) × ((create_oidc_session lib id hash p expires db).1.tables
          ≡ with_row (session_row lib id hash p expires role) db.tables)
  unfolding create_oidc_session
  created id hash p expires db h = elim (Bool-cases (is_empty hash)) [
    | inl blank ↦ cc (rw blank at h)
    | inr given ↦ elim (Bool-cases (is_empty p.actor_id)) [
      | inl nobody ↦ cc (rw (given, nobody) at h)
      | inr user ↦ rw (given, user) (by_roles p.roles (rw (given, user) at h))
    ]
  ]
    where
      by_roles :
          (roles : List Text) {y : Text}
          → (insert_session lib id hash p expires roles db).0 ≡ ok y
          → (role : Text) × ((insert_session lib id hash p expires roles db).1.tables
              ≡ with_row (session_row lib id hash p expires role) db.tables)
      by_roles [] k = cc
      by_roles (role ∷ roles) k = elim (Bool-cases (expires == 0)) [
        | inl missing ↦ cc (rw missing at k)
        | inr finite ↦
            let row = session_row lib id hash p expires role in
            let (fine, after) = statement-ok (insert_token lib row) db (rw finite at k) in
            (role, rw finite (after ∙ insert_token-ok row db.tables fine))
      ]

  touched_token :
      (token : Text) (now : Time) (row : TokenRow) (t : AuthTables)
      → is_valid (lib.digest token) now row ≡ true
      → (touch_token lib (lib.digest token) now (with_row row t)).0 ≡ ok row
  unfolding touch_token
  touched_token token now row t h = rw h refl

  validate-fresh :
      (token : Text) (now : Time) (row : TokenRow) (u : UserRow) (q : Principal) (t : AuthTables)
      → is_empty token ≡ false
      → is_valid (lib.digest token) now row ≡ true
      → row.token_type ≡ codes "oidc_session"
      → find_row (λ v. text_eq v.id row.actor_id) t.users ≡ some u
      → roles_loop lib (roles_of lib u.id t) [] (user_principal lib u) ≡ ok q
      → (validate_auth_token lib now token (record { tables = with_row row t; outcomes = [] })).0
        ≡ ok (session_principal lib row q)
  unfolding validate_auth_token statement select touch_token token_principal principal_by with_roles
      text_eq
  validate-fresh token now row u q t given valid kind user roles =
      rw (given, valid, kind, user, roles) refl

  session_row-is_valid :
      (id token : Text) (p : Principal) (expires now : Time) (role : Text)
      → now < micros expires
      → is_valid (lib.digest token) now (session_row lib id (lib.digest token) p expires role)
        ≡ true
  session_row-is_valid id token p expires now role live =
      ground (arith, live, text_eq_iff (lib.digest token) (lib.digest token))

  -- A token, not empty, under whose hash a session was just created is accepted until the session
  -- expires, the expiry cut to microseconds, where the database works, the user is in its table and the permissions of the user's roles
  -- can be decoded; the principal is the user's with these roles, the session's id and that expiry.
  pub create_oidc_session-validate :
      (token id : Text) (p : Principal) (expires now : Time) (db : Database AuthTables)
      (u : UserRow) (q : Principal) {x : Text}
      → is_empty token ≡ false
      → (create_oidc_session lib id (lib.digest token) p expires db).0 ≡ ok x
      → (create_oidc_session lib id (lib.digest token) p expires db).1.outcomes ≡ []
      → now < micros expires
      → find_row (λ v. text_eq v.id p.actor_id) db.tables.users ≡ some u
      → roles_loop lib (roles_of lib u.id db.tables) [] (user_principal lib u) ≡ ok q
      → (validate_auth_token lib now token
          (create_oidc_session lib id (lib.digest token) p expires db).1).0
        ≡ ok (record q {
          auth_method = codes "oidc_session";
          token_id = id;
          expires_at = micros expires;
        })
  create_oidc_session-validate token id p expires now db u q given done working live user roles =
      let (role, tables) = created id (lib.digest token) p expires db done in
      let row = session_row lib id (lib.digest token) p expires role in
      subst (λ d. (validate_auth_token lib now token d).0 ≡ ok (session_principal lib row q))
        (sym (database tables working))
        (validate-fresh token now row u q db.tables given
          (session_row-is_valid id token p expires now role live) refl user roles)
