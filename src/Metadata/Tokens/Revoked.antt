-- ===== src/Metadata/Tokens/Revoked.antt =====
-- store.go: a token that was revoked stays so.
use go_xidized.Prelude.{
  sym, ap, ◌∙◌, ◌≡◌, ◌≢◌, Bool, true, false, Text, codes, text_eq, is_empty, List, [], ◌∷◌, any,
  none, Bool-cases, inl, inr, arith, Option-cases, ◌==◌,
}
use go_xidized.Types.{Time}
use go_xidized.Types.Errors.{ok}
use go_xidized.Api.Requests.{Principal}
use go_xidized.Metadata.{Database, statement, find_row}
use go_xidized.Metadata.Statements.{
  statement_ind, statement-ok, and_then_ind, select-then_ind, and_then-ok, any_mono, find_row-some,
}
use go_xidized.Metadata.Accounts.{
  TokenRow, UserRow, AuthTables, Libraries, or_error, with_roles, principal_by,
  permissions_for_role, user_principal, roles_loop, roles_of, decoded_sorted,
}
use go_xidized.Metadata.Tokens.{
  has_hash, is_valid, touch_token, revoke_rows, insert_token, validate_auth_token,
  resolve_oidc_principal, create_oidc_session, revoke_auth_token, token_principal,
  session_principal, api_principal, with_oidc, session_row, insert_session,
}
use go_xidized.Metadata.Tokens.Rows.{
  is_live, IsDead, touch_token-IsDead, insert_token-IsDead, revoke_rows-IsDead, revoke_rows-kept,
}

-- What a request makes the store do with its tokens.
pub data AuthCall : Type 0 where
  validate revoke : Time → Text → AuthCall
  resolve : Text → AuthCall
  create : Text → Text → Principal → Time → AuthCall

module _ (lib : Libraries) where
  abbrev pub call : AuthCall → Database AuthTables → Database AuthTables
  call (validate now token) db = (validate_auth_token lib now token db).1
  call (revoke now token) db = (revoke_auth_token lib now token db).1
  call (resolve subject) db = (resolve_oidc_principal lib subject db).1
  call (create id hash p expires) db = (create_oidc_session lib id hash p expires db).1

  abbrev pub calls : List AuthCall → Database AuthTables → Database AuthTables
  calls [] db = db
  calls (c ∷ cs) db = calls cs (call c db)

  with_roles-IsDead :
      (key : Text) (p : Principal) (db : Database AuthTables)
      → IsDead key db.tables
      → IsDead key (with_roles lib p db).1.tables
  unfolding with_roles
  with_roles-IsDead key p db h =
      select-then_ind (IsDead key) (λ t. ok (roles_of lib p.actor_id t)) db
        (λ rows d. (roles_loop lib rows [] p, d)) h (λ a s k. k)

  principal_by-IsDead :
      (key : Text) (test : UserRow → Bool) (db : Database AuthTables)
      → IsDead key db.tables
      → IsDead key (principal_by lib test db).1.tables
  unfolding principal_by
  principal_by-IsDead key test db h =
      select-then_ind (IsDead key) (λ t. or_error lib.no_rows (find_row test t.users)) db
        (λ u d. with_roles lib (user_principal lib u) d) h
        (λ u d k. with_roles-IsDead key (user_principal lib u) d k)

  permissions_for_role-IsDead :
      (key id : Text) (db : Database AuthTables)
      → IsDead key db.tables
      → IsDead key (permissions_for_role lib id db).1.tables
  unfolding permissions_for_role
  permissions_for_role-IsDead key id db h =
      select-then_ind (IsDead key)
        (λ t. or_error lib.no_rows (find_row (λ r. text_eq r.id id) t.roles)) db
        (λ r d. (decoded_sorted lib (lib.decode r.permissions), d)) h (λ a s k. k)

  token_principal-IsDead :
      (key : Text) (r : TokenRow) (db : Database AuthTables)
      → IsDead key db.tables
      → IsDead key (token_principal lib r db).1.tables
  unfolding token_principal
  token_principal-IsDead key r db h =
      elim (Bool-cases (text_eq r.token_type (codes "oidc_session"))) [
        | inl session ↦ simp session (
            and_then_ind (λ d. IsDead key d.tables)
              (principal_by lib (λ u. text_eq u.id r.actor_id) db)
              (λ p d. (ok (session_principal lib r p), d)) (principal_by-IsDead key _ db h)
              (λ a s k. k))
        | inr other ↦ simp other (
            and_then_ind (λ d. IsDead key d.tables) (permissions_for_role lib r.role_id db)
              (λ ps d. (ok (api_principal lib r ps), d))
              (permissions_for_role-IsDead key r.role_id db h) (λ a s k. k))
      ]

  insert_session-IsDead :
      (key id hash : Text) (p : Principal) (expires : Time) (roles : List Text)
      (db : Database AuthTables)
      → IsDead key db.tables
      → IsDead key (insert_session lib id hash p expires roles db).1.tables
  insert_session-IsDead key id hash p expires [] db h = h
  insert_session-IsDead key id hash p expires (role ∷ roles) db h =
      elim (Bool-cases (expires == 0)) [
        | inl missing ↦ rw missing h
        | inr given ↦ rw given (
            statement_ind (insert_token lib (session_row lib id hash p expires role)) db
              (IsDead key) h
              (insert_token-IsDead lib key (session_row lib id hash p expires role) db.tables h))
      ]

  call-IsDead :
      (key : Text) (c : AuthCall) (db : Database AuthTables)
      → IsDead key db.tables
      → IsDead key (call c db).tables
  unfolding validate_auth_token revoke_auth_token resolve_oidc_principal create_oidc_session
  call-IsDead key (validate now token) db h = elim (Bool-cases (is_empty token)) [
    | inl blank ↦ rw (call, blank) h
    | inr given ↦
        rw (call, given)
          (and_then_ind (λ d. IsDead key d.tables)
            (statement (touch_token lib (lib.digest token) now) db) (token_principal lib)
            (statement_ind (touch_token lib (lib.digest token) now) db (IsDead key) h
              (touch_token-IsDead lib (lib.digest token) key now db.tables h))
            (λ r d k. token_principal-IsDead key r d k))
  ]
  call-IsDead key (revoke now token) db h = elim (Bool-cases (is_empty token)) [
    | inl blank ↦ rw (call, blank) h
    | inr given ↦
        rw (call, given)
          (statement_ind (revoke_rows (lib.digest token) now) db (IsDead key) h
            (revoke_rows-kept key (lib.digest token) now db.tables h))
  ]
  call-IsDead key (resolve subject) db h = elim (Bool-cases (is_empty subject)) [
    | inl blank ↦ rw (call, blank) h
    | inr given ↦
        rw (call, given)
          (and_then_ind (λ d. IsDead key d.tables)
            (principal_by lib (λ u. text_eq u.subject subject) db)
            (λ p d. (with_oidc lib p.roles p, d)) (principal_by-IsDead key _ db h) (λ a s k. k))
  ]
  call-IsDead key (create id hash p expires) db h = elim (Bool-cases (is_empty hash)) [
    | inl blank ↦ rw (call, blank) h
    | inr given ↦ elim (Bool-cases (is_empty p.actor_id)) [
      | inl nobody ↦ rw (call, given, nobody) h
      | inr user ↦ rw (call, given, user) (insert_session-IsDead key id hash p expires p.roles db h)
    ]
  ]

  calls-IsDead :
      (key : Text) (cs : List AuthCall) (db : Database AuthTables)
      → IsDead key db.tables
      → IsDead key (calls cs db).tables
  calls-IsDead key [] db h = h
  calls-IsDead key (c ∷ cs) db h = calls-IsDead key cs (call c db) (call-IsDead key c db h)

  -- No row of such a hash is valid.
  find_row-dead :
      (hash : Text) (now : Time) (t : AuthTables)
      → IsDead hash t
      → find_row (is_valid hash now) t.tokens ≡ none
  find_row-dead hash now t (there, h) =
      elim (Option-cases (find_row (is_valid hash now) t.tokens)) [
        | inl missing ↦ missing
        | inr (r, found) ↦
            let (valid, some_row) = find_row-some (is_valid hash now) t.tokens found in
            let live =
              any_mono (is_valid hash now) (is_live hash) t.tokens (λ x e. ground arith) some_row in
            cc
      ]

  validate_auth_token-dead :
      (token : Text) (now : Time) (db : Database AuthTables) (p : Principal)
      → IsDead (lib.digest token) db.tables
      → (validate_auth_token lib now token db).0 ≢ ok p
  unfolding validate_auth_token touch_token
  validate_auth_token-dead token now db p h e = elim (Bool-cases (is_empty token)) [
    | inl blank ↦ cc (rw blank at e)
    | inr given ↦
        let (r, found, rest) =
          and_then-ok (statement (touch_token lib (lib.digest token) now) db) (token_principal lib)
            (rw given at e) in
        let (fine, after) = statement-ok (touch_token lib (lib.digest token) now) db found in
        let gone = find_row-dead (lib.digest token) now db.tables h in
        cc (sym fine ∙ ap (or_error lib.no_rows) gone)
  ]

  -- Where a token's revocation succeeds it is dead.
  revoke_auth_token-IsDead :
      (token : Text) (now : Time) (db : Database AuthTables) {done : Text}
      → is_empty token ≡ false
      → any (has_hash (lib.digest token)) db.tables.tokens ≡ true
      → (revoke_auth_token lib now token db).0 ≡ ok done
      → IsDead (lib.digest token) (revoke_auth_token lib now token db).1.tables
  unfolding revoke_auth_token
  revoke_auth_token-IsDead token now db given there e =
      let (fine, after) = statement-ok (revoke_rows (lib.digest token) now) db (rw given at e) in
      rw (given, after) (revoke_rows-IsDead (lib.digest token) now db.tables there)

  -- A stored token whose revocation the store reports as done is not accepted again at any time,
  -- whatever the store is asked to do in between and however its statements end.
  pub revoke_auth_token_final :
      (token : Text) (at_time : Time) (db : Database AuthTables) {done : Text}
      → is_empty token ≡ false
      → any (has_hash (lib.digest token)) db.tables.tokens ≡ true
      → (revoke_auth_token lib at_time token db).0 ≡ ok done
      → (cs : List AuthCall) (now : Time) (p : Principal)
      → (validate_auth_token lib now token (calls cs (revoke_auth_token lib at_time token db).1)).0
        ≢ ok p
  revoke_auth_token_final token at_time db given there e cs now p =
      validate_auth_token-dead token now _ p (
        calls-IsDead (lib.digest token) cs (revoke_auth_token lib at_time token db).1
          (revoke_auth_token-IsDead token at_time db given there e))
