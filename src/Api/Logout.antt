-- ===== src/Api/Logout.antt =====
-- router.go over the token table of internal/metadata/postgres/store.go: a session after its logout.
use go_xidized.Prelude.{
  ℕ, ◌≡◌, ◌≢◌, refl, sym, ap, ◌∙◌, Bool, true, false, ◌||◌, Text, codes, is_empty, List, [], ◌∷◌,
  ◌++◌, any, Option, none, some, some-injective, inl, inr, ◌==◌, arith, Bool-cases,
}
use go_xidized.Types.{Time}
use go_xidized.Types.Errors.{Result, ok, err}
use go_xidized.Api.Requests.{
  Principal, Request, Effect, reply, Server, AuthStore, Answers, audit_of, session_cookie_name,
  has_audit_store, message, clear_cookie,
}
use go_xidized.Api.Auth.{auth_token, bearer, logout, revoked}
use go_xidized.Api.{Route, permission, serve}
use go_xidized.Api.Access.{denied, serve-IsIdentity}
use go_xidized.Metadata.{Database}
use go_xidized.Metadata.Accounts.{AuthTables, Libraries}
use go_xidized.Metadata.Tokens.{has_hash, revoke_auth_token, auth_store, error_of}
use go_xidized.Metadata.Tokens.Revoked.{AuthCall, calls, revoke_auth_token_final}

abbrev pub is_reply : ℕ → Effect → Bool
is_reply n (reply m b) = n == m
is_reply n _ = false

any-append : (p : Effect → Bool) (xs ys : List Effect) → any p (xs ++ ys) ≡ any p xs || any p ys
any-append p [] ys = refl
any-append p (x ∷ xs) ys = ground (arith, any-append p xs ys)

module _ (is_zero : Principal → Bool) where
  revoked_replies :
      (n : ℕ) (o : Option AuthStore) (token : Text)
      → any (is_reply n) (revoked is_zero o token).0 ≡ false
  revoked_replies n none token = refl
  revoked_replies n (some a) token = elim (Bool-cases (is_empty token)) [
    | inl blank ↦ rw blank refl
    | inr given ↦ rw given refl
  ]

  audit_of_replies :
      (n : ℕ) (s : Server) (p : Option Principal) (action outcome target : Text)
      → any (is_reply n) (audit_of is_zero s p action outcome target) ≡ false
  unfolding audit_of
  audit_of_replies n s p action outcome target = elim (Bool-cases (has_audit_store is_zero s)) [
    | inl there ↦ rw there refl
    | inr missing ↦ rw missing refl
  ]

  -- A logout that is answered with 200 has revoked the token.
  logout-revoked :
      (s : Server) (r : Request) (p : Principal) (token : Text)
      → any (is_reply 200) (logout is_zero s r p token) ≡ true
      → (revoked is_zero s.auth_store token).1 ≡ true
  unfolding logout
  logout-revoked s r p token h = elim (Bool-cases (revoked is_zero s.auth_store token).1) [
    | inl done ↦ done
    | inr failed ↦
        let audited = audit_of is_zero s (some p) (codes "auth.logout") (codes "failed") [] in
        let answer = reply 500 (message (codes "failed to revoke session")) in
        let calls = (revoked is_zero s.auth_store token).0 in
        ground (
          arith,
          rw failed at h,
          any-append (is_reply 200) calls
              (clear_cookie (session_cookie_name s) ∷ (audited ++ (answer ∷ []))),
          any-append (is_reply 200) audited (answer ∷ []),
          revoked_replies 200 s.auth_store token,
          audit_of_replies 200 s (some p) (codes "auth.logout") (codes "failed") [],
        )
  ]

  revoked-ok :
      (lib : Libraries) (s : Server) (now : Time) (id token : Text) (db : Database AuthTables)
      → is_empty token ≡ false
      → s.auth_store ≡ some (auth_store lib now id db)
      → (revoked is_zero s.auth_store token).1 ≡ true
      → (done : Text) × ((revoke_auth_token lib now token db).0 ≡ ok done)
  revoked-ok lib s now id token db given e h =
      by_result (revoke_auth_token lib now token db).0 refl (rw (e, given) at h)
    where
      by_result :
          (o : Result Text)
          → (revoke_auth_token lib now token db).0 ≡ o
          → elim (error_of lib o) as (λ _. Bool) [ none ↦ true | some _ ↦ false ] ≡ true
          → (done : Text) × ((revoke_auth_token lib now token db).0 ≡ ok done)
      by_result (ok done) same k = (done, same)
      by_result (err x) same k = cc

-- After the API has answered a logout with 200, where its store of tokens is the metadata store and the
-- token is in the store's table, a request with that token is turned away by every route that names a
-- permission, at any later time and whatever the store has been asked since, where authentication is
-- required; unless the token is sent as a bearer token and is the bootstrap token.
pub logout_ends_session :
    (is_zero : Principal → Bool) (has_permission : Principal → Text → Bool) (lib : Libraries)
    (s : Server) (r : Request) (p : Principal) (token id : Text) (now : Time)
    (db : Database AuthTables)
    → s.auth_store ≡ some (auth_store lib now id db)
    → is_empty token ≡ false
    → any (has_hash (lib.digest token)) db.tables.tokens ≡ true
    → any (is_reply 200) (logout is_zero s r p token) ≡ true
    → (cs : List AuthCall) (later : Time) (other : Text) (s' : Server) (a : Answers) (r' : Request)
      (route : Route) (name : Text)
    → s'.auth_store
      ≡ some (auth_store lib later other (calls lib cs (revoke_auth_token lib now token db).1))
    → s'.auth_required ≡ true
    → permission route ≡ some name
    → (auth_token s' r').0 ≡ token
    → ((auth_token s' r').1 ≡ bearer → token ≢ s'.bootstrap_token)
    → denied (serve is_zero has_permission route s' a r') ≡ true
logout_ends_session is_zero has_permission lib s r p token id now db store given there answered cs
      later other s' a r' route name store' required named same unlike =
    let done = logout-revoked is_zero s r p token answered in
    let (result, revocation) = revoked-ok is_zero lib s now id token db given store done in
    let final = revoke_auth_token_final lib token now db given there revocation cs later in
    elim (serve-IsIdentity is_zero has_permission route s' a r' name named) [
      | inl away ↦ away
      | inr (q, inl (open_to_all, _), _, _) ↦ cc
      | inr (q, inr (_, inl (known_store, x, is_store, valid, _, _)), _, _) ↦ absurd (
          final x (
            ap (λ st. st.validate_token token) (sym (some-injective (sym is_store ∙ store')))
            ∙ ap known_store.validate_token (sym same)
            ∙ valid))
      | inr (q, inr (_, inr (sent, _, is_bootstrap, _)), _, _) ↦
          absurd (unlike sent (sym same ∙ is_bootstrap))
    ]
