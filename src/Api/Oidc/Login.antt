-- ===== src/Api/Oidc/Login.antt =====
-- router.go: what a login by OpenID Connect has passed when the session cookie is set.
use go_xidized.Prelude.{
  ◌≡◌, refl, Bool, true, false, ◌&&◌, not, Text, codes, is_empty, text_eq_iff, Option, none, some,
  ◌⊎◌, inl, inr, arith, any, ◌+◌, ℕ, Bool-cases,
}
use go_xidized.Types.{Time}
use go_xidized.Types.Errors.{Result, ok, err}
use go_xidized.Api.Requests.{Principal, Request, Effect, set_cookie, Server, AuthStore, audit_of}
use go_xidized.Api.Oidc.{
  Identity, Provider, Settings, state_cookie, nonce_cookie, oidc_subject, session_principal,
  session_hours, session_opened, open_session, for_user, sign_in, returned_nonce, exchanged,
  call_back, oidc_callback, has_roles, failed, enabled_provider,
}

abbrev pub sets_cookie : Effect → Bool
sets_cookie (set_cookie name value) = true
sets_cookie _ = false

module _ (is_zero : Principal → Bool) (token_hash : Text → Text) where
  failed-quiet :
      (s : Server) (n : ℕ) (text : Text)
      → any sets_cookie (failed is_zero token_hash s n text) ≡ false
  unfolding audit_of
  failed-quiet s n text = ground arith

  session_opened-cookie :
      (s : Server) (user : Principal) (expires : Time) (tok : Text) (a : Result Text)
      → any sets_cookie (session_opened is_zero token_hash s user expires tok a) ≡ true
      → (id : Text) × (a ≡ ok id)
  unfolding session_opened
  session_opened-cookie s user expires tok (ok id) h = (id, refl)
  session_opened-cookie s user expires tok (err e) h =
      cc (failed-quiet s 500 (codes "failed to create oidc session"))

  -- A session that was made for a user: its random token, and the store's answer.
  abbrev pub HasSession : Settings → AuthStore → Time → Option Text → Identity → Principal → Type 0
  HasSession g store now token i p =
      (tok : Text) × (id : Text) × (token ≡ some tok)
      × (store.create_oidc_session (token_hash tok) (session_principal is_zero token_hash p i)
            (now + session_hours g.session_ttl)
          ≡ ok id)

  open_session-cookie :
      (s : Server) (g : Settings) (store : AuthStore) (now : Time) (token : Option Text)
      (i : Identity) (p : Principal)
      → any sets_cookie (open_session is_zero token_hash s g store now token i p) ≡ true
      → HasSession g store now token i p
  unfolding open_session
  open_session-cookie s g store now none i p h = cc
  open_session-cookie s g store now (some tok) i p h =
      let (id, e) =
        session_opened-cookie s (session_principal is_zero token_hash p i)
          (now + session_hours g.session_ttl) tok _ h in
      (tok, id, refl, e)

  for_user-cookie :
      (s : Server) (g : Settings) (store : AuthStore) (now : Time) (token : Option Text)
      (i : Identity) (a : Result Principal)
      → any sets_cookie (for_user is_zero token_hash s g store now token i a) ≡ true
      → (p : Principal) × (a ≡ ok p)
        × (has_roles is_zero token_hash p ≡ true)
        × HasSession g store now token i p
  unfolding for_user
  for_user-cookie s g store now token i (err e) h =
      cc (failed-quiet s 403 (codes "oidc user is not provisioned"))
  for_user-cookie s g store now token i (ok p) h =
      elim (Bool-cases (has_roles is_zero token_hash p)) [
        | inl some_role ↦
            (p, refl, some_role, open_session-cookie s g store now token i p (rw some_role at h))
        | inr no_role ↦ cc (failed-quiet s 403 (codes "oidc user has no roles"), rw no_role at h)
      ]

  not_and : (a b : Bool) → a && not b ≡ false → (a ≡ false) ⊎ (b ≡ true)
  not_and a b h = ground arith

  -- A user that the identity stands for, who is let in.
  abbrev pub LetsIn : Settings → Provider → AuthStore → Time → Option Text → Identity → Type 0
  LetsIn g o store now token i =
      ((g.require_email_verified ≡ false) ⊎ (i.email_verified ≡ true))
      × ((p : Principal) × (store.resolve_oidc (oidc_subject o i.subject) ≡ ok p)
          × (has_roles is_zero token_hash p ≡ true)
          × HasSession g store now token i p)

  sign_in-cookie :
      (s : Server) (g : Settings) (o : Provider) (store : AuthStore) (now : Time)
      (token : Option Text) (a : Result Identity)
      → any sets_cookie (sign_in is_zero token_hash s g o store now token a) ≡ true
      → (i : Identity) × (a ≡ ok i) × LetsIn g o store now token i
  unfolding sign_in
  sign_in-cookie s g o store now token (err e) h =
      cc (failed-quiet s 401 (codes "oidc token verification failed"))
  sign_in-cookie s g o store now token (ok i) h =
      elim (Bool-cases (g.require_email_verified && not i.email_verified)) [
        | inl unverified ↦
            cc (failed-quiet s 403 (codes "oidc email is not verified"), rw unverified at h)
        | inr verified ↦
            let known = for_user-cookie s g store now token i _ (rw verified at h) in
            (i, refl, (not_and _ _ verified, known))
      ]

  -- The state in the browser's cookie is the one in the request, and the code is there.
  abbrev pub HasState : Request → Type 0
  HasState r =
      (r.cookie state_cookie ≡ some (r.query (codes "state")))
      × (is_empty (r.query (codes "state")) ≡ false)
      × (is_empty (r.query (codes "code")) ≡ false)

  returned_nonce-HasState :
      (r : Request) (a b : Option Text) {nonce : Text}
      → returned_nonce is_zero token_hash r a b ≡ some nonce
      → (a ≡ some (r.query (codes "state")))
        × (is_empty (r.query (codes "state")) ≡ false)
        × (is_empty (r.query (codes "code")) ≡ false)
        × (b ≡ some nonce)
  unfolding returned_nonce
  returned_nonce-HasState r none b e = cc
  returned_nonce-HasState r (some st) none e = cc
  returned_nonce-HasState r (some st) (some n) e =
      ground (arith, text_eq_iff st (r.query (codes "state")))

  exchanged-cookie :
      (s : Server) (g : Settings) (o : Provider) (store : AuthStore) (now : Time)
      (token : Option Text) (r : Request) (n : Option Text)
      → any sets_cookie (exchanged is_zero token_hash s g o store now token r n) ≡ true
      → (nonce : Text) × (i : Identity) × (n ≡ some nonce)
        × (o.exchange (r.query (codes "code")) nonce ≡ ok i)
        × LetsIn g o store now token i
  unfolding exchanged
  exchanged-cookie s g o store now token r none h =
      cc (failed-quiet s 400 (codes "invalid oidc state"))
  exchanged-cookie s g o store now token r (some nonce) h =
      let (i, e, known) = sign_in-cookie s g o store now token _ h in (nonce, i, refl, e, known)

  call_back-cookie :
      (s : Server) (g : Settings) (now : Time) (token : Option Text) (r : Request)
      (provider : Option Provider) (auth : Option AuthStore)
      → any sets_cookie (call_back is_zero token_hash s g now token r provider auth) ≡ true
      → (o : Provider) × (store : AuthStore) × (nonce : Text) × (i : Identity) × (provider ≡ some o)
        × (auth ≡ some store)
        × HasState r
        × (r.cookie nonce_cookie ≡ some nonce)
        × (o.exchange (r.query (codes "code")) nonce ≡ ok i)
        × LetsIn g o store now token i
  unfolding call_back
  call_back-cookie s g now token r none auth h = cc
  call_back-cookie s g now token r (some o) none h = cc
  call_back-cookie s g now token r (some o) (some store) h =
      elim (Bool-cases (not (is_empty (r.query (codes "error"))))) [
        | inl gone ↦ cc (failed-quiet s 401 (codes "oidc login failed"), rw gone at h)
        | inr proceeds ↦
            let (nonce, i, n, e, known) =
              exchanged-cookie s g o store now token r _ (rw proceeds at h) in
            let (a, b, c, d) = returned_nonce-HasState r _ _ n in
            (o, store, nonce, i, refl, refl, (a, b, c), d, e, known)
      ]

  -- The callback sets a session cookie only where OpenID Connect is enabled with a provider and a
  -- store; the request has a code and the state that the browser's cookie has; the provider has
  -- verified the code with the nonce of the other cookie; the email is verified, or need not be; the
  -- store knows the user and gives it a role; and the store has made the session.
  pub oidc_callback-cookie :
      (s : Server) (g : Settings) (now : Time) (token : Option Text) (r : Request)
      → any sets_cookie (oidc_callback is_zero token_hash s g now token r) ≡ true
      → (o : Provider) × (store : AuthStore) × (nonce : Text) × (i : Identity) × (enabled_provider
            is_zero token_hash g
          ≡ some o)
        × (s.auth_store ≡ some store)
        × HasState r
        × (r.cookie nonce_cookie ≡ some nonce)
        × (o.exchange (r.query (codes "code")) nonce ≡ ok i)
        × LetsIn g o store now token i
  unfolding oidc_callback
  oidc_callback-cookie s g now token r h = call_back-cookie s g now token r _ _ h
