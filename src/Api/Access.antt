-- ===== src/Api/Access.antt =====
-- router.go: who gets past `auth` and `require`.
use go_xidized.Prelude.{
  ℕ, ◌≡◌, refl, ◌∙◌, sym, ap, subst, Bool, true, false, ◌&&◌, ◌||◌, not, Text, codes, is_empty,
  text_eq, text_eq_iff, List, [], ◌∷◌, ◌++◌, Option, none, some, ◌⊎◌, inl, inr, ◌==◌, if◌then◌else◌,
  arith, Bool-cases,
}
use go_xidized.Types.Errors.{ok}
use go_xidized.Api.Requests.{
  Principal, Request, Effect, audit, reply, message, Server, AuthStore, Answers, audit_of,
}
use go_xidized.Api.Auth.{
  Source, bearer, cookie, absent, everyone, bootstrap, with_method, known, identify, auth_token,
  auth, require, has_validator, continue_as, is_bearer,
}
use go_xidized.Api.{Route, permission, handler, guarded, serve}

-- Entries of the audit log, and then a reply with the status 401, 403 or 503.
abbrev pub denied : List Effect → Bool
denied [] = false
denied (audit e ∷ es) = denied es
denied (reply n b ∷ []) = n == 401 || n == 403 || n == 503
denied _ = false

module _ (is_zero : Principal → Bool) where
  -- The principal that the store has for the token, or the one of the bootstrap token.
  abbrev pub IsKnown : Server → Text → Source → Principal → Type 0
  IsKnown s token source p =
      ((store : AuthStore) × (q : Principal) × (s.auth_store ≡ some store)
        × (store.validate_token token ≡ ok q)
        × (is_zero q ≡ false)
        × (p ≡ with_method source q))
      ⊎ ((source ≡ bearer)
          × (is_empty s.bootstrap_token ≡ false)
          × (token ≡ s.bootstrap_token)
          × (p ≡ bootstrap))

  abbrev pub IsIdentity : Server → Request → Principal → Type 0
  IsIdentity s r p =
      ((s.auth_required ≡ false) × (p ≡ everyone))
      ⊎ ((is_empty (auth_token s r).0 ≡ false) × IsKnown s (auth_token s r).0 (auth_token s r).1 p)

  audit_of-denied :
      (s : Server) (p : Option Principal) (action outcome target : Text) (n : ℕ) (text : Text)
      → (n == 401 || n == 403 || n == 503) ≡ true
      → denied (audit_of is_zero s p action outcome target ++ (reply n (message text) ∷ [])) ≡ true
  unfolding audit_of
  audit_of-denied s p action outcome target n text h = ground arith

  known-cases :
      (o : Option AuthStore) (token : Text) {q : Principal}
      → known is_zero o token ≡ some q
      → (store : AuthStore) × (o ≡ some store)
        × (store.validate_token token ≡ ok q)
        × (is_zero q ≡ false)
  known-cases none token e = cc
  known-cases (some a) token e = (a, refl, ground arith, ground arith)

  bootstrap-cases :
      (s : Server) (token : Text) (source : Source) {p : Principal}
      → (if (is_bearer source && not (is_empty s.bootstrap_token))
            && text_eq token s.bootstrap_token
          then some bootstrap
          else none)
        ≡ some p
      → (source ≡ bearer)
        × (is_empty s.bootstrap_token ≡ false)
        × (token ≡ s.bootstrap_token)
        × (p ≡ bootstrap)
  bootstrap-cases s token bearer e = ground (arith, text_eq_iff token s.bootstrap_token)
  bootstrap-cases s token cookie e = cc
  bootstrap-cases s token absent e = cc

  identify-IsKnown :
      (s : Server) (token : Text) (source : Source) (p : Principal)
      → identify is_zero s token source ≡ some p
      → IsKnown s token source p
  unfolding identify
  identify-IsKnown s token source p e = by_store (known is_zero s.auth_store token) refl e
    where
      by_store :
          (o : Option Principal)
          → known is_zero s.auth_store token ≡ o
          → (elim o as (λ _. Option Principal) [
            | some q ↦ some (with_method source q)
            | none ↦
                if (is_bearer source && not (is_empty s.bootstrap_token))
                  && text_eq token s.bootstrap_token
                then some bootstrap
                else none
          ])
            ≡ some p
          → IsKnown s token source p
      by_store (some q) k h =
          let (store, a, b, c) = known-cases s.auth_store token k in inl (store, q, a, b, c, cc)
      by_store none k h = inr (bootstrap-cases s token source h)

  -- The effects of a request that is turned away, or those of the handler for an identity that the
  -- request has.
  abbrev LetsIn : Server → Request → (Principal → Text → List Effect) → List Effect → Type 0
  LetsIn s r next effects =
      (denied effects ≡ true)
      ⊎ ((p : Principal) × (token : Text) × IsIdentity s r p × (effects ≡ next p token))

  continue_as-LetsIn :
      (s : Server) (r : Request) (next : Principal → Text → List Effect) (o : Option Principal)
      → is_empty (auth_token s r).0 ≡ false
      → identify is_zero s (auth_token s r).0 (auth_token s r).1 ≡ o
      → LetsIn s r next (continue_as is_zero s (auth_token s r).0 o next)
  continue_as-LetsIn s r next none given e = inl (
      audit_of-denied s none (codes "auth.failed") (codes "invalid_token") [] 401
        (codes "unauthorized") refl)
  continue_as-LetsIn s r next (some p) given e =
      inr (p, (auth_token s r).0, inr (given, identify-IsKnown s _ _ p e), refl)

  auth-LetsIn :
      (s : Server) (r : Request) (next : Principal → Text → List Effect)
      → LetsIn s r next (auth is_zero s r next)
  unfolding auth
  auth-LetsIn s r next = elim (Bool-cases s.auth_required) [
    | inr off ↦ inr (everyone, [], inl (off, refl), rw off refl)
    | inl on ↦ elim (Bool-cases (has_validator is_zero s)) [
      | inr missing ↦ inl (rw (on, missing) refl)
      | inl there ↦ elim (Bool-cases (is_empty (auth_token s r).0)) [
        | inl blank ↦ inl (
            simp (on, there, blank)
              (audit_of-denied s none (codes "auth.failed") (codes "missing_token") [] 401
                (codes "unauthorized") refl))
        | inr given ↦
            let o = identify is_zero s (auth_token s r).0 (auth_token s r).1 in
            let same : auth is_zero s r next ≡ continue_as is_zero s (auth_token s r).0 o next =
              simp (on, there, given) in
            subst (LetsIn s r next) (sym same) (continue_as-LetsIn s r next o given refl)
      ]
    ]
  ]

-- No request acts without leave: where a route names a permission, a request is turned away with 401,
-- 403 or 503 and nothing but the audit log is written; or it has an identity with that permission, and
-- the route's handler answers for it. The identity is the one that the auth store has for the request's
-- token, or that of the bootstrap token; only where no authentication is required it is that of
-- everyone.
pub serve-IsIdentity :
    (is_zero : Principal → Bool) (has_permission : Principal → Text → Bool) (route : Route)
    (s : Server) (a : Answers) (r : Request) (name : Text)
    → permission route ≡ some name
    → (denied (serve is_zero has_permission route s a r) ≡ true)
      ⊎ ((p : Principal) × IsIdentity is_zero s r p
          × (has_permission p name ≡ true)
          × (serve is_zero has_permission route s a r
              ≡ handler is_zero has_permission route s a r p))
unfolding serve guarded require
serve-IsIdentity is_zero has_permission route s a r name e =
    rw e
      (elim (auth-LetsIn is_zero s r λ p _.
        guarded is_zero has_permission (some name) s r p
          (handler is_zero has_permission route s a r p)) [
            | inl away ↦ inl away
            | inr (p, token, known, same) ↦ elim (Bool-cases (has_permission p name)) [
              | inl may ↦ inr (p, known, may, same ∙ simp may)
              | inr may_not ↦ inl (
                  ap denied same
                  ∙ simp may_not (
                      audit_of-denied is_zero s (some p) (codes "permission.denied")
                        (codes "denied") (r.url_param (codes "id")) 403 (codes "forbidden") refl))
            ]
          ])
