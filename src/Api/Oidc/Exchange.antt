-- ===== src/Api/Oidc/Exchange.antt =====
-- internal/api/oidc.go: the exchange of a code for an identity. The OAuth library and the verifier of
-- tokens answer from outside.
use go_xidized.Prelude.{
  ◌≡◌, refl, subst, Bool, true, false, ◌&&◌, not, Text, codes, is_empty, text_eq, text_eq_iff, List,
  [], ◌∷◌, Option, none, some, if◌then◌else◌, Bool-cases, inl, inr, arith, ◌⊎◌,
}
use go_xidized.Types.Errors.{Result, ok, err, GoError, plain}
use go_xidized.Api.Oidc.{Identity}

pub record Claims : Type 0 where
  pub subject : Text
  pub email : Text
  pub email_verified : Bool
  pub name : Text
  pub preferred_username : Text
  pub nonce : Text

-- A verified token, with its subject and what its claims decode to.
pub record IdToken : Type 0 where
  pub subject : Text
  pub claims : Result Claims

pub record Library : Type 0 where
  -- the code's token, and its extra field `id_token` if that is a text
  pub exchange_code : Text → Result (Option Text)
  pub verify : Text → Result IdToken

infixr 6 ◌or_text◌
abbrev pub ◌or_text◌ : Text → Text → Text
a or_text b = if is_empty a then b else a

abbrev subject_of : IdToken → Claims → Text
subject_of t c = c.subject or_text t.subject

abbrev identity_of : IdToken → Claims → Identity
identity_of t c = record {
  subject = subject_of t c;
  display_name = c.name or_text (c.preferred_username or_text c.email);
  email_verified = c.email_verified;
}

unfoldable pub identified : Text → IdToken → Result Claims → Result Identity
identified nonce t (err e) = err e
identified nonce t (ok c) =
    if is_empty (subject_of t c)
    then err (plain (codes "oidc id_token subject is empty"))
    else if not (is_empty nonce) && not (text_eq c.nonce nonce)
    then err (plain (codes "oidc nonce mismatch"))
    else ok (identity_of t c)

unfoldable pub verified : Text → Result IdToken → Result Identity
unfolding identified
verified nonce (err e) = err e
verified nonce (ok t) = identified nonce t t.claims

unfoldable pub with_id_token : Library → Text → Result (Option Text) → Result Identity
unfolding verified
with_id_token l nonce (err e) = err e
with_id_token l nonce (ok none) = err (plain (codes "oidc provider did not return an id_token"))
with_id_token l nonce (ok (some raw)) =
    if is_empty raw
    then err (plain (codes "oidc provider did not return an id_token"))
    else verified nonce (l.verify raw)

-- `Exchange`
unfoldable pub exchange_token : Library → Text → Text → Result Identity
unfolding with_id_token
exchange_token l code nonce = with_id_token l nonce (l.exchange_code code)

pub record OidcConfig : Type 0 where
  pub issuer_url : Text
  pub client_id : Text
  pub client_secret : Text
  pub scopes : List Text

abbrev or_standard : List Text → List Text
or_standard [] = codes "openid" ∷ codes "profile" ∷ codes "email" ∷ []
or_standard (s ∷ ss) = s ∷ ss

-- `NewOIDCAuthenticator`: the settings with which the provider is made, and the provider's answer.
unfoldable pub new_authenticator : (Text → Option GoError) → OidcConfig → Result OidcConfig
new_authenticator new_provider s =
    if is_empty s.issuer_url
    then err (plain (codes "oidc issuer URL is required"))
    else if is_empty s.client_id
    then err (plain (codes "oidc client ID is required"))
    else if is_empty s.client_secret
    then err (plain (codes "oidc client secret is required"))
    else elim (new_provider s.issuer_url) [
      | some e ↦ err e
      | none ↦ ok (record s { scopes = or_standard s.scopes })
    ]

-- The name to show: the first that is given of the name, the preferred user name and the address.
abbrev pub IsNamed : Text → Claims → Type 0
IsNamed display c =
    ((is_empty c.name ≡ false) × (display ≡ c.name))
    ⊎ ((is_empty c.name ≡ true)
        × (is_empty c.preferred_username ≡ false)
        × (display ≡ c.preferred_username))
    ⊎ ((is_empty c.name ≡ true) × (is_empty c.preferred_username ≡ true) × (display ≡ c.email))

-- The claim, or the token's own subject where the claim is empty.
abbrev pub IsSubject : Text → IdToken → Claims → Type 0
IsSubject subject t c =
    ((is_empty c.subject ≡ false) × (subject ≡ c.subject))
    ⊎ ((is_empty c.subject ≡ true) × (subject ≡ t.subject))

-- What an identity rests on.
abbrev pub IsVerified : Library → Text → Text → Identity → Type 0
IsVerified l code nonce i =
    (raw : Text) × (t : IdToken) × (c : Claims) × (l.exchange_code code ≡ ok (some raw))
    × (l.verify raw ≡ ok t)
    × (t.claims ≡ ok c)
    × ((is_empty nonce ≡ true) ⊎ (c.nonce ≡ nonce))
    × IsSubject i.subject t c
    × (is_empty i.subject ≡ false)
    × IsNamed i.display_name c
    × (i.email_verified ≡ c.email_verified)

nonce_kept : (a b : Bool) → not a && not b ≡ false → (a ≡ true) ⊎ (b ≡ true)
nonce_kept a b h = ground arith

subject_of-IsSubject : (t : IdToken) (c : Claims) → IsSubject (subject_of t c) t c
subject_of-IsSubject t c = ground arith

identity_of-IsNamed : (t : IdToken) (c : Claims) → IsNamed (identity_of t c).display_name c
identity_of-IsNamed t c = ground arith

identified-ok :
    (nonce : Text) (t : IdToken) (r : Result Claims) {i : Identity}
    → identified nonce t r ≡ ok i
    → (c : Claims) × (r ≡ ok c)
      × ((is_empty nonce ≡ true) ⊎ (c.nonce ≡ nonce))
      × IsSubject i.subject t c
      × (is_empty i.subject ≡ false)
      × IsNamed i.display_name c
      × (i.email_verified ≡ c.email_verified)
unfolding identified
identified-ok nonce t (err e) h = cc
identified-ok nonce t (ok c) {i} h = elim (Bool-cases (is_empty (subject_of t c))) [
  | inl blank ↦ cc (rw blank at h)
  | inr given ↦ elim (Bool-cases (not (is_empty nonce) && not (text_eq c.nonce nonce))) [
    | inl other ↦ cc (rw (given, other) at h)
    | inr kept ↦
        let same : identity_of t c ≡ i = cc (rw (given, kept) at h) in
        (
          c,
          refl,
          of_nonce (nonce_kept _ _ kept),
          subst (λ j. IsSubject j.subject t c) same (subject_of-IsSubject t c),
          cc,
          subst (λ j. IsNamed j.display_name c) same (identity_of-IsNamed t c),
          cc,
        )
  ]
]
  where
    of_nonce :
        (is_empty nonce ≡ true) ⊎ (text_eq c.nonce nonce ≡ true)
        → (is_empty nonce ≡ true) ⊎ (c.nonce ≡ nonce)
    of_nonce (inl blank) = inl blank
    of_nonce (inr same) = inr ((text_eq_iff c.nonce nonce).0 same)

-- The identity of an exchange is that of a token that the code gave and the library verified, whose
-- claims can be decoded: the subject is the claim or, where that is empty, the token's own, and is not
-- empty; the name is the first that is given of the claims name, preferred_username and email; the
-- address is verified exactly where the claims say so; and where a nonce is asked for, the claims have
-- it.
pub exchange_token-IsVerified :
    (l : Library) (code nonce : Text) (i : Identity)
    → exchange_token l code nonce ≡ ok i
    → IsVerified l code nonce i
unfolding exchange_token
exchange_token-IsVerified l code nonce i h = by_token (l.exchange_code code) refl h
  where
    by_verified :
        (raw : Text) (r : Result IdToken)
        → l.exchange_code code ≡ ok (some raw)
        → l.verify raw ≡ r
        → verified nonce r ≡ ok i
        → IsVerified l code nonce i
    by_verified raw (err e) x v k = cc
    by_verified raw (ok t) x v k =
        let (c, claims, kept, subject, given, named, email) = identified-ok nonce t t.claims k in
        (raw, t, c, x, v, claims, kept, subject, given, named, email)

    by_token :
        (r : Result (Option Text))
        → l.exchange_code code ≡ r
        → with_id_token l nonce r ≡ ok i
        → IsVerified l code nonce i
    by_token (err e) x k = cc
    by_token (ok none) x k = cc
    by_token (ok (some raw)) x k = elim (Bool-cases (is_empty raw)) [
      | inl blank ↦ cc (rw blank at k)
      | inr given ↦ by_verified raw (l.verify raw) x refl (rw given at k)
    ]
