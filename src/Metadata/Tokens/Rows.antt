-- ===== src/Metadata/Tokens/Rows.antt =====
-- store.go: what the statements on the tokens leave of a revoked token.
use go_xidized.Prelude.{
  ◌≡◌, refl, sym, ◌∙◌, Bool, true, false, ◌&&◌, ◌||◌, Text, text_eq, text_eq_iff, List, [], ◌∷◌,
  map, any, Bool-cases, inl, inr, arith,
}
use go_xidized.Types.{Time}
use go_xidized.Metadata.Statements.{any_mono, any-map, any-false}
use go_xidized.Metadata.Accounts.{TokenRow, AuthTables, Libraries}
use go_xidized.Metadata.Tokens.{
  is_null, has_hash, is_valid, touched, touch_token, revoked_row, revoke_rows, insert_token,
}

abbrev pub is_live : Text → TokenRow → Bool
is_live hash r = has_hash hash r && is_null r.revoked_at

-- Some row has the hash, and each such row is revoked.
abbrev pub IsDead : Text → AuthTables → Type 0
IsDead hash t = (any (has_hash hash) t.tokens ≡ true) × (any (is_live hash) t.tokens ≡ false)

touched-has_hash :
    (hash key : Text) (now : Time) (r : TokenRow)
    → has_hash key (touched hash now r) ≡ has_hash key r
touched-has_hash hash key now r = elim (Bool-cases (is_valid hash now r)) [
  | inl valid ↦ simp valid refl
  | inr other ↦ simp other refl
]

touched-is_live :
    (hash key : Text) (now : Time) (r : TokenRow) → is_live key (touched hash now r) ≡ is_live key r
touched-is_live hash key now r = elim (Bool-cases (is_valid hash now r)) [
  | inl valid ↦ simp valid refl
  | inr other ↦ simp other refl
]

revoked_row-has_hash :
    (hash key : Text) (now : Time) (r : TokenRow)
    → has_hash key (revoked_row hash now r) ≡ has_hash key r
revoked_row-has_hash hash key now r = elim (Bool-cases (is_live hash r)) [
  | inl live ↦ simp live refl
  | inr other ↦ simp other refl
]

revoked_row-is_live :
    (hash key : Text) (now : Time) (r : TokenRow)
    → is_live key (revoked_row hash now r) ≡ true
    → is_live key r ≡ true
revoked_row-is_live hash key now r h = elim (Bool-cases (is_live hash r)) [
  | inl live ↦ ground (arith, simp live at h)
  | inr other ↦ simp other at h
]

revoked_row-not_live :
    (hash : Text) (now : Time) (r : TokenRow) → is_live hash (revoked_row hash now r) ≡ true → ⊥
revoked_row-not_live hash now r h = elim (Bool-cases (is_live hash r)) [
  | inl live ↦ ground (arith, simp live at h)
  | inr other ↦ ground (arith, simp other at h)
]

-- A change of the rows that keeps the hashes and brings no row to life.
changed-IsDead :
    (hash : Text) (f : TokenRow → TokenRow) (t : AuthTables)
    → ((r : TokenRow) → has_hash hash (f r) ≡ has_hash hash r)
    → ((r : TokenRow) → is_live hash (f r) ≡ true → is_live hash r ≡ true)
    → IsDead hash t
    → IsDead hash (record t { tokens = map f t.tokens })
changed-IsDead hash f t same dead (there, h) = (
  any-map (has_hash hash) f t.tokens
      ∙ any_mono (has_hash hash) (λ r. has_hash hash (f r)) t.tokens (λ r e. same r ∙ e) there,
  any-false (is_live hash) (map f t.tokens) (λ e.
      let live =
        any_mono (λ r. is_live hash (f r)) (is_live hash) t.tokens dead
          (sym (any-map (is_live hash) f t.tokens) ∙ e) in
      cc),
)

-- After a revocation no row with the hash is left.
pub revoke_rows-IsDead :
    (hash : Text) (now : Time) (t : AuthTables)
    → any (has_hash hash) t.tokens ≡ true
    → IsDead hash (revoke_rows hash now t).1
unfolding revoke_rows
revoke_rows-IsDead hash now t there = (
  any-map (has_hash hash) (revoked_row hash now) t.tokens
      ∙ any_mono (has_hash hash) (λ r. has_hash hash (revoked_row hash now r)) t.tokens
          (λ r e. revoked_row-has_hash hash hash now r ∙ e) there,
  any-false (is_live hash) (map (revoked_row hash now) t.tokens) (none_left t.tokens),
)
  where
    none_left :
        (rows : List TokenRow) → any (is_live hash) (map (revoked_row hash now) rows) ≡ true → ⊥
    none_left [] e = cc
    none_left (r ∷ rows) e = elim (Bool-cases (is_live hash (revoked_row hash now r))) [
      | inl live ↦ revoked_row-not_live hash now r live
      | inr gone ↦ none_left rows (rw gone at e)
    ]

hash_taken :
    (r row : TokenRow) (key : Text)
    → has_hash key r ≡ true
    → has_hash key row ≡ true
    → text_eq r.id row.id || text_eq r.token_hash row.token_hash ≡ true
hash_taken r row key a b = ground (
  arith,
  text_eq_iff r.token_hash key,
  text_eq_iff row.token_hash key,
  text_eq_iff r.token_hash row.token_hash,
)

pub revoke_rows-kept :
    (key hash : Text) (now : Time) (t : AuthTables)
    → IsDead key t
    → IsDead key (revoke_rows hash now t).1
unfolding revoke_rows
revoke_rows-kept key hash now t h =
    changed-IsDead key (revoked_row hash now) t (revoked_row-has_hash hash key now)
      (revoked_row-is_live hash key now) h

module _ (lib : Libraries) where
  pub touch_token-IsDead :
      (hash key : Text) (now : Time) (t : AuthTables)
      → IsDead key t
      → IsDead key (touch_token lib hash now t).1
  unfolding touch_token
  touch_token-IsDead hash key now t h =
      changed-IsDead key (touched hash now) t (touched-has_hash hash key now)
        (λ r e. sym (touched-is_live hash key now r) ∙ e) h

  -- A hash that is taken cannot be used again.
  pub insert_token-IsDead :
      (key : Text) (row : TokenRow) (t : AuthTables)
      → IsDead key t
      → IsDead key (insert_token lib row t).1
  unfolding insert_token
  insert_token-IsDead key row t (there, h) =
      elim (Bool-cases
        (any (λ r. text_eq r.id row.id || text_eq r.token_hash row.token_hash) t.tokens)) [
          | inl taken ↦ simp taken (there, h)
          | inr fresh ↦ elim (Bool-cases (has_hash key row)) [
            | inl same ↦ cc (
                sym fresh
                ∙ any_mono (has_hash key)
                    (λ r. text_eq r.id row.id || text_eq r.token_hash row.token_hash) t.tokens
                    (λ r e. hash_taken r row key e same) there)
            | inr other ↦ simp (fresh, other) (there, h)
          ]
        ]
