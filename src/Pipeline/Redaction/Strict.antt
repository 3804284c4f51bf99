-- ===== src/Pipeline/Redaction/Strict.antt =====
-- pipeline.go: what strict mode lets through, and the lines that Normalize leaves.
use go_xidized.Prelude.{
  ◌≡◌, refl, ap, Bool, true, false, not, ◌&&◌, ◌||◌, Text, codes, is_empty, List, [], ◌∷◌, ◌++◌,
  some, any, All, ◌==◌, ◌⊎◌, inl, inr, if◌then◌else◌, arith, ◌∙◌, subst,
}
use go_xidized.Prelude.Strings.{split, join, trim_space, trim_right, contains}
use go_xidized.Prelude.Strings.Cuts.{
  split-join, split-no_sep, no_sep-trim_right, trim_right-trim_right,
}
use mathlib.Core.List.{append_assoc}
use go_xidized.Types.Errors.{GoError}
use go_xidized.Pipeline.Diff.{unify_newlines}
use go_xidized.Pipeline.Redaction.{
  Processor, Scan, redact, finish_redact, looks_secret_like, normalize, kept_lines, apply_rules,
  apply_each, unify_returns,
}

module _ (hmac : Text → Text → Text) (secret_patterns : List (Text → Bool)) where
  -- A line that carries a mark of redaction, or that no pattern of a secret matches.
  abbrev pub IsHarmless : Text → Type 0
  IsHarmless line =
      (contains (codes "<redacted:") line ≡ true) ⊎ (any (λ p. p line) secret_patterns ≡ false)

  IsHarmless-of_tests :
      (line : Text) (a b : Bool)
      → contains (codes "<redacted:") line ≡ a
      → any (λ p. p line) secret_patterns ≡ b
      → not a && b ≡ false
      → IsHarmless line
  IsHarmless-of_tests line true b h k e = inl h
  IsHarmless-of_tests line false b h k e = inr (k ∙ e)

  either_false : (a b : Bool) → a || b ≡ false → (a ≡ false) × (b ≡ false)
  either_false a b h = ground arith

  result_text :
      (b : Bool) (t out : Text) (e : GoError)
      → ◌≡◌ {A = GoError ⊎ Text} (if b then inl e else inr t) (inr out)
      → (b ≡ false) × (t ≡ out)
  result_text true t out e h = cc
  result_text false t out e h = (refl, cc)

  any-IsHarmless :
      (ls : List Text)
      → any (λ l. not (contains (codes "<redacted:") l) && any (λ p. p l) secret_patterns) ls
        ≡ false
      → All IsHarmless ls
  any-IsHarmless [] h = record {}
  any-IsHarmless (l ∷ ls) h =
      let (h₁, h₂) = either_false _ _ h in
      (IsHarmless-of_tests l _ _ refl refl h₁, any-IsHarmless ls h₂)

  finish_redact-IsHarmless :
      (p : Processor) (s : Scan) (out : Text)
      → p.strict_mode ≡ true
      → finish_redact hmac secret_patterns p s ≡ inr out
      → All IsHarmless (split (λ c. c == 10) out)
  unfolding finish_redact looks_secret_like
  finish_redact-IsHarmless p s out h e =
      let (quiet, same) =
        result_text (p.strict_mode && looks_secret_like hmac secret_patterns s.text) s.text out _
          e in
      subst (λ t. All IsHarmless (split (λ c. c == 10) t)) same (any-IsHarmless _ (rw h at quiet))

  -- In strict mode a text that `Redact` returns has no line that looks like a secret, but where the
  -- line carries a mark of redaction.
  pub redact-IsHarmless :
      (cancelled : GoError) (p : Processor) (done : Bool) (text out : Text)
      → p.strict_mode ≡ true
      → (redact hmac secret_patterns cancelled p done text).0 ≡ inr out
      → All IsHarmless (split (λ c. c == 10) out)
  unfolding redact
  redact-IsHarmless cancelled p true text out h e = cc
  redact-IsHarmless cancelled p false text out h e =
      finish_redact-IsHarmless p
        (apply_rules hmac secret_patterns p.hmac_key p.redaction_rules
          record { text = text; secrets_found = 0; category_set = []; fingerprints = [] })
        out h e

-- A line with something on it, and without blanks or tabs at its end.
abbrev pub IsKept : Text → Type 0
IsKept l = (is_empty (trim_space l) ≡ false) × (trim_right (λ c. c == b' ' || c == 9) l ≡ l)

abbrev HasNoNewline : Text → Type 0
HasNoNewline l = any (λ c. c == 10) l ≡ false

trimmed_line-IsKept :
    (l : Text) (ls : List Text) (b : Bool)
    → is_empty (trim_space (trim_right (λ c. c == b' ' || c == 9) l)) ≡ b
    → HasNoNewline l
    → All (λ t. IsKept t × HasNoNewline t) ls
    → All
        (λ t. IsKept t × HasNoNewline t)
        (if not b then trim_right (λ c. c == b' ' || c == 9) l ∷ ls else ls)
trimmed_line-IsKept l ls true h n a = a
trimmed_line-IsKept l ls false h n a =
    (((h, trim_right-trim_right _ l), no_sep-trim_right _ _ l n), a)

kept_lines-IsKept :
    (ls : List Text) → All HasNoNewline ls → All (λ t. IsKept t × HasNoNewline t) (kept_lines ls)
unfolding kept_lines
kept_lines-IsKept [] h = record {}
kept_lines-IsKept (l ∷ ls) (h, hs) =
    trimmed_line-IsKept l (kept_lines ls) _ refl h (kept_lines-IsKept ls hs)

All-IsKept : (ls : List Text) → All (λ t. IsKept t × HasNoNewline t) ls → All IsKept ls
All-IsKept [] h = record {}
All-IsKept (l ∷ ls) (h, hs) = (h.0, All-IsKept ls hs)

kept-HasNoNewline :
    (ls : List Text) → All (λ t. IsKept t × HasNoNewline t) ls → All HasNoNewline (ls ++ ([] ∷ []))
kept-HasNoNewline [] h = (refl, record {})
kept-HasNoNewline (l ∷ ls) (h, hs) = (h.1, kept-HasNoNewline ls hs)

join_end :
    (l : Text) (ls : List Text)
    → join (codes "\n") (l ∷ ls) ++ codes "\n" ≡ join (codes "\n") (l ∷ (ls ++ ([] ∷ [])))
unfolding join
join_end l [] = refl
join_end l (m ∷ ls) =
    append_assoc l (codes "\n" ++ join (codes "\n") (m ∷ ls)) (codes "\n")
    ∙ ap (λ r. l ++ (codes "\n" ++ r)) (join_end m ls)

split-join_end :
    (ls : List Text)
    → All (λ t. IsKept t × HasNoNewline t) ls
    → (ls ≡ []) ⊎ (split (λ c. c == 10) (join (codes "\n") ls ++ codes "\n") ≡ ls ++ ([] ∷ []))
split-join_end [] h = inl refl
split-join_end (l ∷ ls) h = inr (
    ap (split λ c. c == 10) (join_end l ls)
    ∙ split-join (λ c. c == 10) 10 l (ls ++ ([] ∷ [])) refl (kept-HasNoNewline (l ∷ ls) h))

-- A configuration that `Normalize` returns is a list of lines, each ended by a newline, with no blank
-- line and no blanks or tabs at the end of one; or it is a single newline where nothing is left.
pub normalize-IsKept :
    (p : Processor) (done : Bool) (s out : Text)
    → normalize p done s ≡ some out
    → (ls : List Text) × All IsKept ls
      × (out ≡ join (codes "\n") ls ++ codes "\n")
      × ((ls ≡ []) ⊎ (split (λ c. c == 10) out ≡ ls ++ ([] ∷ [])))
unfolding normalize
normalize-IsKept p true s out e = cc
normalize-IsKept p false s out e =
    let cleaned = apply_each p.normalize_rules (unify_returns (unify_newlines s)) in
    let raw = split (λ c. c == 10) cleaned in
    let all = kept_lines-IsKept raw (split-no_sep (λ c. c == 10) cleaned) in
    let same : out ≡ join (codes "\n") (kept_lines raw) ++ codes "\n" = cc in
    (kept_lines raw, All-IsKept _ all, same, rw same (split-join_end (kept_lines raw) all))
