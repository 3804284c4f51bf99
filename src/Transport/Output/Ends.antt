-- ===== src/Transport/Output/Ends.antt =====
-- readUntilPrompt: that it ends, and what it has read where it ends well.
use go_xidized.Prelude.{
  ◌≡◌, refl, sym, ap, ◌∙◌, ◌++◌, subst, Bool, true, false, ◌&&◌, not, Text, is_empty, List, [], ◌∷◌,
  Option, none, some, any, ℤ, arith, Bool-cases, inl, inr,
}
use mathlib.Core.List.{append_assoc, append-nil}
use go_xidized.Types.Errors.{GoError, backup, timeout}
use go_xidized.Transport.Output.{
  Read, bytes, nothing, timed_out, failed, Round, Outcome, ended, waiting, is_too_long, is_complete,
  go_on, on_read, round, read_until_prompt, clean_output,
}

abbrev pub has_expired : Round → Bool
has_expired r = elim r.expired [ none ↦ false | some e ↦ true ]

abbrev bytes_of : Read → Text
bytes_of (bytes b) = b
bytes_of _ = []

-- What the reads of the rounds give, in order.
abbrev pub read_bytes : List Round → Text
read_bytes [] = []
read_bytes (r ∷ rs) = bytes_of r.read ++ read_bytes rs

module _ (strip : Text → Text) (prompt : Text → Bool) (max_output : ℤ) (cmd : Text) where
  abbrev pub IsEnd : Outcome → Type 0
  IsEnd o = (text : Text) × (e : Option GoError) × (o ≡ ended text e)

  round-IsEnd :
      (out : Text) (r : Round)
      → has_expired r ≡ true
      → IsEnd (round strip prompt max_output cmd out r)
  unfolding round
  round-IsEnd out r h = elim (Bool-cases (is_too_long strip prompt max_output cmd out)) [
    | inl long ↦ rw long (_, _, refl)
    | inr short ↦ elim (Bool-cases (is_complete strip prompt max_output cmd out)) [
      | inl done ↦ rw (short, done) (_, _, refl)
      | inr more ↦ rw (short, more) (by_context r.expired h)
    ]
  ]
    where
      by_context :
          (x : Option GoError)
          → (elim x as (λ _. Bool) [ none ↦ false | some e ↦ true ]) ≡ true
          → IsEnd (elim x [
            | some e ↦ ended (clean_output strip prompt cmd out) (some (backup timeout cmd e))
            | none ↦ on_read strip prompt max_output cmd out r.read
          ])
      by_context none k = cc
      by_context (some e) k = (_, _, refl)

  go_on-IsEnd : (o : Outcome) (next : Text → Outcome) → IsEnd o → IsEnd (go_on o next)
  go_on-IsEnd (ended text e) next h = (text, e, refl)
  go_on-IsEnd (waiting out) next (text, e, q) = cc

  go_on-IsEnd_later :
      (o : Outcome) (next : Text → Outcome)
      → ((more : Text) → IsEnd (next more))
      → IsEnd (go_on o next)
  go_on-IsEnd_later (ended text e) next h = (text, e, refl)
  go_on-IsEnd_later (waiting out) next h = h out

  -- Where each read returns, the loop ends, in the round in which the context is done at the latest,
  -- whatever is read.
  pub read_until_prompt-IsEnd :
      (out : Text) (rs : List Round)
      → any has_expired rs ≡ true
      → IsEnd (read_until_prompt strip prompt max_output cmd out rs)
  unfolding read_until_prompt
  read_until_prompt-IsEnd out [] h = cc
  read_until_prompt-IsEnd out (r ∷ rs) h = elim (Bool-cases (has_expired r)) [
    | inl now ↦ go_on-IsEnd _ _ (round-IsEnd out r now)
    | inr later ↦ go_on-IsEnd_later _ _ λ more. read_until_prompt-IsEnd more rs (rw later at h)
  ]

  -- A text that is not empty and within the limit.
  abbrev pub IsRead : Text → Type 0
  IsRead raw = (is_empty raw ≡ false) × (is_too_long strip prompt max_output cmd raw ≡ false)

  -- An end without an error is with all of the output; the loop goes on with what the read adds.
  abbrev RoundEnds : Text → Read → Outcome → Type 0
  RoundEnds out x (ended text (some e)) = Unit
  RoundEnds out x (ended text none) = IsRead out × (text ≡ clean_output strip prompt cmd out)
  RoundEnds out x (waiting more) = more ≡ out ++ bytes_of x

  on_read-RoundEnds :
      (out : Text) (x : Read)
      → is_too_long strip prompt max_output cmd out ≡ false
      → RoundEnds out x (on_read strip prompt max_output cmd out x)
  unfolding on_read
  on_read-RoundEnds out (bytes b) h = refl
  on_read-RoundEnds out nothing h = sym (append-nil out)
  on_read-RoundEnds out timed_out h = elim (Bool-cases (is_empty out)) [
    | inl blank ↦ rw blank (sym (append-nil out))
    | inr some_text ↦ rw some_text ((some_text, h), refl)
  ]
  on_read-RoundEnds out (failed e) h = elim (Bool-cases (is_empty out)) [
    | inl blank ↦ rw blank tt
    | inr some_text ↦ rw some_text ((some_text, h), refl)
  ]

  not_blank : (a b : Bool) → not a && b ≡ true → a ≡ false
  not_blank a b h = ground arith

  round-RoundEnds :
      (out : Text) (r : Round) → RoundEnds out r.read (round strip prompt max_output cmd out r)
  unfolding round
  round-RoundEnds out r = elim (Bool-cases (is_too_long strip prompt max_output cmd out)) [
    | inl long ↦ rw long tt
    | inr short ↦ elim (Bool-cases (is_complete strip prompt max_output cmd out)) [
      | inl done ↦ rw (short, done) ((not_blank _ _ done, short), refl)
      | inr more ↦ rw (short, more) (by_context r.expired short)
    ]
  ]
    where
      by_context :
          (x : Option GoError)
          → is_too_long strip prompt max_output cmd out ≡ false
          → RoundEnds out r.read (elim x [
            | some e ↦ ended (clean_output strip prompt cmd out) (some (backup timeout cmd e))
            | none ↦ on_read strip prompt max_output cmd out r.read
          ])
      by_context none short = on_read-RoundEnds out r.read short
      by_context (some e) short = tt

  -- A text is what was there and all that some first rounds have read.
  abbrev pub IsAllOf : Text → List Round → Text → Type 0
  IsAllOf out rs raw =
      (seen : List Round) × (later : List Round) × (rs ≡ seen ++ later)
      × (raw ≡ out ++ read_bytes seen)

  abbrev EndsWell : Text → List Round → Outcome → Type 0
  EndsWell out rs (ended text (some e)) = Unit
  EndsWell out rs (ended text none) =
      (raw : Text) × IsAllOf out rs raw × IsRead raw × (text ≡ clean_output strip prompt cmd raw)
  EndsWell out rs (waiting more) = Unit

  -- What a later round ends with was read from this one on.
  earlier :
      (out more : Text) (r : Round) (rs : List Round) (o : Outcome)
      → more ≡ out ++ bytes_of r.read
      → EndsWell more rs o
      → EndsWell out (r ∷ rs) o
  earlier out more r rs (ended text (some e)) h k = tt
  earlier out more r rs (waiting x) h k = tt
  earlier out more r rs (ended text none) h (raw, (seen, later, split, all), good, clean) = (
    raw,
    (
      r ∷ seen,
      later,
      ap (λ xs. r ∷ xs) split,
      all
          ∙ (ap (λ t. t ++ read_bytes seen) h
              ∙ append_assoc out (bytes_of r.read) (read_bytes seen)),
    ),
    good,
    clean,
  )

  go_on-EndsWell :
      (out : Text) (r : Round) (rs : List Round) (o : Outcome) (next : Text → Outcome)
      → RoundEnds out r.read o
      → ((more : Text) → EndsWell more rs (next more))
      → EndsWell out (r ∷ rs) (go_on o next)
  go_on-EndsWell out r rs (ended text (some e)) next h k = tt
  go_on-EndsWell out r rs (ended text none) next (good, clean) k =
      (out, ([], r ∷ rs, refl, sym (append-nil out)), good, clean)
  go_on-EndsWell out r rs (waiting more) next h k = earlier out more r rs (next more) h (k more)

  loop-EndsWell :
      (out : Text) (rs : List Round)
      → EndsWell out rs (read_until_prompt strip prompt max_output cmd out rs)
  unfolding read_until_prompt
  loop-EndsWell out [] = tt
  loop-EndsWell out (r ∷ rs) =
      go_on-EndsWell out r rs (round strip prompt max_output cmd out r) _ (round-RoundEnds out r)
        (λ more. loop-EndsWell more rs)

  -- Where the loop ends without an error, its result is the cleaned form of a text that is not empty,
  -- is within the limit and consists of the output at the start and all the bytes of the rounds up to
  -- some round: no output is cut off in silence by the limit.
  pub read_until_prompt-IsRead :
      (out : Text) (rs : List Round) (text : Text)
      → read_until_prompt strip prompt max_output cmd out rs ≡ ended text none
      → (raw : Text) × IsAllOf out rs raw × IsRead raw × (text ≡ clean_output strip prompt cmd raw)
  read_until_prompt-IsRead out rs text e = subst (EndsWell out rs) e (loop-EndsWell out rs)
