-- ===== src/Metadata/Statements.antt =====
-- store.go: what holds of a statement however it ends, and of a chain of them.
use go_xidized.Prelude.{
  ◌≡◌, refl, sym, ap, ◌∙◌, subst, Text, Bool, true, false, List, [], ◌∷◌, map, any, some,
  Bool-cases, inl, inr, ◌⊎◌, arith,
}
use go_xidized.Types.Errors.{GoError, Result, ok, err}
use go_xidized.Metadata.{
  Statement, Database, Outcome, works, lost, unanswered, ended, next_outcome, statement, select,
  and_then, find_row, executed_each, committed, transaction,
}

module _ {τ A : Type 0} (f : τ → Result A × τ) (db : Database τ) where
  ended_ind :
      (P : τ → Type 0) (o : Outcome)
      → P db.tables
      → P (f db.tables).1
      → P (ended o (f db.tables) db.tables).1
  ended_ind P works h k = k
  ended_ind P (lost e) h k = h
  ended_ind P (unanswered e) h k = k

  -- It takes effect or not.
  pub statement_ind :
      (P : τ → Type 0) → P db.tables → P (f db.tables).1 → P (statement f db).1.tables
  unfolding statement
  statement_ind P h k = ended_ind P (next_outcome db.outcomes).0 h k

  ended-ok :
      (o : Outcome) {a : A}
      → (ended o (f db.tables) db.tables).0 ≡ ok a
      → ((f db.tables).0 ≡ ok a) × ((ended o (f db.tables) db.tables).1 ≡ (f db.tables).1)
  ended-ok works h = (h, refl)
  ended-ok (lost e) h = cc
  ended-ok (unanswered e) h = cc

  -- If it succeeds it has taken effect.
  pub statement-ok :
      {a : A}
      → (statement f db).0 ≡ ok a
      → ((f db.tables).0 ≡ ok a) × ((statement f db).1.tables ≡ (f db.tables).1)
  unfolding statement
  statement-ok h = ended-ok (next_outcome db.outcomes).0 h

module _ {σ A B : Type 0} where
  pub and_then_ind :
      (P : σ → Type 0) (p : Result A × σ) (f : A → σ → Result B × σ)
      → P p.1
      → ((a : A) (s : σ) → P s → P (f a s).1)
      → P (and_then p f).1
  and_then_ind P (err e, s) f h k = h
  and_then_ind P (ok a, s) f h k = k a s h

  pub and_then-ok :
      (p : Result A × σ) (f : A → σ → Result B × σ) {b : B}
      → (and_then p f).0 ≡ ok b
      → (a : A) × (p.0 ≡ ok a) × ((f a p.1).0 ≡ ok b)
  and_then-ok (err e, s) f h = cc
  and_then-ok (ok a, s) f h = (a, refl, h)

-- What the statements of a transaction come to, one after the other.
abbrev pub each_after : {τ : Type 0} → List (Statement τ) → τ → τ
each_after [] t = t
each_after ((wrap, f) ∷ fs) t = each_after fs (f t).1

executed_each-ok :
    {τ : Type 0} (fs : List (Statement τ)) (os : List Outcome) (t : τ) {a : Text}
    → (executed_each fs os t).0 ≡ ok a
    → (executed_each fs os t).2 ≡ each_after fs t
unfolding executed_each
executed_each-ok [] os t h = refl
executed_each-ok {τ} ((wrap, f) ∷ fs) os t {a} h =
    by_outcome (λ t'. executed_each-ok fs (next_outcome os).1 t') (next_outcome os).0 (f t) h
  where
    by_outcome :
        ((t' : τ)
          → (executed_each fs (next_outcome os).1 t').0 ≡ ok a
          → (executed_each fs (next_outcome os).1 t').2 ≡ each_after fs t')
        → (o : Outcome) (p : Result Text × τ)
        → (elim (ended o p t).0 as (λ _. Result Text × List Outcome × τ) [
          | ok x ↦ executed_each fs (next_outcome os).1 (ended o p t).1
          | err e ↦ (err (wrap e), (next_outcome os).1, (ended o p t).1)
        ]).0
          ≡ ok a
        → (elim (ended o p t).0 as (λ _. Result Text × List Outcome × τ) [
          | ok x ↦ executed_each fs (next_outcome os).1 (ended o p t).1
          | err e ↦ (err (wrap e), (next_outcome os).1, (ended o p t).1)
        ]).2
          ≡ each_after fs p.1
    by_outcome later works (ok x, after) k = later after k
    by_outcome later works (err e, after) k = cc
    by_outcome later (lost e) p k = cc
    by_outcome later (unanswered e) p k = cc

module _ {τ : Type 0} (fs : List (Statement τ)) (db : Database τ) where
  -- All of it or nothing, and all of it where it succeeds.
  abbrev pub IsWhole : Result Text × Database τ → Type 0
  IsWhole p =
      ((p.1.tables ≡ db.tables) × ((e : GoError) × (p.0 ≡ err e)))
      ⊎ (p.1.tables ≡ each_after fs db.tables)

  commit-IsWhole :
      (o : Outcome) (os : List Outcome) (t : τ) (a : Text)
      → t ≡ each_after fs db.tables
      → IsWhole (
        (ended o (ok a, t) db.tables).0,
        record { tables = (ended o (ok a, t) db.tables).1; outcomes = os },
      )
  commit-IsWhole works os t a e = inr e
  commit-IsWhole (lost x) os t a e = inl (refl, (x, refl))
  commit-IsWhole (unanswered x) os t a e = inr e

  committed-IsWhole :
      (r : Result Text) (os : List Outcome) (t : τ)
      → ((a : Text) → r ≡ ok a → t ≡ each_after fs db.tables)
      → IsWhole (committed (r, os, t) db.tables)
  committed-IsWhole (err e) os t h = inl (refl, (e, refl))
  committed-IsWhole (ok a) os t h =
      commit-IsWhole (next_outcome os).0 (next_outcome os).1 t a (h a refl)

  pub transaction-IsWhole : IsWhole (transaction fs db)
  unfolding transaction
  transaction-IsWhole = begun (next_outcome db.outcomes).0
    where
      begun :
          (o : Outcome)
          → IsWhole (elim o as (λ _. Result Text × Database τ) [
            | works ↦ committed (executed_each fs (next_outcome db.outcomes).1 db.tables) db.tables
            | lost e ↦ (err e, record db { outcomes = (next_outcome db.outcomes).1 })
            | unanswered e ↦ (err e, record db { outcomes = (next_outcome db.outcomes).1 })
          ])
      begun works =
          committed-IsWhole (executed_each fs (next_outcome db.outcomes).1 db.tables).0 _ _
            (λ a h. executed_each-ok fs (next_outcome db.outcomes).1 db.tables h)
      begun (lost e) = inl (refl, (e, refl))
      begun (unanswered e) = inl (refl, (e, refl))

pub transaction-ok :
    {τ : Type 0} (fs : List (Statement τ)) (db : Database τ) {a : Text}
    → (transaction fs db).0 ≡ ok a
    → (transaction fs db).1.tables ≡ each_after fs db.tables
transaction-ok fs db h = elim (transaction-IsWhole fs db) [
  | inl (same, (e, failed)) ↦ cc
  | inr done ↦ done
]

-- A transaction keeps what its statements keep.
pub transaction_ind :
    {τ : Type 0} (P : τ → Type 0) (fs : List (Statement τ)) (db : Database τ)
    → P db.tables
    → P (each_after fs db.tables)
    → P (transaction fs db).1.tables
transaction_ind P fs db h k = elim (transaction-IsWhole fs db) [
  | inl (same, _) ↦ subst P (sym same) h
  | inr done ↦ subst P (sym done) k
]

-- After a statement that only reads, and what comes after it.
pub select-then_ind :
    {τ A B : Type 0} (P : τ → Type 0) (f : τ → Result A) (db : Database τ)
    (k : A → Database τ → Result B × Database τ)
    → P db.tables
    → ((a : A) (s : Database τ) → P s.tables → P (k a s).1.tables)
    → P (and_then (select f db) k).1.tables
unfolding select
select-then_ind P f db k h after =
    and_then_ind (λ d. P d.tables) (statement (λ t. (f t, t)) db) k
      (statement_ind (λ t. (f t, t)) db P h h) after

-- What some row passes, some row passes by a weaker test.
pub any_mono :
    {A : Type 0} (p q : A → Bool) (rows : List A)
    → ((r : A) → p r ≡ true → q r ≡ true)
    → any p rows ≡ true
    → any q rows ≡ true
any_mono p q [] h e = e
any_mono p q (r ∷ rows) h e = elim (Bool-cases (p r)) [
  | inl holds ↦ ground (arith, h r holds)
  | inr fails ↦ ground (arith, any_mono p q rows h (rw fails at e))
]

pub any-map :
    {A : Type 0} (q : A → Bool) (f : A → A) (rows : List A)
    → any q (map f rows) ≡ any (λ r. q (f r)) rows
any-map q f [] = refl
any-map q f (r ∷ rows) = rw (any-map q f rows) refl

pub any-false :
    {A : Type 0} (p : A → Bool) (rows : List A) → (any p rows ≡ true → ⊥) → any p rows ≡ false
any-false p rows h = elim (Bool-cases (any p rows)) [
  | inl holds ↦ absurd (h holds)
  | inr fails ↦ fails
]

-- The row that is found passes the test.
pub find_row-some :
    {A : Type 0} (p : A → Bool) (rows : List A) {r : A}
    → find_row p rows ≡ some r
    → (p r ≡ true) × (any p rows ≡ true)
find_row-some p [] e = cc
find_row-some p (x ∷ xs) {r} e = elim (Bool-cases (p x)) [
  | inl holds ↦
      let at : x ≡ r = cc (rw holds at e) in (ap p (sym at) ∙ holds, ground (arith, holds))
  | inr not_here ↦ let (a, b) = find_row-some p xs (rw not_here at e) in (a, ground (arith, b))
]
