-- ===== src/Metadata.antt =====
-- internal/metadata/postgres/store.go: the statements that the store sends to its database. A statement
-- is one step; it may fail, and then it has taken effect or not.
pub mod Accounts
pub mod Leases
pub mod Devices
pub mod Jobs
pub mod Migrations
pub mod Statements
pub mod Tokens
use go_xidized.Prelude.{◌/◌, ◌*◌, Bool, Text, List, [], ◌∷◌, Option, none, some, if◌then◌else◌}
use go_xidized.Types.{Time}
use go_xidized.Types.Errors.{GoError, Result, ok, err}

-- A time as the database gets it and keeps it (`TIMESTAMPTZ`): nanoseconds below a microsecond are cut.
unfoldable pub micros : Time → Time
micros t = t / 1000 * 1000

-- How a statement ends: with its result, with an error before it took effect, or with one after it.
pub data Outcome : Type 0 where
  works : Outcome
  lost unanswered : GoError → Outcome

-- The tables, and the outcomes of the statements to come; a statement past their end works.
pub record Database (τ : Type 0) : Type 0 where
  pub tables : τ
  pub outcomes : List Outcome

-- The result and the tables, where these were `before`.
abbrev pub ended : {τ A : Type 0} → Outcome → Result A × τ → τ → Result A × τ
ended works (r, after) before = (r, after)
ended (lost e) (r, after) before = (err e, before)
ended (unanswered e) (r, after) before = (err e, after)

abbrev pub next_outcome : List Outcome → Outcome × List Outcome
next_outcome [] = (works, [])
next_outcome (o ∷ os) = (o, os)

unfoldable pub statement : {τ A : Type 0} → (τ → Result A × τ) → Database τ → Result A × Database τ
statement f db =
    let (o, os) = next_outcome db.outcomes in
    let (r, after) = ended o (f db.tables) db.tables in
    (r, record { tables = after; outcomes = os })

-- A statement that only reads.
unfoldable pub select : {τ A : Type 0} → (τ → Result A) → Database τ → Result A × Database τ
unfolding statement
select f db = statement (λ t. (f t, t)) db

-- `x, err := …; if err != nil { return err }`
abbrev pub and_then : {σ A B : Type 0} → Result A × σ → (A → σ → Result B × σ) → Result B × σ
and_then (err e, s) f = (err e, s)
and_then (ok a, s) f = f a s

-- The rows come back in some order; the first one that passes the test.
abbrev pub find_row : {A : Type 0} → (A → Bool) → List A → Option A
find_row p [] = none
find_row p (x ∷ xs) = if p x then some x else find_row p xs

-- A statement of a transaction, with what the code makes of its error.
abbrev pub Statement : Type 0 → Type 0
Statement τ = (GoError → GoError) × (τ → Result Text × τ)

abbrev pub plainly : {τ : Type 0} → (τ → Result Text × τ) → Statement τ
plainly f = (λ e. e, f)

-- The statements of a transaction that has begun, each on what the ones before it left.
unfoldable pub executed_each :
    {τ : Type 0} → List (Statement τ) → List Outcome → τ → Result Text × List Outcome × τ
executed_each [] os t = (ok [], os, t)
executed_each ((wrap, f) ∷ fs) os t =
    let (o, os') = next_outcome os in
    let (r, after) = ended o (f t) t in
    let rest = executed_each fs os' after in
    elim r [ ok a ↦ rest | err e ↦ (err (wrap e), os', after) ]

-- `Commit`, or `Rollback` where a statement has failed; the error of a rollback is dropped.
abbrev pub committed : {τ : Type 0} → Result Text × List Outcome × τ → τ → Result Text × Database τ
committed (err e, os, t) before = (err e, record { tables = before; outcomes = os })
committed (ok a, os, t) before =
    let (o, os') = next_outcome os in
    let (r, after) = ended o (ok a, t) before in (r, record { tables = after; outcomes = os' })

-- `Begin`, the statements and `Commit`.
unfoldable pub transaction :
    {τ : Type 0} → List (Statement τ) → Database τ → Result Text × Database τ
unfolding executed_each
transaction fs db =
    let (o, os) = next_outcome db.outcomes in
    elim o [
      | works ↦ committed (executed_each fs os db.tables) db.tables
      | lost e ↦ (err e, record db { outcomes = os })
      | unanswered e ↦ (err e, record db { outcomes = os })
    ]
