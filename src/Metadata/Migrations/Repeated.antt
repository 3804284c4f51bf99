-- ===== src/Metadata/Migrations/Repeated.antt =====
-- store.go: a database that has been migrated.
use go_xidized.Prelude.{
  ◌≡◌, refl, sym, ap, subst, Bool, true, Text, text_eq_iff, List, [], ◌∷◌, All, Bool-cases, inl,
  inr, arith,
}
use go_xidized.Types.Errors.{Result, ok, err}
use go_xidized.Metadata.{Database, statement, select, and_then, transaction}
use go_xidized.Metadata.Statements.{
  statement_ind, statement-ok, and_then_ind, transaction_ind, transaction-ok,
}
use go_xidized.Metadata.Migrations.{
  SchemaTables, Scripts, Entry, is_applied, insert_version, exists, run_script, applying,
  apply_migration, migrate_each, versions, migrate,
}

module _ {σ : Type 0} (s : Scripts σ) where
  abbrev IsApplied : Text → SchemaTables σ → Type 0
  IsApplied v t = is_applied v t ≡ true

  insert_version-IsApplied : (v : Text) (t : SchemaTables σ) → IsApplied v (insert_version v t).1
  insert_version-IsApplied v t = elim (Bool-cases (is_applied v t)) [
    | inl there ↦ simp there refl
    | inr fresh ↦ simp fresh (ground (arith, (text_eq_iff v v).1 refl))
  ]

  insert_version_kept :
      (w v : Text) (t : SchemaTables σ) → IsApplied w t → IsApplied w (insert_version v t).1
  insert_version_kept w v t h = elim (Bool-cases (is_applied v t)) [
    | inl there ↦ simp there h
    | inr fresh ↦ simp fresh (ground (arith, h))
  ]

  apply_migration_kept :
      (w v : Text) (db : Database (SchemaTables σ))
      → IsApplied w db.tables
      → IsApplied w (apply_migration s v db).1.tables
  unfolding apply_migration
  apply_migration_kept w v db h =
      and_then_ind (λ d. IsApplied w d.tables) (s.read_file v, db)
        (λ sql d. transaction (applying s v sql) d) h
        (λ sql d k.
          transaction_ind (IsApplied w) (applying s v sql) d k
            (insert_version_kept w v (run_script s sql d.tables).1 k))

  apply_migration-IsApplied :
      (v : Text) (db : Database (SchemaTables σ)) {x : Text}
      → (apply_migration s v db).0 ≡ ok x
      → IsApplied v (apply_migration s v db).1.tables
  unfolding apply_migration
  apply_migration-IsApplied v db h = by_file (s.read_file v) h
    where
      by_file :
          (r : Result Text) {y : Text}
          → (and_then (r, db) λ sql d. transaction (applying s v sql) d).0 ≡ ok y
          → IsApplied v (and_then (r, db) λ sql d. transaction (applying s v sql) d).1.tables
      by_file (err e) k = cc
      by_file (ok sql) k =
          subst (IsApplied v) (sym (transaction-ok (applying s v sql) db k))
            (insert_version-IsApplied v (run_script s sql db.tables).1)

  select_kept :
      (w v : Text) (db : Database (SchemaTables σ))
      → IsApplied w db.tables
      → IsApplied w (select (λ t. ok (is_applied v t)) db).1.tables
  unfolding select
  select_kept w v db h = statement_ind (λ t. (ok (is_applied v t), t)) db (IsApplied w) h h

  migrate_each_kept :
      (w : Text) (vs : List Text) (db : Database (SchemaTables σ))
      → IsApplied w db.tables
      → IsApplied w (migrate_each s vs db).1.tables
  unfolding migrate_each
  migrate_each_kept w [] db h = h
  migrate_each_kept w (v ∷ vs) db h =
      let asked = select (λ t. ok (is_applied v t)) db in
      elim (Bool-cases (exists asked.0)) [
        | inl there ↦ rw there (migrate_each_kept w vs asked.1 (select_kept w v db h))
        | inr missing ↦ rw missing (
            and_then_ind (λ d. IsApplied w d.tables) (apply_migration s v asked.1)
              (λ _ d. migrate_each s vs d) (apply_migration_kept w v asked.1 (select_kept w v db h))
              (λ _ d k. migrate_each_kept w vs d k))
      ]

  exists-true : (r : Result Bool) → exists r ≡ true → r ≡ ok true
  exists-true (ok b) h = ap ok h
  exists-true (err e) h = cc

  asked-IsApplied :
      (v : Text) (db : Database (SchemaTables σ))
      → exists (select (λ t. ok (is_applied v t)) db).0 ≡ true
      → IsApplied v db.tables
  unfolding select
  asked-IsApplied v db h =
      let (found, after) =
        statement-ok (λ t. (ok (is_applied v t), t)) db
          (exists-true (select (λ t. ok (is_applied v t)) db).0 h) in
      cc

  -- Where the run has no error the versions are recorded.
  abbrev IsDone : List Text → Result Text × Database (SchemaTables σ) → Type 0
  IsDone vs p = (x : Text) → p.0 ≡ ok x → All (λ v. IsApplied v p.1.tables) vs

  after_apply-IsDone :
      (v : Text) (vs : List Text) (r : Result Text × Database (SchemaTables σ))
      → ((y : Text) → r.0 ≡ ok y → IsApplied v r.1.tables)
      → ((d : Database (SchemaTables σ)) → IsDone vs (migrate_each s vs d))
      → IsDone (v ∷ vs) (and_then r λ _ d. migrate_each s vs d)
  after_apply-IsDone v vs (err e, d) g rest x k = cc
  after_apply-IsDone v vs (ok y, d) g rest x k = (migrate_each_kept v vs d (g y refl), rest d x k)

  migrate_each-IsDone :
      (vs : List Text) (db : Database (SchemaTables σ)) → IsDone vs (migrate_each s vs db)
  unfolding migrate_each
  migrate_each-IsDone [] db x h = tt
  migrate_each-IsDone (v ∷ vs) db x h =
      let asked = select (λ t. ok (is_applied v t)) db in
      elim (Bool-cases (exists asked.0)) [
        | inl there ↦
            let same : migrate_each s (v ∷ vs) db ≡ migrate_each s vs asked.1 = rw there refl in
            subst (IsDone (v ∷ vs)) (sym same)
              (λ y k. (
                migrate_each_kept v vs asked.1 (select_kept v v db (asked-IsApplied v db there)),
                migrate_each-IsDone vs asked.1 y k,
              ))
              x h
        | inr missing ↦
            let run = apply_migration s v asked.1 in
            let same : migrate_each s (v ∷ vs) db ≡ and_then run (λ _ d. migrate_each s vs d) =
              rw missing refl in
            subst (IsDone (v ∷ vs)) (sym same)
              (after_apply-IsDone v vs run (λ y k. apply_migration-IsApplied v asked.1 k)
                (λ d. migrate_each-IsDone vs d))
              x h
      ]

  -- A version that is recorded is passed over.
  migrate_each_again :
      (vs : List Text) (t : SchemaTables σ)
      → All (λ v. IsApplied v t) vs
      → migrate_each s vs (record { tables = t; outcomes = [] })
        ≡ (ok [], record { tables = t; outcomes = [] })
  unfolding migrate_each select statement
  migrate_each_again [] t h = refl
  migrate_each_again (v ∷ vs) t (there, h) = rw there (migrate_each_again vs t h)

  migrate-applied :
      (r : Result (List Entry)) (db : Database (SchemaTables σ)) {x : Text}
      → (and_then (r, db) λ es d. migrate_each s (versions es) d).0 ≡ ok x
      → (and_then (r, db) λ es d. migrate_each s (versions es) d).1.outcomes ≡ []
      → (and_then
          (r, (and_then (r, db) λ es d. migrate_each s (versions es) d).1)
          λ es d. migrate_each s (versions es) d)
        ≡ (ok [], (and_then (r, db) λ es d. migrate_each s (versions es) d).1)
  migrate-applied (err e) db h working = cc
  migrate-applied (ok es) db {x} h working =
      let run = migrate_each s (versions es) db in
      let whole : run.1 ≡ record { tables = run.1.tables; outcomes = [] } =
        ap (λ os. record { tables = run.1.tables; outcomes = os }) working in
      subst (λ d. migrate_each s (versions es) d ≡ (ok [], d)) (sym whole)
        (migrate_each_again (versions es) run.1.tables (migrate_each-IsDone (versions es) db x h))

-- Migrate repeated after a run without an error does nothing and succeeds, where the database works:
-- no script is run a second time.
pub migrate-migrate :
    {σ : Type 0} (s : Scripts σ) (db : Database (SchemaTables σ)) {x : Text}
    → (migrate s db).0 ≡ ok x
    → (migrate s db).1.outcomes ≡ []
    → migrate s (migrate s db).1 ≡ (ok [], (migrate s db).1)
unfolding migrate
migrate-migrate s db h working = migrate-applied s s.read_dir db h working
