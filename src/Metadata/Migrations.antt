-- ===== src/Metadata/Migrations.antt =====
-- internal/metadata/postgres/store.go: `Migrate`, which applies the scripts that are not recorded yet.
pub mod Repeated
use go_xidized.Prelude.{
  Bool, true, false, not, ◌&&◌, Text, codes, text_eq, List, [], ◌∷◌, ◌++◌, any, map, keep_if,
  reverse, if◌then◌else◌,
}
use go_xidized.Prelude.Strings.{has_prefix}
use go_xidized.Types.Errors.{GoError, wrapping, Result, ok, err}
use go_xidized.Pipeline.Redaction.{sort}
use go_xidized.Metadata.{Database, Statement, select, and_then, plainly, transaction}

-- The recorded versions, and everything else.
pub record SchemaTables (σ : Type 0) : Type 0 where
  pub applied : List Text
  pub schema : σ

pub record Entry : Type 0 where
  pub name : Text
  pub is_dir : Bool

-- The embedded files, and what the database makes of a script.
pub record Scripts (σ : Type 0) : Type 0 where
  pub read_dir : Result (List Entry)
  pub read_file : Text → Result Text
  pub execute : Text → σ → Result Text × σ

abbrev pub is_script : Entry → Bool
is_script e = not e.is_dir && has_prefix (reverse (codes ".sql")) (reverse e.name)

-- The names differ, so they are chosen and then sorted here.
unfoldable pub versions : List Entry → List Text
unfolding has_prefix sort
versions es = sort (map (λ e. e.name) (keep_if is_script es))

abbrev pub is_applied : {σ : Type 0} → Text → SchemaTables σ → Bool
is_applied v t = any (text_eq v) t.applied

-- `INSERT INTO schema_migrations … ON CONFLICT DO NOTHING`
abbrev pub insert_version : {σ : Type 0} → Text → SchemaTables σ → Result Text × SchemaTables σ
insert_version v t = (ok [], if is_applied v t then t else record t { applied = v ∷ t.applied })

-- The error of the query is dropped.
abbrev pub exists : Result Bool → Bool
exists (err e) = false
exists (ok b) = b

module _ {σ : Type 0} (s : Scripts σ) where
  abbrev pub run_script : Text → SchemaTables σ → Result Text × SchemaTables σ
  run_script sql t = let (r, schema) = s.execute sql t.schema in (r, record t { schema = schema })

  abbrev pub applying : Text → Text → List (Statement (SchemaTables σ))
  applying v sql =
      ((λ e. wrapping (codes "apply migration " ++ v) e), run_script sql)
      ∷ plainly (insert_version v)
      ∷ []

  unfoldable pub apply_migration :
      Text → Database (SchemaTables σ) → Result Text × Database (SchemaTables σ)
  unfolding transaction
  apply_migration v db = and_then (s.read_file v, db) λ sql d. transaction (applying v sql) d

  unfoldable pub migrate_each :
      List Text → Database (SchemaTables σ) → Result Text × Database (SchemaTables σ)
  unfolding apply_migration select
  migrate_each [] db = (ok [], db)
  migrate_each (v ∷ vs) db =
      let (r, d) = select (λ t. ok (is_applied v t)) db in
      let rest = migrate_each vs d in
      if exists r then rest else and_then (apply_migration v d) λ _ d'. migrate_each vs d'

  unfoldable pub migrate : Database (SchemaTables σ) → Result Text × Database (SchemaTables σ)
  unfolding migrate_each versions
  migrate db = and_then (s.read_dir, db) λ es d. migrate_each (versions es) d
