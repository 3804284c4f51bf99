-- ===== src/GitStore.antt =====
-- internal/storage/gitstore/store.go: one file for each target, kept in git repositories. The disk and
-- the git library are a parameter, with what they answer in each state; `sha256` and `fnv32a` are the
-- hashes. `mu` makes each Save a step of its own.
pub mod Paths
pub mod Commits
pub mod Reads
pub mod Saves
pub mod Log
use go_xidized.Prelude.{
  ℕ, suc, ◌≡◌, Bool, true, false, ◌&&◌, ◌||◌, Text, codes, is_empty, text_eq, List, [], ◌∷◌, ◌++◌,
  Option, none, some, if◌then◌else◌, ltb, leb, ◌==◌, ℤ, pos, lebℤ, pos_part, any, length, not,
}
use go_xidized.Prelude.Strings.{join}
use go_xidized.Types.{Time, Target, RedactedConfig, CommitMeta, Revision, DiffResult}
use go_xidized.Types.Errors.{Result, ok, err, GoError, plain}
use go_xidized.Pipeline.Diff.{unified_diff}
use go_xidized.GitStore.Commits.{Commit, or_blank, find_commit, commit_message, trailers}
use go_xidized.GitStore.Paths.{ShardStrategy, FilePath, sanitize, repo_path, config_path, drop_last}

pub data CommitAnswer : Type 0 where
  committed : Text → CommitAnswer
  empty_commit : CommitAnswer
  commit_failed : GoError → CommitAnswer

pub data OpenAnswer : Type 0 where
  opened not_exists : OpenAnswer
  open_failed : GoError → OpenAnswer

pub record Disk : Type 1 where
  pub State : Type 0
  pub make_dirs : FilePath → State → Option GoError × State
  pub open_repo : FilePath → State → OpenAnswer
  pub init_repo : FilePath → State → Option GoError × State
  pub read_file : FilePath → State → Option Text
  pub write_file : FilePath → Text → State → Option GoError × State
  pub stage : FilePath → Text → State → Option GoError × State
  pub commit : FilePath → Text → State → CommitAnswer × State
  -- `none` is an error of `Head`, as in a repository without a commit
  pub head : FilePath → State → Option Text
  -- the commits from the head on, newest first, and `none` where `Log` gives an error
  pub log : FilePath → State → Option (List Commit)
  -- the files `<base>/*/*/*/<name>`
  pub glob : FilePath → Text → State → Option (List FilePath)

pub record Store : Type 0 where
  pub base_path : FilePath
  pub shard_strategy : ShardStrategy
  -- the text of the strategy
  pub strategy_name : Text
  pub shard_count : ℤ

-- `filepath.ToSlash` of a relative path.
abbrev pub slashes : FilePath → Text
slashes = join (codes "/")

module _ (D : Disk) (sha256 : Text → Text) (fnv32a : Text → ℕ) where
  -- What was written before an error stays.
  abbrev pub Exec : Type 0 → Type 0
  Exec A = D.State → Result A × D.State

  abbrev pub continue : {A B : Type 0} → Result A × D.State → (A → Exec B) → Result B × D.State
  continue (ok a, s) f = f a s
  continue (err e, s) f = (err e, s)

  infixl 5 ◌>>=◌ ◌>>◌
  abbrev pub ◌>>=◌ : {A B : Type 0} → Exec A → (A → Exec B) → Exec B
  ◌>>=◌ m f s = continue (m s) f

  abbrev pub ◌>>◌ : {B : Type 0} → Exec (Unit {0}) → Exec B → Exec B
  m >> k = m >>= λ _. k

  abbrev pub answered : Option GoError × D.State → Result (Unit {0}) × D.State
  answered (none, s) = (ok tt, s)
  answered (some e, s) = (err e, s)

  -- An action whose answer is an error that may be nil.
  abbrev pub act : (D.State → Option GoError × D.State) → Exec (Unit {0})
  act f s = answered (f s)

  -- Such actions in order, up to the first that fails.
  pub each : List (D.State → Option GoError × D.State) → Exec (Unit {0})
  each [] s = (ok tt, s)
  each (f ∷ fs) s = continue (act f s) (λ _. each fs)

  abbrev pub lift : {A : Type 0} → Result A → Exec A
  lift r s = (r, s)

  pub on_open : FilePath → OpenAnswer → Exec (Unit {0})
  on_open repo opened s = (ok tt, s)
  on_open repo not_exists s = act (D.init_repo repo) s
  on_open repo (open_failed e) s = (err e, s)

  pub open_or_init : FilePath → Exec (Unit {0})
  unfolding on_open
  open_or_init repo s = on_open repo (D.open_repo repo s) s

  unfoldable pub latest_commit_for_file : FilePath → Text → D.State → Text
  unfolding find_commit
  latest_commit_for_file repo path s = elim (D.log repo s) [
    | none ↦ []
    | some cs ↦ find_commit path cs
  ]

  module _ (now : Time) (t : Target) (cfg : RedactedConfig) (meta : CommitMeta) where
    abbrev revision : Text → FilePath → Text → Text → Bool → List (Text × Text) → Revision
    revision shard rel id parent changed ts = record {
      id = id;
      target_id = t.id;
      shard = shard;
      path = slashes rel;
      content_sha256 = sha256 cfg.content;
      commit_sha = id;
      parent_commit = parent;
      created_at = now;
      changed = changed;
      commit_trailers = ts;
    }

    -- The answer of the commit; the two texts are the head and the file's last commit before it.
    pub on_commit :
        FilePath
        → Text
        → FilePath
        → Text
        → Text
        → CommitAnswer × D.State
        → Result Revision × D.State
    on_commit repo shard rel parent previous (committed h, s) =
        (ok (revision shard rel h previous true (trailers t meta (sha256 cfg.content))), s)
    on_commit repo shard rel parent previous (empty_commit, s) =
        (ok (revision shard rel (or_blank (D.head repo s)) parent false []), s)
    on_commit repo shard rel parent previous (commit_failed e, s) = (err e, s)

    pub commit_config : FilePath → Text → FilePath → Text → Text → Exec Revision
    unfolding on_commit commit_message
    commit_config repo shard rel parent previous s =
        on_commit repo shard rel parent previous
          (D.commit repo (commit_message t meta (sha256 cfg.content)) s)

    pub write_config : FilePath → Text → FilePath → FilePath → Text → Text → Exec Revision
    unfolding commit_config each
    write_config repo shard rel abs parent previous = do
      each (
          D.make_dirs (drop_last abs)
          ∷ D.write_file abs cfg.content
          ∷ D.stage repo (slashes rel)
          ∷ [])
      commit_config repo shard rel parent previous

    pub save_at : FilePath → Text → FilePath × FilePath → Exec Revision
    unfolding write_config latest_commit_for_file
    save_at repo shard (rel, abs) s =
        let previous = latest_commit_for_file repo (slashes rel) s in
        if text_eq (or_blank (D.read_file abs s)) cfg.content && not (is_empty previous)
        then (
          ok (revision shard rel previous previous false (trailers t meta (sha256 cfg.content))),
          s,
        )
        else write_config repo shard rel abs (or_blank (D.head repo s)) previous s

    -- `done`: is the context done? `cancelled` is its error.
    pub save : Store → Bool → GoError → Exec Revision
    unfolding save_at open_or_init repo_path config_path
    save store true cancelled s = (err cancelled, s)
    save store false cancelled s =
        let (repo, shard) =
          repo_path fnv32a store.base_path store.shard_strategy store.strategy_name
            store.shard_count t in
        (do
          act (D.make_dirs repo)
          open_or_init repo
          paths ← lift (config_path repo t)
          save_at repo shard paths)
          s
