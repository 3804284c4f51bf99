-- ===== src/GitStore/Reads.antt =====
-- gitstore/store.go: Latest, History and Diff, which write nothing.
use go_xidized.Prelude.{
  ℕ, Bool, false, Text, codes, is_empty, List, [], ◌∷◌, ◌++◌, Option, none, some, if◌then◌else◌, ℤ,
  pos, lebℤ,
}
use go_xidized.Types.{Time, RedactedConfig, Revision, DiffResult}
use go_xidized.Types.Errors.{Result, ok, err, GoError, plain}
use go_xidized.Pipeline.Diff.{unified_diff}
use go_xidized.GitStore.Commits.{Commit, or_blank, history_loop}
use go_xidized.GitStore.Paths.{FilePath, sanitize, drop_last}
use go_xidized.GitStore.{
  Disk, Store, OpenAnswer, opened, not_exists, open_failed, slashes, latest_commit_for_file,
}

abbrev last_two : FilePath → FilePath
last_two [] = []
last_two (p ∷ []) = p ∷ []
last_two (p ∷ q ∷ []) = p ∷ q ∷ []
last_two (p ∷ q ∷ r ∷ ps) = last_two (q ∷ r ∷ ps)

module _ (D : Disk) (sha256 : Text → Text) (fnv32a : Text → ℕ) where
  -- The repository and the path in it of the first file that has the target's name.
  pub located : Option (List FilePath) → Result (FilePath × FilePath)
  located none = err (plain (codes "syntax error in pattern"))
  located (some []) = err (plain (codes "file does not exist"))
  located (some (f ∷ fs)) = ok (drop_last (drop_last f), last_two f)

  locate_target_file : Store → Text → D.State → Result (FilePath × FilePath)
  unfolding located sanitize
  locate_target_file store id s = located (D.glob store.base_path (sanitize id ++ codes ".cfg") s)

  or_missing : Option Text → Result Text
  or_missing none = err (plain (codes "file does not exist"))
  or_missing (some c) = ok c

  -- Opening a repository that is there.
  abbrev plain_open : OpenAnswer → Result (Unit {0})
  plain_open opened = ok tt
  plain_open not_exists = err (plain (codes "repository does not exist"))
  plain_open (open_failed e) = err e

  infixl 5 ◌then_ok◌
  abbrev ◌then_ok◌ : {A B : Type 0} → Result A → (A → Result B) → Result B
  ok a then_ok f = f a
  err e then_ok f = err e

  pub latest : Time → Store → Text → D.State → Result (RedactedConfig × Revision)
  unfolding locate_target_file or_missing latest_commit_for_file
  latest now store id s = locate_target_file store id s then_ok λ (repo, rel).
      or_missing (D.read_file (repo ++ rel) s) then_ok λ content.
      plain_open (D.open_repo repo s) then_ok λ _.
      let found = latest_commit_for_file D sha256 fnv32a repo (slashes rel) s in
      let head = if is_empty found then or_blank (D.head repo s) else found in
      ok (
        record { target_id = id; content = content },
        record {
          id = head;
          target_id = id;
          shard = [];
          path = slashes rel;
          content_sha256 = sha256 content;
          commit_sha = head;
          parent_commit = [];
          created_at = now;
          changed = false;
          commit_trailers = [];
        },
      )

  abbrev or_log_failed : Option (List Commit) → Result (List Commit)
  or_log_failed none = err (plain (codes "reference not found"))
  or_log_failed (some cs) = ok cs

  -- The commits that the revisions are made of.
  pub history : Store → Text → ℤ → D.State → Result (List Commit)
  unfolding locate_target_file history_loop
  history store id limit s = locate_target_file store id s then_ok λ (repo, rel).
      plain_open (D.open_repo repo s) then_ok λ _. or_log_failed (D.log repo s) then_ok λ cs.
      ok (history_loop (if lebℤ limit (pos 0) then pos 100 else limit) (slashes rel) 0 cs)

  -- `fileAtCommit`, for the commit that the library finds for a revision.
  abbrev file_at_commit : (Text → Option Commit) → Text → Text → Result Text
  file_at_commit commit_object path rev = elim (commit_object rev) [
    | none ↦ err (plain (codes "object not found"))
    | some c ↦ elim (c.file path) [
      | none ↦ err (plain (codes "file not found"))
      | some text ↦ ok text
    ]
  ]

  abbrev or_cancelled : GoError → Option DiffResult → Result Text
  or_cancelled cancelled none = err cancelled
  or_cancelled cancelled (some d) = ok d.unified_diff

  pub diff :
      (FilePath → D.State → Text → Option Commit)
      → Bool
      → GoError
      → Store
      → Text
      → Text
      → Text
      → D.State
      → Result Text
  unfolding locate_target_file unified_diff
  diff commit_object done cancelled store id from_rev to_rev s =
      locate_target_file store id s then_ok λ (repo, rel).
      plain_open (D.open_repo repo s) then_ok λ _.
      file_at_commit (commit_object repo s) (slashes rel) from_rev then_ok λ old.
      file_at_commit (commit_object repo s) (slashes rel) to_rev then_ok λ new.
      or_cancelled cancelled (unified_diff done id from_rev to_rev old new)
