-- ===== src/GitStore/Commits.antt =====
-- gitstore/store.go: a file's commits, and the message of a commit.
use go_xidized.Prelude.{
  ℕ, suc, Bool, true, false, ◌||◌, Text, codes, text_eq, List, [], ◌∷◌, ◌++◌, Option, none, some,
  if◌then◌else◌, ◌==◌, ℤ, pos, lebℤ, any,
}
use go_xidized.Prelude.Strings.{join}
use go_xidized.Types.{Time, Target, CommitMeta}

-- A commit, with the files of its tree and the names in the patch from its first parent; `none` is an
-- error.
pub record Commit : Type 0 where
  pub hash : Text
  pub when : Time
  pub parents : ℕ
  pub file : Text → Option Text
  pub patch : Option (List (Option Text × Option Text))

abbrev pub or_blank : Option Text → Text
or_blank none = []
or_blank (some s) = s

abbrev name_is : Text → Option Text → Bool
name_is path none = false
name_is path (some s) = text_eq s path

abbrev names_file : Text → List (Option Text × Option Text) → Bool
names_file path = any λ (from, to). name_is path from || name_is path to

abbrev is_some : Option Text → Bool
is_some none = false
is_some (some s) = true

unfoldable pub touched_file : Text → Commit → Bool
touched_file path c =
    if c.parents == 0
    then is_some (c.file path)
    else elim c.patch [ none ↦ false | some fs ↦ names_file path fs ]

unfoldable pub find_commit : Text → List Commit → Text
unfolding touched_file
find_commit path [] = []
find_commit path (c ∷ cs) =
    let rest = find_commit path cs in if touched_file path c then c.hash else rest

-- The loop of `History` over the commits left; `n` revisions are found so far.
unfoldable pub history_loop : ℤ → Text → ℕ → List Commit → List Commit
unfolding touched_file
history_loop limit path n [] = []
history_loop limit path n (c ∷ cs) =
    let found = c ∷ history_loop limit path (suc n) cs in
    let skipped = history_loop limit path n cs in
    if lebℤ limit (pos n) then [] else if touched_file path c then found else skipped

unfoldable pub commit_message : Target → CommitMeta → Text → Text
unfolding join
commit_message t meta sha =
    join (codes "\n") (
      (codes "backup " ++ t.id)
      ∷ []
      ∷ (codes "Target-ID: " ++ t.id)
      ∷ (codes "Vendor: " ++ t.vendor)
      ∷ (codes "Trigger: " ++ meta.trigger)
      ∷ (codes "Actor: " ++ meta.actor)
      ∷ (codes "Job-ID: " ++ meta.job_id)
      ∷ (codes "Ruleset-Version: " ++ meta.ruleset_version)
      ∷ (codes "Content-SHA256: " ++ sha)
      ∷ [])
    ++ codes "\n"

abbrev pub trailers : Target → CommitMeta → Text → List (Text × Text)
trailers t meta sha =
    (codes "Target-ID", t.id)
    ∷ (codes "Vendor", t.vendor)
    ∷ (codes "Trigger", meta.trigger)
    ∷ (codes "Actor", meta.actor)
    ∷ (codes "Job-ID", meta.job_id)
    ∷ (codes "Ruleset-Version", meta.ruleset_version)
    ∷ (codes "Content-SHA256", sha)
    ∷ []
