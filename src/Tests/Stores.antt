-- ===== src/Tests/Stores.antt =====
-- The git store over a disk in memory, and the configuration that the program starts from.
use go_xidized.Prelude.{
  ap, subst, sym, ℕ, ◌≡◌, ◌≢◌, ◌↔◌, refl, Bool, true, false, ◌&&◌, Text, codes, text_eq,
  text_eq_iff, List, [], ◌∷◌, ◌++◌, Option, none, some, if◌then◌else◌, inl, inr, Bool-cases, length,
  pos, arith, text_eq_refl,
}
use go_xidized.Types.{Target, RedactedConfig, CommitMeta, Revision, none}
use go_xidized.Types.Errors.{ok, plain, GoError}
use go_xidized.Inventory.Router.{router_target}
use go_xidized.GitStore.{Disk, Store, committed, not_exists, save}
use go_xidized.GitStore.Commits.{Commit, or_blank}
use go_xidized.GitStore.Paths.{FilePath, git_dir, is_git, by_role, sanitize, config_path}
use go_xidized.GitStore.Paths.Names.{config_path-ok, is_below-append}
use go_xidized.GitStore.Saves.{IsLawful, contents, repo_of, config_file, save-refines}
use go_xidized.Settings.Defaults.{default_config}
use go_xidized.Settings.Validation.{validate}
use go_xidized.Settings.Validation.Usable.{IsUsable, validate_iff}

abbrev same_path : FilePath → FilePath → Bool
same_path [] [] = true
same_path [] (q ∷ qs) = false
same_path (p ∷ ps) [] = false
same_path (p ∷ ps) (q ∷ qs) = text_eq p q && same_path ps qs

same_path_refl : (p : FilePath) → same_path p p ≡ true
same_path_refl [] = refl
same_path_refl (p ∷ ps) = rw (text_eq_refl p) (same_path_refl ps)

both_true : (a b : Bool) → a && b ≡ true → (a ≡ true) × (b ≡ true)
both_true a b h = ground arith

same_path_eq : (p q : FilePath) → same_path p q ≡ true → p ≡ q
same_path_eq [] [] h = refl
same_path_eq [] (q ∷ qs) h = cc
same_path_eq (p ∷ ps) [] h = cc
same_path_eq (p ∷ ps) (q ∷ qs) h =
    let (a, b) = both_true _ _ h in
    let first = (text_eq_iff p q).0 a in let rest = same_path_eq ps qs b in cc

abbrev written : FilePath → Text → (FilePath → Option Text) → FilePath → Option Text
written p c s q = if same_path p q then some c else s q

-- A file of the git library.
abbrev git_file : FilePath → Text → FilePath
git_file repo name = git_dir repo ++ (name ∷ [])

-- A disk whose repositories are all new and whose every call succeeds. The calls on a repository write
-- files of its own.
abbrev memory : Disk
memory = record {
  State = FilePath → Option Text;
  make_dirs = λ p s. (none, s);
  open_repo = λ p s. not_exists;
  init_repo = λ p s. (none, written (git_file p (codes "HEAD")) (codes "ref: main") s);
  read_file = λ p s. s p;
  write_file = λ p c s. (none, written p c s);
  stage = λ p path s. (none, written (git_file p (codes "index")) path s);
  commit = λ p m s. (committed (codes "c1"), written (git_file p (codes "c1")) m s);
  head = λ p s. none;
  log = λ p s. none;
  glob = λ p name s. none;
}

written-git :
    (repo q : FilePath) (name c : Text) (s : FilePath → Option Text)
    → is_git repo q ≡ false
    → written (git_file repo name) c s q ≡ s q
written-git repo q name c s h = elim (Bool-cases (same_path (git_file repo name) q)) [
  | inl same ↦
      let below = is_below-append (git_dir repo) (name ∷ []) in
      let at : is_git repo q ≡ true =
        subst (λ p. is_git repo p ≡ true) (same_path_eq (git_file repo name) q same) below in
      cc
  | inr other ↦ rw other refl
]

memory-IsLawful : IsLawful memory
memory-IsLawful = record {
  contents-write = λ p c s h. rw (same_path_refl p) refl;
  contents-write-ne = λ p q c s h. elim (Bool-cases (same_path p q)) [
    | inl same ↦ absurd (h (sym (same_path_eq p q same)))
    | inr other ↦ rw other refl
  ];
  contents-make_dirs = λ p q s. refl;
  contents-init_repo = λ p q s h. ap or_blank (written-git p q _ _ s h);
  contents-stage = λ p q r s h. ap or_blank (written-git p q _ _ s h);
  contents-commit = λ p q m s h. ap or_blank (written-git p q _ _ s h);
}

abbrev own_hash : Text → Text
own_hash t = t

abbrev own_number : Text → ℕ
own_number t = length t

-- Its vendor and its id would leave the repository if they stood in a path as they are.
abbrev climber : Target
climber =
    router_target (codes "../../r1") (codes "..") (codes "10.0.0.1") (codes "core") (codes "env") []
      []

abbrev config : RedactedConfig
config = record { target_id = codes "../../r1"; content = codes "hostname r1" }

abbrev meta : CommitMeta
meta = record {
  job_id = codes "j1";
  trigger = codes "api";
  actor = codes "ana";
  ruleset_version = codes "v1";
  redaction_report = record { secrets_found = 0; categories = []; fingerprints = [] };
  risk = none;
  device_metadata = [];
}

abbrev base : FilePath
base = codes "data" ∷ codes "repos" ∷ []

abbrev store : Store
store = record {
  base_path = base;
  shard_strategy = by_role;
  strategy_name = codes "role";
  shard_count = pos 0;
}

abbrev blank_disk : FilePath → Option Text
blank_disk p = none

abbrev gone : GoError
gone = plain (codes "context canceled")

save-refines_example :
    ((q : FilePath)
      → q ≢ config_file memory own_hash own_number memory-IsLawful 1 climber config meta store
      → is_git (repo_of memory own_hash own_number memory-IsLawful 1 climber config meta store) q
        ≡ false
      → contents memory
          (save memory own_hash own_number 1 climber config meta store false gone blank_disk).1
          q
        ≡ [])
    × ((rev : Revision) (s' : FilePath → Option Text)
        → save memory own_hash own_number 1 climber config meta store false gone blank_disk
          ≡ (ok rev, s')
        → (contents memory s'
              (config_file memory own_hash own_number memory-IsLawful 1 climber config meta store)
            ≡ codes "hostname r1")
          × (rev.content_sha256 ≡ codes "hostname r1"))
save-refines_example =
    save-refines memory own_hash own_number memory-IsLawful 1 climber config meta store false gone
      blank_disk

config_path-ok_example :
    config_path base climber
    ≡ ok (
      sanitize (codes "..") ∷ (sanitize (codes "../../r1") ++ codes ".cfg") ∷ [],
      base ++ (sanitize (codes "..") ∷ (sanitize (codes "../../r1") ++ codes ".cfg") ∷ []),
    )
config_path-ok_example = config_path-ok base climber

-- Ids that differ share a file.
sanitize_not_injective : sanitize (codes "a/b") ≡ sanitize (codes "a_b")
unfolding sanitize
sanitize_not_injective = refl

abbrev commit_of : Text → Bool → Commit
commit_of hash touches = record {
  hash = hash;
  when = 0;
  parents = 1;
  file = λ p. none;
  patch = some (if touches then (none, some (codes "eos/r1.cfg")) ∷ [] else []);
}

abbrev commits : List Commit
commits =
    commit_of (codes "c3") true
    ∷ commit_of (codes "c2") false
    ∷ commit_of (codes "c1") true
    ∷ commit_of (codes "c0") true
    ∷ []

validate_iff_example : (validate default_config ≡ none) ↔ IsUsable default_config
validate_iff_example = validate_iff default_config

default_config-validate : validate default_config ≡ none
unfolding validate default_config
default_config-validate = refl
