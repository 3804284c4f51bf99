-- ===== src/GitStore/Saves.antt =====
-- gitstore/store.go: what Save does to the files of the disk.
use go_xidized.Prelude.{
  ℕ, ◌≡◌, ◌≢◌, All, refl, sym, ap, ◌∙◌, Bool, true, false, ◌&&◌, not, Text, codes, is_empty,
  text_eq, text_eq_iff, List, [], ◌∷◌, ◌++◌, Option, none, some, arith, Bool-cases, inl, inr,
}
use go_xidized.Types.{Time, Target, RedactedConfig, CommitMeta, Revision}
use go_xidized.Types.Errors.{Result, ok, err, GoError}
use go_xidized.GitStore.Paths.{FilePath, is_git, sanitize, repo_path, drop_last}
use go_xidized.GitStore.Paths.Names.{config_path-ok, config-is_git}
use go_xidized.GitStore.Commits.{or_blank, commit_message}
use go_xidized.GitStore.{
  Disk, Store, each, commit_config, CommitAnswer, committed, empty_commit, commit_failed,
  OpenAnswer, opened, not_exists, open_failed, slashes, act, answered, continue, lift, on_open,
  open_or_init, on_commit, write_config, save_at, save, latest_commit_for_file,
}

-- The text of a file; one that cannot be read counts as empty.
abbrev pub contents : (D : Disk) → D.State → FilePath → Text
contents D s p = or_blank (D.read_file p s)

-- What the code relies on, where no two paths name one file: a file that was written is read back, no other file changes with it, making
-- directories changes none, and the calls on a repository change files of its `.git` only.
pub record IsLawful (D : Disk) : Type 0 where
  pub contents-write :
      (p : FilePath) (c : Text) (s : D.State)
      → (D.write_file p c s).0 ≡ none
      → contents D (D.write_file p c s).1 p ≡ c
  pub contents-write-ne :
      (p q : FilePath) (c : Text) (s : D.State)
      → q ≢ p
      → contents D (D.write_file p c s).1 q ≡ contents D s q
  pub contents-make_dirs :
      (p q : FilePath) (s : D.State) → contents D (D.make_dirs p s).1 q ≡ contents D s q
  pub contents-init_repo :
      (p q : FilePath) (s : D.State)
      → is_git p q ≡ false
      → contents D (D.init_repo p s).1 q ≡ contents D s q
  pub contents-stage :
      (p q : FilePath) (r : Text) (s : D.State)
      → is_git p q ≡ false
      → contents D (D.stage p r s).1 q ≡ contents D s q
  pub contents-commit :
      (p q : FilePath) (m : Text) (s : D.State)
      → is_git p q ≡ false
      → contents D (D.commit p m s).1 q ≡ contents D s q

module _ (D : Disk) (sha256 : Text → Text) (fnv32a : Text → ℕ) where
  -- The action leaves a file as it is.
  abbrev Keeps : {A : Type 0} → FilePath → (D.State → Result A × D.State) → Type 0
  Keeps q m = (s : D.State) → contents D (m s).1 q ≡ contents D s q

  continue-Keeps :
      {A B : Type 0} (q : FilePath) (r : Result A × D.State) (f : A → D.State → Result B × D.State)
      → ((a : A) → Keeps q (f a))
      → contents D (continue D sha256 fnv32a r f).1 q ≡ contents D r.1 q
  continue-Keeps q (ok a, s) f k = k a s
  continue-Keeps q (err e, s) f k = refl

  bind-Keeps :
      {A B : Type 0} (q : FilePath) (m : D.State → Result A × D.State)
      (f : A → D.State → Result B × D.State)
      → Keeps q m
      → ((a : A) → Keeps q (f a))
      → Keeps q (λ s. continue D sha256 fnv32a (m s) f)
  bind-Keeps q m f h k s = continue-Keeps q (m s) f k ∙ h s

  act-Keeps :
      (q : FilePath) (f : D.State → Option GoError × D.State)
      → ((s : D.State) → contents D (f s).1 q ≡ contents D s q)
      → Keeps q (act D sha256 fnv32a f)
  act-Keeps q f k s = answered_state (f s) ∙ k s
    where
      answered_state :
          (r : Option GoError × D.State)
          → contents D (answered D sha256 fnv32a r).1 q ≡ contents D r.1 q
      answered_state (none, s') = refl
      answered_state (some e, s') = refl

  each-Keeps :
      (q : FilePath) (fs : List (D.State → Option GoError × D.State))
      → All (λ f. (s : D.State) → contents D (f s).1 q ≡ contents D s q) fs
      → Keeps q (each D sha256 fnv32a fs)
  unfolding each
  each-Keeps q [] h s = refl
  each-Keeps q (f ∷ fs) (h, hs) s =
      continue-Keeps q (act D sha256 fnv32a f s) (λ _. each D sha256 fnv32a fs)
        (λ _. each-Keeps q fs hs)
      ∙ act-Keeps q f h s

  -- The actions before the commit.
  abbrev writes : FilePath → Text → FilePath → Text → List (D.State → Option GoError × D.State)
  writes abs c repo path = D.make_dirs (drop_last abs) ∷ D.write_file abs c ∷ D.stage repo path ∷ []

  -- An action that succeeds ends where it ends, with no error.
  act-ok :
      (f : D.State → Option GoError × D.State) (s : D.State) {s' : D.State} {u : Unit {0}}
      → act D sha256 fnv32a f s ≡ (ok u, s')
      → ((f s).0 ≡ none) × ((f s).1 ≡ s')
  act-ok f s e = answered_ok (f s) e
    where
      answered_ok :
          (r : Option GoError × D.State) {s' : D.State} {u : Unit {0}}
          → answered D sha256 fnv32a r ≡ (ok u, s')
          → (r.0 ≡ none) × (r.1 ≡ s')
      answered_ok (none, s₁) h = (refl, cc)
      answered_ok (some x, s₁) h = cc

  continue-ok :
      {A B : Type 0} (r : Result A × D.State) (f : A → D.State → Result B × D.State) {b : B}
      {s' : D.State}
      → continue D sha256 fnv32a r f ≡ (ok b, s')
      → (a : A) × (s₁ : D.State) × (r ≡ (ok a, s₁)) × (f a s₁ ≡ (ok b, s'))
  continue-ok (ok a, s) f h = (a, s, refl, h)
  continue-ok (err e, s) f h = cc

  module _ (L : IsLawful D) where
    open_or_init-Keeps :
        (q repo : FilePath) → is_git repo q ≡ false → Keeps q (open_or_init D sha256 fnv32a repo)
    unfolding open_or_init on_open
    open_or_init-Keeps q repo g s = by_answer (D.open_repo repo s)
      where
        by_answer :
            (o : OpenAnswer) → contents D (on_open D sha256 fnv32a repo o s).1 q ≡ contents D s q
        by_answer opened = refl
        by_answer not_exists =
            act-Keeps q (D.init_repo repo) (λ s. L.contents-init_repo repo q s g) s
        by_answer (open_failed e) = refl

    module _ (now : Time) (t : Target) (cfg : RedactedConfig) (meta : CommitMeta) where
      on_commit-state :
          (repo : FilePath) (shard : Text) (rel : FilePath) (parent previous : Text)
          (r : CommitAnswer × D.State)
          → (on_commit D sha256 fnv32a now t cfg meta repo shard rel parent previous r).1 ≡ r.1
      unfolding on_commit
      on_commit-state repo shard rel parent previous (committed h, s) = refl
      on_commit-state repo shard rel parent previous (empty_commit, s) = refl
      on_commit-state repo shard rel parent previous (commit_failed e, s) = refl

      on_commit-ok :
          (repo : FilePath) (shard : Text) (rel : FilePath) (parent previous : Text)
          (r : CommitAnswer × D.State) {rev : Revision} {s' : D.State}
          → on_commit D sha256 fnv32a now t cfg meta repo shard rel parent previous r ≡ (ok rev, s')
          → (r.1 ≡ s') × (rev.content_sha256 ≡ sha256 cfg.content)
      unfolding on_commit
      on_commit-ok repo shard rel parent previous (committed h, s) e = (cc, cc)
      on_commit-ok repo shard rel parent previous (empty_commit, s) e = (cc, cc)
      on_commit-ok repo shard rel parent previous (commit_failed x, s) e = cc

      commit_config-Keeps :
          (q repo : FilePath) (shard : Text) (rel : FilePath) (parent previous : Text)
          → is_git repo q ≡ false
          → Keeps q (commit_config D sha256 fnv32a now t cfg meta repo shard rel parent previous)
      unfolding commit_config
      commit_config-Keeps q repo shard rel parent previous g s =
          ap (λ x. contents D x q) (on_commit-state repo shard rel parent previous _)
          ∙ L.contents-commit repo q (commit_message t meta (sha256 cfg.content)) s g

      write_config-Keeps :
          (q repo : FilePath) (shard : Text) (rel abs : FilePath) (parent previous : Text)
          → q ≢ abs
          → is_git repo q ≡ false
          → Keeps q (write_config D sha256 fnv32a now t cfg meta repo shard rel abs parent previous)
      unfolding write_config
      write_config-Keeps q repo shard rel abs parent previous h g s =
          let fs = writes abs cfg.content repo (slashes rel) in
          continue-Keeps q (each D sha256 fnv32a fs s) _
            (λ _. commit_config-Keeps q repo shard rel parent previous g)
          ∙ each-Keeps q fs
              (
                L.contents-make_dirs (drop_last abs) q,
                (
                  (λ s. L.contents-write-ne abs q cfg.content s h),
                  ((λ s. L.contents-stage repo q (slashes rel) s g), tt),
                ),
              )
              s

      writes-contents :
          (repo : FilePath) (path : Text) (abs : FilePath) (s : D.State) {s' : D.State}
          {u : Unit {0}}
          → is_git repo abs ≡ false
          → each D sha256 fnv32a (writes abs cfg.content repo path) s ≡ (ok u, s')
          → contents D s' abs ≡ cfg.content
      unfolding each
      writes-contents repo path abs s {s'} g e =
          let (_, s₁, e₁, r₁) =
            continue-ok (act D sha256 fnv32a (D.make_dirs (drop_last abs)) s) _ e in
          let (_, s₂, e₂, r₂) =
            continue-ok (act D sha256 fnv32a (D.write_file abs cfg.content) s₁) _ r₁ in
          let (_, s₃, e₃, r₃) = continue-ok (act D sha256 fnv32a (D.stage repo path) s₂) _ r₂ in
          let (written, at₂) = act-ok (D.write_file abs cfg.content) s₁ e₂ in
          let (staged, at₃) = act-ok (D.stage repo path) s₂ e₃ in
          let last : s₃ ≡ s' = cc in
          let there : D.State → Text = λ x. contents D x abs in
          ap there (sym last)
          ∙ (ap there (sym at₃)
              ∙ (L.contents-stage repo abs path s₂ g
                  ∙ (ap there (sym at₂) ∙ L.contents-write abs cfg.content s₁ written)))

      Stores : FilePath → Result Revision × D.State → Type 0
      Stores abs r =
          (rev : Revision) (s' : D.State)
          → r ≡ (ok rev, s')
          → (contents D s' abs ≡ cfg.content) × (rev.content_sha256 ≡ sha256 cfg.content)

      write_config-Stores :
          (repo : FilePath) (shard : Text) (rel abs : FilePath) (parent previous : Text)
          (s : D.State)
          → is_git repo abs ≡ false
          → Stores abs
              (write_config D sha256 fnv32a now t cfg meta repo shard rel abs parent previous s)
      unfolding write_config commit_config Stores
      write_config-Stores repo shard rel abs parent previous s g rev s' e =
          let fs = writes abs cfg.content repo (slashes rel) in
          let (_, s₁, e₁, r₁) = continue-ok (each D sha256 fnv32a fs s) _ e in
          let (at, sha) = on_commit-ok repo shard rel parent previous _ r₁ in
          (
            ap (λ x. contents D x abs) (sym at)
                ∙ (L.contents-commit repo abs (commit_message t meta (sha256 cfg.content)) s₁ g
                    ∙ writes-contents repo (slashes rel) abs s g e₁),
            sha,
          )

      both_true : (a b : Bool) → a && b ≡ true → (a ≡ true) × (b ≡ true)
      both_true a b h = ground arith

      save_at-Keeps :
          (q repo : FilePath) (shard : Text) (rel abs : FilePath)
          → q ≢ abs
          → is_git repo q ≡ false
          → Keeps q (save_at D sha256 fnv32a now t cfg meta repo shard (rel, abs))
      unfolding save_at
      save_at-Keeps q repo shard rel abs h g s =
          let previous = latest_commit_for_file D sha256 fnv32a repo (slashes rel) s in
          elim (Bool-cases
            (text_eq (or_blank (D.read_file abs s)) cfg.content && not (is_empty previous))) [
              | inl same ↦ rw same refl
              | inr differs ↦ rw differs (
                  write_config-Keeps q repo shard rel abs (or_blank (D.head repo s)) previous h g s)
            ]

      save_at-Stores :
          (repo : FilePath) (shard : Text) (rel abs : FilePath) (s : D.State)
          → is_git repo abs ≡ false
          → Stores abs (save_at D sha256 fnv32a now t cfg meta repo shard (rel, abs) s)
      unfolding save_at Stores
      save_at-Stores repo shard rel abs s g rev s' =
          let previous = latest_commit_for_file D sha256 fnv32a repo (slashes rel) s in
          elim (Bool-cases
            (text_eq (or_blank (D.read_file abs s)) cfg.content && not (is_empty previous))) [
              | inl same ↦ rw same λ e.
                  let there = (text_eq_iff _ cfg.content).0 (both_true _ _ same).0 in
                  let at : s ≡ s' = cc in (ap (λ x. contents D x abs) (sym at) ∙ there, cc)
              | inr differs ↦ rw differs (
                  write_config-Stores repo shard rel abs (or_blank (D.head repo s)) previous s g rev
                    s')
            ]

      -- The repository of the target's shard.
      abbrev pub repo_of : Store → FilePath
      repo_of store =
          (repo_path fnv32a store.base_path store.shard_strategy store.strategy_name
            store.shard_count t).0

      -- The one file of a target.
      abbrev pub config_file : Store → FilePath
      config_file store =
          repo_of store ++ (sanitize t.vendor ∷ (sanitize t.id ++ codes ".cfg") ∷ [])

      lift-Keeps : {A : Type 0} (q : FilePath) (r : Result A) → Keeps q (lift D sha256 fnv32a r)
      lift-Keeps q r s = refl

      -- Outside the `.git` directory of the repository of the target's shard, Save changes one file at
      -- most, also where it fails: the file of the target, in that repository, under its vendor and id.
      -- Where it succeeds, the file holds the configuration, and the revision has its hash. The disk is
      -- one whose writes are read back and change no other file, and whose calls on a repository change
      -- files in its `.git` only.
      pub save-refines :
          (store : Store) (done : Bool) (cancelled : GoError) (s : D.State)
          → ((q : FilePath)
              → q ≢ config_file store
              → is_git (repo_of store) q ≡ false
              → contents D (save D sha256 fnv32a now t cfg meta store done cancelled s).1 q
                ≡ contents D s q)
            × ((rev : Revision) (s' : D.State)
                → save D sha256 fnv32a now t cfg meta store done cancelled s ≡ (ok rev, s')
                → (contents D s' (config_file store) ≡ cfg.content)
                  × (rev.content_sha256 ≡ sha256 cfg.content))
      unfolding save Stores
      save-refines store true cancelled s = ((λ q h g. refl), λ rev s' e. cc)
      save-refines store false cancelled s =
          let r =
            repo_path fnv32a store.base_path store.shard_strategy store.strategy_name
              store.shard_count t in
          let file = sanitize t.vendor ∷ (sanitize t.id ++ codes ".cfg") ∷ [] in
          rw (config_path-ok r.0 t) (
            (λ q h g.
                continue-Keeps q (act D sha256 fnv32a (D.make_dirs r.0) s) _ (λ _ s₁.
                  continue-Keeps q (open_or_init D sha256 fnv32a r.0 s₁) _
                    (λ _. save_at-Keeps q r.0 r.1 file (r.0 ++ file) h g)
                  ∙ open_or_init-Keeps q r.0 g s₁)
                ∙ act-Keeps q (D.make_dirs r.0) (L.contents-make_dirs r.0 q) s),
            λ rev s' e.
                let (_, s₁, e₁, r₁) = continue-ok (act D sha256 fnv32a (D.make_dirs r.0) s) _ e in
                let (_, s₂, e₂, r₂) = continue-ok (open_or_init D sha256 fnv32a r.0 s₁) _ r₁ in
                save_at-Stores r.0 r.1 file (r.0 ++ file) s₂
                  (config-is_git r.0 t (sanitize t.id ++ codes ".cfg")) rev s' r₂,
          )
