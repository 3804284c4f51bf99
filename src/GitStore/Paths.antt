-- ===== src/GitStore/Paths.antt =====
-- internal/storage/gitstore/store.go: shards, file names and paths. A path is the list of its
-- components, from the root on, as `filepath.Clean` leaves them; `filepath.Abs` gives no error for one.
pub mod Names
use go_xidized.Prelude.{
  ℕ, suc, ◌%◌, ◌^◌, ◌≡◌, Bool, true, false, ◌&&◌, ◌||◌, Text, codes, is_empty, text_eq, List, [],
  ◌∷◌, ◌++◌, Option, none, some, if◌then◌else◌, leb, ◌==◌, ℤ, pos, lebℤ, pos_part,
}
use go_xidized.Prelude.Strings.{split, trim_space}
use go_xidized.Prelude.Strings.Parts.{trim, itoa}
use go_xidized.Types.{Target}
use go_xidized.Types.Errors.{Result, ok, err, plain}

-- The constants of `ShardStrategy`, and any other text.
pub data ShardStrategy : Type 0 where
  by_region by_site by_vendor by_role by_hash other : ShardStrategy

abbrev pub FilePath : Type 0
FilePath = List Text

unfoldable pub value_or_default : Text → Text → Text
unfolding trim_space
value_or_default v def = if is_empty (trim_space v) then def else v

-- The characters of `[a-zA-Z0-9._-]`
unfoldable pub is_name_char : ℕ → Bool
is_name_char c =
    (leb b'a' c && leb c b'z')
    || (leb b'A' c && leb c b'Z')
    || (leb b'0' c && leb c b'9')
    || c == b'.'
    || c == b'_'
    || c == b'-'

abbrev pub is_edge : ℕ → Bool
is_edge c = c == b'.' || c == b'_' || c == b'-'

-- Each run of other characters becomes one `_`; the flag says that the text before ends in a run.
unfoldable pub replace_runs : Bool → Text → Text
unfolding is_name_char
replace_runs in_run [] = []
replace_runs in_run (c ∷ s) =
    let keep = c ∷ replace_runs false s in
    let run = replace_runs true s in
    if is_name_char c then keep else if in_run then run else b'_' ∷ run

abbrev or_default : Text → Text
or_default v = if is_empty v then codes "default" else v

unfoldable pub sanitize : Text → Text
unfolding replace_runs trim trim_space
sanitize v = or_default (trim is_edge (replace_runs false (trim_space v)))

abbrev region_of : List (Text × Text) → Text
region_of [] = []
region_of ((k, v) ∷ m) = if text_eq k (codes "region") then v else region_of m

-- `fnv32a` is the hash of a text. The count becomes a uint32; one that is a multiple of `2 ^ 32`, at
-- which the source divides by zero, is left out.
unfoldable pub shard_key : (Text → ℕ) → Target → ShardStrategy → ℤ → Text
unfolding value_or_default itoa
shard_key fnv32a t by_region count =
    if is_empty (region_of t.metadata)
    then value_or_default t.site (codes "default")
    else region_of t.metadata
shard_key fnv32a t by_site count = value_or_default t.site (codes "default")
shard_key fnv32a t by_vendor count = value_or_default t.vendor (codes "default")
shard_key fnv32a t by_role count = value_or_default t.role (codes "default")
shard_key fnv32a t by_hash count =
    let n = if lebℤ count (pos 0) then 1 else pos_part count % 2 ^ 32 in
    codes "shard-" ++ itoa (pos (fnv32a t.id % n))
shard_key fnv32a t other count = codes "default"

abbrev pub drop_last : FilePath → FilePath
drop_last [] = []
drop_last (p ∷ []) = []
drop_last (p ∷ q ∷ ps) = p ∷ drop_last (q ∷ ps)

-- One component after a clean path.
abbrev step_into : FilePath → Text → FilePath
step_into path p =
    if is_empty p || text_eq p (codes ".")
    then path
    else if text_eq p (codes "..")
    then drop_last path
    else path ++ (p ∷ [])

abbrev walk : FilePath → List Text → FilePath
walk path [] = path
walk path (p ∷ ps) = walk (step_into path p) ps

-- `filepath.Join(path, part)`
unfoldable pub join_path : FilePath → Text → FilePath
unfolding split
join_path path p = walk path (split (λ c. c == b'/') p)

abbrev is_below : FilePath → FilePath → Bool
is_below [] path = true
is_below (d ∷ dir) [] = false
is_below (d ∷ dir) (p ∷ path) = text_eq d p && is_below dir path

-- The files of the git library stand in here.
abbrev pub git_dir : FilePath → FilePath
git_dir repo = repo ++ (codes ".git" ∷ [])

abbrev pub is_git : FilePath → FilePath → Bool
is_git repo q = is_below (git_dir repo) q

-- The strategy's text is a parameter.
unfoldable pub repo_path :
    (Text → ℕ) → FilePath → ShardStrategy → Text → ℤ → Target → FilePath × Text
unfolding join_path sanitize shard_key
repo_path fnv32a base strategy name count t =
    let shard = sanitize (shard_key fnv32a t strategy count) in
    (join_path (join_path base (sanitize name)) shard, shard)

-- The path in the repository and the whole one, or the error of a path that leaves the repository.
unfoldable pub config_path : FilePath → Target → Result (FilePath × FilePath)
unfolding join_path sanitize
config_path repo t =
    let rel = join_path (join_path [] (sanitize t.vendor)) (sanitize t.id ++ codes ".cfg") in
    let abs = join_path (join_path repo (sanitize t.vendor)) (sanitize t.id ++ codes ".cfg") in
    if is_below repo abs
    then ok (rel, abs)
    else err (plain (codes "resolved path escapes repository root"))
