-- ===== src/GitStore/Log.antt =====
-- gitstore/store.go: what History finds in a log.
use go_xidized.Prelude.{
  ℕ, zero, suc, ◌+◌, ◌≡◌, refl, Text, List, [], ◌∷◌, keep_if, take, arith, pos,
}
use go_xidized.GitStore.Commits.{Commit, touched_file, history_loop}

take-zero {ℓ} : {A : Type ℓ} (xs : List A) → take 0 xs ≡ []
take-zero [] = refl
take-zero (x ∷ xs) = refl

history_loop_from :
    (left n limit : ℕ) (path : Text) (cs : List Commit)
    → limit ≡ n + left
    → history_loop (pos limit) path n cs ≡ take left (keep_if (touched_file path) cs)
unfolding history_loop
history_loop_from left n limit path [] e = refl
history_loop_from zero n limit path (c ∷ cs) e =
    ground (arith, take-zero (keep_if (touched_file path) (c ∷ cs)))
history_loop_from (suc left) n limit path (c ∷ cs) e = ground (
  arith,
  history_loop_from left (suc n) limit path cs,
  history_loop_from (suc left) n limit path cs,
)

-- History gives the newest commits that touch the file, as many as the limit.
pub history_loop-take :
    (limit : ℕ) (path : Text) (cs : List Commit)
    → history_loop (pos limit) path 0 cs ≡ take limit (keep_if (touched_file path) cs)
history_loop-take limit path cs = history_loop_from limit 0 limit path cs (omega arith)
