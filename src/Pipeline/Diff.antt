-- ===== src/Pipeline/Diff.antt =====
-- internal/pipeline/diff.go: the line diff of two configurations.
pub mod Script
use go_xidized.Prelude.{
  ℕ, zero, suc, ◌+◌, Bool, true, false, Text, codes, text_eq, is_empty, ◌==◌, ◌&&◌, if◌then◌else◌,
  List, [], ◌∷◌, ◌++◌, map, Option, none, some, total, ◌≡◌, refl,
}
use go_xidized.Prelude.Strings.{split, join}
use go_xidized.Types.{DiffResult}
use go_xidized.Pipeline.Risk.{classify_risk}

-- `strings.ReplaceAll(s, "\r\n", "\n")`
unfoldable pub unify_newlines : Text → Text
unify_newlines [] = []
unify_newlines (c ∷ []) = c ∷ []
unify_newlines (c ∷ d ∷ s) =
    let rest = unify_newlines (d ∷ s) in if c == 13 && d == 10 then rest else c ∷ rest

-- `strings.TrimSuffix(s, "\n")`
unfoldable pub trim_newline : Text → Text
trim_newline [] = []
trim_newline (c ∷ []) = if c == 10 then [] else c ∷ []
trim_newline (c ∷ d ∷ s) = c ∷ trim_newline (d ∷ s)

abbrev unless_empty : Text → List Text
unless_empty [] = []
unless_empty (c ∷ s) = split (λ x. x == 10) (c ∷ s)

unfoldable pub split_lines : Text → List Text
unfolding unify_newlines trim_newline split
split_lines s = unless_empty (trim_newline (unify_newlines s))

-- Is the value among the next lines, as many as the count?
unfoldable pub contains_ahead : List Text → Text → ℕ → Bool
contains_ahead lines value zero = false
contains_ahead [] value (suc n) = false
contains_ahead (l ∷ ls) value (suc n) = if text_eq l value then true else contains_ahead ls value n

-- A line of the diff with its mark.
pub data Edit : Type 0 where
  keep add remove : Text → Edit

-- The loop over `i` and `j`, on the lines from `i` and from `j` on.
unfoldable pub diff_edits : List Text → List Text → List Edit
unfolding contains_ahead
diff_edits [] [] = []
diff_edits [] (n ∷ ns) = add n ∷ diff_edits [] ns
diff_edits (o ∷ os) [] = remove o ∷ diff_edits os []
diff_edits (o ∷ os) (n ∷ ns) = elim (text_eq o n) [
  | true ↦ keep o ∷ diff_edits os ns
  | false ↦ elim (contains_ahead (o ∷ os) n 6) [
    | true ↦ remove o ∷ diff_edits os (n ∷ ns)
    | false ↦ add n ∷ diff_edits (o ∷ os) ns
  ]
]

abbrev render : Edit → Text
render (keep l) = b' ' ∷ l
render (add l) = b'+' ∷ l
render (remove l) = b'-' ∷ l

abbrev pub is_add : Edit → ℕ
is_add (add l) = 1
is_add _ = 0

abbrev pub is_remove : Edit → ℕ
is_remove (remove l) = 1
is_remove _ = 0

-- `none` is the error of a context that is done.
unfoldable pub unified_diff : Bool → Text → Text → Text → Text → Text → Option DiffResult
unfolding split_lines diff_edits join classify_risk
unified_diff done target_id from_rev to_rev old_content new_content =
    let edits = diff_edits (split_lines old_content) (split_lines new_content) in
    let lines = (codes "--- " ++ from_rev) ∷ (codes "+++ " ++ to_rev) ∷ map render edits in
    let text = join (10 ∷ []) lines ++ 10 ∷ [] in
    let risk = classify_risk text in
    if done
    then none
    else some (record {
      target_id = target_id;
      from_revision = from_rev;
      to_revision = to_rev;
      unified_diff = text;
      added_lines = total is_add edits;
      removed_lines = total is_remove edits;
      risk = risk.max;
      categories = risk.cats;
      rule_hits = risk.hits;
    })
