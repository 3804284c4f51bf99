-- ===== src/Pipeline/Diff/Script.antt =====
-- diff.go: a diff as an edit script between its two sides.
use go_xidized.Prelude.{
  ◌+◌, ◌≡◌, refl, ap, ap₂, Bool, true, false, Text, text_eq, text_eq_iff, List, [], ◌∷◌, arith,
  total, length, some, sym, ◌∙◌, ◌↔◌,
}
use go_xidized.Types.{DiffResult}
use go_xidized.Pipeline.Diff.{
  Edit, keep, add, remove, diff_edits, contains_ahead, is_add, is_remove, split_lines, unified_diff,
}

-- The lines that an edit script reads, and those that it leaves.
abbrev pub old_side : List Edit → List Text
old_side [] = []
old_side (keep l ∷ es) = l ∷ old_side es
old_side (remove l ∷ es) = l ∷ old_side es
old_side (add l ∷ es) = old_side es

abbrev pub new_side : List Edit → List Text
new_side [] = []
new_side (keep l ∷ es) = l ∷ new_side es
new_side (remove l ∷ es) = new_side es
new_side (add l ∷ es) = l ∷ new_side es

abbrev pub Joins : List Edit → List Text → List Text → Type 0
Joins es os ns = (old_side es ≡ os) × (new_side es ≡ ns)

-- One round of the loop, by its two tests.
choose-Joins :
    (o : Text) (os : List Text) (n : Text) (ns : List Text) (same ahead : Bool) (k r a : List Edit)
    → (same ≡ true → o ≡ n)
    → Joins k os ns
    → Joins r os (n ∷ ns)
    → Joins a (o ∷ os) ns
    → Joins
        (elim same [
          | true ↦ keep o ∷ k
          | false ↦ elim ahead [ true ↦ remove o ∷ r | false ↦ add n ∷ a ]
        ])
        (o ∷ os)
        (n ∷ ns)
choose-Joins o os n ns true ahead k r a e hk hr ha = (ap (◌∷◌ o) hk.0, ap₂ ◌∷◌ (e refl) hk.1)
choose-Joins o os n ns false true k r a e hk hr ha = (ap (◌∷◌ o) hr.0, hr.1)
choose-Joins o os n ns false false k r a e hk hr ha = (ha.0, ap (◌∷◌ n) ha.1)

-- The edits of a diff, applied to the old lines, give the new ones: without its additions the diff
-- is the old configuration, and without its removals the new one.
pub diff_edits-Joins : (os ns : List Text) → Joins (diff_edits os ns) os ns
unfolding diff_edits
diff_edits-Joins [] [] = (refl, refl)
diff_edits-Joins [] (n ∷ ns) = let (h, k) = diff_edits-Joins [] ns in (h, ap (◌∷◌ n) k)
diff_edits-Joins (o ∷ os) [] = let (h, k) = diff_edits-Joins os [] in (ap (◌∷◌ o) h, k)
diff_edits-Joins (o ∷ os) (n ∷ ns) =
    choose-Joins o os n ns (text_eq o n) (contains_ahead (o ∷ os) n 6) _ _ _ (text_eq_iff o n).0
      (diff_edits-Joins os ns) (diff_edits-Joins os (n ∷ ns)) (diff_edits-Joins (o ∷ os) ns)

counts_balance :
    (es : List Edit)
    → length (old_side es) + total is_add es ≡ length (new_side es) + total is_remove es
counts_balance [] = refl
counts_balance (keep l ∷ es) = omega (arith, counts_balance es)
counts_balance (add l ∷ es) = omega (arith, counts_balance es)
counts_balance (remove l ∷ es) = omega (arith, counts_balance es)

unchanged_sides :
    (es : List Edit) → total is_add es ≡ 0 → total is_remove es ≡ 0 → old_side es ≡ new_side es
unchanged_sides [] a r = refl
unchanged_sides (keep l ∷ es) a r = ground (arith, unchanged_sides es)
unchanged_sides (add l ∷ es) a r = absurd (omega arith)
unchanged_sides (remove l ∷ es) a r = absurd (omega arith)

diff_edits_self :
    (ls : List Text)
    → (total is_add (diff_edits ls ls) ≡ 0) × (total is_remove (diff_edits ls ls) ≡ 0)
unfolding diff_edits
diff_edits_self [] = (refl, refl)
diff_edits_self (l ∷ ls) = ground (arith, text_eq_iff l l, diff_edits_self ls)

edits_balance :
    (os ns : List Text)
    → length os + total is_add (diff_edits os ns) ≡ length ns + total is_remove (diff_edits os ns)
edits_balance os ns = omega (
  arith,
  counts_balance (diff_edits os ns),
  ap length (diff_edits-Joins os ns).0,
  ap length (diff_edits-Joins os ns).1,
)

edits_unchanged :
    (os ns : List Text)
    → total is_add (diff_edits os ns) ≡ 0
    → total is_remove (diff_edits os ns) ≡ 0
    → os ≡ ns
edits_unchanged os ns a r =
    sym (diff_edits-Joins os ns).0
    ∙ unchanged_sides (diff_edits os ns) a r
    ∙ (diff_edits-Joins os ns).1

edits_of_same :
    (os ns : List Text)
    → os ≡ ns
    → (total is_add (diff_edits os ns) ≡ 0) × (total is_remove (diff_edits os ns) ≡ 0)
edits_of_same os ns e = rw (← e) (diff_edits_self os)

-- The counts of a diff that is returned account for the difference in length of its two sides, and
-- both are 0 exactly when the two sides have the same lines.
pub unified_diff_counts :
    (id from to old new : Text) (d : DiffResult)
    → unified_diff false id from to old new ≡ some d
    → (length (split_lines old) + d.added_lines ≡ length (split_lines new) + d.removed_lines)
      × (((d.added_lines ≡ 0) × (d.removed_lines ≡ 0)) ↔ (split_lines old ≡ split_lines new))
unfolding unified_diff
unified_diff_counts id from to old new d h =
    let os = split_lines old in
    let ns = split_lines new in
    let added : total is_add (diff_edits os ns) ≡ d.added_lines = cc in
    let removed : total is_remove (diff_edits os ns) ≡ d.removed_lines = cc in
    (
      omega (arith, edits_balance os ns, added, removed),
      (
        (λ (a, r). edits_unchanged os ns (added ∙ a) (removed ∙ r)),
        (λ e. (sym added ∙ (edits_of_same os ns e).0, sym removed ∙ (edits_of_same os ns e).1)),
      ),
    )
