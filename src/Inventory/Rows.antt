-- ===== src/Inventory/Rows.antt =====
-- source.go: what the loops over the rows return.
use go_xidized.Prelude.{
  ℕ, suc, ◌+◌, ◌≤◌, ◌<◌, ◌≡◌, refl, ap₂, Bool, true, false, Text, List, [], ◌∷◌, map, length,
  Option, none, some, arith, ◌⊎◌, inl, inr,
}
use go_xidized.Prelude.{codes, if◌then◌else◌}
use go_xidized.Prelude.Strings.{join, contains}
use go_xidized.Types.{Target}
use go_xidized.Inventory.Fields.{header_of}
use go_xidized.Inventory.{
  Reason, ValidationError, Parsed, failed, parsed, has_id, validated, rows_loop, add_target,
  add_error, parse, parse_raw, parse_comma, comma_records, parse_colon, raw_lines, cancelled,
  comma_target, colon_target, csv_failed, loaded, load,
}
use go_xidized.Inventory.Targets.{IsTarget, validated-inr}

-- Every target is complete, and its id is not among those given and those of the targets before it.
abbrev pub Accepted : List Text → List Target → Type 0
Accepted ids [] = Unit
Accepted ids (t ∷ ts) = IsTarget t × (has_id t.id ids ≡ false) × Accepted (t.id ∷ ids) ts

-- The lines of the errors increase, from the first number on and below the second.
abbrev pub Numbered : ℕ → ℕ → List ValidationError → Type 0
Numbered n m [] = Unit
Numbered n m (e ∷ es) = (n ≤ e.line) × (e.line < m) × Numbered (suc e.line) m es

Numbered-mono :
    (n k l m : ℕ) (es : List ValidationError) → n ≤ k → l ≤ m → Numbered k l es → Numbered n m es
Numbered-mono n k l m [] h i p = p
Numbered-mono n k l m (e ∷ es) h i p =
    let rest = Numbered-mono (suc e.line) (suc e.line) l m es (omega arith) i p.2 in
    ground (arith, p.0, p.1, rest)

-- A result that fails because the context is done, or whose targets are accepted, whose rows are all accounted for, and which without an error
-- has the targets of the rows in order.
abbrev pub IsSound :
    {Row : Type 0}
    → (Row → Reason ⊎ Target)
    → (ℕ → Bool)
    → List Text
    → ℕ
    → List Row
    → Parsed
    → Type 0
IsSound build done ids n rs (failed f) = (f ≡ cancelled) × ((k : ℕ) × (done k ≡ true))
IsSound build done ids n rs (parsed ts es) =
    Accepted ids ts
    × (length ts + length es ≡ length rs)
    × Numbered n (n + length rs) es
    × ((es ≡ []) → map build rs ≡ map inr ts)

module _ {Row : Type 0} (build : Row → Reason ⊎ Target) (done : ℕ → Bool) where
  add_error-IsSound :
      (ids : List Text) (n : ℕ) (r : Row) (rs : List Row) (e : Reason) (p : Parsed)
      → IsSound build done ids (n + 1) rs p
      → IsSound build done ids n (r ∷ rs) (add_error n e p)
  add_error-IsSound ids n r rs e (failed f) h = h
  add_error-IsSound ids n r rs e (parsed ts es) (a, l, m, o) =
      let m₁ =
        Numbered-mono (suc n) (n + 1) _ (n + suc (length rs)) es (omega arith) (omega arith) m in
      (a, omega (arith, l), (omega arith, omega arith, m₁), λ q. cc)

  add_target-IsSound :
      (ids : List Text) (n : ℕ) (r : Row) (rs : List Row) (t : Target) (p : Parsed)
      → build r ≡ inr t
      → IsTarget t
      → has_id t.id ids ≡ false
      → IsSound build done (t.id ∷ ids) (n + 1) rs p
      → IsSound build done ids n (r ∷ rs) (add_target t p)
  add_target-IsSound ids n r rs t (failed f) b v i h = h
  add_target-IsSound ids n r rs t (parsed ts es) b v i (a, l, m, o) =
      let m₁ = Numbered-mono n (n + 1) _ (n + suc (length rs)) es (omega arith) (omega arith) m in
      ((v, i, a), omega (arith, l), m₁, λ q. ap₂ (λ x xs. x ∷ xs) b (o q))

  validated_row-IsSound :
      (ids : List Text) (n : ℕ) (r : Row) (rs : List Row)
      → ((js : List Text) → IsSound build done js (n + 1) rs (rows_loop build done js (n + 1) rs))
      → (x : Reason ⊎ Target) → validated ids (build r) ≡ x
      → IsSound build done ids n (r ∷ rs) (elim x [
        | inl e ↦ add_error n e (rows_loop build done ids (n + 1) rs)
        | inr t ↦ add_target t (rows_loop build done (t.id ∷ ids) (n + 1) rs)
      ])
  validated_row-IsSound ids n r rs rec (inl e) q = add_error-IsSound ids n r rs e _ (rec ids)
  validated_row-IsSound ids n r rs rec (inr t) q =
      let (b, v, i) = validated-inr ids (build r) t q in
      add_target-IsSound ids n r rs t _ b v i (rec (t.id ∷ ids))

  row-IsSound :
      (ids : List Text) (n : ℕ) (r : Row) (rs : List Row)
      → ((js : List Text) → IsSound build done js (n + 1) rs (rows_loop build done js (n + 1) rs))
      → (b : Bool) → done n ≡ b
      → IsSound build done ids n (r ∷ rs) (elim b [
        | true ↦ failed cancelled
        | false ↦ elim (validated ids (build r)) [
          | inl e ↦ add_error n e (rows_loop build done ids (n + 1) rs)
          | inr t ↦ add_target t (rows_loop build done (t.id ∷ ids) (n + 1) rs)
        ]
      ])
  row-IsSound ids n r rs rec true q = (refl, (n, q))
  row-IsSound ids n r rs rec false q = validated_row-IsSound ids n r rs rec _ refl

  -- What the loop over the rows returns. It fails only where the context is done. Otherwise every row
  -- gives a target or an error; the targets are complete and their ids differ from one another and from those given; the errors
  -- carry the numbers of rows, each larger than the one before; and where there is no error, the
  -- targets are those of the rows, in order.
  pub rows_loop-IsSound :
      (ids : List Text) (n : ℕ) (rs : List Row)
      → IsSound build done ids n rs (rows_loop build done ids n rs)
  unfolding rows_loop
  rows_loop-IsSound ids n [] = (record {}, omega arith, record {}, λ q. refl)
  rows_loop-IsSound ids n (r ∷ rs) =
      row-IsSound ids n r rs (λ js. rows_loop-IsSound js (n + 1) rs) (done n) refl

abbrev HasAccepted : Parsed → Type 0
HasAccepted (failed f) = Unit
HasAccepted (parsed ts es) = Accepted [] ts

IsSound-HasAccepted :
    {Row : Type 0} (build : Row → Reason ⊎ Target) (done : ℕ → Bool) (n : ℕ) (rs : List Row)
    (p : Parsed)
    → IsSound build done [] n rs p
    → HasAccepted p
IsSound-HasAccepted build done n rs (failed f) h = record {}
IsSound-HasAccepted build done n rs (parsed ts es) h = h.0

comma_records-HasAccepted :
    (done : ℕ → Bool) (rs : List (List Text)) → HasAccepted (comma_records done rs)
unfolding comma_records
comma_records-HasAccepted done [] = record {}
comma_records-HasAccepted done (h ∷ rows) =
    IsSound-HasAccepted (comma_target (header_of h)) done 2 rows _
      (rows_loop-IsSound _ done [] 2 rows)

parse_comma-HasAccepted :
    (csv : Text → Option (List (List Text))) (done : ℕ → Bool) (lines : List Text)
    → HasAccepted (parse_comma csv done lines)
unfolding parse_comma
parse_comma-HasAccepted csv done lines =
    elim (csv (join (codes "\n") lines))
      as (λ x.
        HasAccepted
          (elim x [ none ↦ failed csv_failed | some records ↦ comma_records done records ])) [
            | none ↦ record {}
            | some records ↦ comma_records-HasAccepted done records
          ]

parse_colon-HasAccepted :
    (done : ℕ → Bool) (lines : List Text) → HasAccepted (parse_colon done lines)
unfolding parse_colon
parse_colon-HasAccepted done lines =
    IsSound-HasAccepted colon_target done 1 lines _ (rows_loop-IsSound _ done [] 1 lines)

parse_raw-HasAccepted :
    (csv : Text → Option (List (List Text))) (done : ℕ → Bool) (lines : List Text)
    → HasAccepted (parse_raw csv done lines)
unfolding parse_raw
parse_raw-HasAccepted csv done [] = record {}
parse_raw-HasAccepted csv done (l ∷ ls) =
    elim (contains (codes ",") l)
      as (λ b.
        HasAccepted (if b then parse_comma csv done (l ∷ ls) else parse_colon done (l ∷ ls))) [
          | true ↦ parse_comma-HasAccepted csv done (l ∷ ls)
          | false ↦ parse_colon-HasAccepted done (l ∷ ls)
        ]

loaded-Accepted : (p : Parsed) → HasAccepted p → Accepted [] (loaded p).0
loaded-Accepted (failed f) h = h
loaded-Accepted (parsed ts []) h = h
loaded-Accepted (parsed ts (e ∷ es)) h = h

-- Whatever the file, its form and the reader of tables: the targets that `Load` returns, also those
-- beside an error, are complete and have different ids.
pub load-Accepted :
    (csv : Text → Option (List (List Text))) (done : ℕ → Bool) (file : Option (Option (List Text)))
    → Accepted [] (load csv done file).0
unfolding load parse
load-Accepted csv done none = record {}
load-Accepted csv done (some none) = record {}
load-Accepted csv done (some (some lines)) =
    loaded-Accepted _ (parse_raw-HasAccepted csv done (raw_lines lines))
