-- ===== src/Pipeline/Risk/Level.antt =====
-- diff.go: the level of a diff is that of the gravest rule that it hits.
use go_xidized.Prelude.{
  ℕ, ◌≡◌, refl, Bool, false, Text, is_empty, if◌then◌else◌, List, [], ◌∷◌, any, arith, max,
  Bool-cases, inl, inr,
}
use go_xidized.Prelude.Strings.{contains, to_lower, trim_space}
use go_xidized.Types.{RiskLevel}
use go_xidized.Pipeline.Risk.{
  RiskRule, risk_rank, risk_rules, Found, raise, scan_terms, scan_rules, classify_risk,
}

-- A rule is hit if the lowered text contains one of its terms.
abbrev pub is_hit : Text → List Text → Bool
is_hit lower terms = any (λ t. contains (to_lower t) lower) terms

-- The rank that a rule asks for.
abbrev pub asked : Text → RiskRule → ℕ
asked lower r = if is_hit lower r.terms then risk_rank r.level else 0

abbrev pub highest : Text → List RiskRule → ℕ
highest lower [] = 0
highest lower (r ∷ rs) = max (asked lower r) (highest lower rs)

scan_terms_rank :
    (lower : Text) (r : RiskRule) (ts : List Text) (f : Found)
    → risk_rank (scan_terms lower r ts f).max
      ≡ (if is_hit lower ts then max (risk_rank f.max) (risk_rank r.level) else risk_rank f.max)
unfolding scan_terms
scan_terms_rank lower r [] f = refl
scan_terms_rank lower r (t ∷ ts) f = elim (Bool-cases (contains (to_lower t) lower)) [
  | inl hit ↦ rw (hit, scan_terms) (ground (arith, scan_terms_rank lower r ts (raise r f)))
  | inr miss ↦ rw (miss, scan_terms) (scan_terms_rank lower r ts f)
]

scan_rules_rank :
    (lower : Text) (rs : List RiskRule) (f : Found)
    → risk_rank (scan_rules lower rs f).max ≡ max (risk_rank f.max) (highest lower rs)
unfolding scan_rules
scan_rules_rank lower [] f = omega arith
scan_rules_rank lower (r ∷ rs) f = ground (
  arith,
  scan_terms_rank lower r r.terms f,
  scan_rules_rank lower rs (scan_terms lower r r.terms f),
)

-- A diff that is not blank has the level of the gravest rule with a term in it, without regard to
-- case, and is of low risk where there is none.
pub classify_risk_rank :
    (diff : Text)
    → is_empty (trim_space diff) ≡ false
    → risk_rank (classify_risk diff).max ≡ max 1 (highest (to_lower diff) risk_rules)
unfolding classify_risk
classify_risk_rank diff h = ground (
  arith,
  scan_rules_rank (to_lower diff) risk_rules (record { max = RiskLevel.low; cats = []; hits = [] }),
)
