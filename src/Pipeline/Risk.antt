-- ===== src/Pipeline/Risk.antt =====
-- internal/pipeline/diff.go: the risk class of a diff.
pub mod Level
use go_xidized.Prelude.{
  ℕ, zero, suc, ◌+◌, ◌≤◌, ◌<◌, ◌≡◌, refl, Bool, true, false, ◌&&◌, ◌||◌, Text, codes, text_eq,
  is_empty, ltb, if◌then◌else◌, List, [], ◌∷◌, ◌++◌, any, arith, max,
}
use go_xidized.Prelude.Strings.{contains, to_lower, trim_space}
use go_xidized.Types.{RiskLevel}

unfoldable pub risk_rank : RiskLevel → ℕ
risk_rank RiskLevel.critical = 4
risk_rank RiskLevel.high = 3
risk_rank RiskLevel.medium = 2
risk_rank RiskLevel.low = 1
risk_rank _ = 0

pub record RiskRule : Type 0 where
  pub level : RiskLevel
  pub cat : Text
  pub hit : Text
  pub terms : List Text

abbrev rule : RiskLevel → Text → Text → List Text → RiskRule
rule l c h ts = record { level = l; cat = c; hit = h; terms = ts }

unfoldable pub risk_rules : List RiskRule
risk_rules =
    rule RiskLevel.critical (codes "aaa") (codes "aaa-disabled-or-admin") (
      codes "no aaa"
      ∷ codes "authentication none"
      ∷ codes "privilege 15"
      ∷ codes "role network-admin"
      ∷ codes "logging disable"
      ∷ [])
    ∷ rule RiskLevel.high (codes "aaa") (codes "aaa-secret-or-server")
        (codes "tacacs" ∷ codes "radius" ∷ codes "hwtacacs" ∷ codes "aaa_shared_secret" ∷ [])
    ∷ rule RiskLevel.high (codes "snmp") (codes "snmp-community")
        (codes "snmp" ∷ codes "snmp_community" ∷ [])
    ∷ rule RiskLevel.high (codes "vpn") (codes "vpn-or-routing-auth")
        (codes "ipsec" ∷ codes "pre-shared-key" ∷ codes "routing_auth_key" ∷ codes "bgp" ∷ [])
    ∷ rule RiskLevel.medium (codes "routing") (codes "routing-policy") (
        codes "route-policy"
        ∷ codes "policy-options"
        ∷ codes "router bgp"
        ∷ codes "ospf"
        ∷ codes "isis"
        ∷ [])
    ∷ rule RiskLevel.medium (codes "management") (codes "mgmt-service") (
        codes "ntp"
        ∷ codes "syslog"
        ∷ codes "logging host"
        ∷ codes "dns"
        ∷ codes "name-server"
        ∷ [])
    ∷ []

-- A set of texts as a list without repetitions; the source lists it in any order.
unfoldable pub add_text : Text → List Text → List Text
add_text t ts = if any (text_eq t) ts then ts else ts ++ t ∷ []

-- The maximum so far, the categories and the hits.
pub record Found : Type 0 where
  pub max : RiskLevel
  pub cats : List Text
  pub hits : List Text

-- What a term of a rule that is found does.
raise : RiskRule → Found → Found
unfolding risk_rank add_text
raise r f = record {
  max = if ltb (risk_rank f.max) (risk_rank r.level) then r.level else f.max;
  cats = add_text r.cat f.cats;
  hits = add_text r.hit f.hits;
}

unfoldable pub scan_terms : Text → RiskRule → List Text → Found → Found
unfolding raise contains to_lower
scan_terms lower r [] f = f
scan_terms lower r (t ∷ ts) f =
    scan_terms lower r ts (if contains (to_lower t) lower then raise r f else f)

unfoldable pub scan_rules : Text → List RiskRule → Found → Found
unfolding scan_terms
scan_rules lower [] f = f
scan_rules lower (r ∷ rs) f = scan_rules lower rs (scan_terms lower r r.terms f)

unfoldable pub classify_risk : Text → Found
unfolding scan_rules to_lower trim_space
classify_risk diff =
    let f =
      scan_rules (to_lower diff) risk_rules
        (record { max = RiskLevel.low; cats = []; hits = [] }) in
    if is_empty (trim_space diff) then record f { max = RiskLevel.none } else f
