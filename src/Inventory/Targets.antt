-- ===== src/Inventory/Targets.antt =====
-- source.go: the targets that `validateTarget` lets through.
use go_xidized.Prelude.{
  ◌≡◌, ◌↔◌, pos, ◌≤ℤ◌, false, Text, is_empty, List, Option, none, some, arith, ◌⊎◌, inl, inr, refl,
  ap, subst,
}
use go_xidized.Types.{Target}
use go_xidized.Inventory.{Reason, has_id, validate_target, validated}

-- What the other components may rely on.
abbrev pub IsTarget : Target → Type 0
IsTarget t =
    (is_empty t.id ≡ false)
    × (is_empty t.hostname ≡ false)
    × (is_empty t.ip_address ≡ false)
    × (is_empty t.vendor ≡ false)
    × (is_empty t.group ≡ false)
    × (is_empty t.credential_ref ≡ false)
    × (pos 1 ≤ℤ t.port)
    × (t.port ≤ℤ pos 65535)

-- `validateTarget` gives no error exactly for a target that has an id, a host name, an address, a
-- vendor, a group and a credential, has a port from 1 to 65535, and has an id that is not taken.
pub validate_target_iff :
    (t : Target) (ids : List Text)
    → (validate_target t ids ≡ none) ↔ (IsTarget t × (has_id t.id ids ≡ false))
unfolding validate_target
validate_target_iff t ids = ground arith

validated-some :
    (ids : List Text) (u t : Target) (o : Option Reason)
    → validate_target u ids ≡ o
    → validated ids (inr u) ≡ inr t
    → (u ≡ t) × (o ≡ none)
unfolding validated
validated-some ids u t none e h = (cc, refl)
validated-some ids u t (some r) e h = cc

pub validated-inr :
    (ids : List Text) (x : Reason ⊎ Target) (t : Target)
    → validated ids x ≡ inr t
    → (x ≡ inr t) × IsTarget t × (has_id t.id ids ≡ false)
unfolding validated
validated-inr ids (inl e) t h = cc
validated-inr ids (inr u) t h =
    let (p, q) = validated-some ids u t (validate_target u ids) refl h in
    let (v, i) = (validate_target_iff t ids).0 (subst (λ v. validate_target v ids ≡ none) p q) in
    (ap inr p, v, i)
