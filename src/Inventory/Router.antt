-- ===== src/Inventory/Router.antt =====
-- source.go: lines of router.db.
use go_xidized.Prelude.{
  ◌≡◌, refl, ap, pos, true, false, Text, codes, List, [], ◌∷◌, ◌++◌, inr, ◌==◌, All, any, ◌∙◌,
}
use mathlib.Core.List.{append_assoc}
use go_xidized.Prelude.Strings.{join, trim_space, has_prefix}
use go_xidized.Prelude.Strings.Cuts.{split-join}
use go_xidized.Types.{Target}
use go_xidized.Inventory.{colon_target, colon_parts, parse_colon_tail, part}

-- A field that a line can hold: without a colon, and without white space at its ends.
abbrev pub IsField : Text → Type 0
IsField s = (any (λ c. c == b':') s ≡ false) × (trim_space s ≡ s)

All-no_colon : (ss : List Text) → All IsField ss → All (λ t. any (λ c. c == b':') t ≡ false) ss
All-no_colon [] h = h
All-no_colon (s ∷ ss) (h, hs) = (h.0, All-no_colon ss hs)

colon_target_line :
    (s : Text) (ss : List Text)
    → All IsField (s ∷ ss)
    → colon_target (join (codes ":") (s ∷ ss)) ≡ colon_parts (s ∷ ss)
unfolding colon_target
colon_target_line s ss fs =
    ap colon_parts (split-join (λ c. c == b':') b':' s ss refl (All-no_colon (s ∷ ss) fs))

-- The target that a line of router.db with a site and a role stands for.
abbrev pub router_target : Text → Text → Text → Text → Text → Text → Text → Target
router_target host vendor ip group ref site role = record {
  id = host;
  hostname = host;
  ip_address = ip;
  port = pos 22;
  vendor = vendor;
  group = group;
  site = site;
  role = role;
  tags = [];
  metadata = [];
  jump_host = [];
  credential_ref = ref;
  enabled = true;
  telnet_enabled = false;
}

-- A line `hostname:vendor:ip_address:group:credential_ref:site:role` is read back field by field, where
-- no field has a colon or white space at its ends and the site does not begin with `//`.
pub colon_target-join :
    (host vendor ip group ref site role : Text)
    → All IsField (host ∷ vendor ∷ ip ∷ group ∷ ref ∷ site ∷ role ∷ [])
    → has_prefix (codes "//") site ≡ false
    → colon_target (join (codes ":") (host ∷ vendor ∷ ip ∷ group ∷ ref ∷ site ∷ role ∷ []))
      ≡ inr (router_target host vendor ip group ref site role)
unfolding colon_target colon_parts parse_colon_tail part
colon_target-join host vendor ip group ref site role fs n =
    let (h, (v, (i, (g, (r, (s, (o, _))))))) = fs in
    colon_target_line host (vendor ∷ ip ∷ group ∷ ref ∷ site ∷ role ∷ []) fs
    ∙ rw (n, h.1, v.1, i.1, g.1, r.1, s.1, o.1) refl

-- A field with a colon in it makes the line of the two fields around the colon.
rejoin :
    (host vendor ip group scheme path : Text) (ss : List Text)
    → (t : Text)
    → join (codes ":") (host ∷ vendor ∷ ip ∷ group ∷ (scheme ++ (codes ":" ++ path)) ∷ t ∷ ss)
      ≡ join (codes ":") (host ∷ vendor ∷ ip ∷ group ∷ scheme ∷ path ∷ t ∷ ss)
unfolding join
rejoin host vendor ip group scheme path ss t =
    rw (append_assoc scheme (codes ":" ++ path) (codes ":" ++ join (codes ":") (t ∷ ss))) refl

-- A credential reference `scheme://path` is put together again from the two fields that its own colon
-- makes of it, and the site and the role are the fields after them.
pub colon_target-join_scheme :
    (host vendor ip group scheme path site role : Text)
    → All IsField (host ∷ vendor ∷ ip ∷ group ∷ scheme ∷ path ∷ site ∷ role ∷ [])
    → has_prefix (codes "//") path ≡ true
    → trim_space (scheme ++ (codes ":" ++ path)) ≡ scheme ++ (codes ":" ++ path)
    → colon_target (
        join
          (codes ":")
          (host ∷ vendor ∷ ip ∷ group ∷ (scheme ++ (codes ":" ++ path)) ∷ site ∷ role ∷ []))
      ≡ inr (router_target host vendor ip group (scheme ++ (codes ":" ++ path)) site role)
unfolding colon_target colon_parts parse_colon_tail part
colon_target-join_scheme host vendor ip group scheme path site role fs n t =
    let (h, (v, (i, (g, (c, (r, (s, (o, _)))))))) = fs in
    let line = rejoin host vendor ip group scheme path (role ∷ []) site in
    ap colon_target line
    ∙ colon_target_line host (vendor ∷ ip ∷ group ∷ scheme ∷ path ∷ site ∷ role ∷ []) fs
    ∙ rw (n, h.1, v.1, i.1, g.1, t, s.1, o.1) refl
