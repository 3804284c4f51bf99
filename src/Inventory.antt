-- ===== src/Inventory.antt =====
-- internal/inventory/csv/source.go: targets from a table with a header or from a router.db file.
-- The reader of encoding/csv is a parameter, and so are the lines that bufio.Scanner delivers and the
-- moments at which the context is done.
pub mod Fields
pub mod Rows
pub mod Targets
pub mod Router
use go_xidized.Prelude.{
  ℕ, zero, suc, ◌+◌, ◌++◌, ◌==◌, ℤ, pos, Bool, true, false, not, ◌&&◌, Text, codes, is_empty, List,
  [], ◌∷◌, map, Option, none, some, if◌then◌else◌, ltbℤ, lebℤ, any, text_eq, keep_if, ◌⊎◌, inl, inr,
}
use go_xidized.Prelude.Strings.{split, trim_space, to_lower, join, has_prefix, contains}
use go_xidized.Types.{Target}
use go_xidized.Inventory.Fields.{get, header_of, split_list, parse_bool_default, parse_port}

-- The texts of the errors, as cases.
pub data Reason : Type 0 where
  invalid_port duplicate_id : Text → Reason
  short_line id_required hostname_required ip_address_required vendor_required : Reason
  group_required credential_ref_required port_out_of_range : Reason

pub record ValidationError : Type 0 where
  pub line : ℕ
  pub reason : Reason

-- Why a file is not parsed at all.
pub data Fatal : Type 0 where
  open_failed read_failed csv_failed cancelled : Fatal

pub data Parsed : Type 0 where
  failed : Fatal → Parsed
  parsed : List Target → List ValidationError → Parsed

-- `_, ok := ids[id]`
abbrev pub has_id : Text → List Text → Bool
has_id id = any λ x. text_eq x id

-- `none` is the nil error.
unfoldable pub validate_target : Target → List Text → Option Reason
validate_target t ids =
    if is_empty t.id
    then some id_required
    else if has_id t.id ids
    then some (duplicate_id t.id)
    else if is_empty t.hostname
    then some hostname_required
    else if is_empty t.ip_address
    then some ip_address_required
    else if is_empty t.vendor
    then some vendor_required
    else if is_empty t.group
    then some group_required
    else if is_empty t.credential_ref
    then some credential_ref_required
    else if lebℤ t.port (pos 0)
    then some port_out_of_range
    else if ltbℤ (pos 65535) t.port
    then some port_out_of_range
    else none

-- The target of a row, once it is validated.
unfoldable pub validated : List Text → Reason ⊎ Target → Reason ⊎ Target
unfolding validate_target
validated ids (inl e) = inl e
validated ids (inr t) = elim (validate_target t ids) [ none ↦ inr t | some e ↦ inl e ]

abbrev add_target : Target → Parsed → Parsed
add_target t (failed e) = failed e
add_target t (parsed ts es) = parsed (t ∷ ts) es

abbrev add_error : ℕ → Reason → Parsed → Parsed
add_error n e (failed f) = failed f
add_error n e (parsed ts es) = parsed ts (record { line = n; reason = e } ∷ es)

-- The loop that both forms share: `build` makes a target of a row, `done` says whether the context is
-- done at a row, `n` is the line of the next row and `ids` are those of the targets so far.
unfoldable pub rows_loop :
    {Row : Type 0} → (Row → Reason ⊎ Target) → (ℕ → Bool) → List Text → ℕ → List Row → Parsed
unfolding validated
rows_loop build done ids n [] = parsed [] []
rows_loop build done ids n (r ∷ rs) = elim (done n) [
  | true ↦ failed cancelled
  | false ↦ elim (validated ids (build r)) [
    | inl e ↦ add_error n e (rows_loop build done ids (n + 1) rs)
    | inr t ↦ add_target t (rows_loop build done (t.id ∷ ids) (n + 1) rs)
  ]
]

abbrev or_hostname : Text → Text → Text
or_hostname id hostname = if is_empty id then hostname else id

unfoldable pub comma_target : List (Text × ℕ) → List Text → Reason ⊎ Target
unfolding get split_list parse_bool_default parse_port
comma_target header rec = elim (parse_port (get rec header (codes "port"))) [
  | none ↦ inl (invalid_port (get rec header (codes "port")))
  | some port ↦ inr record {
    id = or_hostname (get rec header (codes "id")) (get rec header (codes "hostname"));
    hostname = get rec header (codes "hostname");
    ip_address = get rec header (codes "ip_address");
    port = port;
    vendor = get rec header (codes "vendor");
    group = get rec header (codes "group");
    site = get rec header (codes "site");
    role = get rec header (codes "role");
    tags = split_list (get rec header (codes "tags"));
    metadata = [];
    jump_host = get rec header (codes "jump_host");
    credential_ref = get rec header (codes "credential_ref");
    enabled = parse_bool_default (get rec header (codes "enabled")) true;
    telnet_enabled = parse_bool_default (get rec header (codes "telnet_enabled")) false;
  }
]

-- The records of the table; the first one is the header, and the rows are counted from 2.
unfoldable pub comma_records : (ℕ → Bool) → List (List Text) → Parsed
unfolding comma_target rows_loop header_of
comma_records done [] = parsed [] []
comma_records done (h ∷ rows) = rows_loop (comma_target (header_of h)) done [] 2 rows

unfoldable pub parse_comma : (Text → Option (List (List Text))) → (ℕ → Bool) → List Text → Parsed
unfolding comma_records join
parse_comma csv done lines = elim (csv (join (codes "\n") lines)) [
  | none ↦ failed csv_failed
  | some records ↦ comma_records done records
]

-- The part at a position, trimmed; "" where there is none.
unfoldable pub part : ℕ → List Text → Text
unfolding trim_space
part n [] = []
part zero (p ∷ ps) = trim_space p
part (suc n) (p ∷ ps) = part n ps

-- The credential reference, the site and the role.
unfoldable pub parse_colon_tail : List Text → Text × (Text × Text)
unfolding part has_prefix trim_space
parse_colon_tail [] = ([], ([], []))
parse_colon_tail (c ∷ []) = (trim_space c, ([], []))
parse_colon_tail (c ∷ p ∷ rest) =
    if has_prefix (codes "//") p
    then (trim_space (c ++ (codes ":" ++ p)), (part 0 rest, part 1 rest))
    else (trim_space c, (trim_space p, part 0 rest))

unfoldable pub colon_parts : List Text → Reason ⊎ Target
unfolding parse_colon_tail trim_space
colon_parts (host ∷ vendor ∷ ip ∷ group ∷ c ∷ tail) =
    let (ref, (site, role)) = parse_colon_tail (c ∷ tail) in
    inr record {
      id = trim_space host;
      hostname = trim_space host;
      ip_address = trim_space ip;
      port = pos 22;
      vendor = trim_space vendor;
      group = trim_space group;
      site = site;
      role = role;
      tags = [];
      metadata = [];
      jump_host = [];
      credential_ref = ref;
      enabled = true;
      telnet_enabled = false;
    }
colon_parts _ = inl short_line

unfoldable pub colon_target : Text → Reason ⊎ Target
unfolding colon_parts split
colon_target line = colon_parts (split (λ c. c == b':') line)

unfoldable pub parse_colon : (ℕ → Bool) → List Text → Parsed
unfolding rows_loop colon_target
parse_colon done lines = rows_loop colon_target done [] 1 lines

-- The trimmed lines that are neither blank nor a comment.
unfoldable pub raw_lines : List Text → List Text
unfolding trim_space has_prefix
raw_lines lines =
    keep_if (λ l. not (is_empty l) && not (has_prefix (codes "#") l)) (map trim_space lines)

unfoldable pub parse_raw : (Text → Option (List (List Text))) → (ℕ → Bool) → List Text → Parsed
unfolding parse_comma parse_colon contains
parse_raw csv done [] = parsed [] []
parse_raw csv done (l ∷ ls) =
    if contains (codes ",") l then parse_comma csv done (l ∷ ls) else parse_colon done (l ∷ ls)

-- `scanned` is what the scanner delivers, `none` where it ends with an error.
unfoldable pub parse : (Text → Option (List (List Text))) → (ℕ → Bool) → Option (List Text) → Parsed
unfolding parse_raw raw_lines
parse csv done none = failed read_failed
parse csv done (some lines) = parse_raw csv done (raw_lines lines)

pub data LoadError : Type 0 where
  fatal : Fatal → LoadError
  joined : List ValidationError → LoadError

abbrev loaded : Parsed → List Target × Option LoadError
loaded (failed e) = ([], some (fatal e))
loaded (parsed ts []) = (ts, none)
loaded (parsed ts (e ∷ es)) = (ts, some (joined (e ∷ es)))

-- The outer `none` is a file that cannot be opened.
unfoldable pub load :
    (Text → Option (List (List Text)))
    → (ℕ → Bool)
    → Option (Option (List Text))
    → List Target × Option LoadError
unfolding parse
load csv done none = ([], some (fatal open_failed))
load csv done (some scanned) = loaded (parse csv done scanned)
