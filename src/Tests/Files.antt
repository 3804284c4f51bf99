-- ===== src/Tests/Files.antt =====
-- Inventory files: a router.db with a comment, a line that is too short and a target named twice.
use go_xidized.Prelude.{
  text_eq, pos, ℕ, ◌≡◌, refl, Bool, false, Text, codes, List, [], ◌∷◌, Option, none, some,
}
use go_xidized.Prelude.Strings.{join, to_lower, atoi, has_prefix, trim_space, split, contains}
use go_xidized.Types.{Target}
use go_xidized.Inventory.{
  short_line, invalid_port, duplicate_id, validate_target, rows_loop, colon_target, load, joined,
  validated, colon_parts, parse_colon_tail, part, parse_colon, parse_raw, parse, raw_lines,
  parse_comma, comma_records, comma_target,
}
use go_xidized.Inventory.Fields.{header_of, get, parse_port, parse_bool_default, split_list}
use go_xidized.Inventory.Rows.{Accepted, IsSound, rows_loop-IsSound, load-Accepted}
use go_xidized.Inventory.Router.{router_target}

abbrev no_table : Text → Option (List (List Text))
no_table _ = none

abbrev never : ℕ → Bool
never _ = false

abbrev lines : List Text
lines =
    codes "# routers"
    ∷ codes "r1:junos"
    ∷ codes "r1:junos:10.0.0.1:core:env"
    ∷ codes " r1:junos:10.0.0.2:core:vault://net:dc1:edge"
    ∷ []

abbrev r1 : Target
r1 =
    router_target (codes "r1") (codes "junos") (codes "10.0.0.1") (codes "core") (codes "env") [] []

-- The errors count the lines without the comment before them.
numbers_skip_comments : load no_table never (some (some lines)) ≡ (
  r1 ∷ [],
  some (
      joined (
        record { line = 1; reason = short_line }
        ∷ record { line = 3; reason = duplicate_id (codes "r1") }
        ∷ [])),
)
unfolding load parse parse_raw raw_lines parse_colon rows_loop validated validate_target
    colon_target colon_parts parse_colon_tail part trim_space has_prefix split contains text_eq
numbers_skip_comments = refl

-- The cells of the table that a file with a comma is read as.
abbrev table : Text → Option (List (List Text))
table _ = some (
    (codes "ID"
      ∷ codes "hostname"
      ∷ codes "ip_address"
      ∷ codes "vendor"
      ∷ codes "group"
      ∷ codes "credential_ref"
      ∷ codes "port"
      ∷ codes "tags"
      ∷ [])
    ∷ ([]
        ∷ codes "r2"
        ∷ codes "10.0.0.2"
        ∷ codes "eos"
        ∷ codes "core"
        ∷ codes "env"
        ∷ codes "2222"
        ∷ codes "a; b|"
        ∷ [])
    ∷ (codes "r3"
        ∷ codes "r3"
        ∷ codes "10.0.0.3"
        ∷ codes "eos"
        ∷ codes "core"
        ∷ codes "env"
        ∷ codes "0"
        ∷ [])
    ∷ [])

abbrev r2 : Target
r2 = record r1 {
  id = codes "r2";
  hostname = codes "r2";
  ip_address = codes "10.0.0.2";
  vendor = codes "eos";
  port = pos 2222;
  tags = codes "a" ∷ codes "b" ∷ [];
}

columns_by_name :
    load table never (some (some (codes "id,hostname" ∷ [])))
    ≡ (r2 ∷ [], some (joined (record { line = 3; reason = invalid_port (codes "0") } ∷ [])))
unfolding load parse parse_raw parse_comma comma_records comma_target header_of get parse_port
    parse_bool_default split_list raw_lines rows_loop validated validate_target trim_space
    has_prefix split contains text_eq to_lower atoi join
columns_by_name = refl

load-Accepted_example : Accepted [] (load no_table never (some (some lines))).0
load-Accepted_example = load-Accepted no_table never (some (some lines))

rows_loop-IsSound_example :
    IsSound colon_target never [] 1 lines (rows_loop colon_target never [] 1 lines)
rows_loop-IsSound_example = rows_loop-IsSound colon_target never [] 1 lines
