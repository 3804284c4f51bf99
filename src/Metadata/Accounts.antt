-- ===== src/Metadata/Accounts.antt =====
-- internal/metadata/postgres/store.go: the tables of tokens, users and roles, and the principal of a user.
use go_xidized.Prelude.{
  Bool, ◌&&◌, Text, codes, text_eq, List, [], ◌∷◌, ◌++◌, any, keep_if, Option, none, some,
}
use go_xidized.Types.{Time}
use go_xidized.Types.Errors.{GoError, Result, ok, err}
use go_xidized.Pipeline.Redaction.{sort, set_add}
use go_xidized.Api.Requests.{Principal}
use go_xidized.Metadata.{Database, select, and_then, find_row}

-- A column that may be null is an option.
pub record TokenRow : Type 0 where
  pub id : Text
  pub token_hash : Text
  pub actor_id : Text
  pub role_id : Text
  pub token_type : Text
  pub expires_at : Option Time
  pub revoked_at : Option Time
  pub last_used_at : Option Time

pub record UserRow : Type 0 where
  pub id : Text
  pub subject : Text
  pub display_name : Text

-- The permissions are a JSON text.
pub record RoleRow : Type 0 where
  pub id : Text
  pub permissions : Text

pub record AuthTables : Type 0 where
  pub tokens : List TokenRow
  pub users : List UserRow
  pub roles : List RoleRow
  pub user_roles : List (Text × Text)

-- Code that is not the repository's: SHA-256 in hexadecimal, `json.Unmarshal` into a list of texts, the
-- order of the database's collation, and the errors of the database client.
pub record Libraries : Type 0 where
  pub digest : Text → Text
  pub decode : Text → Result (List Text)
  pub by_id : List RoleRow → List RoleRow
  pub no_rows : GoError
  pub unique_violation : GoError

abbrev pub or_error : {A : Type 0} → GoError → Option A → Result A
or_error e none = err e
or_error e (some a) = ok a

module _ (lib : Libraries) where
  abbrev pub user_principal : UserRow → Principal
  user_principal u = record {
    actor_id = u.id;
    actor_type = codes "user";
    auth_method = [];
    subject = u.subject;
    display_name = u.display_name;
    roles = [];
    permissions = [];
    token_id = [];
    expires_at = 0;
  }

  abbrev pub roles_of : Text → AuthTables → List RoleRow
  roles_of user t =
      lib.by_id
        (keep_if (λ r. any (λ (u, role). text_eq u user && text_eq role r.id) t.user_roles) t.roles)

  abbrev pub add_each : List Text → List Text → List Text
  add_each [] set = set
  add_each (p ∷ ps) set = add_each ps (set_add p set)

  -- The loop over the rows, with the permissions so far.
  unfoldable pub roles_loop : List RoleRow → List Text → Principal → Result Principal
  unfolding sort
  roles_loop [] set p = ok (record p { permissions = sort set })
  roles_loop (r ∷ rs) set p = elim (lib.decode r.permissions) [
    | err e ↦ err e
    | ok ps ↦ roles_loop rs (add_each ps set) (record p { roles = p.roles ++ r.id ∷ [] })
  ]

  unfoldable pub with_roles :
      Principal → Database AuthTables → Result Principal × Database AuthTables
  unfolding roles_loop select
  with_roles p db =
      and_then (select (λ t. ok (roles_of p.actor_id t)) db) λ rows db'. (roles_loop rows [] p, db')

  unfoldable pub principal_by :
      (UserRow → Bool) → Database AuthTables → Result Principal × Database AuthTables
  unfolding with_roles select
  principal_by test db =
      and_then (select (λ t. or_error lib.no_rows (find_row test t.users)) db)
        λ u db'. with_roles (user_principal u) db'

  abbrev pub decoded_sorted : Result (List Text) → Result (List Text)
  decoded_sorted (err e) = err e
  decoded_sorted (ok ps) = ok (sort ps)

  unfoldable pub permissions_for_role :
      Text → Database AuthTables → Result (List Text) × Database AuthTables
  unfolding select sort
  permissions_for_role id db =
      and_then (select (λ t. or_error lib.no_rows (find_row (λ r. text_eq r.id id) t.roles)) db)
        λ r db'. (decoded_sorted (lib.decode r.permissions), db')
