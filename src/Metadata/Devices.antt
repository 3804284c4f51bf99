-- ===== src/Metadata/Devices.antt =====
-- internal/metadata/postgres/store.go: the table of devices, whose key is the id.
pub mod Upserts
use go_xidized.Prelude.{
  ℤ, Bool, true, false, Text, text_eq, List, [], ◌∷◌, map, any, Option, none, some, if◌then◌else◌,
}
use go_xidized.Types.{Target}
use go_xidized.Types.Errors.{GoError, Result, ok, err}
use go_xidized.Metadata.{Database, statement, select, and_then, find_row, plainly, transaction}

-- The columns `tags` and `metadata` are JSON texts.
pub record DeviceRow : Type 0 where
  pub id : Text
  pub hostname : Text
  pub ip_address : Text
  pub port : ℤ
  pub vendor : Text
  pub group : Text
  pub site : Text
  pub role : Text
  pub tags : Text
  pub metadata : Text
  pub jump_host : Text
  pub credential_ref : Text
  pub enabled : Bool
  pub telnet_enabled : Bool

-- `json.Marshal`, what `json.Unmarshal` leaves of a nil list or map where its error is dropped, the
-- order of the database's collation, and the error for a row that is not there.
pub record Codec : Type 0 where
  pub encode_tags : List Text → Text
  pub decode_tags : Text → List Text
  pub encode_metadata : List (Text × Text) → Text
  pub decode_metadata : Text → List (Text × Text)
  pub by_id : List DeviceRow → List DeviceRow
  pub no_rows : GoError

module _ (j : Codec) where
  abbrev pub device_row : Target → DeviceRow
  device_row d = record {
    id = d.id;
    hostname = d.hostname;
    ip_address = d.ip_address;
    port = d.port;
    vendor = d.vendor;
    group = d.group;
    site = d.site;
    role = d.role;
    tags = j.encode_tags d.tags;
    metadata = j.encode_metadata d.metadata;
    jump_host = d.jump_host;
    credential_ref = d.credential_ref;
    enabled = d.enabled;
    telnet_enabled = d.telnet_enabled;
  }

  -- `INSERT … ON CONFLICT (id) DO UPDATE …`
  unfoldable pub put_row : DeviceRow → List DeviceRow → List DeviceRow
  put_row row [] = row ∷ []
  put_row row (r ∷ rows) = if text_eq r.id row.id then row ∷ rows else r ∷ put_row row rows

  abbrev pub upsert : Target → List DeviceRow → Result Text × List DeviceRow
  upsert d rows = (ok [], put_row (device_row d) rows)

  unfoldable pub upsert_devices :
      List Target → Database (List DeviceRow) → Result Text × Database (List DeviceRow)
  unfolding put_row transaction
  upsert_devices ds db = transaction (map (λ d. plainly (upsert d)) ds) db

  unfoldable pub scan_target : DeviceRow → Target
  scan_target r = record {
    id = r.id;
    hostname = r.hostname;
    ip_address = r.ip_address;
    port = r.port;
    vendor = r.vendor;
    group = r.group;
    site = r.site;
    role = r.role;
    tags = j.decode_tags r.tags;
    metadata = j.decode_metadata r.metadata;
    jump_host = r.jump_host;
    credential_ref = r.credential_ref;
    enabled = r.enabled;
    telnet_enabled = r.telnet_enabled;
  }

  unfoldable pub list_devices :
      Database (List DeviceRow) → Result (List Target) × Database (List DeviceRow)
  unfolding scan_target select
  list_devices db = select (λ rows. ok (map scan_target (j.by_id rows))) db

  abbrev pub scanned : Option DeviceRow → Result Target
  scanned none = err j.no_rows
  scanned (some r) = ok (scan_target r)

  unfoldable pub get_device :
      Text → Database (List DeviceRow) → Result Target × Database (List DeviceRow)
  unfolding scan_target select
  get_device id db = select (λ rows. scanned (find_row (λ r. text_eq r.id id) rows)) db
