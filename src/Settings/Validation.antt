-- ===== src/Settings/Validation.antt =====
-- config.go: Validate and Load.
pub mod Usable
use go_xidized.Prelude.{
  ℕ, Bool, true, false, ◌&&◌, ◌||◌, not, Text, codes, is_empty, text_eq, List, [], ◌∷◌, ◌++◌,
  Option, none, some, if◌then◌else◌, ℤ, pos, lebℤ, ltbℤ, any, ◌==◌, ◌⊎◌, inl, inr,
}
use go_xidized.Types.Floats.{is_at_most_zero}
use go_xidized.GitStore.Paths.{
  ShardStrategy, by_region, by_site, by_vendor, by_role, by_hash, other,
}
use go_xidized.Settings.{
  Auth, Oidc, Server, Scheduler, Window, InventorySource, Storage, Redaction, Config,
}
use go_xidized.Settings.Defaults.{default_config}

-- The errors, by the part of the configuration that they name.
pub data Problem : Type 0 where
  listen_address tls_files issuer_url client_id client_secret_env redirect_url : Problem
  session_ttl cookie_name scopes global_concurrency connection_rate : Problem
  jitter_percent default_interval lease_ttl lease_renew_interval : Problem
  window_bounds no_sources source_fields storage_fields shard_count strict_mode : Problem

unfoldable pub is_oidc_active : Auth → Bool
is_oidc_active a = a.oidc.enabled || a.oidc_enabled

-- `strings.ContainsAny(s, " \t\r\n;")`
abbrev pub has_bad_char : Text → Bool
has_bad_char = any λ c. c == b' ' || c == 9 || c == 13 || c == 10 || c == b';'

abbrev pub has_text : List Text → Text → Bool
has_text values want = any (λ v. text_eq v want) values

-- The next check, where the ones before found nothing.
infixl 20 ◌or_else◌
abbrev pub ◌or_else◌ : Option Problem → Option Problem → Option Problem
none or_else next = next
some p or_else next = some p

abbrev pub fails : Bool → Problem → Option Problem
fails b p = if b then some p else none

unfoldable pub check_oidc : Oidc → Option Problem
check_oidc o =
    fails (is_empty o.issuer_url) issuer_url
    or_else fails (is_empty o.client_id) client_id
    or_else fails (is_empty o.client_secret_env) client_secret_env
    or_else fails (is_empty o.redirect_url) redirect_url
    or_else fails (lebℤ o.session_ttl (pos 0)) session_ttl
    or_else fails (is_empty o.cookie_name || has_bad_char o.cookie_name) cookie_name
    or_else fails (not (has_text o.scopes (codes "openid"))) scopes

unfoldable pub check_server : Server → Option Problem
unfolding check_oidc is_oidc_active
check_server s =
    fails (is_empty s.listen_address) listen_address
    or_else fails (s.tls_enabled && (is_empty s.tls_cert_file || is_empty s.tls_key_file)) tls_files
    or_else (if is_oidc_active s.auth then check_oidc s.auth.oidc else none)

unfoldable pub check_windows : List Window → Option Problem
check_windows [] = none
check_windows (w ∷ ws) =
    fails (is_empty w.start || is_empty w.end) window_bounds or_else check_windows ws

unfoldable pub check_scheduler : Scheduler → Option Problem
unfolding check_windows
check_scheduler s =
    fails (lebℤ s.max_global_concurrency (pos 0)) global_concurrency
    or_else fails (is_at_most_zero s.max_new_connections_per_second) connection_rate
    or_else fails (ltbℤ s.jitter_percent (pos 0) || ltbℤ (pos 100) s.jitter_percent) jitter_percent
    or_else fails (is_empty s.cron && lebℤ s.default_interval (pos 0)) default_interval
    or_else fails (s.lease.enabled && lebℤ s.lease.ttl (pos 0)) lease_ttl
    or_else fails (s.lease.enabled && lebℤ s.lease.renew_interval (pos 0)) lease_renew_interval
    or_else check_windows (s.windows ++ s.blackouts)

unfoldable pub check_sources : List InventorySource → Option Problem
check_sources [] = none
check_sources (x ∷ xs) =
    fails (is_empty x.source_type || is_empty x.path) source_fields or_else check_sources xs

abbrev pub is_by_hash : ShardStrategy → Bool
is_by_hash by_hash = true
is_by_hash by_region = false
is_by_hash by_site = false
is_by_hash by_vendor = false
is_by_hash by_role = false
is_by_hash other = false

abbrev pub is_nil : List InventorySource → Bool
is_nil [] = true
is_nil (x ∷ xs) = false

unfoldable pub check_storage : Storage → Option Problem
check_storage s =
    fails (is_empty s.config_type || is_empty s.base_path) storage_fields
    or_else fails (is_by_hash s.shard_strategy && lebℤ s.shard_count (pos 0)) shard_count

-- `none` is the nil error.
unfoldable pub validate : Config → Option Problem
unfolding check_server check_scheduler check_sources check_storage
validate c =
    check_server c.server
    or_else check_scheduler c.scheduler
    or_else fails (is_nil c.inventory.sources) no_sources
    or_else check_sources c.inventory.sources
    or_else check_storage c.storage
    or_else fails (not c.redaction.enabled && c.redaction.strict_mode) strict_mode

-- `Load`. The file is read and decoded over the defaults outside; `none` is an error there.
unfoldable pub load :
    Text → (Text → Option (Config → Option Config)) → Option (Config × Option Problem)
unfolding validate default_config
load path read_file =
    if is_empty path
    then some (default_config, validate default_config)
    else elim (read_file path) [
      | none ↦ none
      | some decode ↦ elim (decode default_config) [
        | none ↦ none
        | some cfg ↦ some (cfg, validate cfg)
      ]
    ]
