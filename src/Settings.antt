-- ===== src/Settings.antt =====
-- internal/config/config.go: the configuration, its defaults and its validation. YAML and the
-- environment are read outside.
pub mod Defaults
pub mod Validation
use go_xidized.Prelude.{
  ℕ, ◌*◌, ◌^◌, Bool, true, false, ◌&&◌, ◌||◌, not, Text, codes, is_empty, text_eq, List, [], ◌∷◌,
  Option, none, some, if◌then◌else◌, ℤ, pos,
}
use go_xidized.Types.{Duration, second, minute, hour}
use go_xidized.Types.Floats.{Float}
use go_xidized.GitStore.Paths.{ShardStrategy, by_role}

pub record Oidc : Type 0 where
  pub enabled : Bool
  pub issuer_url : Text
  pub client_id : Text
  pub client_secret_env : Text
  pub redirect_url : Text
  pub scopes : List Text
  pub session_ttl : Duration
  pub cookie_name : Text
  pub require_email_verified : Bool

pub record Auth : Type 0 where
  pub api_tokens_enabled : Bool
  pub bootstrap_token_env : Text
  pub oidc_enabled : Bool
  pub oidc : Oidc

pub record Server : Type 0 where
  pub listen_address : Text
  pub tls_enabled : Bool
  pub tls_cert_file : Text
  pub tls_key_file : Text
  pub auth : Auth

pub record Retry : Type 0 where
  pub max_attempts : ℤ
  pub backoff_initial : Duration
  pub backoff_max : Duration

pub record Lease : Type 0 where
  pub enabled : Bool
  pub worker_id : Text
  pub ttl : Duration
  pub renew_interval : Duration

pub record Window : Type 0 where
  pub name : Text
  pub days : List Text
  pub start : Text
  pub end : Text
  pub timezone : Text
  pub groups : List Text
  pub sites : List Text
  pub vendors : List Text
  pub roles : List Text

pub record Scheduler : Type 0 where
  pub default_interval : Duration
  pub cron : Text
  pub timezone : Text
  pub jitter_percent : ℤ
  pub jitter_max : Duration
  pub max_global_concurrency : ℤ
  pub max_new_connections_per_second : Float
  pub max_per_site_concurrency : ℤ
  pub max_per_vendor_concurrency : ℤ
  pub max_per_group_concurrency : ℤ
  pub queue_size : ℤ
  pub retry : Retry
  pub lease : Lease
  pub windows : List Window
  pub blackouts : List Window

pub record InventorySource : Type 0 where
  pub name : Text
  pub source_type : Text
  pub path : Text

pub record Inventory : Type 0 where
  pub refresh_interval : Duration
  pub sources : List InventorySource

pub record Credentials : Type 0 where
  pub default_provider : Text
  pub dotenv_path : Text
  pub require_chmod_600 : Bool
  pub encrypted_path : Text
  pub key_env : Text
  pub nonce_size : ℤ

pub record Storage : Type 0 where
  pub metadata_type : Text
  pub dsn_env : Text
  pub dsn : Text
  pub config_type : Text
  pub shard_strategy : ShardStrategy
  pub shard_count : ℤ
  pub base_path : Text
  pub author_name : Text
  pub author_email : Text

pub record Redaction : Type 0 where
  pub enabled : Bool
  pub strict_mode : Bool
  pub raw_storage_enabled : Bool
  pub hmac_key_env : Text

pub record Ssh : Type 0 where
  pub connect_timeout : Duration
  pub auth_timeout : Duration
  pub command_timeout : Duration
  pub idle_timeout : Duration
  pub session_deadline : Duration
  pub interactive_shell : Bool
  pub prompt_pattern : Text
  pub max_output_bytes : ℤ
  pub host_key_mode : Text
  pub known_hosts_path : Text
  pub tofu_path : Text

pub record Telnet : Type 0 where
  pub enabled : Bool
  pub connect_timeout : Duration
  pub login_timeout : Duration
  pub command_timeout : Duration
  pub idle_timeout : Duration
  pub prompt_pattern : Text
  pub max_output_bytes : ℤ

pub record Observability : Type 0 where
  pub metrics_enabled : Bool
  pub tracing_enabled : Bool
  pub log_format : Text

pub record Config : Type 0 where
  pub server : Server
  pub scheduler : Scheduler
  pub inventory : Inventory
  pub credentials : Credentials
  pub storage : Storage
  pub redaction : Redaction
  pub ssh : Ssh
  pub telnet : Telnet
  pub retention_days : ℤ
  pub observability : Observability

-- The environment is a parameter.
unfoldable pub metadata_dsn : (Text → Text) → Config → Text
metadata_dsn getenv c =
    if not (is_empty c.storage.dsn)
    then c.storage.dsn
    else if is_empty c.storage.dsn_env
    then []
    else getenv c.storage.dsn_env
