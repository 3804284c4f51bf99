-- ===== src/Settings/Defaults.antt =====
-- config.go: the configuration that the program starts from.
use go_xidized.Prelude.{ℕ, ◌*◌, ◌^◌, true, false, Text, codes, [], ◌∷◌, pos}
use go_xidized.Types.{Duration, second, minute, hour}
use go_xidized.Types.Floats.{float_of}
use go_xidized.GitStore.Paths.{by_role}
use go_xidized.Settings.{Oidc, Server, Scheduler, Config}

abbrev seconds : ℕ → Duration
seconds n = pos (n * second)

abbrev minutes : ℕ → Duration
minutes n = pos (n * minute)

abbrev pub default_prompt : Text
default_prompt = codes "(?m)(^|\\n)[^\\n]{1,96}[>#]\\s*$"

unfoldable pub default_oidc : Oidc
default_oidc = record {
  enabled = false;
  issuer_url = [];
  client_id = [];
  client_secret_env = codes "GOXIDIZED_OIDC_CLIENT_SECRET";
  redirect_url = [];
  scopes = codes "openid" ∷ codes "profile" ∷ codes "email" ∷ [];
  session_ttl = pos (8 * hour);
  cookie_name = codes "goxidized_session";
  require_email_verified = true;
}

unfoldable pub default_server : Server
unfolding default_oidc
default_server = record {
  listen_address = codes "127.0.0.1:8080";
  tls_enabled = false;
  tls_cert_file = [];
  tls_key_file = [];
  auth = record {
    api_tokens_enabled = true;
    bootstrap_token_env = codes "GOXIDIZED_BOOTSTRAP_TOKEN";
    oidc_enabled = false;
    oidc = default_oidc;
  };
}

unfoldable pub default_scheduler : Scheduler
default_scheduler = record {
  default_interval = pos (24 * hour);
  cron = [];
  timezone = codes "UTC";
  jitter_percent = pos 20;
  jitter_max = pos 0;
  max_global_concurrency = pos 250;
  max_new_connections_per_second = float_of 10;
  max_per_site_concurrency = pos 30;
  max_per_vendor_concurrency = pos 100;
  max_per_group_concurrency = pos 100;
  queue_size = pos 10_000;
  retry = record { max_attempts = pos 3; backoff_initial = seconds 30; backoff_max = minutes 30 };
  lease = record { enabled = true; worker_id = []; ttl = minutes 15; renew_interval = minutes 5 };
  windows = [];
  blackouts = [];
}

unfoldable pub default_config : Config
unfolding default_server default_scheduler
default_config = record {
  server = default_server;
  scheduler = default_scheduler;
  inventory = record {
    refresh_interval = minutes 5;
    sources =
        record { name = codes "primary-csv"; source_type = codes "csv"; path = codes "devices.csv" }
        ∷ [];
  };
  credentials = record {
    default_provider = codes "dotenv";
    dotenv_path = codes ".env";
    require_chmod_600 = true;
    encrypted_path = codes "secrets.enc";
    key_env = codes "GOXIDIZED_KMS_KEY";
    nonce_size = pos 12;
  };
  storage = record {
    metadata_type = codes "postgres";
    dsn_env = codes "GOXIDIZED_POSTGRES_DSN";
    dsn = [];
    config_type = codes "git";
    shard_strategy = by_role;
    shard_count = pos 0;
    base_path = codes "data/repos";
    author_name = codes "GoXidized";
    author_email = codes "goxidized@example.invalid";
  };
  redaction = record {
    enabled = true;
    strict_mode = true;
    raw_storage_enabled = false;
    hmac_key_env = codes "GOXIDIZED_REDACTION_HMAC_KEY";
  };
  ssh = record {
    connect_timeout = seconds 20;
    auth_timeout = seconds 20;
    command_timeout = seconds 60;
    idle_timeout = seconds 30;
    session_deadline = minutes 3;
    interactive_shell = true;
    prompt_pattern = default_prompt;
    max_output_bytes = pos (16 * 2 ^ 20);
    host_key_mode = codes "strict";
    known_hosts_path = codes "known_hosts";
    tofu_path = codes "known_hosts.tofu";
  };
  telnet = record {
    enabled = false;
    connect_timeout = seconds 20;
    login_timeout = seconds 20;
    command_timeout = seconds 60;
    idle_timeout = seconds 30;
    prompt_pattern = default_prompt;
    max_output_bytes = pos (16 * 2 ^ 20);
  };
  retention_days = pos 365;
  observability = record {
    metrics_enabled = true;
    tracing_enabled = false;
    log_format = codes "json";
  };
}
