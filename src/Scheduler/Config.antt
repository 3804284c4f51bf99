-- ===== src/Scheduler/Config.antt =====
-- internal/scheduler/manager.go: the configuration, its defaults, and the retry delay.
pub mod Backoff
use go_xidized.Prelude.{
  ℕ, zero, suc, ◌+◌, ◌*◌, ◌-◌, ◌%◌, ◌^◌, ℤ, pos, negsuc, pos_part, Bool, Text, is_empty, positive,
  lebℤ, wrap64, quot, if◌then◌else◌,
}
use go_xidized.Types.{Duration, second, minute}
use go_xidized.Types.Floats.{Float, float_of, or_float}

-- `lease_store` says whether `LeaseStore` is not nil; the clock is an argument of each operation.
pub record Config : Type 0 where
  pub queue_size : ℤ
  pub max_global_concurrency : ℤ
  pub max_per_vendor_concurrency : ℤ
  pub max_per_group_concurrency : ℤ
  pub max_per_site_concurrency : ℤ
  pub max_new_connections : Float
  pub max_attempts : ℤ
  pub backoff_initial : Duration
  pub backoff_max : Duration
  pub circuit_failure_threshold : ℤ
  pub circuit_open_duration : Duration
  pub worker_id : Text
  pub lease_store : Bool
  pub lease_ttl : Duration
  pub lease_renew_interval : Duration

-- `if v <= 0 { v = d }`
abbrev pub or_default : ℤ → ℤ → ℤ
or_default v d = if positive v then v else d

-- The host name and process id that `defaultWorkerID` reads are the first argument.
unfoldable pub normalize : Text → Config → Config
unfolding quot
normalize default_worker_id cfg =
    let global = or_default cfg.max_global_concurrency (pos 1) in
    let ttl = or_default cfg.lease_ttl (pos (15 * minute)) in
    record {
      queue_size = or_default cfg.queue_size (pos 10000);
      max_global_concurrency = global;
      max_per_vendor_concurrency = or_default cfg.max_per_vendor_concurrency global;
      max_per_group_concurrency = or_default cfg.max_per_group_concurrency global;
      max_per_site_concurrency = or_default cfg.max_per_site_concurrency global;
      max_new_connections = or_float cfg.max_new_connections (float_of 1);
      max_attempts = or_default cfg.max_attempts (pos 1);
      backoff_initial = or_default cfg.backoff_initial (pos second);
      backoff_max = or_default cfg.backoff_max (pos minute);
      circuit_failure_threshold = or_default cfg.circuit_failure_threshold (pos 5);
      circuit_open_duration = or_default cfg.circuit_open_duration (pos (30 * minute));
      worker_id = if is_empty cfg.worker_id then default_worker_id else cfg.worker_id;
      lease_store = cfg.lease_store;
      lease_ttl = ttl;
      lease_renew_interval =
          or_default cfg.lease_renew_interval (or_default (quot ttl 3) (pos minute));
    }

-- `d *= 2` on an int64.
double : Duration → Duration
unfolding wrap64
double (pos n) = wrap64 (2 * n)
double (negsuc n) = wrap64 (2 ^ 64 - (2 * n + 2) % 2 ^ 64)

-- The loop of `backoff`: the first argument is the number of rounds left.
backoff_loop : ℕ → Duration → Duration → Duration
unfolding double
backoff_loop zero d limit = d
backoff_loop (suc n) d limit =
    let next = double d in
    let rest = backoff_loop n next limit in if lebℤ limit next then limit else rest

unfoldable pub backoff : Config → ℤ → Duration
unfolding backoff_loop
backoff cfg attempt = backoff_loop (pos_part attempt - 1) cfg.backoff_initial cfg.backoff_max
