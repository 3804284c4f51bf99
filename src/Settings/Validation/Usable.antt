-- ===== src/Settings/Validation/Usable.antt =====
-- config.go: what a configuration that Validate accepts is.
use go_xidized.Prelude.{
  ◌≡◌, ◌↔◌, refl, ℤ, pos, ◌≤ℤ◌, Bool, true, false, Text, codes, is_empty, List, [], ◌∷◌, ◌++◌,
  Option, none, some, arith, All, ◌⊎◌, not, ◌&&◌,
}
use go_xidized.Types.Floats.{is_rate, is_at_most_zero-is_rate}
use go_xidized.Settings.{
  Oidc, Server, Scheduler, Window, InventorySource, Storage, Redaction, Config,
}
use go_xidized.Settings.Validation.{
  is_oidc_active, has_bad_char, has_text, check_oidc, check_server, check_windows, check_scheduler,
  check_sources, check_storage, validate, Problem, ◌or_else◌, fails, no_sources, strict_mode,
  is_by_hash, is_nil,
}

abbrev Given : Text → Type 0
Given t = is_empty t ≡ false

abbrev Positive : ℤ → Type 0
Positive n = pos 1 ≤ℤ n

pub record IsOidc (o : Oidc) : Type 0 where
  pub issuer : Given o.issuer_url
  pub client : Given o.client_id
  pub secret : Given o.client_secret_env
  pub redirect : Given o.redirect_url
  pub ttl : Positive o.session_ttl
  pub cookie : Given o.cookie_name
  pub cookie_chars : has_bad_char o.cookie_name ≡ false
  pub openid : has_text o.scopes (codes "openid") ≡ true

check_oidc_iff : (o : Oidc) → (check_oidc o ≡ none) ↔ IsOidc o
unfolding check_oidc
check_oidc_iff o = ground arith

pub record IsServer (s : Server) : Type 0 where
  pub listens : Given s.listen_address
  pub tls : (s.tls_enabled ≡ false) ⊎ (Given s.tls_cert_file × Given s.tls_key_file)
  pub oidc : (is_oidc_active s.auth ≡ false) ⊎ IsOidc s.auth.oidc

check_server_iff : (s : Server) → (check_server s ≡ none) ↔ IsServer s
unfolding check_server
check_server_iff s = ground (arith, check_oidc_iff s.auth.oidc)

abbrev pub IsWindow : Window → Type 0
IsWindow w = Given w.start × Given w.end

check_windows_iff : (ws : List Window) → (check_windows ws ≡ none) ↔ All IsWindow ws
unfolding check_windows
check_windows_iff [] = ((λ h. tt), (λ h. refl))
check_windows_iff (w ∷ ws) = ground (arith, check_windows_iff ws)

pub record IsScheduler (s : Scheduler) : Type 0 where
  pub concurrency : Positive s.max_global_concurrency
  pub rate : is_rate s.max_new_connections_per_second ≡ true
  pub jitter : (pos 0 ≤ℤ s.jitter_percent) × (s.jitter_percent ≤ℤ pos 100)
  pub schedule : Given s.cron ⊎ Positive s.default_interval
  pub leases : (s.lease.enabled ≡ false) ⊎ (Positive s.lease.ttl × Positive s.lease.renew_interval)
  pub windows : All IsWindow (s.windows ++ s.blackouts)

check_scheduler_iff : (s : Scheduler) → (check_scheduler s ≡ none) ↔ IsScheduler s
unfolding check_scheduler
check_scheduler_iff s = ground (
  arith,
  check_windows_iff (s.windows ++ s.blackouts),
  is_at_most_zero-is_rate s.max_new_connections_per_second,
)

abbrev pub IsSource : InventorySource → Type 0
IsSource x = Given x.source_type × Given x.path

check_sources_iff : (xs : List InventorySource) → (check_sources xs ≡ none) ↔ All IsSource xs
unfolding check_sources
check_sources_iff [] = ((λ h. tt), (λ h. refl))
check_sources_iff (x ∷ xs) = ground (arith, check_sources_iff xs)

pub record IsStorage (s : Storage) : Type 0 where
  pub kind : Given s.config_type
  pub base : Given s.base_path
  pub shards : (is_by_hash s.shard_strategy ≡ false) ⊎ Positive s.shard_count

check_storage_iff : (s : Storage) → (check_storage s ≡ none) ↔ IsStorage s
unfolding check_storage
check_storage_iff s = ground arith

pub record IsUsable (c : Config) : Type 0 where
  pub server : IsServer c.server
  pub scheduler : IsScheduler c.scheduler
  pub sources : (is_nil c.inventory.sources ≡ false) × All IsSource c.inventory.sources
  pub storage : IsStorage c.storage
  pub redaction : (c.redaction.enabled ≡ true) ⊎ (c.redaction.strict_mode ≡ false)

both : (a b : Option Problem) → ((a or_else b) ≡ none) ↔ ((a ≡ none) × (b ≡ none))
both none b = ((λ e. (refl, e)), (λ h. h.1))
both (some p) b = ((λ e. cc), (λ h. cc))

passes : (b : Bool) (p : Problem) → (fails b p ≡ none) ↔ (b ≡ false)
passes b p = ground arith

strict_iff :
    (r : Redaction)
    → (fails (not r.enabled && r.strict_mode) strict_mode ≡ none)
      ↔ ((r.enabled ≡ true) ⊎ (r.strict_mode ≡ false))
strict_iff r = ground arith

-- Validate accepts exactly the configurations that are usable: the server has an address, its TLS files
-- and a complete OpenID Connect where these are enabled; the concurrency and the lease times are
-- positive, so is the rate of connections unless it is not a number (a NaN), which passes, the jitter is a percentage, there is a cron expression or an interval,
-- and each window has its ends; there is an inventory source, each with its type and path; the storage
-- has its type, its path and its shards; and strict mode stands on redaction.
pub validate_iff : (c : Config) → (validate c ≡ none) ↔ IsUsable c
unfolding validate
validate_iff c =
    let first_five =
      both
        (check_server c.server
          or_else check_scheduler c.scheduler
          or_else fails (is_nil c.inventory.sources) no_sources
          or_else check_sources c.inventory.sources
          or_else check_storage c.storage)
        (fails (not c.redaction.enabled && c.redaction.strict_mode) strict_mode) in
    let first_four =
      both
        (check_server c.server
          or_else check_scheduler c.scheduler
          or_else fails (is_nil c.inventory.sources) no_sources
          or_else check_sources c.inventory.sources)
        (check_storage c.storage) in
    let first_three =
      both
        (check_server c.server
          or_else check_scheduler c.scheduler
          or_else fails (is_nil c.inventory.sources) no_sources)
        (check_sources c.inventory.sources) in
    let first_two =
      both (check_server c.server or_else check_scheduler c.scheduler)
        (fails (is_nil c.inventory.sources) no_sources) in
    let first = both (check_server c.server) (check_scheduler c.scheduler) in
    let some_source = passes (is_nil c.inventory.sources) no_sources in
    (
      (λ e.
          let (e₅, red) = first_five.0 e in
          let (e₄, sto) = first_four.0 e₅ in
          let (e₃, src) = first_three.0 e₄ in
          let (e₂, nil) = first_two.0 e₃ in
          let (srv, sch) = first.0 e₂ in
          record {
            server = (check_server_iff c.server).0 srv;
            scheduler = (check_scheduler_iff c.scheduler).0 sch;
            sources = (some_source.0 nil, (check_sources_iff c.inventory.sources).0 src);
            storage = (check_storage_iff c.storage).0 sto;
            redaction = (strict_iff c.redaction).0 red;
          }),
      (λ u. first_five.1 (
        first_four.1 (
          first_three.1 (
            first_two.1 (
              first.1 (
                (check_server_iff c.server).1 u.server,
                (check_scheduler_iff c.scheduler).1 u.scheduler,
              ),
              some_source.1 u.sources.0,
            ),
            (check_sources_iff c.inventory.sources).1 u.sources.1,
          ),
          (check_storage_iff c.storage).1 u.storage,
        ),
        (strict_iff c.redaction).1 u.redaction,
      )),
    )
