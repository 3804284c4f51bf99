-- ===== src/Api.antt =====
-- internal/api/router.go: the HTTP API. The routes are those of `Router`, and chi chooses among them.
-- The stores, the scheduler, the identity provider and the two methods of `Principal` are parameters;
-- a handler returns the list of what it does, its reply last.
pub mod Requests
pub mod Auth
pub mod Handlers
pub mod Oidc
pub mod Access
pub mod Bounds
pub mod Logout
use go_xidized.Prelude.{
  Bool, true, false, Text, codes, List, [], ◌∷◌, Option, none, some, if◌then◌else◌, any, text_eq,
}
use go_xidized.Api.Requests.{Request, Effect, Server, Principal, Answers}
use go_xidized.Api.Auth.{auth, require, logout}
use go_xidized.Api.Handlers.{
  me, list_devices, get_device, backup_device, backup_group, config_history, latest_config,
  diff_config, list_jobs, get_job, reload_inventory, list_drivers, driver_test, audit_events,
}

-- The routes below `/api/v1`.
pub data Route : Type 0 where
  me_route devices device device_backup group_backup config_list config_latest : Route
  config_diff jobs job inventory_reload drivers driver_run audit_list : Route

-- The permission that the route is declared with.
unfoldable pub permission : Route → Option Text
permission me_route = none
permission devices = some (codes "devices:read")
permission device = some (codes "devices:read")
permission device_backup = some (codes "backups:run")
permission group_backup = some (codes "backups:run")
permission config_list = some (codes "configs:read")
permission config_latest = some (codes "configs:read")
permission config_diff = some (codes "configs:diff")
permission jobs = some (codes "jobs:read")
permission job = some (codes "jobs:read")
permission inventory_reload = some (codes "inventory:reload")
permission drivers = some (codes "drivers:read")
permission driver_run = some (codes "drivers:test")
permission audit_list = some (codes "audit:read")

module _ (is_zero : Principal → Bool) (has_permission : Principal → Text → Bool) where
  unfoldable pub handler : Route → Server → Answers → Request → Principal → List Effect
  unfolding me list_devices get_device backup_device backup_group config_history latest_config
      diff_config list_jobs get_job reload_inventory list_drivers driver_test audit_events
  handler me_route s a r p = me p
  handler devices s a r p = list_devices a
  handler device s a r p = get_device a r
  handler device_backup s a r p = backup_device is_zero s a r p
  handler group_backup s a r p = backup_group is_zero s a r p
  handler config_list s a r p = config_history is_zero s a r p
  handler config_latest s a r p = latest_config is_zero s a r p
  handler config_diff s a r p = diff_config is_zero s a r p
  handler jobs s a r p = list_jobs a r
  handler job s a r p = get_job a r
  handler inventory_reload s a r p = reload_inventory is_zero s a r p
  handler drivers s a r p = list_drivers a
  handler driver_run s a r p = driver_test is_zero s r p
  handler audit_list s a r p = audit_events is_zero s a r p

  unfoldable pub guarded : Option Text → Server → Request → Principal → List Effect → List Effect
  unfolding require
  guarded none s r p effects = effects
  guarded (some name) s r p effects = require is_zero has_permission name s r p effects

  -- A request to a route below `/api/v1`.
  unfoldable pub serve : Route → Server → Answers → Request → List Effect
  unfolding auth guarded permission handler
  serve route s a r =
      auth is_zero s r λ p _. guarded (permission route) s r p (handler route s a r p)

  -- `/auth/logout`
  unfoldable pub serve_logout : Server → Request → List Effect
  unfolding auth logout
  serve_logout s r = auth is_zero s r λ p token. logout is_zero s r p token
