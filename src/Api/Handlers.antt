-- ===== src/Api/Handlers.antt =====
-- router.go: the handlers below `/api/v1`.
use go_xidized.Prelude.{
  ℕ, suc, Bool, false, ◌||◌, Text, codes, is_empty, text_eq, List, [], ◌∷◌, ◌++◌, none, some,
  if◌then◌else◌, pos,
}
use go_xidized.Types.{Target, queued}
use go_xidized.Types.Errors.{Result, ok, err}
use go_xidized.Scheduler.Manager.{Request as BackupRequest}
use go_xidized.Api.Requests.{
  Principal, Request, Effect, enqueue, reply, Body, message, principal_body, target_list,
  target_body, queued_one, queued_group, revision_list, config_body, diff_body, job_list, job_body,
  names, event_list, Server, Answers, audit_of, query_limit,
}

unfoldable pub me : Principal → List Effect
me p = reply 200 (principal_body p) ∷ []

-- A reply with the value, or with the status and the error's text.
abbrev answer : {A : Type 0} → Answers → ℕ → (A → Body) → Result A → List Effect
answer a status body (ok x) = reply 200 (body x) ∷ []
answer a status body (err e) = reply status (message (a.error_text e)) ∷ []

unfoldable pub list_devices : Answers → List Effect
list_devices a = answer a 500 target_list a.list_devices

unfoldable pub get_device : Answers → Request → List Effect
get_device a r = answer a 404 target_body (a.get_device (r.url_param (codes "id")))

unfoldable pub list_jobs : Answers → Request → List Effect
unfolding query_limit
list_jobs a r = answer a 500 job_list (a.list_jobs (query_limit r (pos 100)))

unfoldable pub get_job : Answers → Request → List Effect
get_job a r = answer a 404 job_body (a.get_job (r.url_param (codes "id")))

unfoldable pub list_drivers : Answers → List Effect
list_drivers a = reply 200 (names a.drivers) ∷ []

-- The request for a backup of a device.
abbrev pub backup_request : Principal → Target → BackupRequest
backup_request p d = record {
  job = record {
    id = [];
    target_id = d.id;
    group = d.group;
    trigger = codes "api";
    actor = p.actor_id;
    status = queued;
    attempt = pos 0;
    queued_at = 0;
    started_at = 0;
    updated_at = 0;
  };
  target = d;
}

-- Is the device in the group, and enabled?
abbrev pub is_asked : Text → Target → Bool
is_asked group d = if text_eq d.group group then d.enabled else false

-- The loop of `backupGroup`: the calls, the number queued and the errors.
unfoldable pub queue_each : Answers → Principal → Text → List Target → List Effect × ℕ × List Text
queue_each a p group [] = ([], 0, [])
queue_each a p group (d ∷ ds) =
    let (calls, count, errs) = queue_each a p group ds in
    if is_asked group d
    then elim (a.enqueue_answer (backup_request p d)) [
      | none ↦ (enqueue (backup_request p d) ∷ calls, suc count, errs)
      | some e ↦ (
        enqueue (backup_request p d) ∷ calls,
        count,
        (d.id ++ (codes ": " ++ a.error_text e)) ∷ errs,
      )
    ]
    else (calls, count, errs)

abbrev outcome_of : List Text → Text
outcome_of [] = codes "queued"
outcome_of (e ∷ es) = codes "partial"

module _ (is_zero : Principal → Bool) where
  abbrev note : Server → Principal → Text → Text → Text → List Effect
  note s p action outcome target = audit_of is_zero s (some p) action outcome target

  unfoldable pub backup_device : Server → Answers → Request → Principal → List Effect
  unfolding audit_of
  backup_device s a r p = elim (a.get_device (r.url_param (codes "id"))) [
    | err e ↦
        note s p (codes "backup.run") (codes "not_found") (r.url_param (codes "id"))
        ++ (reply 404 (message (a.error_text e)) ∷ [])
    | ok d ↦ enqueue (backup_request p d) ∷ elim (a.enqueue_answer (backup_request p d)) [
      | some e ↦
          note s p (codes "backup.run") (codes "failed") d.id
          ++ (reply 409 (message (a.error_text e)) ∷ [])
      | none ↦
          note s p (codes "backup.run") (codes "queued") d.id ++ (reply 202 (queued_one d.id) ∷ [])
    ]
  ]

  unfoldable pub backup_group : Server → Answers → Request → Principal → List Effect
  unfolding audit_of queue_each
  backup_group s a r p = elim a.list_devices [
    | err e ↦
        note s p (codes "backup.run") (codes "failed") []
        ++ (reply 500 (message (a.error_text e)) ∷ [])
    | ok devices ↦
        let (calls, count, errs) = queue_each a p (r.url_param (codes "group")) devices in
        calls
        ++ (note s p (codes "backup.run") (outcome_of errs) []
            ++ (reply 202 (queued_group (r.url_param (codes "group")) count errs) ∷ []))
  ]

  -- A read that is audited, whether it succeeds or fails.
  abbrev audited :
      {A : Type 0}
      → Server
      → Answers
      → Principal
      → Text
      → Text
      → ℕ
      → (A → Body)
      → Result A
      → List Effect
  audited s a p action target status body (ok x) =
      note s p action (codes "success") target ++ (reply 200 (body x) ∷ [])
  audited s a p action target status body (err e) =
      note s p action (codes "failed") target ++ (reply status (message (a.error_text e)) ∷ [])

  unfoldable pub config_history : Server → Answers → Request → Principal → List Effect
  unfolding audit_of query_limit
  config_history s a r p =
      audited s a p (codes "config.history.read") (r.url_param (codes "id")) 500 revision_list
        (a.list_revisions (r.url_param (codes "id")) (query_limit r (pos 100)))

  unfoldable pub latest_config : Server → Answers → Request → Principal → List Effect
  unfolding audit_of
  latest_config s a r p =
      audited s a p (codes "config.latest.read") (r.url_param (codes "id")) 404
        (λ (cfg, rev). config_body cfg rev) (a.latest (r.url_param (codes "id")))

  unfoldable pub diff_config : Server → Answers → Request → Principal → List Effect
  unfolding audit_of
  diff_config s a r p =
      let from = r.query (codes "from") in
      let to = r.query (codes "to") in
      if is_empty from || is_empty to
      then note s p (codes "config.diff.read") (codes "bad_request") (r.url_param (codes "id"))
        ++ (reply 400 (message (codes "from and to query parameters are required")) ∷ [])
      else audited s a p (codes "config.diff.read") (r.url_param (codes "id")) 500 diff_body
          (a.diff (r.url_param (codes "id")) from to)

  unfoldable pub reload_inventory : Server → Answers → Request → Principal → List Effect
  unfolding audit_of
  reload_inventory s a r p = elim a.reload [
    | none ↦
        note s p (codes "inventory.reload") (codes "not_configured") []
        ++ (reply 501 (message (codes "inventory reload is not configured")) ∷ [])
    | some (some e) ↦
        note s p (codes "inventory.reload") (codes "failed") []
        ++ (reply 500 (message (a.error_text e)) ∷ [])
    | some none ↦
        note s p (codes "inventory.reload") (codes "success") []
        ++ (reply 200 (message (codes "reloaded")) ∷ [])
  ]

  unfoldable pub driver_test : Server → Request → Principal → List Effect
  unfolding audit_of
  driver_test s r p =
      if is_empty (r.url_param (codes "name"))
      then note s p (codes "driver.test") (codes "bad_request") []
        ++ (reply 400 (message (codes "driver name required")) ∷ [])
      else note s p (codes "driver.test") (codes "accepted") (r.url_param (codes "name"))
        ++ (reply 202 (message (codes "fixture-test endpoint registered")) ∷ [])

  unfoldable pub audit_events : Server → Answers → Request → Principal → List Effect
  unfolding audit_of query_limit
  audit_events s a r p =
      audited s a p (codes "audit.events.read") [] 500 event_list
        (a.list_events (query_limit r (pos 100)))
