-- ===== src/Api/Requests.antt =====
-- router.go: what comes in, what goes out, and what the handlers ask of the services.
use go_xidized.Prelude.{
  ℕ, Bool, true, Text, codes, is_empty, List, [], ◌∷◌, Option, none, some, if◌then◌else◌, ℤ, pos,
  lebℤ, ltbℤ,
}
use go_xidized.Prelude.Strings.{atoi}
use go_xidized.Types.{Time, Target, Job, RedactedConfig, Revision}
use go_xidized.Types.Errors.{Result, GoError}
use go_xidized.Scheduler.Manager.{Request as BackupRequest}

-- The fields that this code reads or writes.
pub record Principal : Type 0 where
  pub actor_id : Text
  pub actor_type : Text
  pub auth_method : Text
  pub subject : Text
  pub display_name : Text
  pub roles : List Text
  pub permissions : List Text
  pub token_id : Text
  pub expires_at : Time

pub record Request : Type 0 where
  pub method : Text
  pub path : Text
  pub authorization : Text
  pub cookie : Text → Option Text
  pub query : Text → Text
  -- `chi.URLParam`: the part of the path that the route gives a name, "" for other names
  pub url_param : Text → Text

pub record AuditEvent : Type 0 where
  pub actor_type : Text
  pub actor_id : Text
  pub action : Text
  pub outcome : Text
  pub target_id : Text

-- The body of a reply. An error's text stands for itself.
pub data Body : Type 0 where
  message : Text → Body
  principal_body : Principal → Body
  target_list : List Target → Body
  target_body : Target → Body
  queued_one : Text → Body
  queued_group : Text → ℕ → List Text → Body
  revision_list : List Revision → Body
  config_body : RedactedConfig → Revision → Body
  diff_body : Text → Body
  job_list : List Job → Body
  job_body : Job → Body
  names : List Text → Body
  event_list : List AuditEvent → Body
  redirect : Text → Body

pub data Effect : Type 0 where
  audit : AuditEvent → Effect
  enqueue : BackupRequest → Effect
  revoke : Text → Effect
  -- with the principal and the expiry
  create_session : Text → Principal → Time → Effect
  set_cookie : Text → Text → Effect
  clear_cookie : Text → Effect
  reply : ℕ → Body → Effect

pub record AuthStore : Type 0 where
  pub validate_token : Text → Result Principal
  pub resolve_oidc : Text → Result Principal
  pub create_oidc_session : Text → Principal → Time → Result Text
  pub revoke_token : Text → Option GoError

pub record Server : Type 0 where
  pub auth_store : Option AuthStore
  pub has_metadata : Bool
  pub has_storage : Bool
  pub has_scheduler : Bool
  pub bootstrap_token : Text
  pub auth_required : Bool
  pub oidc_cookie_name : Text

-- What the stores and the scheduler answer.
pub record Answers : Type 0 where
  pub list_devices : Result (List Target)
  pub get_device : Text → Result Target
  pub enqueue_answer : BackupRequest → Option GoError
  pub list_revisions : Text → ℤ → Result (List Revision)
  pub latest : Text → Result (RedactedConfig × Revision)
  pub diff : Text → Text → Text → Result Text
  pub list_jobs : ℤ → Result (List Job)
  pub get_job : Text → Result Job
  -- `none` where there is no function to reload
  pub reload : Option (Option GoError)
  pub drivers : List Text
  pub list_events : ℤ → Result (List AuditEvent)
  -- `Error()`
  pub error_text : GoError → Text

unfoldable pub session_cookie_name : Server → Text
session_cookie_name s =
    if is_empty s.oidc_cookie_name then codes "goxidized_session" else s.oidc_cookie_name

abbrev pub limit_of : ℤ → Option ℤ → ℤ
limit_of def none = def
limit_of def (some n) = if lebℤ n (pos 0) then def else if ltbℤ (pos 1000) n then pos 1000 else n

unfoldable pub query_limit : Request → ℤ → ℤ
unfolding atoi
query_limit r def = limit_of def (atoi (r.query (codes "limit")))

module _ (is_zero : Principal → Bool) where
  abbrev actor : Option Principal → Principal → Principal
  actor none anonymous = anonymous
  actor (some p) anonymous = if is_zero p then anonymous else p

  abbrev event : Principal → Text → Text → Text → AuditEvent
  event p action outcome target = record {
    actor_type = p.actor_type;
    actor_id = p.actor_id;
    action = action;
    outcome = outcome;
    target_id = target;
  }

  abbrev anonymous : Principal
  anonymous = record {
    actor_id = codes "anonymous";
    actor_type = codes "anonymous";
    auth_method = [];
    subject = [];
    display_name = [];
    roles = [];
    permissions = [];
    token_id = [];
    expires_at = 0;
  }

  abbrev pub has_audit_store : Server → Bool
  has_audit_store s = elim s.auth_store [ none ↦ s.has_metadata | some a ↦ true ]

  -- `Server.audit`; the principal is that of the request's context.
  unfoldable pub audit_of : Server → Option Principal → Text → Text → Text → List Effect
  audit_of s p action outcome target =
      if has_audit_store s then audit (event (actor p anonymous) action outcome target) ∷ [] else []
