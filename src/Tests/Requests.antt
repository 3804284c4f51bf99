-- ===== src/Tests/Requests.antt =====
-- Requests to the HTTP API: one with a token, a login, and a backup of a group.
use go_xidized.Prelude.{
  ◌+◌, ◌≡◌, refl, Bool, true, false, Text, codes, text_eq, List, [], ◌∷◌, none, some, if◌then◌else◌,
  pos, ◌⊎◌, length, any, is_empty,
}
use go_xidized.Types.{Target}
use go_xidized.Types.Errors.{ok, err, plain, GoError}
use go_xidized.Inventory.Router.{router_target}
use go_xidized.Api.Requests.{
  Principal, Request, AuthStore, Server, Answers, audit_of, session_cookie_name,
}
use go_xidized.Api.{devices, permission, serve, handler}
use go_xidized.Api.Access.{denied, IsIdentity, serve-IsIdentity}
use go_xidized.Api.Handlers.{queue_each}
use go_xidized.Api.Bounds.{due, AreBackups, refusals, queue_each-asked}
use go_xidized.Api.Oidc.{
  Identity, Provider, Settings, oidc_callback, call_back, exchanged, sign_in, for_user,
  open_session, session_opened, returned_nonce, enabled_provider, nonce_cookie,
}
use go_xidized.Api.Oidc.Exchange.{
  Library, IsVerified, exchange_token, with_id_token, verified, identified,
  exchange_token-IsVerified,
}
use go_xidized.Api.Oidc.Login.{HasState, LetsIn, oidc_callback-cookie, sets_cookie}

abbrev user : Principal
user = record {
  actor_id = codes "u1";
  actor_type = codes "user";
  auth_method = [];
  subject = codes "oidc:i#s";
  display_name = [];
  roles = codes "operator" ∷ [];
  permissions = codes "devices:read" ∷ [];
  token_id = codes "t1";
  expires_at = 0;
}

abbrev pub is_blank : Principal → Bool
is_blank p = is_empty p.actor_id

abbrev pub may : Principal → Text → Bool
may p name = any (text_eq name) p.permissions

abbrev refusal : GoError
refusal = plain (codes "no")

abbrev store : AuthStore
store = record {
  validate_token = λ t. if text_eq t (codes "secret") then ok user else err refusal;
  resolve_oidc = λ s. ok user;
  create_oidc_session = λ h p e. ok (codes "s1");
  revoke_token = λ t. none;
}

abbrev pub server : Server
server = record {
  auth_store = some store;
  has_metadata = true;
  has_storage = true;
  has_scheduler = true;
  bootstrap_token = [];
  auth_required = true;
  oidc_cookie_name = [];
}

abbrev device : Text → Target
device id = router_target id (codes "eos") (codes "10.0.0.1") (codes "core") (codes "env") [] []

abbrev group : List Target
group =
    device (codes "r1")
    ∷ record (device (codes "r2")) { enabled = false }
    ∷ device (codes "r3")
    ∷ []

abbrev pub answers : Answers
answers = record {
  list_devices = ok group;
  get_device = λ id. ok (device id);
  enqueue_answer = λ q. if text_eq q.target.id (codes "r3") then some refusal else none;
  list_revisions = λ id n. ok [];
  latest = λ id. err refusal;
  diff = λ id a b. err refusal;
  list_jobs = λ n. ok [];
  get_job = λ id. err refusal;
  reload = none;
  drivers = [];
  list_events = λ n. ok [];
  error_text = λ e. codes "no";
}

abbrev pub request : Request
request = record {
  method = codes "GET";
  path = codes "/api/v1/devices";
  authorization = codes "Bearer secret";
  cookie = λ name. some (codes "st");
  query = λ name. if text_eq name (codes "error") then [] else codes "st";
  url_param = λ name. [];
}

serve-IsIdentity_example :
    (denied (serve is_blank may devices server answers request) ≡ true)
    ⊎ ((p : Principal) × IsIdentity is_blank server request p
        × (may p (codes "devices:read") ≡ true)
        × (serve is_blank may devices server answers request
            ≡ handler is_blank may devices server answers request p))
unfolding permission
serve-IsIdentity_example =
    serve-IsIdentity is_blank may devices server answers request (codes "devices:read") refl

queue_each-asked_example :
    let (calls, count, errs) = queue_each answers user (codes "core") group in
    AreBackups user (due (codes "core") group) calls
    × (errs ≡ refusals answers user (due (codes "core") group))
    × (count + length errs ≡ length (due (codes "core") group))
queue_each-asked_example = queue_each-asked answers user (codes "core") group

abbrev same_text : Text → Text
same_text t = t

abbrev provider : Provider
provider = record {
  issuer = codes "i";
  auth_code_url = λ state nonce. codes "https://i/auth";
  exchange = λ code nonce.
      ok (record { subject = codes "s"; display_name = codes "Ana"; email_verified = true });
}

abbrev settings : Settings
settings = record {
  provider = some provider;
  oidc_enabled = true;
  session_ttl = pos 0;
  require_email_verified = true;
}

sets_session :
    any sets_cookie (oidc_callback is_blank same_text server settings 1 (some (codes "k")) request)
    ≡ true
unfolding oidc_callback call_back exchanged sign_in for_user open_session session_opened
    returned_nonce audit_of session_cookie_name text_eq
sets_session = refl

oidc_callback-cookie_example :
    (o : Provider) × (a : AuthStore) × (nonce : Text) × (i : Identity) × (enabled_provider is_blank
        same_text settings
      ≡ some o)
    × (some store ≡ some a)
    × HasState is_blank same_text request
    × (request.cookie nonce_cookie ≡ some nonce)
    × (o.exchange (request.query (codes "code")) nonce ≡ ok i)
    × LetsIn is_blank same_text settings o a 1 (some (codes "k")) i
oidc_callback-cookie_example =
    oidc_callback-cookie is_blank same_text server settings 1 (some (codes "k")) request
      sets_session

abbrev library : Library
library = record {
  exchange_code = λ code. ok (some (codes "raw"));
  verify = λ raw. ok (record {
    subject = codes "s";
    claims = ok (record {
      subject = [];
      email = codes "ana@example.com";
      email_verified = true;
      name = [];
      preferred_username = codes "ana";
      nonce = codes "n";
    });
  });
}

-- The token's own subject and the preferred name stand in for the claims that are missing.
exchange_token-IsVerified_example :
    IsVerified library
      (codes "c")
      (codes "n")
      record { subject = codes "s"; display_name = codes "ana"; email_verified = true }
unfolding exchange_token with_id_token verified identified text_eq
exchange_token-IsVerified_example =
    exchange_token-IsVerified library (codes "c") (codes "n")
      record { subject = codes "s"; display_name = codes "ana"; email_verified = true } refl
