-- ===== src/Tests/Tables.antt =====
-- The tables of the metadata store: a session, a job, two devices and a migration.
use go_xidized.Prelude.{
  false, ℕ, zero, suc, ◌≡◌, refl, ap, ◌∙◌, pos, Text, codes, text_eq, List, [], ◌∷◌, arith, none,
  ◌⊎◌,
}
use go_xidized.Types.{Job, Target, success_changed}
use go_xidized.Types.Errors.{GoError, plain, ok, err}
use go_xidized.Api.Requests.{Principal}
use go_xidized.Metadata.{micros, Database}
use go_xidized.Metadata.Accounts.{Libraries, AuthTables, UserRow, roles_loop}
use go_xidized.Metadata.Tokens.{validate_auth_token, create_oidc_session}
use go_xidized.Metadata.Tokens.Sessions.{create_oidc_session-validate}
use go_xidized.Metadata.Jobs.{
  JobResult, JobTables, record_job_start, started_job, get_job, record_job_finish,
}
use go_xidized.Metadata.Jobs.Finished.{JobCall, start, record_job-get_job, run_job, job_calls}
use go_xidized.Metadata.Devices.{Codec, upsert_devices, get_device, scanned, DeviceRow}
use go_xidized.Metadata.Devices.Upserts.{upsert_devices-get_device, newest}
use go_xidized.Metadata.Migrations.{Scripts, SchemaTables, migrate}
use go_xidized.Metadata.Migrations.Repeated.{migrate-migrate}
use go_xidized.Prelude.Strings.{has_prefix}
use go_xidized.Tests.Jobs.{job, router}

abbrev pub libraries : Libraries
libraries = record {
  digest = λ t. 0 ∷ t;
  decode = λ t. ok (t ∷ []);
  by_id = λ rs. rs;
  no_rows = plain (codes "no rows");
  unique_violation = plain (codes "unique");
}

abbrev user : UserRow
user = record { id = codes "u1"; subject = codes "sub"; display_name = codes "Ann" }

abbrev tables : AuthTables
tables = record {
  tokens = [];
  users = user ∷ [];
  roles = record { id = codes "viewer"; permissions = codes "configs:read" } ∷ [];
  user_roles = (codes "u1", codes "viewer") ∷ [];
}

abbrev pub principal : Principal
principal = record {
  actor_id = codes "u1";
  actor_type = codes "user";
  auth_method = codes "oidc";
  subject = codes "sub";
  display_name = codes "Ann";
  roles = codes "viewer" ∷ [];
  permissions = codes "configs:read" ∷ [];
  token_id = [];
  expires_at = 0;
}

abbrev pub database : Database AuthTables
database = record { tables = tables; outcomes = [] }

abbrev pub token : Text
token = codes "t"

abbrev session : Principal
session = record principal {
  auth_method = codes "oidc_session";
  token_id = codes "s1";
  expires_at = 2_000;
}

create_oidc_session-validate_example :
    (validate_auth_token libraries 50 token
      (create_oidc_session libraries (codes "s1") (0 ∷ token) principal 2_100 database).1).0
    ≡ ok session
unfolding create_oidc_session text_eq roles_loop micros
create_oidc_session-validate_example =
    create_oidc_session-validate libraries token (codes "s1") principal 2_100 50 database user
      (record principal { auth_method = [] }) refl refl refl (omega arith) refl refl

abbrev result : JobResult
result = record {
  job_id = codes "j1";
  target_id = codes "r1";
  status = success_changed;
  attempt = pos 1;
  failure = none;
  error_text = [];
  started_at = 7;
  finished_at = 9_001;
  duration = pos 2;
  revision_id = codes "rev-1";
}

abbrev jobs : Database JobTables
jobs = record { tables = record { jobs = []; results = [] }; outcomes = [] }

abbrev other_start : JobCall
other_start = start [] 8 (record job { id = [] })

abbrev queued : Job
queued = record job { queued_at = 6_003 }

record_job-get_job_example :
    (get_job (plain []) (codes "j1") (
      job_calls
        (λ e. [])
        []
        (run_job (λ e. []) [] 7_002 queued (other_start ∷ []) 10 result jobs).1)).0
    ≡ ok (record job {
      queued_at = 6_000;
      started_at = 7_000;
      status = success_changed;
      updated_at = 9_000;
    })
unfolding record_job_start started_job record_job_finish text_eq micros
record_job-get_job_example =
    record_job-get_job (λ e. []) (plain []) [] 7_002 10 queued (started_job [] 7_002 queued) result
      [] jobs (other_start ∷ []) [] refl refl ((λ e. cc), tt) refl refl tt refl

-- Texts as one text: a code is kept one higher, and 0 ends a text.
abbrev ended_text : Text → Text → Text
ended_text [] rest = 0 ∷ rest
ended_text (c ∷ t) rest = suc c ∷ ended_text t rest

abbrev encoded : List Text → Text
encoded [] = []
encoded (t ∷ ts) = ended_text t (encoded ts)

abbrev with_code : ℕ → List Text → List Text
with_code c [] = (c ∷ []) ∷ []
with_code c (t ∷ ts) = (c ∷ t) ∷ ts

abbrev decoded : Text → List Text
decoded [] = []
decoded (zero ∷ s) = [] ∷ decoded s
decoded (suc c ∷ s) = with_code c (decoded s)

decoded-ended_text : (t rest : Text) → decoded (ended_text t rest) ≡ t ∷ decoded rest
decoded-ended_text [] rest = refl
decoded-ended_text (c ∷ t) rest = ap (with_code c) (decoded-ended_text t rest)

decoded-encoded : (ts : List Text) → decoded (encoded ts) ≡ ts
decoded-encoded [] = refl
decoded-encoded (t ∷ ts) =
    decoded-ended_text t (encoded ts) ∙ ap (λ rest. t ∷ rest) (decoded-encoded ts)

abbrev listed : List (Text × Text) → List Text
listed [] = []
listed ((k, v) ∷ m) = k ∷ v ∷ listed m

abbrev paired : List Text → List (Text × Text)
paired [] = []
paired (k ∷ []) = []
paired (k ∷ v ∷ ts) = (k, v) ∷ paired ts

paired-listed : (m : List (Text × Text)) → paired (listed m) ≡ m
paired-listed [] = refl
paired-listed ((k, v) ∷ m) = ap (λ rest. (k, v) ∷ rest) (paired-listed m)

abbrev codec : Codec
codec = record {
  encode_tags = encoded;
  decode_tags = decoded;
  encode_metadata = λ m. encoded (listed m);
  decode_metadata = λ s. paired (decoded s);
  by_id = λ rs. rs;
  no_rows = plain (codes "no rows");
}

abbrev inventory : List Target
inventory = router ∷ record router { hostname = codes "edge" } ∷ []

abbrev no_devices : Database (List DeviceRow)
no_devices = record { tables = []; outcomes = [] }

upsert_devices-get_device_example :
    (((e : GoError) × ((upsert_devices codec inventory no_devices).0 ≡ err e))
      × ((id : Text)
          → (get_device codec id (upsert_devices codec inventory no_devices).1).0
            ≡ scanned codec none))
    ⊎ ((id : Text)
        → (get_device codec id (upsert_devices codec inventory no_devices).1).0
          ≡ newest ok id inventory (scanned codec none))
unfolding upsert_devices
upsert_devices-get_device_example =
    upsert_devices-get_device codec inventory no_devices
      (decoded-encoded, λ m. ap paired (decoded-encoded (listed m)) ∙ paired-listed m) refl

-- A script raises a number by one.
abbrev scripts : Scripts ℕ
scripts = record {
  read_dir = ok (record { name = codes "1.sql"; is_dir = false } ∷ []);
  read_file = ok;
  execute = λ sql n. (ok [], suc n);
}

abbrev unmigrated : Database (SchemaTables ℕ)
unmigrated = record { tables = record { applied = []; schema = 0 }; outcomes = [] }

migrate-migrate_example :
    migrate scripts (migrate scripts unmigrated).1 ≡ (ok [], (migrate scripts unmigrated).1)
unfolding migrate has_prefix text_eq
migrate-migrate_example = migrate-migrate scripts unmigrated refl refl
