-- ===== src/Types.antt =====
-- pkg/goxidized/types.go: the data that the parts of the system exchange. A `time.Time` is the
-- number of nanoseconds since the zero time, so that `IsZero` is a test for 0; a `time.Duration`
-- is a signed number of nanoseconds. JSON tags, methods that only print and fields that no modelled
-- code reads or writes are left out.
pub mod Errors
pub mod Floats
pub mod Secrets
use go_xidized.Prelude.{ℕ, ℤ, Bool, Text, List, Option}

abbrev pub Time : Type 0
Time = ℕ

abbrev pub Duration : Type 0
Duration = ℤ

abbrev pub second : ℕ
second = 1_000_000_000

abbrev pub minute : ℕ
minute = 60_000_000_000

abbrev pub hour : ℕ
hour = 3_600_000_000_000

pub record Target : Type 0 where
  pub id : Text
  pub hostname : Text
  pub ip_address : Text
  pub port : ℤ
  pub vendor : Text
  pub group : Text
  pub site : Text
  pub role : Text
  pub tags : List Text
  -- A nil map and an empty map are read alike.
  pub metadata : List (Text × Text)
  pub jump_host : Text
  pub credential_ref : Text
  pub enabled : Bool
  pub telnet_enabled : Bool

-- The string constants of `JobStatus`; `unset` is the empty string.
pub data JobStatus : Type 0 where
  unset queued leased running success_no_change success_changed failed_connect : JobStatus
  failed_auth failed_privilege failed_command failed_timeout failed_normalization : JobStatus
  failed_redaction failed_storage failed_credential_provider skipped_disabled : JobStatus
  skipped_blackout skipped_circuit_open cancelled : JobStatus

pub record Job : Type 0 where
  pub id : Text
  pub target_id : Text
  pub group : Text
  pub trigger : Text
  pub actor : Text
  pub status : JobStatus
  pub attempt : ℤ
  pub queued_at : Time
  pub started_at : Time
  pub updated_at : Time

-- The string constants of `RiskLevel`; `unset` is the empty string.
pub data RiskLevel : Type 0 where
  unset none low medium high critical : RiskLevel

pub record RedactedConfig : Type 0 where
  pub target_id : Text
  pub content : Text

pub record RedactionReport : Type 0 where
  pub secrets_found : ℕ
  pub categories : List Text
  pub fingerprints : List (Text × Text)

pub record DiffResult : Type 0 where
  pub target_id : Text
  pub from_revision : Text
  pub to_revision : Text
  pub unified_diff : Text
  pub added_lines : ℕ
  pub removed_lines : ℕ
  pub risk : RiskLevel
  pub categories : List Text
  pub rule_hits : List Text

pub record CommitMeta : Type 0 where
  pub job_id : Text
  pub trigger : Text
  pub actor : Text
  pub ruleset_version : Text
  pub redaction_report : RedactionReport
  pub risk : RiskLevel
  pub device_metadata : List (Text × Text)

pub record Revision : Type 0 where
  pub id : Text
  pub target_id : Text
  pub shard : Text
  pub path : Text
  pub content_sha256 : Text
  pub commit_sha : Text
  pub parent_commit : Text
  pub created_at : Time
  pub changed : Bool
  pub commit_trailers : List (Text × Text)
