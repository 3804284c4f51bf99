-- ===== src/Tests/Backups.antt =====
-- A backup in which every service answers well, and a comparison of two small configurations.
use go_xidized.Prelude.{◌≡◌, refl, true, false, Text, codes, List, [], ◌∷◌, none, some, max, All}
use go_xidized.Prelude.Strings.{trim_space, to_lower}
use go_xidized.Types.{RedactionReport, Revision, DiffResult, RiskLevel}
use go_xidized.Pipeline.Diff.{diff_edits}
use go_xidized.Pipeline.Diff.Script.{Joins, diff_edits-Joins}
use go_xidized.Pipeline.Risk.{risk_rank, risk_rules, classify_risk}
use go_xidized.Pipeline.Risk.Level.{highest, classify_risk_rank}
use go_xidized.Types.Errors.{ok}
use go_xidized.Worker.{Answers, handle, Fetched}
use go_xidized.Worker.Trace.{Ends, handle-Ends}
use go_xidized.Worker.Redacted.{StoresRedacted, handle-stores}
use go_xidized.Worker.Statuses.{HasStatus, handle-HasStatus}
use go_xidized.Tests.Jobs.{request, job}

abbrev report : RedactionReport
report = record { secrets_found = 1; categories = []; fingerprints = [] }

abbrev fetched : Fetched
fetched = record { target_id = codes "r1"; raw_config = codes "key 1"; metadata = [] }

abbrev revision : Revision
revision = record {
  id = codes "v2";
  target_id = codes "r1";
  shard = [];
  path = [];
  content_sha256 = [];
  commit_sha = [];
  parent_commit = [];
  created_at = 7;
  changed = true;
  commit_trailers = [];
}

abbrev answers : Answers
answers = record {
  job_start = ok job;
  credentials = none;
  driver = none;
  ssh_dialer = some none;
  telnet_dialer = none;
  prepare = none;
  fetch = ok fetched;
  normalize = λ c. ok c;
  redact = λ c. ok (record { target_id = c.target_id; content = codes "key x" }, report);
  latest = (record { target_id = []; content = [] }, []);
  save = λ r m. ok revision;
  done_before_diff = false;
  revision_saved = none;
  diff_saved = none;
  has_notifier = true;
}

handle-stores_example : All (StoresRedacted answers) (handle answers request).1
handle-stores_example = handle-stores answers request

handle-Ends_example : Ends answers (codes "j1" ∷ []) (handle answers request).1
handle-Ends_example = handle-Ends answers request

handle-HasStatus_example : HasStatus true (handle answers request).0 (handle answers request).1
handle-HasStatus_example = handle-HasStatus answers request

abbrev before : List Text
before = codes "a" ∷ codes "b" ∷ codes "c" ∷ []

abbrev after : List Text
after = codes "a" ∷ codes "x" ∷ codes "c" ∷ []

diff_edits-Joins_example : Joins (diff_edits before after) before after
diff_edits-Joins_example = diff_edits-Joins before after

abbrev same_diff : DiffResult
same_diff = record {
  target_id = [];
  from_revision = [];
  to_revision = [];
  unified_diff = codes "--- \n+++ \n a\n";
  added_lines = 0;
  removed_lines = 0;
  risk = RiskLevel.low;
  categories = [];
  rule_hits = [];
}

classify_risk_rank_example :
    risk_rank (classify_risk (codes "+SNMP x")).max
    ≡ max 1 (highest (to_lower (codes "+SNMP x")) risk_rules)
classify_risk_rank_example = classify_risk_rank (codes "+SNMP x") (unfold trim_space in refl)
