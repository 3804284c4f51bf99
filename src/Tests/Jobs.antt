-- ===== src/Tests/Jobs.antt =====
-- The queue manager: two requests for one router, a store that grants every lease.
use go_xidized.Prelude.{
  ℕ, suc, ◌^◌, ◌*◌, ◌≡◌, refl, pos, true, false, codes, text_eq, List, [], ◌∷◌, arith, map, min,
}
use go_xidized.Types.{Target, Job, queued, failed_connect}
use go_xidized.Types.Floats.{float_of}
use go_xidized.Scheduler.Lease.{LeaseStore, granted}
use go_xidized.Scheduler.Config.{Config, normalize, backoff}
use go_xidized.Scheduler.Config.Backoff.{IsNormal, normalize-IsNormal, backoff-min}
use go_xidized.Scheduler.Manager.{Request, global, vendor, capacity, new, prepare, slots, put_token}
use go_xidized.Scheduler.Manager.Leases.{reserve}
use go_xidized.Scheduler.System.{
  Event, submit, send, take, acquire, handled, release, leave, start, run, handling, step,
  take_from_queue, send_to_queue, enqueue,
}
use go_xidized.Scheduler.System.Exclusive.{IsExclusive, run-start-IsExclusive}
use go_xidized.Scheduler.System.Semaphores.{Accounts, run-start-Accounts}

abbrev pub router : Target
router = record {
  id = codes "r1";
  hostname = codes "core";
  ip_address = codes "10.0.0.1";
  port = pos 22;
  vendor = codes "junos";
  group = codes "core";
  site = [];
  role = [];
  tags = [];
  metadata = [];
  jump_host = [];
  credential_ref = codes "env";
  enabled = true;
  telnet_enabled = false;
}

abbrev pub job : Job
job = record {
  id = codes "j1";
  target_id = codes "r1";
  group = codes "core";
  trigger = codes "schedule";
  actor = codes "system";
  status = queued;
  attempt = pos 1;
  queued_at = 5;
  started_at = 0;
  updated_at = 0;
}

abbrev pub request : Request
request = record { job = job; target = router }

abbrev pub config : Config
config = record {
  queue_size = pos 2;
  max_global_concurrency = pos 3;
  max_per_vendor_concurrency = pos 1;
  max_per_group_concurrency = pos 2;
  max_per_site_concurrency = pos 2;
  max_new_connections = float_of 1;
  max_attempts = pos 3;
  backoff_initial = pos 10;
  backoff_max = pos 45;
  circuit_failure_threshold = pos 2;
  circuit_open_duration = pos 100;
  worker_id = codes "w";
  lease_store = true;
  lease_ttl = pos 30;
  lease_renew_interval = pos 10;
}

-- The state counts the leases granted.
abbrev granting : LeaseStore ℕ
granting = record {
  try_acquire = λ l n. (granted, suc n);
  renew = λ l n. (granted, n);
  release = λ l n. n;
}

abbrev history : List Event
history =
    submit [] 5 request
    ∷ submit [] 6 request
    ∷ send 0
    ∷ take
    ∷ acquire 0
    ∷ acquire 0
    ∷ acquire 0
    ∷ acquire 0
    ∷ acquire 0
    ∷ []

abbrev life : List Event
life = handled 0 failed_connect 9 ∷ release 0 ∷ leave 0 ∷ []

run-start-IsExclusive_example :
    IsExclusive (run granting (start granting [] config (pos 1) 0) history)
run-start-IsExclusive_example = run-start-IsExclusive granting [] config (pos 1) 0 history

run-start-Accounts_example :
    Accounts
      (normalize [] config)
      global
      (run granting (start granting [] config (pos 1) 0) history)
run-start-Accounts_example = run-start-Accounts granting [] config (pos 1) 0 global history

normalize-IsNormal_example : IsNormal (normalize (codes "host-1") config)
normalize-IsNormal_example = normalize-IsNormal (codes "host-1") config

backoff-min_example : backoff config (pos 4) ≡ pos (min (10 * 2 ^ 3) 45)
backoff-min_example = backoff-min config 3 10 45 refl refl (omega arith) (omega arith)

-- The second request for the router is refused, and the first reaches the handler.
one_runs :
    map (λ w. w.phase) (run granting (start granting [] config (pos 1) 0) history).workers
    ≡ handling ∷ []
unfolding run start step take_from_queue send_to_queue enqueue prepare reserve new normalize text_eq
    slots capacity put_token
one_runs = refl
