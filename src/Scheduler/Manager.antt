-- ===== src/Scheduler/Manager.antt =====
-- internal/scheduler/manager.go: the manager's state and the operations on its maps, semaphores and
-- leases. A channel of empty structs is its number of tokens; a map that is only looked up is a
-- function; the lease map, which is iterated over, is an association list.
pub mod Leases
use go_xidized.Prelude.{
  ℕ, zero, suc, ◌+◌, ◌-◌, ℤ, pos, pos_part, neg_part, Bool, true, false, ◌&&◌, Text, codes,
  is_empty, text_eq, ltb, leb, lebℤ, ◌==◌, if◌then◌else◌, List, [], ◌∷◌, Option, none, some,
}
use go_xidized.Types.{
  Time, Duration, Target, Job, JobStatus, unset, queued, success_no_change, success_changed,
}
use go_xidized.Scheduler.Config.{Config, normalize}
use go_xidized.Scheduler.Lease.{WorkerLease, LeaseReply, granted, denied, failed, LeaseStore}

pub record Request : Type 0 where
  pub job : Job
  pub target : Target

pub record Circuit : Type 0 where
  pub failures : ℕ
  pub open_until : Time

-- The semaphores: the global one and one for each key of the maps `vendor`, `group` and `site`.
pub data Slot : Type 0 where
  global : Slot
  vendor group site : Text → Slot

abbrev pub slot_eq : Slot → Slot → Bool
slot_eq global global = true
slot_eq (vendor a) (vendor b) = text_eq a b
slot_eq (group a) (group b) = text_eq a b
slot_eq (site a) (site b) = text_eq a b
slot_eq _ _ = false

pub record Manager : Type 0 where
  pub cfg : Config
  pub queue : List Request
  pub tokens : Slot → ℕ
  pub active : Text → Bool
  pub cb : Text → Circuit
  pub leased : List (Text × WorkerLease)

pub data Error : Type 0 where
  no_target_id duplicate_active circuit_open lease_held store_failed : Error

-- `t.Add(d)`
abbrev pub add_time : Time → Duration → Time
add_time t d = t + pos_part d - neg_part d

abbrev closed_circuit : Circuit
closed_circuit = record { failures = 0; open_until = 0 }

unfoldable pub new : Text → Config → Manager
new default_worker_id cfg = record {
  cfg = normalize default_worker_id cfg;
  queue = [];
  tokens = λ s. 0;
  active = λ id. false;
  cb = λ id. closed_circuit;
  leased = [];
}

-- A map with the entry at `k` given anew.
abbrev pub update {ℓ} : {A : Type ℓ} → (Text → A) → Text → A → Text → A
update f k v j = if text_eq k j then v else f j

abbrev or_queued : JobStatus → JobStatus
or_queued unset = queued
or_queued s = s

abbrev or_first : ℤ → ℤ
or_first (pos zero) = pos 1
or_first n = n

-- `newJobID` and the clock are the arguments `new_id` and `now`. `none`: the target has no id.
unfoldable pub prepare : Text → Time → Request → Option Request
prepare new_id now req =
    if is_empty req.target.id
    then none
    else some (record req {
      job = record (req.job) {
        target_id = if is_empty req.job.target_id then req.target.id else req.job.target_id;
        group = if is_empty req.job.group then req.target.group else req.job.group;
        status = or_queued req.job.status;
        attempt = or_first req.job.attempt;
        id = if is_empty req.job.id then new_id else req.job.id;
        queued_at = if req.job.queued_at == 0 then now else req.job.queued_at;
      };
    })

abbrev key_or_default : Text → Text
key_or_default key = if is_empty key then codes "default" else key

-- The semaphores in the order in which `acquire` takes them.
unfoldable pub slots : Target → List Slot
slots t =
    global
    ∷ vendor (key_or_default t.vendor)
    ∷ group (key_or_default t.group)
    ∷ site (key_or_default t.site)
    ∷ []

unfoldable pub capacity : Config → Slot → ℕ
capacity cfg global = pos_part cfg.max_global_concurrency
capacity cfg (vendor k) = pos_part cfg.max_per_vendor_concurrency
capacity cfg (group k) = pos_part cfg.max_per_group_concurrency
capacity cfg (site k) = pos_part cfg.max_per_site_concurrency

-- `sem <- struct{}{}` on a channel with room, and `select { case <-sem: default: }`.
unfoldable pub put_token : Slot → (Slot → ℕ) → Slot → ℕ
put_token s f j = if slot_eq s j then suc (f j) else f j

unfoldable pub take_token : Slot → (Slot → ℕ) → Slot → ℕ
take_token s f j = if slot_eq s j then f j - 1 else f j

unfoldable pub take_tokens : List Slot → (Slot → ℕ) → Slot → ℕ
unfolding take_token
take_tokens [] f = f
take_tokens (s ∷ ss) f = take_tokens ss (take_token s f)

unfoldable pub clear_active : Text → Manager → Manager
clear_active id m = record m { active = update m.active id false }

unfoldable pub record_success : Text → Manager → Manager
record_success id m = record m { cb = update m.cb id closed_circuit }

-- `CircuitFailureThreshold` is positive once normalized.
unfoldable pub record_failure : Time → Text → Manager → Manager
record_failure now id m =
    let c = m.cb id in
    let n = suc c.failures in
    let until =
      if lebℤ m.cfg.circuit_failure_threshold (pos n)
      then add_time now m.cfg.circuit_open_duration
      else c.open_until in
    record m { cb = update m.cb id (record { failures = n; open_until = until }) }

unfoldable pub is_success : JobStatus → Bool
is_success success_changed = true
is_success success_no_change = true
is_success _ = false

unfoldable pub find_lease : Text → List (Text × WorkerLease) → Option WorkerLease
find_lease id [] = none
find_lease id ((k, l) ∷ ls) = if text_eq k id then some l else find_lease id ls

unfoldable pub delete_lease : Text → List (Text × WorkerLease) → List (Text × WorkerLease)
delete_lease id [] = []
delete_lease id ((k, l) ∷ ls) =
    let rest = delete_lease id ls in if text_eq k id then rest else (k, l) ∷ rest

unfoldable pub set_lease :
    Text → WorkerLease → List (Text × WorkerLease) → List (Text × WorkerLease)
unfolding delete_lease
set_lease id l ls = (id, l) ∷ delete_lease id ls

unfoldable pub take_lease : Text → Manager → Option WorkerLease × Manager
unfolding find_lease delete_lease
take_lease id m = (find_lease id m.leased, record m { leased = delete_lease id m.leased })
