-- ===== src/Scheduler/Manager/Leases.antt =====
-- manager.go: the operations that reserve a target and call the lease store. `σ` is the store's
-- state. Each operation is one step: what it does between its locks concerns its own target only.
pub mod Renewals
pub mod Reservations
pub mod Shared
use go_xidized.Prelude.{
  ℕ, Bool, true, false, Text, text_eq, ltb, if◌then◌else◌, ◌&&◌, List, [], ◌∷◌, Option, none, some,
}
use go_xidized.Types.{Time}
use go_xidized.Scheduler.Lease.{WorkerLease, LeaseReply, granted, denied, failed, LeaseStore}
use go_xidized.Scheduler.Manager.{
  Request, Circuit, Manager, Error, duplicate_active, circuit_open, lease_held, store_failed,
  add_time, update, clear_active, find_lease, set_lease, take_lease,
}

module _ {σ : Type 0} (store : LeaseStore σ) where
  new_lease : Manager → Time → Request → WorkerLease
  new_lease m now req = record {
    target_id = req.target.id;
    worker_id = m.cfg.worker_id;
    job_id = req.job.id;
    now = now;
    expires_at = add_time now m.cfg.lease_ttl;
  }

  -- The second half of `reserve`, by the store's answer.
  on_lease : LeaseReply → Request → WorkerLease → Manager → Option Error × Manager
  on_lease failed req lease m = (some store_failed, clear_active req.target.id m)
  on_lease denied req lease m = (some lease_held, clear_active req.target.id m)
  on_lease granted req lease m =
      (none, record m { leased = set_lease req.target.id lease m.leased })

  ask_lease : Time → Request → Manager → σ → Option Error × Manager × σ
  unfolding new_lease on_lease
  ask_lease now req m s =
      let lease = new_lease m now req in
      let (reply, s') = store.try_acquire lease s in
      let (e, m') = on_lease reply req lease m in (e, m', s')

  unfoldable pub reserve : Time → Request → Manager → σ → Option Error × Manager × σ
  unfolding ask_lease
  reserve now req m s =
      let id = req.target.id in
      if m.active id
      then (some duplicate_active, m, s)
      else if ltb now (m.cb id).open_until
      then (some circuit_open, m, s)
      else let m' = record m { active = update m.active id true } in
        if m.cfg.lease_store then ask_lease now req m' s else (none, m', s)

  release_held : Option WorkerLease → σ → σ
  release_held none s = s
  release_held (some l) s = store.release l s

  unfoldable pub release_reservation : Request → Manager → σ → Manager × σ
  unfolding release_held
  release_reservation req m s =
      let id = req.target.id in
      let (l, m') = take_lease id m in
      if m.cfg.lease_store then (clear_active id m', release_held l s) else (clear_active id m, s)

  -- After a successful renewal: the entry is replaced only if it is still this job's lease.
  abbrev is_current : Option WorkerLease → WorkerLease → Bool
  is_current none l = false
  is_current (some c) l = text_eq c.job_id l.job_id && text_eq c.worker_id l.worker_id

  store_renewed : LeaseReply → WorkerLease → Manager → Manager
  store_renewed granted l m =
      if is_current (find_lease l.target_id m.leased) l
      then record m { leased = set_lease l.target_id l m.leased }
      else m
  store_renewed _ l m = m

  renew_one : Time → WorkerLease → Manager → σ → Manager × σ
  unfolding store_renewed
  renew_one now lease m s =
      let l = record lease { now = now; expires_at = add_time now m.cfg.lease_ttl } in
      let (reply, s') = store.renew l s in (store_renewed reply l m, s')

  renew_each : Time → List (Text × WorkerLease) → Manager → σ → Manager × σ
  unfolding renew_one
  renew_each now [] m s = (m, s)
  renew_each now ((k, l) ∷ ls) m s = let (m', s') = renew_one now l m s in renew_each now ls m' s'

  -- The snapshot is the lease map itself; a Go map may list it in another order.
  unfoldable pub renew_leases : Time → Manager → σ → Manager × σ
  unfolding renew_each
  renew_leases now m s = renew_each now m.leased m s
