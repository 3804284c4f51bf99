-- ===== src/Scheduler/System.antt =====
-- manager.go: the manager among its goroutines. `Enqueue`, `worker`, `run`, `acquire`, the retry
-- timers and the lease renewer are cut where another goroutine can run in between; an event says
-- which goroutine moves next, and what the clock, the store, the limiter and the handler answer.
pub mod Cluster
pub mod Exclusive
pub mod Semaphores
use go_xidized.Prelude.{
  ◌≡◌, refl, ℕ, zero, suc, ◌+◌, ◌-◌, ℤ, pos, pos_part, Bool, true, false, Text, ltb, ltbℤ,
  if◌then◌else◌, List, [], ◌∷◌, ◌++◌, reverse, Option, none, some, length, inc, pick, or_none,
  positive,
}
use go_xidized.Types.{Time, JobStatus}
use go_xidized.Scheduler.Config.{Config, backoff}
use go_xidized.Scheduler.Lease.{LeaseStore}
use go_xidized.Scheduler.Manager.{
  Request, Manager, Error, no_target_id, Slot, new, add_time, prepare, slots, capacity, put_token,
  take_tokens, record_success, record_failure, is_success,
}
use go_xidized.Scheduler.Manager.Leases.{reserve, release_reservation, renew_leases}

-- Where a goroutine stands in `run`: in `acquire` with the slots that it still wants and those that
-- it holds, the last one first; in the limiter or the handler; with its deferred calls to make; or
-- with `releaseReservation` alone.
pub data Phase : Type 0 where
  acquiring : List Slot → List Slot → Phase
  handling unwinding leaving : Phase

pub record Worker : Type 0 where
  pub req : Request
  pub phase : Phase

-- A delayed request has its queue time set anew when its timer fires, a retry has not.
pub record Timer : Type 0 where
  pub req : Request
  pub is_retry : Bool

-- `blocked`: the calls of `Enqueue` in their last `select`; `pool`: the number that `Start` ran.
pub record System (σ : Type 0) : Type 0 where
  pub mgr : Manager
  pub store : σ
  pub pool : ℕ
  pub blocked : List Request
  pub workers : List Worker
  pub timers : List Timer

-- Numbers choose an entry of a list, `now` is the clock's reading.
pub data Event : Type 0 where
  submit : Text → Time → Request → Event
  send cancel_send : ℕ → Event
  take : Event
  acquire cancel_acquire cancel_limiter : ℕ → Event
  handled : ℕ → JobStatus → Time → Event
  release leave : ℕ → Event
  fire : ℕ → Text → Time → Event
  cancel_timer : ℕ → Event
  renew : Time → Event

abbrev or_same {ℓ} : {A : Type ℓ} → A → Option A → A
or_same a none = a
or_same a (some b) = b

abbrev guard_some {ℓ} : {A : Type ℓ} → Bool → A → Option A
guard_some true a = some a
guard_some false a = none

module _ {σ : Type 0} (store : LeaseStore σ) where
  admitted : Request → Option Error → Manager → σ → System σ → Option Error × System σ
  admitted req none m t s = (none, record s { mgr = m; store = t; blocked = req ∷ s.blocked })
  admitted req (some e) m t s = (some e, record s { mgr = m; store = t })

  -- `Enqueue` after `prepare`, up to its last `select`; `is_retry` is false for a delayed request.
  enqueue_prepared : Time → Option Request → System σ → Option Error × System σ
  unfolding admitted
  enqueue_prepared now none s = (some no_target_id, s)
  enqueue_prepared now (some req) s =
      let (e, m, t) = reserve store now req s.mgr s.store in
      if ltb now req.job.queued_at
      then (none, record s { timers = record { req = req; is_retry = false } ∷ s.timers })
      else admitted req e m t s

  unfoldable pub enqueue : Text → Time → Request → System σ → Option Error × System σ
  unfolding enqueue_prepared
  enqueue new_id now req s = enqueue_prepared now (prepare new_id now req) s

  -- `case m.queue <- req`: only where the channel has room.
  unfoldable pub send_to_queue : ℕ → System σ → Option (System σ)
  send_to_queue i s = or_none (pick i s.blocked) λ (req, rest).
      guard_some (ltb (length s.mgr.queue) (pos_part s.mgr.cfg.queue_size))
        (record s { mgr = record (s.mgr) { queue = s.mgr.queue ++ req ∷ [] }; blocked = rest })

  -- `case <-ctx.Done()` of the same `select`.
  unfoldable pub cancel_enqueue : ℕ → System σ → Option (System σ)
  cancel_enqueue i s = or_none (pick i s.blocked) λ (req, rest).
      let (m, t) = release_reservation store req s.mgr s.store in
      some (record s { mgr = m; store = t; blocked = rest })

  started : List Request → System σ → Option (System σ)
  started [] s = none
  started (req ∷ rest) s = guard_some (ltb (length s.workers) s.pool) (record s {
    mgr = record (s.mgr) { queue = rest };
    workers = record { req = req; phase = acquiring (slots req.target) [] } ∷ s.workers;
  })

  -- `worker`: an idle goroutine receives from the queue and calls `run`.
  unfoldable pub take_from_queue : System σ → Option (System σ)
  unfolding started
  take_from_queue s = started s.mgr.queue s

  -- The system with a goroutine's new phase and new tokens.
  abbrev moved : Request → Phase → List Worker → (Slot → ℕ) → System σ → System σ
  moved req phase rest tokens s = record s {
    mgr = record (s.mgr) { tokens = tokens };
    workers = record { req = req; phase = phase } ∷ rest;
  }

  -- One round of the loop in `acquire`, or its end.
  acquire_phase : Request → Phase → List Worker → System σ → Option (System σ)
  acquire_phase req (acquiring [] held) rest s = some (moved req handling rest s.mgr.tokens s)
  acquire_phase req (acquiring (slot ∷ wanted) held) rest s =
      guard_some (ltb (s.mgr.tokens slot) (capacity s.mgr.cfg slot))
        (moved req (acquiring wanted (slot ∷ held)) rest (put_token slot s.mgr.tokens) s)
  acquire_phase req _ rest s = none

  -- `case <-ctx.Done()` of that loop gives back what is held.
  cancel_acquire_phase : Request → Phase → List Worker → System σ → Option (System σ)
  cancel_acquire_phase req (acquiring (slot ∷ wanted) held) rest s =
      some (moved req leaving rest (take_tokens held s.mgr.tokens) s)
  cancel_acquire_phase req _ rest s = none

  cancel_limiter_phase : Request → Phase → List Worker → System σ → Option (System σ)
  cancel_limiter_phase req handling rest s = some (moved req unwinding rest s.mgr.tokens s)
  cancel_limiter_phase req _ rest s = none

  retry_of : Time → Manager → Request → Request
  retry_of now m req = record req {
    job = record (req.job) {
      attempt = inc req.job.attempt;
      id = [];
      queued_at = add_time now (backoff m.cfg req.job.attempt);
    };
  }

  -- What `run` does with the handler's result.
  unfoldable pub on_result : JobStatus → Time → Request → System σ → System σ
  unfolding retry_of
  on_result status now req s =
      let id = req.target.id in
      if is_success status
      then record s { mgr = record_success id s.mgr }
      else (let m = record_failure now id s.mgr in
          if ltbℤ req.job.attempt m.cfg.max_attempts
          then record s {
            mgr = m;
            timers = record { req = retry_of now m req; is_retry = true } ∷ s.timers;
          }
          else record s { mgr = m })

  handled_phase : JobStatus → Time → Request → Phase → List Worker → System σ → Option (System σ)
  unfolding on_result
  handled_phase status now req handling rest s =
      let s' = on_result status now req s in some (moved req unwinding rest s'.mgr.tokens s')
  handled_phase status now req _ rest s = none

  -- The deferred `release`, which takes the slots in the opposite order.
  release_phase : Request → Phase → List Worker → System σ → Option (System σ)
  release_phase req unwinding rest s =
      some (moved req leaving rest (take_tokens (reverse (slots req.target)) s.mgr.tokens) s)
  release_phase req _ rest s = none

  -- The deferred `releaseReservation`, after which the goroutine is idle again.
  leave_phase : Request → Phase → List Worker → System σ → Option (System σ)
  leave_phase req leaving rest s =
      let (m, t) = release_reservation store req s.mgr s.store in
      some (record s { mgr = m; store = t; workers = rest })
  leave_phase req _ rest s = none

  abbrev with_worker :
      ℕ
      → (Request → Phase → List Worker → System σ → Option (System σ))
      → System σ
      → Option (System σ)
  with_worker i f s = or_none (pick i s.workers) λ (w, rest). f w.req w.phase rest s

  -- When a timer fires a delayed request gets a new queue time; a retry keeps its own.
  due : Time → Timer → Request
  due now t =
      if t.is_retry then t.req else record (t.req) { job = record (t.req.job) { queued_at = now } }

  unfoldable pub fire_timer : ℕ → Text → Time → System σ → Option (System σ)
  unfolding due
  fire_timer i new_id now s =
      or_none (pick i s.timers)
        λ (t, rest). some (enqueue new_id now (due now t) (record s { timers = rest })).1

  -- The next state; `none` if the event cannot happen.
  unfoldable pub step : System σ → Event → Option (System σ)
  unfolding acquire_phase cancel_acquire_phase cancel_limiter_phase handled_phase release_phase
      leave_phase
  step s (submit new_id now req) = some (enqueue new_id now req s).1
  step s (send i) = send_to_queue i s
  step s (cancel_send i) = cancel_enqueue i s
  step s take = take_from_queue s
  step s (acquire i) = with_worker i acquire_phase s
  step s (cancel_acquire i) = with_worker i cancel_acquire_phase s
  step s (cancel_limiter i) = with_worker i cancel_limiter_phase s
  step s (handled i status now) = with_worker i (handled_phase status now) s
  step s (release i) = with_worker i release_phase s
  step s (leave i) = with_worker i leave_phase s
  step s (fire i new_id now) = fire_timer i new_id now s
  step s (cancel_timer i) = or_none (pick i s.timers) λ (t, rest). some (record s { timers = rest })
  step s (renew now) =
      let (m, t) = renew_leases store now s.mgr s.store in
      guard_some s.mgr.cfg.lease_store (record s { mgr = m; store = t })

  -- `New`, and `Start` with `n` goroutines.
  unfoldable pub start : Text → Config → ℤ → σ → System σ
  start host cfg n t =
      let m = new host cfg in
      record {
        mgr = m;
        store = t;
        pool = pos_part (if positive n then n else m.cfg.max_global_concurrency);
        blocked = [];
        workers = [];
        timers = [];
      }

  -- Events that cannot happen are skipped.
  unfoldable pub run : System σ → List Event → System σ
  run s [] = s
  run s (e ∷ es) = run (or_same s (step s e)) es
