-- ===== src/Scheduler/System/Exclusive.antt =====
-- One job per target: the active set is the set of targets that `Enqueue` or `run` works for.
use go_xidized.Prelude.{
  ℤ, ℕ, ◌+◌, ◌≡◌, refl, Bool, true, false, Text, text_eq, text_eq_iff, List, [], ◌∷◌, Option, none,
  some, arith, total, total-pick, total-append, or_none-some, pick, ap, ◌⊎◌, inl, inr, Option-cases,
}
use go_xidized.Types.{Time, JobStatus}
use go_xidized.Scheduler.Lease.{LeaseStore}
use go_xidized.Scheduler.Config.{Config}
use go_xidized.Scheduler.Manager.{Request, new, prepare, record_success, record_failure}
use go_xidized.Scheduler.Manager.Leases.Reservations.{
  reserve-active, reserve_fresh, reserve-SameRest, release_reservation-active,
  release_reservation-SameRest, renew_leases_same,
}
use go_xidized.Scheduler.System.{
  Phase, Worker, acquiring, handling, leaving, submit, send, cancel_send, take, acquire,
  cancel_acquire, cancel_limiter, handled, release, leave, fire, cancel_timer, renew, System, Event,
  start, due, take_from_queue, fire_timer, cancel_enqueue, send_to_queue, started, acquire_phase,
  cancel_acquire_phase, cancel_limiter_phase, handled_phase, release_phase, leave_phase, on_result,
  step, run, enqueue, enqueue_prepared,
}

abbrev pub bit : Bool → ℕ
bit true = 1
bit false = 0

abbrev pub is_for : Text → Request → ℕ
is_for id r = bit (text_eq r.target.id id)

-- Reserved requests, queued ones and those that a goroutine runs, for one target.
abbrev pub holders : {σ : Type 0} → Text → System σ → ℕ
holders id s =
    total (is_for id) s.blocked
    + total (is_for id) s.mgr.queue
    + total (λ w. is_for id w.req) s.workers

-- The target is active exactly when one request works for it, and never do two.
abbrev pub IsExclusive : {σ : Type 0} → System σ → Type 0
IsExclusive s = (id : Text) → holders id s ≡ bit (s.mgr.active id)

module _ {σ : Type 0} (store : LeaseStore σ) where
  enqueue_prepared-IsExclusive :
      (now : Time) (r : Option Request) (s : System σ)
      → IsExclusive s
      → IsExclusive (enqueue_prepared store now r s).1
  unfolding enqueue_prepared
  enqueue_prepared-IsExclusive now none s v = v
  enqueue_prepared-IsExclusive now (some req) s v = λ id. ground (
    arith,
    v id,
    text_eq_iff req.target.id id,
    reserve-active store now req s.mgr s.store id,
    reserve_fresh store now req s.mgr s.store,
    reserve-SameRest store now req s.mgr s.store,
  )

  cancel_enqueue-IsExclusive :
      (i : ℕ) (s : System σ) {s' : System σ}
      → cancel_enqueue store i s ≡ some s'
      → IsExclusive s
      → IsExclusive s'
  unfolding cancel_enqueue
  cancel_enqueue-IsExclusive i s h v id =
      let (a, p, q) = or_none-some (pick i s.blocked) _ h in
      ground (
        arith,
        v id,
        total-pick (is_for id) i s.blocked p,
        release_reservation-active store a.0 s.mgr s.store id,
        release_reservation-SameRest store a.0 s.mgr s.store,
      )

  send_to_queue-IsExclusive :
      (i : ℕ) (s : System σ) {s' : System σ}
      → send_to_queue store i s ≡ some s'
      → IsExclusive s
      → IsExclusive s'
  unfolding send_to_queue
  send_to_queue-IsExclusive i s h v id =
      let (a, p, q) = or_none-some (pick i s.blocked) _ h in
      ground (
        arith,
        v id,
        total-pick (is_for id) i s.blocked p,
        total-append (is_for id) s.mgr.queue (a.0 ∷ []),
      )

  started-IsExclusive :
      (q : List Request) (s : System σ) {s' : System σ}
      → s.mgr.queue ≡ q
      → started store q s ≡ some s'
      → IsExclusive s
      → IsExclusive s'
  unfolding started
  started-IsExclusive [] s e h v id = cc
  started-IsExclusive (r ∷ rs) s e h v id = ground (arith, v id, ap (total (is_for id)) e)

  -- What holds of a goroutine in some phase, and of the others.
  abbrev Found : Request → List Worker → System σ → Type 0
  Found req rest s =
      (id : Text)
      → total (λ w. is_for id w.req) s.workers ≡ is_for id req + total (λ w. is_for id w.req) rest

  acquire_phase-IsExclusive :
      (req : Request) (ph : Phase) (rest : List Worker) (s : System σ) {s' : System σ}
      → Found req rest s
      → acquire_phase store req ph rest s ≡ some s'
      → IsExclusive s
      → IsExclusive s'
  unfolding acquire_phase
  acquire_phase-IsExclusive req (acquiring [] held) rest s f h v id = ground (arith, v id, f id)
  acquire_phase-IsExclusive req (acquiring (x ∷ xs) held) rest s f h v id =
      ground (arith, v id, f id)
  acquire_phase-IsExclusive req _ rest s f h v id = cc

  simple_phase-IsExclusive :
      (req : Request) (ph : Phase) (rest : List Worker) (s : System σ) {s' : System σ}
      → Found req rest s
      → (cancel_acquire_phase store req ph rest s ≡ some s')
        ⊎ (cancel_limiter_phase store req ph rest s ≡ some s')
        ⊎ (release_phase store req ph rest s ≡ some s')
      → IsExclusive s
      → IsExclusive s'
  unfolding cancel_acquire_phase cancel_limiter_phase release_phase
  simple_phase-IsExclusive req (acquiring [] held) rest s f h v id = ground (arith, v id, f id)
  simple_phase-IsExclusive req (acquiring (x ∷ xs) held) rest s f h v id =
      ground (arith, v id, f id)
  simple_phase-IsExclusive req _ rest s f h v id = ground (arith, v id, f id)

  handled_phase-IsExclusive :
      (st : JobStatus) (now : Time) (req : Request) (ph : Phase) (rest : List Worker) (s : System σ)
      {s' : System σ}
      → Found req rest s
      → handled_phase store st now req ph rest s ≡ some s'
      → IsExclusive s
      → IsExclusive s'
  unfolding handled_phase on_result record_success record_failure
  handled_phase-IsExclusive st now req handling rest s f h v id = ground (arith, v id, f id)
  handled_phase-IsExclusive st now req _ rest s f h v id = cc

  leave_phase-IsExclusive :
      (req : Request) (ph : Phase) (rest : List Worker) (s : System σ) {s' : System σ}
      → Found req rest s
      → leave_phase store req ph rest s ≡ some s'
      → IsExclusive s
      → IsExclusive s'
  unfolding leave_phase
  leave_phase-IsExclusive req leaving rest s f h v id = ground (
    arith,
    v id,
    f id,
    release_reservation-active store req s.mgr s.store id,
    release_reservation-SameRest store req s.mgr s.store,
  )
  leave_phase-IsExclusive req _ rest s f h v id = cc

  found :
      (i : ℕ) (s : System σ) (w : Worker) (rest : List Worker)
      → pick i s.workers ≡ some (w, rest)
      → Found w.req rest s
  found i s w rest p id = total-pick (λ v. is_for id v.req) i s.workers p

  -- Every event keeps it.
  pub step-IsExclusive :
      (s : System σ) (e : Event) {s' : System σ}
      → step store s e ≡ some s'
      → IsExclusive s
      → IsExclusive s'
  unfolding step enqueue take_from_queue fire_timer
  step-IsExclusive s (submit new_id now req) h v id =
      ground (arith, enqueue_prepared-IsExclusive now (prepare new_id now req) s v id)
  step-IsExclusive s (send i) h v id = send_to_queue-IsExclusive i s h v id
  step-IsExclusive s (cancel_send i) h v id = cancel_enqueue-IsExclusive i s h v id
  step-IsExclusive s take h v id = started-IsExclusive s.mgr.queue s refl h v id
  step-IsExclusive s (acquire i) h v id =
      let (a, p, q) = or_none-some (pick i s.workers) _ h in
      acquire_phase-IsExclusive a.0.req a.0.phase a.1 s (found i s a.0 a.1 p) q v id
  step-IsExclusive s (cancel_acquire i) h v id =
      let (a, p, q) = or_none-some (pick i s.workers) _ h in
      simple_phase-IsExclusive a.0.req a.0.phase a.1 s (found i s a.0 a.1 p) (inl q) v id
  step-IsExclusive s (cancel_limiter i) h v id =
      let (a, p, q) = or_none-some (pick i s.workers) _ h in
      simple_phase-IsExclusive a.0.req a.0.phase a.1 s (found i s a.0 a.1 p) (inr (inl q)) v id
  step-IsExclusive s (handled i st now) h v id =
      let (a, p, q) = or_none-some (pick i s.workers) _ h in
      handled_phase-IsExclusive st now a.0.req a.0.phase a.1 s (found i s a.0 a.1 p) q v id
  step-IsExclusive s (release i) h v id =
      let (a, p, q) = or_none-some (pick i s.workers) _ h in
      simple_phase-IsExclusive a.0.req a.0.phase a.1 s (found i s a.0 a.1 p) (inr (inr q)) v id
  step-IsExclusive s (leave i) h v id =
      let (a, p, q) = or_none-some (pick i s.workers) _ h in
      leave_phase-IsExclusive a.0.req a.0.phase a.1 s (found i s a.0 a.1 p) q v id
  step-IsExclusive s (fire i new_id now) h v id =
      let (a, p, q) = or_none-some (pick i s.timers) _ h in
      ground (
        arith,
        enqueue_prepared-IsExclusive now (prepare new_id now (due store now a.0))
            (record s { timers = a.1 }) v id,
      )
  step-IsExclusive s (cancel_timer i) h v id =
      let (a, p, q) = or_none-some (pick i s.timers) _ h in ground (arith, v id)
  step-IsExclusive s (renew now) h v id =
      ground (arith, v id, renew_leases_same store now s.mgr s.store)

  -- So does every history.
  pub run-IsExclusive :
      (s : System σ) (es : List Event) → IsExclusive s → IsExclusive (run store s es)
  unfolding run
  run-IsExclusive s [] v = v
  run-IsExclusive s (e ∷ es) v = elim (Option-cases (step store s e)) [
    | inl no_step ↦ rw (no_step, run) (run-IsExclusive s es v)
    | inr (s', stepped) ↦ rw (stepped, run) (run-IsExclusive s' es (step-IsExclusive s e stepped v))
  ]

  start-IsExclusive :
      (host : Text) (cfg : Config) (n : ℤ) (t : σ) → IsExclusive (start store host cfg n t)
  unfolding start new
  start-IsExclusive host cfg n t id = omega arith

  -- Whatever happens to a new manager, in whatever order, no target has two requests in work, and a
  -- target is active exactly while it has one.
  pub run-start-IsExclusive :
      (host : Text) (cfg : Config) (n : ℤ) (t : σ) (es : List Event)
      → IsExclusive (run store (start store host cfg n t) es)
  run-start-IsExclusive host cfg n t es =
      run-IsExclusive (start store host cfg n t) es (start-IsExclusive host cfg n t)
