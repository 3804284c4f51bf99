-- ===== src/Scheduler/System/Semaphores.antt =====
-- The semaphores: each counts the goroutines that hold it, and none passes its capacity.
use go_xidized.Prelude.{
  ℤ, ℕ, ◌-◌, reverse, All, All-pick, ◌+◌, ◌≤◌, ◌≡◌, refl, true, Text, text_eq_iff, List, [], ◌∷◌,
  Option, none, some, arith, total, total-pick, or_none-some, pick, ap, inl, inr, Option-cases,
}
use go_xidized.Scheduler.System.Exclusive.{bit}
use go_xidized.Types.{Target, Time, JobStatus}
use go_xidized.Scheduler.Lease.{LeaseStore}
use go_xidized.Scheduler.Config.{Config, normalize}
use go_xidized.Scheduler.Manager.{
  Slot, global, vendor, group, site, slot_eq, slots, capacity, put_token, take_token, take_tokens,
  Request, new, prepare, record_success, record_failure,
}
use go_xidized.Scheduler.Manager.Leases.Reservations.{
  reserve-SameRest, release_reservation-SameRest, renew_leases_same,
}
use go_xidized.Scheduler.System.{
  Phase, Worker, acquiring, handling, unwinding, leaving, submit, send, cancel_send, take, acquire,
  cancel_acquire, cancel_limiter, handled, release, leave, fire, cancel_timer, renew, System, Event,
  start, due, take_from_queue, fire_timer, cancel_enqueue, send_to_queue, started, acquire_phase,
  cancel_acquire_phase, cancel_limiter_phase, handled_phase, release_phase, leave_phase, on_result,
  step, run, enqueue, enqueue_prepared,
}

abbrev pub uses : Slot → List Slot → ℕ
uses j = total (λ x. bit (slot_eq x j))

abbrev pub held_in : Slot → Target → Phase → ℕ
held_in j t (acquiring wanted held) = uses j held
held_in j t leaving = 0
held_in j t _ = uses j (slots t)

-- What a goroutine in `acquire` holds and wants is what its target needs.
abbrev pub IsPlanned : Slot → Target → Phase → Type 0
IsPlanned j t (acquiring wanted held) = uses j held + uses j wanted ≡ uses j (slots t)
IsPlanned j t _ = Unit

-- For one slot, under the configuration `c`.
pub record Accounts {σ : Type 0} (c : Config) (j : Slot) (s : System σ) : Type 0 where
  pub cfg : s.mgr.cfg ≡ c
  pub counted : s.mgr.tokens j ≡ total (λ w. held_in j w.req.target w.phase) s.workers
  pub within : s.mgr.tokens j ≤ capacity c j
  pub planned : All (λ w. IsPlanned j w.req.target w.phase) s.workers

slot_eq→≡ : (a b : Slot) → slot_eq a b ≡ true → a ≡ b
slot_eq→≡ global global h = refl
slot_eq→≡ (vendor a) (vendor b) h = ap vendor ((text_eq_iff a b).0 h)
slot_eq→≡ (group a) (group b) h = ap group ((text_eq_iff a b).0 h)
slot_eq→≡ (site a) (site b) h = ap site ((text_eq_iff a b).0 h)
slot_eq→≡ _ _ h = cc

take_tokens_lem : (ss : List Slot) (f : Slot → ℕ) (j : Slot) → take_tokens ss f j ≡ f j - uses j ss
unfolding take_tokens
take_tokens_lem [] f j = omega arith
take_tokens_lem (s ∷ ss) f j = ground (arith, take_tokens_lem ss (take_token s f) j)

uses-reverse-slots : (j : Slot) (t : Target) → uses j (reverse (slots t)) ≡ uses j (slots t)
unfolding slots
uses-reverse-slots j t = omega arith

module _ {σ : Type 0} (store : LeaseStore σ) (c : Config) (j : Slot) where
  -- What holds of a goroutine in some phase, and of the others.
  record Found (req : Request) (ph : Phase) (rest : List Worker) (s : System σ) : Type 0 where
    counted :
        total (λ w. held_in j w.req.target w.phase) s.workers
        ≡ held_in j req.target ph + total (λ w. held_in j w.req.target w.phase) rest
    this : IsPlanned j req.target ph
    others : All (λ w. IsPlanned j w.req.target w.phase) rest

  found :
      (i : ℕ) (s : System σ) (w : Worker) (rest : List Worker)
      → Accounts c j s
      → pick i s.workers ≡ some (w, rest)
      → Found w.req w.phase rest s
  found i s w rest v p = record {
    counted = total-pick (λ x. held_in j x.req.target x.phase) i s.workers p;
    this = (All-pick (λ x. IsPlanned j x.req.target x.phase) i s.workers v.planned p).0;
    others = (All-pick (λ x. IsPlanned j x.req.target x.phase) i s.workers v.planned p).1;
  }

  acquire_phase-Accounts :
      (req : Request) (ph : Phase) (rest : List Worker) (s : System σ) {s' : System σ}
      → Found req ph rest s
      → acquire_phase store req ph rest s ≡ some s'
      → Accounts c j s
      → Accounts c j s'
  unfolding acquire_phase put_token
  acquire_phase-Accounts req (acquiring [] held) rest s f h v = ground arith
  acquire_phase-Accounts req (acquiring (x ∷ xs) held) rest s f h v =
      ground (arith, slot_eq→≡ x j, ap (λ y. capacity s.mgr.cfg y))
  acquire_phase-Accounts req _ rest s f h v = cc

  cancel_acquire_phase-Accounts :
      (req : Request) (ph : Phase) (rest : List Worker) (s : System σ) {s' : System σ}
      → Found req ph rest s
      → cancel_acquire_phase store req ph rest s ≡ some s'
      → Accounts c j s
      → Accounts c j s'
  unfolding cancel_acquire_phase
  cancel_acquire_phase-Accounts req (acquiring (x ∷ xs) held) rest s f h v =
      ground (arith, take_tokens_lem held s.mgr.tokens j)
  cancel_acquire_phase-Accounts req _ rest s f h v = cc

  cancel_limiter_phase-Accounts :
      (req : Request) (ph : Phase) (rest : List Worker) (s : System σ) {s' : System σ}
      → Found req ph rest s
      → cancel_limiter_phase store req ph rest s ≡ some s'
      → Accounts c j s
      → Accounts c j s'
  unfolding cancel_limiter_phase
  cancel_limiter_phase-Accounts req handling rest s f h v = ground arith
  cancel_limiter_phase-Accounts req _ rest s f h v = cc

  handled_phase-Accounts :
      (st : JobStatus) (now : Time) (req : Request) (ph : Phase) (rest : List Worker) (s : System σ)
      {s' : System σ}
      → Found req ph rest s
      → handled_phase store st now req ph rest s ≡ some s'
      → Accounts c j s
      → Accounts c j s'
  unfolding handled_phase on_result record_success record_failure
  handled_phase-Accounts st now req handling rest s f h v = ground arith
  handled_phase-Accounts st now req _ rest s f h v = cc

  release_phase-Accounts :
      (req : Request) (ph : Phase) (rest : List Worker) (s : System σ) {s' : System σ}
      → Found req ph rest s
      → release_phase store req ph rest s ≡ some s'
      → Accounts c j s
      → Accounts c j s'
  unfolding release_phase
  release_phase-Accounts req unwinding rest s f h v = ground (
    arith,
    take_tokens_lem (reverse (slots req.target)) s.mgr.tokens j,
    uses-reverse-slots j req.target,
  )
  release_phase-Accounts req _ rest s f h v = cc

  leave_phase-Accounts :
      (req : Request) (ph : Phase) (rest : List Worker) (s : System σ) {s' : System σ}
      → Found req ph rest s
      → leave_phase store req ph rest s ≡ some s'
      → Accounts c j s
      → Accounts c j s'
  unfolding leave_phase
  leave_phase-Accounts req leaving rest s f h v =
      ground (arith, release_reservation-SameRest store req s.mgr s.store)
  leave_phase-Accounts req _ rest s f h v = cc

  enqueue_prepared-Accounts :
      (now : Time) (r : Option Request) (s : System σ)
      → Accounts c j s
      → Accounts c j (enqueue_prepared store now r s).1
  unfolding enqueue_prepared
  enqueue_prepared-Accounts now none s v = v
  enqueue_prepared-Accounts now (some req) s v =
      ground (arith, reserve-SameRest store now req s.mgr s.store)

  cancel_enqueue-Accounts :
      (i : ℕ) (s : System σ) {s' : System σ}
      → cancel_enqueue store i s ≡ some s'
      → Accounts c j s
      → Accounts c j s'
  unfolding cancel_enqueue
  cancel_enqueue-Accounts i s h v =
      let (a, p, q) = or_none-some (pick i s.blocked) _ h in
      ground (arith, release_reservation-SameRest store a.0 s.mgr s.store)

  send_to_queue-Accounts :
      (i : ℕ) (s : System σ) {s' : System σ}
      → send_to_queue store i s ≡ some s'
      → Accounts c j s
      → Accounts c j s'
  unfolding send_to_queue
  send_to_queue-Accounts i s h v =
      let (a, p, q) = or_none-some (pick i s.blocked) _ h in ground arith

  started-Accounts :
      (q : List Request) (s : System σ) {s' : System σ}
      → started store q s ≡ some s'
      → Accounts c j s
      → Accounts c j s'
  unfolding started
  started-Accounts [] s h v = cc
  started-Accounts (r ∷ rs) s h v = ground arith

  -- Every event keeps the accounts.
  pub step-Accounts :
      (s : System σ) (e : Event) {s' : System σ}
      → step store s e ≡ some s'
      → Accounts c j s
      → Accounts c j s'
  unfolding step enqueue take_from_queue fire_timer
  step-Accounts s (submit new_id now req) h v =
      ground (arith, enqueue_prepared-Accounts now (prepare new_id now req) s v)
  step-Accounts s (send i) h v = send_to_queue-Accounts i s h v
  step-Accounts s (cancel_send i) h v = cancel_enqueue-Accounts i s h v
  step-Accounts s take h v = started-Accounts s.mgr.queue s h v
  step-Accounts s (acquire i) h v =
      let (a, p, q) = or_none-some (pick i s.workers) _ h in
      acquire_phase-Accounts a.0.req a.0.phase a.1 s (found i s a.0 a.1 v p) q v
  step-Accounts s (cancel_acquire i) h v =
      let (a, p, q) = or_none-some (pick i s.workers) _ h in
      cancel_acquire_phase-Accounts a.0.req a.0.phase a.1 s (found i s a.0 a.1 v p) q v
  step-Accounts s (cancel_limiter i) h v =
      let (a, p, q) = or_none-some (pick i s.workers) _ h in
      cancel_limiter_phase-Accounts a.0.req a.0.phase a.1 s (found i s a.0 a.1 v p) q v
  step-Accounts s (handled i st now) h v =
      let (a, p, q) = or_none-some (pick i s.workers) _ h in
      handled_phase-Accounts st now a.0.req a.0.phase a.1 s (found i s a.0 a.1 v p) q v
  step-Accounts s (release i) h v =
      let (a, p, q) = or_none-some (pick i s.workers) _ h in
      release_phase-Accounts a.0.req a.0.phase a.1 s (found i s a.0 a.1 v p) q v
  step-Accounts s (leave i) h v =
      let (a, p, q) = or_none-some (pick i s.workers) _ h in
      leave_phase-Accounts a.0.req a.0.phase a.1 s (found i s a.0 a.1 v p) q v
  step-Accounts s (fire i new_id now) h v =
      let (a, p, q) = or_none-some (pick i s.timers) _ h in
      ground (
        arith,
        enqueue_prepared-Accounts now (prepare new_id now (due store now a.0))
            (record s { timers = a.1 }) (ground arith),
      )
  step-Accounts s (cancel_timer i) h v =
      let (a, p, q) = or_none-some (pick i s.timers) _ h in ground arith
  step-Accounts s (renew now) h v = ground (arith, renew_leases_same store now s.mgr s.store)

  pub run-Accounts :
      (s : System σ) (es : List Event) → Accounts c j s → Accounts c j (run store s es)
  unfolding run
  run-Accounts s [] v = v
  run-Accounts s (e ∷ es) v = elim (Option-cases (step store s e)) [
    | inl no_step ↦ rw (no_step, run) (run-Accounts s es v)
    | inr (s', stepped) ↦ rw (stepped, run) (run-Accounts s' es (step-Accounts s e stepped v))
  ]

-- A goroutine in the limiter or the handler, for a target that needs the slot.
abbrev pub is_handling : Slot → Worker → ℕ
is_handling j w = elim w.phase [ handling ↦ uses j (slots w.req.target) | _ ↦ 0 ]

module _ {σ : Type 0} (store : LeaseStore σ) (host : Text) (cfg : Config) (n : ℤ) (t : σ) where
  start-Accounts : (j : Slot) → Accounts (normalize host cfg) j (start store host cfg n t)
  unfolding start new
  start-Accounts j = ground arith

  -- Whatever happens to a new manager, in whatever order: every semaphore holds as many tokens as
  -- goroutines hold it, and never more than its capacity, which the configuration fixes.
  pub run-start-Accounts :
      (j : Slot) (es : List Event)
      → Accounts (normalize host cfg) j (run store (start store host cfg n t) es)
  run-start-Accounts j es =
      run-Accounts store (normalize host cfg) j (start store host cfg n t) es (start-Accounts j)
