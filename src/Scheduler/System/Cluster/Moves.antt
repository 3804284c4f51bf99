-- ===== src/Scheduler/System/Cluster/Moves.antt =====
-- manager.go over the lease table of store.go: what a step of a process does to the leases.
use go_xidized.Prelude.{
  ◌≡◌, refl, sym, subst, ℕ, List, [], ◌∷◌, Option, none, some, arith, or_none-some, some-injective,
  pick, ltb, Bool-cases, inl, inr, ◌⊎◌,
}
use go_xidized.Types.{Time, JobStatus}
use go_xidized.Scheduler.Manager.{Request, Manager, Error, prepare, record_success, record_failure}
use go_xidized.Scheduler.Manager.Leases.Shared.{
  Owns, Moved, reserve-Moved, release_reservation-Moved,
}
use go_xidized.Scheduler.Manager.Leases.Renewals.{renew_leases-Moved}
use go_xidized.Scheduler.System.{
  Phase, Worker, acquiring, handling, leaving, submit, send, cancel_send, take, acquire,
  cancel_acquire, cancel_limiter, handled, release, leave, fire, cancel_timer, renew, System, Event,
  due, take_from_queue, fire_timer, cancel_enqueue, send_to_queue, started, acquire_phase,
  cancel_acquire_phase, cancel_limiter_phase, handled_phase, release_phase, leave_phase, on_result,
  step, enqueue, enqueue_prepared, admitted,
}
use go_xidized.Scheduler.System.Cluster.{IsAt}
use go_xidized.Metadata.Leases.{LeaseDb, lease_store}

-- The leases, the configuration and the table stay as they are.
abbrev IsQuiet : System LeaseDb → System LeaseDb → Type 0
IsQuiet s s' = (s'.mgr.leased ≡ s.mgr.leased) × (s'.mgr.cfg ≡ s.mgr.cfg) × (s'.store ≡ s.store)

abbrev Moves : Time → System LeaseDb → System LeaseDb → Type 0
Moves now s s' = Moved now s.mgr s.store s'.mgr s'.store

IsQuiet-Moves :
    (now : Time) (s s' : System LeaseDb) → IsQuiet s s' → Owns now s.mgr s.store → Moves now s s'
IsQuiet-Moves now s s' (leases, cfg, table) h = record {
  owned = rw (leases, cfg, table) h;
  spared = rw table λ l other held. held;
  configured = cfg;
}

admitted-Moves :
    (now : Time) (req : Request) (e : Option Error) (m : Manager) (db : LeaseDb)
    (s : System LeaseDb)
    → Moved now s.mgr s.store m db
    → Moves now s (admitted lease_store req e m db s).1
unfolding admitted
admitted-Moves now req none m db s v = v
admitted-Moves now req (some e) m db s v = v

enqueue_prepared-Moves :
    (now : Time) (r : Option Request) (s : System LeaseDb)
    → Owns now s.mgr s.store
    → Moves now s (enqueue_prepared lease_store now r s).1
unfolding enqueue_prepared
enqueue_prepared-Moves now none s h = IsQuiet-Moves now s s (refl, refl, refl) h
enqueue_prepared-Moves now (some req) s h = elim (Bool-cases (ltb now req.job.queued_at)) [
  | inl delayed ↦ simp delayed (IsQuiet-Moves now s s (refl, refl, refl) h)
  | inr at_once ↦
      simp at_once (admitted-Moves now req _ _ _ s (reserve-Moved now req s.mgr s.store h))
]

-- The result of giving a reservation back.
cancel_enqueue-Moves :
    (now : Time) (i : ℕ) (s : System LeaseDb) {s' : System LeaseDb}
    → cancel_enqueue lease_store i s ≡ some s'
    → Owns now s.mgr s.store
    → Moves now s s'
unfolding cancel_enqueue
cancel_enqueue-Moves now i s {s'} e h =
    let ((req, rest), p, q) = or_none-some (pick i s.blocked) _ e in
    subst (Moves now s) (some-injective q) (release_reservation-Moved now req s.mgr s.store h)

leave_phase-Moves :
    (now : Time) (req : Request) (ph : Phase) (rest : List Worker) (s : System LeaseDb)
    {s' : System LeaseDb}
    → leave_phase lease_store req ph rest s ≡ some s'
    → Owns now s.mgr s.store
    → Moves now s s'
unfolding leave_phase
leave_phase-Moves now req leaving rest s {s'} e h =
    subst (Moves now s) (some-injective e) (release_reservation-Moved now req s.mgr s.store h)
leave_phase-Moves now req _ rest s e h = cc

send_to_queue-IsQuiet :
    (i : ℕ) (s : System LeaseDb) {s' : System LeaseDb}
    → send_to_queue lease_store i s ≡ some s'
    → IsQuiet s s'
unfolding send_to_queue
send_to_queue-IsQuiet i s e = let (a, p, q) = or_none-some (pick i s.blocked) _ e in ground arith

started-IsQuiet :
    (q : List Request) (s : System LeaseDb) {s' : System LeaseDb}
    → started lease_store q s ≡ some s'
    → IsQuiet s s'
unfolding started
started-IsQuiet [] s e = cc
started-IsQuiet (r ∷ rs) s e = ground arith

phase-IsQuiet :
    (req : Request) (ph : Phase) (rest : List Worker) (s : System LeaseDb) {s' : System LeaseDb}
    → (acquire_phase lease_store req ph rest s ≡ some s')
      ⊎ (cancel_acquire_phase lease_store req ph rest s ≡ some s')
      ⊎ (cancel_limiter_phase lease_store req ph rest s ≡ some s')
      ⊎ (release_phase lease_store req ph rest s ≡ some s')
    → IsQuiet s s'
unfolding acquire_phase cancel_acquire_phase cancel_limiter_phase release_phase
phase-IsQuiet req (acquiring [] held) rest s e = ground arith
phase-IsQuiet req (acquiring (x ∷ xs) held) rest s e = ground arith
phase-IsQuiet req _ rest s e = ground arith

handled_phase-IsQuiet :
    (st : JobStatus) (now : Time) (req : Request) (ph : Phase) (rest : List Worker)
    (s : System LeaseDb) {s' : System LeaseDb}
    → handled_phase lease_store st now req ph rest s ≡ some s'
    → IsQuiet s s'
unfolding handled_phase on_result record_success record_failure
handled_phase-IsQuiet st now req handling rest s e = ground arith
handled_phase-IsQuiet st now req _ rest s e = cc

cancel_timer-IsQuiet :
    (i : ℕ) (s : System LeaseDb) {s' : System LeaseDb}
    → step lease_store s (cancel_timer i) ≡ some s'
    → IsQuiet s s'
unfolding step
cancel_timer-IsQuiet i s e = let (a, p, q) = or_none-some (pick i s.timers) _ e in ground arith

renewal-Moves :
    (now : Time) (s : System LeaseDb) {s' : System LeaseDb}
    → step lease_store s (renew now) ≡ some s'
    → Owns now s.mgr s.store
    → Moves now s s'
unfolding step
renewal-Moves now s {s'} e h = elim (Bool-cases s.mgr.cfg.lease_store) [
  | inr alone ↦ cc (simp alone at e)
  | inl shared ↦
      subst (Moves now s) (some-injective (simp shared at e))
        (renew_leases-Moved now s.mgr s.store h)
]

-- Each step leaves the process its leases and spares those of the others.
pub step-Moves :
    (now : Time) (s : System LeaseDb) (e : Event) {s' : System LeaseDb}
    → IsAt now e
    → step lease_store s e ≡ some s'
    → Owns now s.mgr s.store
    → Moves now s s'
unfolding step enqueue take_from_queue fire_timer
step-Moves now s (submit new_id t req) {s'} a e h = subst (Moves now s) (some-injective e) (
    subst (λ u. Moves now s (enqueue_prepared lease_store u (prepare new_id t req) s).1) (sym a)
      (enqueue_prepared-Moves now (prepare new_id t req) s h))
step-Moves now s (send i) {s'} a e h = IsQuiet-Moves now s s' (send_to_queue-IsQuiet i s e) h
step-Moves now s (cancel_send i) {s'} a e h = cancel_enqueue-Moves now i s e h
step-Moves now s take {s'} a e h = IsQuiet-Moves now s s' (started-IsQuiet s.mgr.queue s e) h
step-Moves now s (acquire i) {s'} a e h =
    let ((w, rest), p, q) = or_none-some (pick i s.workers) _ e in
    IsQuiet-Moves now s s' (phase-IsQuiet w.req w.phase rest s (inl q)) h
step-Moves now s (cancel_acquire i) {s'} a e h =
    let ((w, rest), p, q) = or_none-some (pick i s.workers) _ e in
    IsQuiet-Moves now s s' (phase-IsQuiet w.req w.phase rest s (inr (inl q))) h
step-Moves now s (cancel_limiter i) {s'} a e h =
    let ((w, rest), p, q) = or_none-some (pick i s.workers) _ e in
    IsQuiet-Moves now s s' (phase-IsQuiet w.req w.phase rest s (inr (inr (inl q)))) h
step-Moves now s (handled i st t) {s'} a e h =
    let ((w, rest), p, q) = or_none-some (pick i s.workers) _ e in
    IsQuiet-Moves now s s' (handled_phase-IsQuiet st t w.req w.phase rest s q) h
step-Moves now s (release i) {s'} a e h =
    let ((w, rest), p, q) = or_none-some (pick i s.workers) _ e in
    IsQuiet-Moves now s s' (phase-IsQuiet w.req w.phase rest s (inr (inr (inr q)))) h
step-Moves now s (leave i) {s'} a e h =
    let ((w, rest), p, q) = or_none-some (pick i s.workers) _ e in
    leave_phase-Moves now w.req w.phase rest s q h
step-Moves now s (fire i new_id t) {s'} a e h =
    let ((timer, rest), p, q) = or_none-some (pick i s.timers) _ e in
    subst (Moves now s) (some-injective q) (
      subst
        (λ u.
          Moves now s
            (enqueue_prepared lease_store u (prepare new_id t (due lease_store t timer))
              (record s { timers = rest })).1)
        (sym a)
        (enqueue_prepared-Moves now (prepare new_id t (due lease_store t timer))
          (record s { timers = rest }) h))
step-Moves now s (cancel_timer i) {s'} a e h = IsQuiet-Moves now s s' (cancel_timer-IsQuiet i s e) h
step-Moves now s (renew t) {s'} a e h =
    renewal-Moves now s (subst (λ u. step lease_store s (renew u) ≡ some s') a e) h
