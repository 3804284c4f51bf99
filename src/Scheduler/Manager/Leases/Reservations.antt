-- ===== src/Scheduler/Manager/Leases/Reservations.antt =====
-- What `reserve`, `releaseReservation` and the renewer do to the set of active targets.
use go_xidized.Prelude.{
  Bool, true, false, ◌||◌, ◌≡◌, refl, Text, text_eq, text_eq_iff, if◌then◌else◌, List, [], ◌∷◌,
  Option, none, some, arith, ◌≤◌,
}
use go_xidized.Types.{Time}
use go_xidized.Scheduler.Lease.{WorkerLease, LeaseReply, granted, denied, failed, LeaseStore}
use go_xidized.Scheduler.Manager.{
  Request, Manager, Error, add_time, update, clear_active, take_lease,
}
use go_xidized.Scheduler.Manager.Leases.{
  new_lease, on_lease, ask_lease, reserve, release_reservation, store_renewed, renew_one,
  renew_each, renew_leases,
}

abbrev pub accepts : Option Error → Bool
accepts none = true
accepts (some e) = false

-- Everything but the sets of active and leased targets.
pub record SameRest (m n : Manager) : Type 0 where
  pub cfg : n.cfg ≡ m.cfg
  pub queue : n.queue ≡ m.queue
  pub tokens : n.tokens ≡ m.tokens

module _ {σ : Type 0} (store : LeaseStore σ) where
  on_lease-active :
      (reply : LeaseReply) (req : Request) (lease : WorkerLease) (m : Manager) (id : Text)
      → m.active req.target.id ≡ true
      → let (e, n) = on_lease store reply req lease m in
        n.active id ≡ (if text_eq req.target.id id then accepts e else m.active id)
  unfolding on_lease clear_active
  on_lease-active failed req lease m id h = refl
  on_lease-active denied req lease m id h = refl
  on_lease-active granted req lease m id h = ground (arith, text_eq_iff req.target.id id)

  on_lease-SameRest :
      (reply : LeaseReply) (req : Request) (lease : WorkerLease) (m : Manager)
      → SameRest m (on_lease store reply req lease m).1
  unfolding on_lease clear_active
  on_lease-SameRest failed req lease m = record { cfg = refl; queue = refl; tokens = refl }
  on_lease-SameRest denied req lease m = record { cfg = refl; queue = refl; tokens = refl }
  on_lease-SameRest granted req lease m = record { cfg = refl; queue = refl; tokens = refl }

  module _ (now : Time) (req : Request) (m : Manager) (s : σ) where
    abbrev marked : Manager
    marked = record m { active = update m.active req.target.id true }

    abbrev lease : WorkerLease
    lease = new_lease store marked now req

    abbrev reply : LeaseReply
    reply = (store.try_acquire lease s).0

    -- The reservation of an active target fails, a successful one makes its target active, and what
    -- holds of other targets stays.
    pub reserve-active :
        (id : Text)
        → let (e, n, t) = reserve store now req m s in
          n.active id ≡ (if text_eq req.target.id id then accepts e || m.active id else m.active id)
    unfolding reserve ask_lease
    reserve-active id = ground (
      arith,
      text_eq_iff req.target.id id,
      text_eq_iff req.target.id req.target.id,
      on_lease-active reply req lease marked id,
    )

    -- A successful one finds its target idle and its circuit closed.
    pub reserve_fresh :
        accepts (reserve store now req m s).0 ≡ true
        → (m.active req.target.id ≡ false) × ((m.cb req.target.id).open_until ≤ now)
    unfolding reserve ask_lease
    reserve_fresh h = ground arith

    pub reserve-SameRest : SameRest m (reserve store now req m s).1
    unfolding reserve ask_lease
    reserve-SameRest = ground (arith, on_lease-SameRest reply req lease marked)

  pub release_reservation-active :
      (req : Request) (m : Manager) (s : σ) (id : Text)
      → (release_reservation store req m s).0.active id
        ≡ (if text_eq req.target.id id then false else m.active id)
  unfolding release_reservation take_lease clear_active
  release_reservation-active req m s id = ground arith

  pub release_reservation-SameRest :
      (req : Request) (m : Manager) (s : σ) → SameRest m (release_reservation store req m s).0
  unfolding release_reservation take_lease clear_active
  release_reservation-SameRest req m s = ground arith

  store_renewed_same :
      (r : LeaseReply) (l : WorkerLease) (m : Manager)
      → ((store_renewed store r l m).active ≡ m.active) × SameRest m (store_renewed store r l m)
  unfolding store_renewed
  store_renewed_same granted l m = ground arith
  store_renewed_same _ l m = ground arith

  renew_each_same :
      (now : Time) (ls : List (Text × WorkerLease)) (m : Manager) (s : σ)
      → let n = (renew_each store now ls m s).0 in (n.active ≡ m.active) × SameRest m n
  unfolding renew_each renew_one
  renew_each_same now [] m s = (refl, record { cfg = refl; queue = refl; tokens = refl })
  renew_each_same now ((k, l) ∷ ls) m s =
      let (m', s') = renew_one store now l m s in
      let l' : WorkerLease = record l { now = now; expires_at = add_time now m.cfg.lease_ttl } in
      ground (arith, store_renewed_same (store.renew l' s).0 l' m, renew_each_same now ls m' s')

  -- Renewing leases leaves all but the leases alone.
  pub renew_leases_same :
      (now : Time) (m : Manager) (s : σ)
      → let n = (renew_leases store now m s).0 in (n.active ≡ m.active) × SameRest m n
  unfolding renew_leases
  renew_leases_same now m s = renew_each_same now m.leased m s
