-- ===== src/Scheduler/Manager/Leases/Shared.antt =====
-- manager.go over the lease table of store.go: the leases of one manager, and what it does to those of
-- the others.
use go_xidized.Prelude.{
  ◌≡◌, ◌≢◌, refl, sym, ◌∙◌, subst, Bool, true, Text, text_eq, text_eq_iff, List, [], ◌∷◌, All,
  Option, none, some, ltb, Bool-cases, inl, inr, ◌≤◌, arith,
}
use go_xidized.Types.{Time, Duration}
use go_xidized.Scheduler.Lease.{WorkerLease, LeaseReply, granted, denied, failed}
use go_xidized.Scheduler.Manager.{
  Request, Manager, add_time, update, clear_active, find_lease, delete_lease, set_lease, take_lease,
}
use go_xidized.Scheduler.Manager.Leases.{
  new_lease, on_lease, ask_lease, reserve, release_held, release_reservation,
}
use go_xidized.Metadata.{micros}
use go_xidized.Metadata.Leases.{Rows, LeaseDb, lease_store, try_acquire_lease}
use go_xidized.Metadata.Leases.Held.{
  micros_mono, Held, try_acquire_lease-Held, try_acquire_lease-granted, release_lease-Held,
}

-- An entry of a manager's lease map: its own lease for the target, no longer than one taken now, and
-- held in the table.
abbrev pub IsEntry : Text → Duration → Time → Rows → Text × WorkerLease → Type 0
IsEntry w ttl now rows (k, l) =
    (l.target_id ≡ k) × (l.worker_id ≡ w) × (l.expires_at ≤ add_time now ttl) × Held rows now l

abbrev pub Owns : Time → Manager → LeaseDb → Type 0
Owns now m db = All (IsEntry m.cfg.worker_id m.cfg.lease_ttl now db.rows) m.leased

-- Each lease of another worker that is held stays held.
abbrev pub Spares : Text → Time → LeaseDb → LeaseDb → Type 0
Spares w now db db' = (l : WorkerLease) → l.worker_id ≢ w → Held db.rows now l → Held db'.rows now l

pub record Moved (now : Time) (m : Manager) (db : LeaseDb) (m' : Manager) (db' : LeaseDb)
    : Type 0 where
  pub owned : Owns now m' db'
  pub spared : Spares m.cfg.worker_id now db db'
  pub configured : m'.cfg ≡ m.cfg

pub All-delete_lease {κ} :
    (P : Text × WorkerLease → Type κ) (id : Text) (ls : List (Text × WorkerLease))
    → All P ls
    → All P (delete_lease id ls)
unfolding delete_lease
All-delete_lease P id [] h = tt
All-delete_lease P id ((k, l) ∷ ls) (p, h) = elim (Bool-cases (text_eq k id)) [
  | inl same ↦ rw same (All-delete_lease P id ls h)
  | inr other ↦ rw other (p, All-delete_lease P id ls h)
]

-- What is left has other keys.
delete_lease-ne :
    (id : Text) (ls : List (Text × WorkerLease)) → All (λ (k, l). k ≢ id) (delete_lease id ls)
unfolding delete_lease
delete_lease-ne id [] = tt
delete_lease-ne id ((k, l) ∷ ls) = elim (Bool-cases (text_eq k id)) [
  | inl same ↦ rw same (delete_lease-ne id ls)
  | inr other ↦ rw other ((λ e. cc ((text_eq_iff k id).1 e)), delete_lease-ne id ls)
]

pub All-map {κ λ'} :
    (P : Text × WorkerLease → Type κ) (Q : Text × WorkerLease → Type λ')
    (ls : List (Text × WorkerLease))
    → ((e : Text × WorkerLease) → P e → Q e)
    → All P ls
    → All Q ls
All-map P Q [] f h = tt
All-map P Q (e ∷ ls) f (p, h) = (f e p, All-map P Q ls f h)

All-both {κ λ'} :
    (P : Text × WorkerLease → Type κ) (Q : Text × WorkerLease → Type λ')
    (ls : List (Text × WorkerLease))
    → All P ls
    → All Q ls
    → All (λ e. P e × Q e) ls
All-both P Q [] h k = tt
All-both P Q (e ∷ ls) (p, h) (q, k) = ((p, q), All-both P Q ls h k)

pub find_lease-All {κ} :
    (P : Text × WorkerLease → Type κ) (id : Text) (ls : List (Text × WorkerLease)) {l : WorkerLease}
    → find_lease id ls ≡ some l
    → All P ls
    → P (id, l)
unfolding find_lease
find_lease-All P id [] e h = cc
find_lease-All P id ((k, x) ∷ ls) {l} e (p, h) = elim (Bool-cases (text_eq k id)) [
  | inl same ↦
      let at : x ≡ l = cc (rw same at e) in
      let key : k ≡ id = (text_eq_iff k id).0 same in subst P (λ i. (key i, at i)) p
  | inr other ↦ find_lease-All P id ls (rw other at e) h
]

-- A lease that the manager takes or renews at a time.
abbrev pub IsTaken : Manager → Time → WorkerLease → Type 0
IsTaken m now k =
    (k.worker_id ≡ m.cfg.worker_id) × (k.now ≡ now) × (k.expires_at ≡ add_time now m.cfg.lease_ttl)

-- A statement for such a lease that leaves held leases held leaves the manager's entries.
pub Owns-after :
    (now : Time) (m : Manager) (k : WorkerLease) (before after : Rows)
    → IsTaken m now k
    → ((l : WorkerLease)
        → (k.worker_id ≡ l.worker_id → micros l.expires_at ≤ micros k.expires_at)
        → Held before now l
        → Held after now l)
    → All (IsEntry m.cfg.worker_id m.cfg.lease_ttl now before) m.leased
    → All (IsEntry m.cfg.worker_id m.cfg.lease_ttl now after) m.leased
Owns-after now m k before after (w, n, x) f =
    All-map _ _ m.leased λ (_, l) (target, worker, limit, h).
      (target, worker, limit, f l (λ _. rw x (micros_mono limit)) h)

pub Spares-after :
    (now : Time) (m : Manager) (k : WorkerLease) (db db' : LeaseDb)
    → IsTaken m now k
    → ((l : WorkerLease)
        → (k.worker_id ≡ l.worker_id → micros l.expires_at ≤ micros k.expires_at)
        → Held db.rows now l
        → Held db'.rows now l)
    → Spares m.cfg.worker_id now db db'
Spares-after now m k db db' (w, n, x) f l other = f l (λ e. absurd (other (sym e ∙ w)))

on_lease-Owns :
    (reply : LeaseReply) (now : Time) (req : Request) (k : WorkerLease) (m : Manager) (db : LeaseDb)
    → IsTaken m now k
    → k.target_id ≡ req.target.id
    → (reply ≡ granted → Held db.rows now k)
    → Owns now m db
    → Owns now (on_lease lease_store reply req k m).1 db
unfolding on_lease clear_active set_lease
on_lease-Owns failed now req k m db t e g h = h
on_lease-Owns denied now req k m db t e g h = h
on_lease-Owns granted now req k m db (w, n, x) e g h =
    ((e, w, ground arith, g refl), All-delete_lease _ req.target.id m.leased h)

on_lease-cfg :
    (reply : LeaseReply) (req : Request) (k : WorkerLease) (m : Manager)
    → (on_lease lease_store reply req k m).1.cfg ≡ m.cfg
unfolding on_lease clear_active
on_lease-cfg failed req k m = refl
on_lease-cfg denied req k m = refl
on_lease-cfg granted req k m = refl

module _ (now : Time) (req : Request) (m : Manager) (db : LeaseDb) where
  same-Moved : Owns now m db → Moved now m db m db
  same-Moved h = record { owned = h; spared = λ l other held. held; configured = refl }

  ask_lease-Moved :
      Owns now m db
      → Moved now m db (ask_lease lease_store now req m db).1 (ask_lease lease_store now req m db).2
  unfolding ask_lease new_lease
  ask_lease-Moved h =
      let k = new_lease lease_store m now req in
      let taken : IsTaken m now k = (refl, refl, refl) in
      let keeps = λ (l : WorkerLease). try_acquire_lease-Held k l db in
      record {
        owned =
            on_lease-Owns (try_acquire_lease k db).0 now req k m (try_acquire_lease k db).1 taken
              refl (try_acquire_lease-granted k db now)
              (Owns-after now m k db.rows (try_acquire_lease k db).1.rows taken keeps h);
        spared = Spares-after now m k db (try_acquire_lease k db).1 taken keeps;
        configured = on_lease-cfg (try_acquire_lease k db).0 req k m;
      }

-- `configured` relates to the first manager, whose active set does not matter.
activated :
    {now : Time} {m m' : Manager} {db db' : LeaseDb} (active : Text → Bool)
    → Moved now (record m { active = active }) db m' db'
    → Moved now m db m' db'
activated active v = record { owned = v.owned; spared = v.spared; configured = v.configured }

pub reserve-Moved :
    (now : Time) (req : Request) (m : Manager) (db : LeaseDb)
    → Owns now m db
    → Moved now m db (reserve lease_store now req m db).1 (reserve lease_store now req m db).2
unfolding reserve
reserve-Moved now req m db h = elim (Bool-cases (m.active req.target.id)) [
  | inl busy ↦ rw (busy, reserve) (same-Moved now req m db h)
  | inr idle ↦ elim (Bool-cases (ltb now (m.cb req.target.id).open_until)) [
    | inl broken ↦ rw (idle, broken, reserve) (same-Moved now req m db h)
    | inr closed ↦ elim (Bool-cases m.cfg.lease_store) [
      | inl shared ↦
          simp (idle, closed, shared)
            (activated (update m.active req.target.id true) (
              ask_lease-Moved now req (record m { active = update m.active req.target.id true }) db
                h))
      | inr alone ↦
          simp (idle, closed, alone)
            (activated (update m.active req.target.id true)
              (same-Moved now req (record m { active = update m.active req.target.id true }) db h))
    ]
  ]
]

release_held-Spares :
    (w : Text) (now : Time) (o : Option WorkerLease) (db : LeaseDb)
    → ((l : WorkerLease) → o ≡ some l → l.worker_id ≡ w)
    → Spares w now db (release_held lease_store o db)
unfolding release_held
release_held-Spares w now none db h l other held = held
release_held-Spares w now (some k) db h l other held =
    release_lease-Held k l db now (λ e. absurd (other (sym e ∙ h k refl))) held

release_held-Owns :
    (w : Text) (ttl : Duration) (now : Time) (id : Text) (o : Option WorkerLease) (db : LeaseDb)
    (ls : List (Text × WorkerLease))
    → ((l : WorkerLease) → o ≡ some l → l.target_id ≡ id)
    → All (λ (k, l). k ≢ id) ls
    → All (IsEntry w ttl now db.rows) ls
    → All (IsEntry w ttl now (release_held lease_store o db).rows) ls
unfolding release_held
release_held-Owns w ttl now id none db ls at apart h = h
release_held-Owns w ttl now id (some k) db ls at apart h =
    All-map _ _ ls
      (λ (key, l) (ne, (target, worker, limit, held)). (
        target,
        worker,
        limit,
        release_lease-Held k l db now (λ _ e. ne (sym target ∙ (sym e ∙ at k refl))) held,
      ))
      (All-both _ _ ls apart h)

pub release_reservation-Moved :
    (now : Time) (req : Request) (m : Manager) (db : LeaseDb)
    → Owns now m db
    → Moved now m db
        (release_reservation lease_store req m db).0
        (release_reservation lease_store req m db).1
unfolding release_reservation take_lease clear_active
release_reservation-Moved now req m db h =
    let id = req.target.id in
    let mine = λ (l : WorkerLease) (e : find_lease id m.leased ≡ some l).
      find_lease-All (IsEntry m.cfg.worker_id m.cfg.lease_ttl now db.rows) id m.leased e h in
    elim (Bool-cases m.cfg.lease_store) [
      | inl shared ↦ simp shared (record {
        owned =
            release_held-Owns m.cfg.worker_id m.cfg.lease_ttl now id (find_lease id m.leased) db
              (delete_lease id m.leased) (λ l e. (mine l e).0) (delete_lease-ne id m.leased)
              (All-delete_lease _ id m.leased h);
        spared =
            release_held-Spares m.cfg.worker_id now (find_lease id m.leased) db
              (λ l e. (mine l e).1);
        configured = refl;
      })
      | inr alone ↦
          simp alone (record { owned = h; spared = λ l other held. held; configured = refl })
    ]
