-- ===== src/Scheduler/Manager/Leases/Renewals.antt =====
-- manager.go over the lease table of store.go: what the renewal of a manager's leases does to them and to
-- those of the others.
use go_xidized.Prelude.{
  ◌≡◌, refl, sym, ap, ◌∙◌, Text, List, [], ◌∷◌, All, Bool-cases, inl, inr, arith,
}
use go_xidized.Types.{Time}
use go_xidized.Scheduler.Lease.{WorkerLease, LeaseReply, granted, denied, failed}
use go_xidized.Scheduler.Manager.{Manager, add_time, find_lease, set_lease}
use go_xidized.Scheduler.Manager.Leases.{
  is_current, store_renewed, renew_one, renew_each, renew_leases,
}
use go_xidized.Metadata.Leases.{LeaseDb, lease_store, renew_lease}
use go_xidized.Metadata.Leases.Held.{Held, renew_lease-Held, renew_lease-granted}
use go_xidized.Scheduler.Manager.Leases.Shared.{
  Owns, Moved, IsTaken, All-map, All-delete_lease, Owns-after, Spares-after,
}

Moved-trans :
    {now : Time} {m m' m'' : Manager} {db db' db'' : LeaseDb}
    → Moved now m db m' db'
    → Moved now m' db' m'' db''
    → Moved now m db m'' db''
Moved-trans {now} {m} {m'} {m''} {db} {db'} {db''} u v = record {
  owned = v.owned;
  spared = λ l other held.
      v.spared l (λ e. other (e ∙ ap (λ c. c.worker_id) u.configured)) (u.spared l other held);
  configured = v.configured ∙ u.configured;
}

store_renewed-Owns :
    (reply : LeaseReply) (now : Time) (k : WorkerLease) (m : Manager) (db : LeaseDb)
    → IsTaken m now k
    → (reply ≡ granted → Held db.rows now k)
    → Owns now m db
    → Owns now (store_renewed lease_store reply k m) db
unfolding store_renewed set_lease
store_renewed-Owns failed now k m db t g h = h
store_renewed-Owns denied now k m db t g h = h
store_renewed-Owns granted now k m db (w, n, x) g h =
    elim (Bool-cases (is_current lease_store (find_lease k.target_id m.leased) k)) [
      | inl current ↦
          simp current ((refl, w, ground arith, g refl), All-delete_lease _ k.target_id m.leased h)
      | inr replaced ↦ simp replaced h
    ]

store_renewed-cfg :
    (reply : LeaseReply) (k : WorkerLease) (m : Manager)
    → (store_renewed lease_store reply k m).cfg ≡ m.cfg
unfolding store_renewed
store_renewed-cfg failed k m = refl
store_renewed-cfg denied k m = refl
store_renewed-cfg granted k m =
    elim (Bool-cases (is_current lease_store (find_lease k.target_id m.leased) k)) [
      | inl current ↦ simp current refl
      | inr replaced ↦ simp replaced refl
    ]

renew_one-Moved :
    (now : Time) (l : WorkerLease) (m : Manager) (db : LeaseDb)
    → l.worker_id ≡ m.cfg.worker_id
    → Owns now m db
    → Moved now m db (renew_one lease_store now l m db).0 (renew_one lease_store now l m db).1
unfolding renew_one
renew_one-Moved now l m db mine h =
    let k = record l { now = now; expires_at = add_time now m.cfg.lease_ttl } in
    let taken : IsTaken m now k = (mine, refl, refl) in
    let keeps = λ (x : WorkerLease). renew_lease-Held k x db in
    record {
      owned =
          store_renewed-Owns (renew_lease k db).0 now k m (renew_lease k db).1 taken
            (renew_lease-granted k db now)
            (Owns-after now m k db.rows (renew_lease k db).1.rows taken keeps h);
      spared = Spares-after now m k db (renew_lease k db).1 taken keeps;
      configured = store_renewed-cfg (renew_lease k db).0 k m;
    }

renew_each-Moved :
    (w : Text) (now : Time) (ls : List (Text × WorkerLease)) (m : Manager) (db : LeaseDb)
    → All (λ (_, l). l.worker_id ≡ w) ls
    → w ≡ m.cfg.worker_id
    → Owns now m db
    → Moved now m db (renew_each lease_store now ls m db).0 (renew_each lease_store now ls m db).1
unfolding renew_each
renew_each-Moved w now [] m db all same h = record {
  owned = h;
  spared = λ l other held. held;
  configured = refl;
}
renew_each-Moved w now ((k, l) ∷ ls) m db (mine, all) same h =
    let first = renew_one-Moved now l m db (mine ∙ same) h in
    Moved-trans first (
      renew_each-Moved w now ls _ _ all (same ∙ sym (ap (λ c. c.worker_id) first.configured))
        first.owned)

pub renew_leases-Moved :
    (now : Time) (m : Manager) (db : LeaseDb)
    → Owns now m db
    → Moved now m db (renew_leases lease_store now m db).0 (renew_leases lease_store now m db).1
unfolding renew_leases
renew_leases-Moved now m db h =
    renew_each-Moved m.cfg.worker_id now m.leased m db (All-map _ _ m.leased (λ _ entry. entry.1) h)
      refl h
