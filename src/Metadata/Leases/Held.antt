-- ===== src/Metadata/Leases/Held.antt =====
-- store.go: what the statements on the leases leave of the leases that are held.
use go_xidized.Prelude.{
  ◌≡◌, ◌≢◌, refl, sym, ap, ◌∙◌, subst, Bool, true, false, ◌&&◌, ◌||◌, Text, text_eq, text_eq_iff,
  List, [], ◌∷◌, is_empty, Option, none, some, leb, Bool-cases, Option-cases, inl, inr, ◌≤◌, ◌<◌,
  arith,
}
use go_xidized.Types.{Time}
use go_xidized.Scheduler.Lease.{WorkerLease, granted, LeaseError, validate}
use go_xidized.Scheduler.Manager.{update}
use go_xidized.Metadata.{micros, Outcome, works, lost, unanswered}
use go_xidized.Metadata.Leases.{
  LeaseRow, Rows, LeaseDb, is_free, is_renewable, is_holder, is_held, row_of, insert_lease,
  update_lease, delete_row, executed, answered, checked, try_acquire_lease, renew_lease,
  release_lease,
}

pub micros_mono : {s t : Time} → s ≤ t → micros s ≤ micros t
unfolding micros
micros_mono h = omega arith

-- Until it expires, by the microsecond, the row of the lease's target is the lease's, and expires no
-- sooner.
abbrev pub Held : Rows → Time → WorkerLease → Type 0
Held rows t l =
    micros t < micros l.expires_at
    → (r : LeaseRow) × (rows l.target_id ≡ some r)
      × (r.worker_id ≡ l.worker_id)
      × (r.job_id ≡ l.job_id)
      × (micros l.expires_at ≤ r.expires_at)

executed_ind :
    (P : Rows → Type 0) (o : Outcome) (p : Bool × Rows) (before : Rows)
    → P before
    → P p.1
    → P (executed o p before).1
executed_ind P works (true, after) before h k = k
executed_ind P works (false, after) before h k = k
executed_ind P (lost e) p before h k = h
executed_ind P (unanswered e) p before h k = k

answered_ind :
    (P : Rows → Type 0) (os : List Outcome) (p : Bool × Rows) (before : Rows)
    → P before
    → P p.1
    → P (answered os p before).1.rows
answered_ind P [] p before h k = executed_ind P works p before h k
answered_ind P (o ∷ os) p before h k = executed_ind P o p before h k

-- A statement takes effect or not.
pub checked_ind :
    (P : Rows → Type 0) (e : Option LeaseError) (f : Rows → Bool × Rows) (db : LeaseDb)
    → P db.rows
    → P (f db.rows).1
    → P (checked e f db).1.rows
unfolding checked
checked_ind P (some e) f db h k = h
checked_ind P none f db h k = answered_ind P db.outcomes (f db.rows) db.rows h k

executed-granted :
    (o : Outcome) (p : Bool × Rows) (before : Rows)
    → (executed o p before).0 ≡ granted
    → (p.0 ≡ true) × ((executed o p before).1 ≡ p.1)
executed-granted works (true, after) before h = (refl, refl)
executed-granted works (false, after) before h = cc
executed-granted (lost e) p before h = cc
executed-granted (unanswered e) p before h = cc

-- A statement that is granted has taken effect.
pub checked-granted :
    (e : Option LeaseError) (f : Rows → Bool × Rows) (db : LeaseDb)
    → (checked e f db).0 ≡ granted
    → ((f db.rows).0 ≡ true) × ((checked e f db).1.rows ≡ (f db.rows).1)
unfolding checked
checked-granted (some e) f db h = cc
checked-granted none f db h = by_outcomes db.outcomes h
  where
    by_outcomes :
        (os : List Outcome)
        → (answered os (f db.rows) db.rows).0 ≡ granted
        → ((f db.rows).0 ≡ true) × ((answered os (f db.rows) db.rows).1.rows ≡ (f db.rows).1)
    by_outcomes [] k = executed-granted works (f db.rows) db.rows k
    by_outcomes (o ∷ os) k = executed-granted o (f db.rows) db.rows k

and_true : (a b : Bool) → a && b ≡ true → (a ≡ true) × (b ≡ true)
and_true a b h = ground arith

is_holder-eq :
    (k : WorkerLease) (r : LeaseRow)
    → is_holder k r ≡ true
    → (r.worker_id ≡ k.worker_id) × (r.job_id ≡ k.job_id)
is_holder-eq k r h = let (a, b) = and_true _ _ h in ((text_eq_iff _ _).0 a, (text_eq_iff _ _).0 b)

update_self {ℓ} : {A : Type ℓ} (f : Text → A) (a b : Text) (v : A) → a ≡ b → update f a v b ≡ v
update_self f a b v e = rw ((text_eq_iff a b).1 e) refl

or_holder : (a : Time) (n : Time) (b : Bool) → leb a n || b ≡ true → n < a → b ≡ true
or_holder a n b h p = ground arith

module _ (k l : WorkerLease) (rows : Rows) where
  -- Where the lease `k` is for another target than `l`, or belongs to another worker, or lasts as long,
  -- the statement for `k` leaves `l` held.
  pub insert_lease-Held :
      (k.worker_id ≡ l.worker_id → micros l.expires_at ≤ micros k.expires_at)
      → Held rows k.now l
      → Held (insert_lease k rows).1 k.now l
  unfolding insert_lease
  insert_lease-Held longer h live =
      let (r, at, w, j, e) = h live in
      elim (Bool-cases (text_eq k.target_id l.target_id)) [
        | inr apart ↦ (r, ground (arith, apart), w, j, e)
        | inl same ↦
            let there : rows k.target_id ≡ some r = ap rows ((text_eq_iff _ _).0 same) ∙ at in
            elim (Bool-cases (is_free k (some r))) [
              | inr taken ↦ rw (there, taken) (r, at, w, j, e)
              | inl free ↦
                  let (w', j') =
                    is_holder-eq k r (or_holder r.expires_at (micros k.now) _ free (omega arith)) in
                  rw (there, free, same)
                    (row_of k, refl, sym w' ∙ w, sym j' ∙ j, longer (sym w' ∙ w))
            ]
      ]

  pub update_lease-Held :
      (k.worker_id ≡ l.worker_id → micros l.expires_at ≤ micros k.expires_at)
      → Held rows k.now l
      → Held (update_lease k rows).1 k.now l
  unfolding update_lease
  update_lease-Held longer h live =
      let (r, at, w, j, e) = h live in
      elim (Bool-cases (text_eq k.target_id l.target_id)) [
        | inr apart ↦ (r, ground (arith, apart), w, j, e)
        | inl same ↦
            let there : rows k.target_id ≡ some r = ap rows ((text_eq_iff _ _).0 same) ∙ at in
            elim (Bool-cases (is_renewable k (some r))) [
              | inr kept ↦ rw (there, kept) (r, at, w, j, e)
              | inl renewable ↦
                  let (w', j') = is_holder-eq k r (and_true _ _ renewable).0 in
                  rw (there, renewable, same)
                    (
                      record r { expires_at = micros k.expires_at; updated_at = micros k.now },
                      refl,
                      w,
                      j,
                      longer (sym w' ∙ w),
                    )
            ]
      ]

  pub delete_row-Held :
      (t : Time)
      → (k.worker_id ≡ l.worker_id → k.target_id ≢ l.target_id)
      → Held rows t l
      → Held (delete_row k rows).1 t l
  unfolding delete_row
  delete_row-Held t elsewhere h live =
      let (r, at, w, j, e) = h live in
      elim (Bool-cases (text_eq k.target_id l.target_id)) [
        | inr apart ↦ (r, ground (arith, apart), w, j, e)
        | inl same ↦
            let there : rows k.target_id ≡ some r = ap rows ((text_eq_iff _ _).0 same) ∙ at in
            elim (Bool-cases (is_held k (some r))) [
              | inr kept ↦ rw (there, kept) (r, at, w, j, e)
              | inl mine ↦
                  absurd (elsewhere (sym (is_holder-eq k r mine).0 ∙ w) ((text_eq_iff _ _).0 same))
            ]
      ]

-- A lease that is granted is held.
pub insert_lease-granted :
    (k : WorkerLease) (rows : Rows) (t : Time)
    → (insert_lease k rows).0 ≡ true
    → Held (insert_lease k rows).1 t k
unfolding insert_lease
insert_lease-granted k rows t h live = elim (Bool-cases (is_free k (rows k.target_id))) [
  | inl free ↦ rw free (
    row_of k,
    update_self rows k.target_id k.target_id (some (row_of k)) refl,
    refl,
    refl,
    omega arith,
  )
  | inr taken ↦ cc (rw taken at h)
]

pub update_lease-granted :
    (k : WorkerLease) (rows : Rows) (t : Time)
    → (update_lease k rows).0 ≡ true
    → Held (update_lease k rows).1 t k
unfolding update_lease
update_lease-granted k rows t h live = elim (Option-cases (rows k.target_id)) [
  | inl none_there ↦ cc (rw none_there at h)
  | inr (r, there) ↦ elim (Bool-cases (is_renewable k (some r))) [
    | inr kept ↦ cc (rw (there, kept) at h)
    | inl renewable ↦
        let (w, j) = is_holder-eq k r (and_true _ _ renewable).0 in
        let row = record r { expires_at = micros k.expires_at; updated_at = micros k.now } in
        rw (there, renewable)
          (row, update_self rows k.target_id k.target_id (some row) refl, w, j, omega arith)
  ]
]

module _ (k l : WorkerLease) (db : LeaseDb) where
  pub try_acquire_lease-Held :
      (k.worker_id ≡ l.worker_id → micros l.expires_at ≤ micros k.expires_at)
      → Held db.rows k.now l
      → Held (try_acquire_lease k db).1.rows k.now l
  unfolding try_acquire_lease
  try_acquire_lease-Held longer h =
      checked_ind (λ rows. Held rows k.now l) (validate k) (insert_lease k) db h
        (insert_lease-Held k l db.rows longer h)

  pub renew_lease-Held :
      (k.worker_id ≡ l.worker_id → micros l.expires_at ≤ micros k.expires_at)
      → Held db.rows k.now l
      → Held (renew_lease k db).1.rows k.now l
  unfolding renew_lease
  renew_lease-Held longer h =
      checked_ind (λ rows. Held rows k.now l) (validate k) (update_lease k) db h
        (update_lease-Held k l db.rows longer h)

  pub release_lease-Held :
      (t : Time)
      → (k.worker_id ≡ l.worker_id → k.target_id ≢ l.target_id)
      → Held db.rows t l
      → Held (release_lease k db).rows t l
  unfolding release_lease
  release_lease-Held t elsewhere h =
      elim (Bool-cases (is_empty k.target_id || is_empty k.worker_id || is_empty k.job_id)) [
        | inl blank ↦ rw blank h
        | inr given ↦ rw given (
            checked_ind (λ rows. Held rows t l) none (delete_row k) db h
              (delete_row-Held k l db.rows t elsewhere h))
      ]

module _ (k : WorkerLease) (db : LeaseDb) (t : Time) where
  pub try_acquire_lease-granted :
      (try_acquire_lease k db).0 ≡ granted → Held (try_acquire_lease k db).1.rows t k
  unfolding try_acquire_lease
  try_acquire_lease-granted h =
      let (done, same) = checked-granted (validate k) (insert_lease k) db h in
      subst (λ rows. Held rows t k) (sym same) (insert_lease-granted k db.rows t done)

  pub renew_lease-granted : (renew_lease k db).0 ≡ granted → Held (renew_lease k db).1.rows t k
  unfolding renew_lease
  renew_lease-granted h =
      let (done, same) = checked-granted (validate k) (update_lease k) db h in
      subst (λ rows. Held rows t k) (sym same) (update_lease-granted k db.rows t done)
