-- ===== src/Scheduler/Cron/Values.antt =====
-- schedule.go: which values a range with a step stands for, and that its loop ends.
use go_xidized.Prelude.{
  ℕ, zero, suc, ◌+◌, ◌-◌, ◌*◌, ◌^◌, ◌≤◌, ◌<◌, ◌≡◌, refl, ◌↔◌, ℤ, pos, negsuc, Bool, true, false,
  List, [], ◌∷◌, Option, none, some, any, arith, add64, dec_lt, ◌⊎◌, sym, subst, inl, inr, ◌&&◌,
  ◌==◌, if◌then◌else◌,
}
use go_xidized.Scheduler.Cron.{collect_values, collect_fuel, same}

-- Where the addition does not wrap around, it is that of the numbers.
add64-pos : (v s : ℕ) → v + s < 2 ^ 63 → add64 (pos v) s ≡ pos (v + s)
unfolding add64
add64-pos v s h = ground arith

abbrev pub ended : Option (List ℤ) → Bool
ended none = false
ended (some r) = true

ended-some : (o : Option (List ℤ)) → ended o ≡ true → (r : List ℤ) × (o ≡ some r)
ended-some none h = cc
ended-some (some r) h = (r, refl)

module _ (e s : ℕ) (d : Bool) where
  ended-past : (fuel v : ℕ) → e < v → ended (collect_values (suc fuel) (pos v) (pos e) s d) ≡ true
  unfolding collect_values
  ended-past fuel v h = ground arith

  ended-next :
      (fuel : ℕ) (v w : ℤ)
      → add64 v s ≡ w
      → ended (collect_values fuel w (pos e) s d) ≡ true
      → ended (collect_values (suc fuel) v (pos e) s d) ≡ true
  unfolding collect_values
  ended-next fuel v w a h = ground arith

  -- A step that never wraps around climbs to the end of the range.
  ended_small :
      (fuel v : ℕ)
      → 0 < s
      → e + s < 2 ^ 63
      → e + 2 ≤ fuel + v
      → 0 < fuel
      → ended (collect_values fuel (pos v) (pos e) s d) ≡ true
  ended_small zero v p b f q = absurd (omega arith)
  ended_small (suc fuel) v p b f q = elim (dec_lt e v) [
    | yes over ↦ ended-past fuel v over
    | no more ↦
        ended-next fuel (pos v) (pos (v + s)) (add64-pos v s (omega arith))
          (ended_small fuel (v + s) p b (omega arith) (omega arith))
  ]

  module _ (p : s < 2 ^ 63) (b : 2 ^ 63 ≤ e + s) (c : e < 2 ^ 61) where
    add64-wraps : (v : ℕ) → v ≤ e → 2 ^ 63 ≤ v + s → add64 (pos v) s ≡ negsuc (2 ^ 64 - (v + s) - 1)
    unfolding add64
    add64-wraps v h w = ground arith

    add64-returns : (n : ℕ) → suc n ≤ s → add64 (negsuc n) s ≡ pos (s - suc n)
    unfolding add64
    add64-returns n h = ground arith

    add64-stays : (n : ℕ) → s < suc n → add64 (negsuc n) s ≡ negsuc (suc n - s - 1)
    unfolding add64
    add64-stays n h = ground arith

    -- One that wraps around falls by two or more every two rounds, or leaves the range.
    ended_large :
        (fuel v : ℕ) → v ≤ e → v + 4 ≤ fuel → ended (collect_values fuel (pos v) (pos e) s d) ≡ true
    ended_large (suc (suc (suc (suc fuel)))) v h f = elim (dec_lt (v + s) (2 ^ 63)) [
      | yes plain ↦
          ended-next _ (pos v) (pos (v + s)) (add64-pos v s plain)
            (ended-past (suc (suc fuel)) (v + s) (omega arith))
      | no wraps ↦
          ended-next _ (pos v) _ (add64-wraps v h (omega arith))
            (elim (dec_lt s (2 ^ 64 - (v + s))) [
              | yes low ↦ ended-next _ _ _ (add64-stays (2 ^ 64 - (v + s) - 1) (omega arith)) (
                  ended-next _ _ _ (add64-returns _ (omega arith))
                    (ended-past fuel _ (omega arith)))
              | no back ↦
                  ended-next _ _ _ (add64-returns (2 ^ 64 - (v + s) - 1) (omega arith))
                    (ended_large (suc (suc fuel)) _ (omega arith) (omega arith))
            ])
    ]
    ended_large _ v h f = absurd (omega arith)

-- The fuel is enough for every step that an int64 can hold: the loop always ends.
pub collect_ends :
    (v e s : ℕ) (d : Bool)
    → v ≤ e
    → e < 2 ^ 61
    → 0 < s
    → s < 2 ^ 63
    → (r : List ℤ) × (collect_values (collect_fuel (pos e)) (pos v) (pos e) s d ≡ some r)
collect_ends v e s d h c p q = ended-some _ (elim (dec_lt (e + s) (2 ^ 63)) [
  | yes small ↦ ended_small e s d (e + 5) v p small (omega arith) (omega arith)
  | no large ↦ ended_large e s d q (omega arith) c (e + 5) v h (omega arith)
])

-- Sunday may be written 0 or 7.
abbrev pub field_key : Bool → ℕ → ℕ
field_key is_dow v = if is_dow && v == 7 then 0 else v

abbrev pub in_values : ℕ → List ℤ → Bool
in_values x = any λ w. same w (pos x)

in_values-cons :
    (x y : ℕ) (vs : List ℤ) → in_values x (pos y ∷ vs) ≡ true → (y ≡ x) ⊎ (in_values x vs ≡ true)
in_values-cons x y vs h = ground arith

self_in : (y : ℕ) (vs : List ℤ) → in_values y (pos y ∷ vs) ≡ true
self_in y vs = ground arith

cons_in : (x y : ℕ) (vs : List ℤ) → in_values x vs ≡ true → in_values x (pos y ∷ vs) ≡ true
cons_in x y vs h = ground arith

module _ (e s : ℕ) (d : Bool) (b : e + s < 2 ^ 63) where
  shift : (v k : ℕ) → v + suc k * s ≡ v + s + k * s
  shift v k = omega arith

  stay : (v : ℕ) → v + 0 * s ≡ v
  stay v = omega arith

  -- A round ends the loop or adds the key of its value.
  round :
      (fuel v : ℕ) (r : List ℤ) (rest : Option (List ℤ))
      → collect_values fuel (pos (v + s)) (pos e) s d ≡ rest
      → collect_values (suc fuel) (pos v) (pos e) s d ≡ some r
      → ((e < v) × (r ≡ []))
        ⊎ ((vs : List ℤ) × (v ≤ e)
            × (collect_values fuel (pos (v + s)) (pos e) s d ≡ some vs)
            × (r ≡ pos (field_key d v) ∷ vs))
  unfolding collect_values
  round fuel v r none eq h = ground (arith, add64-pos v s)
  round fuel v r (some vs) eq h = elim (dec_lt e v) [
    | yes over ↦ inl (over, ground arith)
    | no more ↦ inr (vs, omega arith, eq, ground (arith, add64-pos v s))
  ]

  collected_sound :
      (fuel v x : ℕ) (r : List ℤ)
      → collect_values fuel (pos v) (pos e) s d ≡ some r
      → in_values x r ≡ true
      → (k : ℕ) × (v + k * s ≤ e) × (field_key d (v + k * s) ≡ x)
  collected_sound zero v x r h m = unfold collect_values in cc
  collected_sound (suc fuel) v x r h m = elim (round fuel v r _ refl h) [
    | inl (over, none_left) ↦ let m' : in_values x [] ≡ true = rw none_left at m in cc
    | inr (vs, le, later, eq) ↦ elim (in_values-cons x (field_key d v) vs (rw eq at m)) [
      | inl this ↦ (0, omega arith, subst (λ t. field_key d t ≡ x) (sym (stay v)) this)
      | inr other ↦
          let (k, bound, key) = collected_sound fuel (v + s) x vs later other in
          (suc k, omega arith, rw (shift v k) key)
    ]
  ]

  collected_complete :
      (fuel v k : ℕ) (r : List ℤ)
      → collect_values fuel (pos v) (pos e) s d ≡ some r
      → v + k * s ≤ e
      → in_values (field_key d (v + k * s)) r ≡ true
  collected_complete zero v k r h m = unfold collect_values in cc
  collected_complete (suc fuel) v zero r h m = elim (round fuel v r _ refl h) [
    | inl (over, none_left) ↦ absurd (omega arith)
    | inr (vs, le, later, eq) ↦ rw eq (
        subst (λ t. in_values (field_key d t) (pos (field_key d v) ∷ vs) ≡ true) (sym (stay v))
          (self_in (field_key d v) vs))
  ]
  collected_complete (suc fuel) v (suc k) r h m = elim (round fuel v r _ refl h) [
    | inl (over, none_left) ↦ absurd (omega arith)
    | inr (vs, le, later, eq) ↦ rw eq (
        subst (λ t. in_values (field_key d t) (pos (field_key d v) ∷ vs) ≡ true) (sym (shift v k))
          (cons_in _ (field_key d v) vs (collected_complete fuel (v + s) k vs later (omega arith))))
  ]

-- Where the step is positive, the start is not above the end, and the end and the step together are
-- below `2 ^ 61`, the values of `start-end/step` are the keys of those that a whole number of steps
-- reaches from the start, and no others; and the loop that collects them ends.
pub collect_values_iff :
    (v e s : ℕ) (d : Bool)
    → v ≤ e
    → 0 < s
    → e + s < 2 ^ 61
    → (r : List ℤ) × (collect_values (collect_fuel (pos e)) (pos v) (pos e) s d ≡ some r)
      × ((x : ℕ)
          → (in_values x r ≡ true) ↔ ((k : ℕ) × (v + k * s ≤ e) × (field_key d (v + k * s) ≡ x)))
collect_values_iff v e s d h p b =
    let (r, got) = collect_ends v e s d h (omega arith) p (omega arith) in
    (
      r,
      got,
      λ x. (
        collected_sound e s d (omega arith) (collect_fuel (pos e)) v x r got,
        λ (k, bound, key).
            rw (sym key)
              (collected_complete e s d (omega arith) (collect_fuel (pos e)) v k r got bound),
      ),
    )
