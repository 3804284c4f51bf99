-- ===== src/Prelude/Lists.antt =====
-- Lists measured by native numbers, and Boolean searches through a list that run in a test.
use Prim.Native.Nat.{ℕ, zero, suc, ◌+◌}
use mathlib.Core.Path.{◌≡◌, refl, ap}
use mathlib.Core.Bool.{Bool, false, ◌||◌}
use mathlib.Core.List.{List, [], ◌∷◌, ◌++◌}
use mathlib.Core.Option.{Option, none, some, get_or}
use native.Mathlib.Omega.{arith}
use go_xidized.Prelude.Tests.{if◌then◌else◌}

module _ {ℓ} {A : Type ℓ} where
  abbrev pub length : List A → ℕ
  length [] = 0
  length (x ∷ xs) = suc (length xs)

  pub length-append : (xs ys : List A) → length (xs ++ ys) ≡ length xs + length ys
  length-append [] ys = omega arith
  length-append (x ∷ xs) ys = omega (arith, length-append xs ys)

  -- Does some entry pass the test?
  abbrev pub any : (A → Bool) → List A → Bool
  any p [] = false
  any p (x ∷ xs) = p x || any p xs

  -- The entries that pass the test, in order.
  abbrev pub keep_if : (A → Bool) → List A → List A
  keep_if p [] = []
  keep_if p (x ∷ xs) = if p x then x ∷ keep_if p xs else keep_if p xs

  abbrev pub All {κ} : (A → Type κ) → List A → Type κ
  All P [] = Unit
  All P (x ∷ xs) = P x × All P xs

  -- The sum of a measure over a list.
  abbrev pub total : (A → ℕ) → List A → ℕ
  total f [] = 0
  total f (x ∷ xs) = f x + total f xs

  pub total-append : (f : A → ℕ) (xs ys : List A) → total f (xs ++ ys) ≡ total f xs + total f ys
  total-append f [] ys = omega arith
  total-append f (x ∷ xs) ys = omega (arith, total-append f xs ys)

-- The entry at a position, and the others.
abbrev pub pick {ℓ} : {A : Type ℓ} → ℕ → List A → Option (A × List A)
pick i [] = none
pick zero (x ∷ xs) = some (x, xs)
pick (suc i) (x ∷ xs) = elim (pick i xs) [ none ↦ none | some (y, ys) ↦ some (y, x ∷ ys) ]

module _ {ℓ} {A : Type ℓ} where
  pick-suc :
      (i : ℕ) (y : A) (ys : List A) {x : A} {rest : List A} (r : Option (A × List A))
      → pick i ys ≡ r
      → pick (suc i) (y ∷ ys) ≡ some (x, rest)
      → (zs : List A) × (pick i ys ≡ some (x, zs)) × (rest ≡ y ∷ zs)
  pick-suc i y ys none e h = cc
  pick-suc i y ys (some (a, zs)) e h = (zs, ground arith, ground arith)

  pub total-pick :
      (f : A → ℕ) (i : ℕ) (xs : List A) {x : A} {rest : List A}
      → pick i xs ≡ some (x, rest)
      → total f xs ≡ f x + total f rest
  total-pick f i [] h = cc
  total-pick f zero (y ∷ ys) h = ground arith
  total-pick f (suc i) (y ∷ ys) h =
      let (zs, p, q) = pick-suc i y ys (pick i ys) refl h in
      rw q (omega (arith, total-pick f i ys p))

  pub All-pick {κ} :
      (P : A → Type κ) (i : ℕ) (xs : List A) {x : A} {rest : List A}
      → All P xs
      → pick i xs ≡ some (x, rest)
      → P x × All P rest
  All-pick P i [] v h = cc
  All-pick P zero (y ∷ ys) v h = ground (arith, v)
  All-pick P (suc i) (y ∷ ys) v h =
      let (zs, p, q) = pick-suc i y ys (pick i ys) refl h in
      let (px, all) = All-pick P i ys v.1 p in rw q (px, (v.0, all))

  pub length-pick :
      (i : ℕ) (xs : List A) {x : A} {rest : List A}
      → pick i xs ≡ some (x, rest)
      → length xs ≡ suc (length rest)
  length-pick i [] h = cc
  length-pick zero (y ∷ ys) h = ground arith
  length-pick (suc i) (y ∷ ys) h =
      let (zs, p, q) = pick-suc i y ys (pick i ys) refl h in rw q (ap suc (length-pick i ys p))

pub some-injective {ℓ} : {A : Type ℓ} {a b : A} → some a ≡ some b → a ≡ b
some-injective {a = a} p = ap (λ o. get_or o a) p

-- At most the first `n`.
abbrev pub take {ℓ} : {A : Type ℓ} → ℕ → List A → List A
take n [] = []
take zero (x ∷ xs) = []
take (suc n) (x ∷ xs) = x ∷ take n xs
