-- ===== src/Prelude/Strings/Cuts.antt =====
-- Cutting a text at a character and joining the pieces again.
use go_xidized.Prelude.Lists.{All, any}
use go_xidized.Prelude.Tests.{if◌then◌else◌}
use go_xidized.Prelude.Texts.{Text, is_empty}
use go_xidized.Prelude.Strings.{split, join, trim_right, cons_head}
use Prim.Native.Nat.{ℕ}
use mathlib.Core.Path.{◌≡◌, refl, ap, ◌∙◌}
use mathlib.Core.Bool.{Bool, true, false, ◌&&◌, ◌||◌}
use mathlib.Core.List.{List, [], ◌∷◌, ◌++◌}
use native.Mathlib.Omega.{arith}

both_false : (a b : Bool) → a || b ≡ false → (a ≡ false) × (b ≡ false)
both_false a b h = ground arith

pub split-append :
    (p : ℕ → Bool) (sep : ℕ) (s t : Text)
    → any p s ≡ false
    → p sep ≡ true
    → split p (s ++ (sep ∷ t)) ≡ s ∷ split p t
unfolding split
split-append p sep [] t h q = rw q refl
split-append p sep (c ∷ s) t h q =
    let (h₁, h₂) = both_false (p c) _ h in rw (h₁, split-append p sep s t h₂ q) refl

pub split_self : (p : ℕ → Bool) (s : Text) → any p s ≡ false → split p s ≡ s ∷ []
unfolding split
split_self p [] h = refl
split_self p (c ∷ s) h = let (h₁, h₂) = both_false (p c) _ h in rw (h₁, split_self p s h₂) refl

-- A text is cut into the pieces that it was joined from.
pub split-join :
    (p : ℕ → Bool) (sep : ℕ) (s : Text) (ss : List Text)
    → p sep ≡ true
    → All (λ t. any p t ≡ false) (s ∷ ss)
    → split p (join (sep ∷ []) (s ∷ ss)) ≡ s ∷ ss
unfolding join
split-join p sep s [] q h = split_self p s h.0
split-join p sep s (t ∷ ts) q (h, hs) =
    split-append p sep s _ h q ∙ ap (λ r. s ∷ r) (split-join p sep t ts q hs)

cons_head-All :
    (p : ℕ → Bool) (c : ℕ) (ss : List Text)
    → p c ≡ false
    → All (λ t. any p t ≡ false) ss
    → All (λ t. any p t ≡ false) (cons_head c ss)
cons_head-All p c [] h a = (rw h refl, record {})
cons_head-All p c (s ∷ ss) h (a, as₁) = (rw h a, as₁)

cut-All :
    (p : ℕ → Bool) (c : ℕ) (ss : List Text) (b : Bool)
    → p c ≡ b
    → All (λ t. any p t ≡ false) ss
    → All (λ t. any p t ≡ false) (if b then [] ∷ ss else cons_head c ss)
cut-All p c ss true h a = (refl, a)
cut-All p c ss false h a = cons_head-All p c ss h a

-- No piece has the character that the text was cut at.
pub split-no_sep : (p : ℕ → Bool) (s : Text) → All (λ t. any p t ≡ false) (split p s)
unfolding split
split-no_sep p [] = (refl, record {})
split-no_sep p (c ∷ s) = cut-All p c (split p s) (p c) refl (split-no_sep p s)

pub no_sep-trim_right :
    (p q : ℕ → Bool) (s : Text) → any p s ≡ false → any p (trim_right q s) ≡ false
unfolding trim_right
no_sep-trim_right p q [] h = refl
no_sep-trim_right p q (c ∷ s) h =
    let (h₁, h₂) = both_false (p c) _ h in
    let rest = no_sep-trim_right p q s h₂ in
    elim (q c && is_empty (trim_right q s))
      as (λ b. any p (if b then [] else c ∷ trim_right q s) ≡ false) [
        | true ↦ refl
        | false ↦ rw (h₁, rest) refl
      ]

trimmed_again :
    (q : ℕ → Bool) (c : ℕ) (r : Text) (b : Bool)
    → (q c && is_empty r) ≡ b
    → trim_right q r ≡ r
    → trim_right q (if b then [] else c ∷ r) ≡ (if b then [] else c ∷ r)
unfolding trim_right
trimmed_again q c r true h e = refl
trimmed_again q c r false h e = rw (e, h) refl

-- Trimming twice is trimming once.
pub trim_right-trim_right :
    (q : ℕ → Bool) (s : Text) → trim_right q (trim_right q s) ≡ trim_right q s
unfolding trim_right
trim_right-trim_right q [] = refl
trim_right-trim_right q (c ∷ s) =
    trimmed_again q c (trim_right q s) _ refl (trim_right-trim_right q s)
