-- ===== src/Scheduler/Cron/Names.antt =====
-- schedule.go: the names of months and weekdays that a cron expression or a list of days may use.
use go_xidized.Prelude.{ℕ, Text, codes, text_eq, if◌then◌else◌, List, [], ◌∷◌, Option, none, some}

-- A read of a map from texts.
unfoldable pub look_up {ℓ} : {A : Type ℓ} → Text → List (Text × A) → Option A
look_up key [] = none
look_up key ((k, v) ∷ m) = if text_eq k key then some v else look_up key m

abbrev pub month_aliases : List (Text × ℕ)
month_aliases =
    (codes "jan", 1)
    ∷ (codes "january", 1)
    ∷ (codes "feb", 2)
    ∷ (codes "february", 2)
    ∷ (codes "mar", 3)
    ∷ (codes "march", 3)
    ∷ (codes "apr", 4)
    ∷ (codes "april", 4)
    ∷ (codes "may", 5)
    ∷ (codes "jun", 6)
    ∷ (codes "june", 6)
    ∷ (codes "jul", 7)
    ∷ (codes "july", 7)
    ∷ (codes "aug", 8)
    ∷ (codes "august", 8)
    ∷ (codes "sep", 9)
    ∷ (codes "sept", 9)
    ∷ (codes "september", 9)
    ∷ (codes "oct", 10)
    ∷ (codes "october", 10)
    ∷ (codes "nov", 11)
    ∷ (codes "november", 11)
    ∷ (codes "dec", 12)
    ∷ (codes "december", 12)
    ∷ []

abbrev pub weekday_number_aliases : List (Text × ℕ)
weekday_number_aliases =
    (codes "sun", 0)
    ∷ (codes "sunday", 0)
    ∷ (codes "mon", 1)
    ∷ (codes "monday", 1)
    ∷ (codes "tue", 2)
    ∷ (codes "tues", 2)
    ∷ (codes "tuesday", 2)
    ∷ (codes "wed", 3)
    ∷ (codes "wednesday", 3)
    ∷ (codes "thu", 4)
    ∷ (codes "thur", 4)
    ∷ (codes "thurs", 4)
    ∷ (codes "thursday", 4)
    ∷ (codes "fri", 5)
    ∷ (codes "friday", 5)
    ∷ (codes "sat", 6)
    ∷ (codes "saturday", 6)
    ∷ []
