-- ===== src/Api/Bounds.antt =====
-- router.go: the limit of a list, and what a backup of a group counts.
use go_xidized.Prelude.{
  ◌+◌, ◌++◌, ◌≡◌, refl, Text, codes, List, [], ◌∷◌, Option, none, some, arith, length, keep_if, ℤ,
  pos, ◌≤ℤ◌, text_eq, ◌&&◌,
}
use go_xidized.Prelude.Strings.{atoi}
use go_xidized.Types.{Target, queued}
use go_xidized.Types.Errors.{GoError}
use go_xidized.Api.Requests.{Principal, Effect, Request, enqueue, Answers, limit_of, query_limit}
use go_xidized.Api.Handlers.{queue_each, backup_request}

limit_of_bounds :
    (o : Option ℤ) → (pos 1 ≤ℤ limit_of (pos 100) o) × (limit_of (pos 100) o ≤ℤ pos 1000)
limit_of_bounds none = (omega arith, omega arith)
limit_of_bounds (some n) = ground arith

-- Whatever the query, a list is asked for with a limit from 1 to 1000.
pub query_limit_bounds :
    (r : Request) → (pos 1 ≤ℤ query_limit r (pos 100)) × (query_limit r (pos 100) ≤ℤ pos 1000)
unfolding query_limit
query_limit_bounds r = limit_of_bounds (atoi (r.query (codes "limit")))

-- The devices of the group that are enabled.
abbrev pub due : Text → List Target → List Target
due group = keep_if λ d. text_eq d.group group && d.enabled

-- A request to back up the device, by the principal and through the API.
abbrev pub IsBackup : Principal → Target → Effect → Type 0
IsBackup p d (enqueue r) =
    (r.target ≡ d)
    × (r.job.target_id ≡ d.id)
    × (r.job.group ≡ d.group)
    × (r.job.trigger ≡ codes "api")
    × (r.job.actor ≡ p.actor_id)
    × (r.job.status ≡ queued)
IsBackup p d _ = ⊥

abbrev pub AreBackups : Principal → List Target → List Effect → Type 0
AreBackups p [] [] = Unit
AreBackups p (d ∷ ds) (c ∷ cs) = IsBackup p d c × AreBackups p ds cs
AreBackups p _ _ = ⊥

abbrev refusal_text : Answers → Target → Option GoError → List Text
refusal_text a d none = []
refusal_text a d (some e) = (d.id ++ (codes ": " ++ a.error_text e)) ∷ []

-- A text for each device whose request the scheduler refuses.
abbrev pub refusals : Answers → Principal → List Target → List Text
refusals a p [] = []
refusals a p (d ∷ ds) = refusal_text a d (a.enqueue_answer (backup_request p d)) ++ refusals a p ds

-- A backup of a group asks the scheduler once for each enabled device of the group, in order and for no
-- other device. The errors are those of the requests that it refuses, in order, each after the device's
-- id, and the others are counted.
pub queue_each-asked :
    (a : Answers) (p : Principal) (group : Text) (ds : List Target)
    → let (calls, count, errs) = queue_each a p group ds in
      AreBackups p (due group ds) calls
      × (errs ≡ refusals a p (due group ds))
      × (count + length errs ≡ length (due group ds))
unfolding queue_each
queue_each-asked a p group [] = (tt, refl, refl)
queue_each-asked a p group (d ∷ ds) = ground (arith, queue_each-asked a p group ds)
