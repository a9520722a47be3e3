-- ===== src/Config/Schedules.antt =====
-- The schedules of a configuration that loads are those that its cron parser takes.
use replicron.Base.{ℕ, ◌+◌, ◌≡◌, ◌≢◌, refl, Text, List, [], ◌∷◌, none, All, inl, inr, arith, subst}
use replicron.Model.{ok, Result-cases, ok-injective}
use replicron.Config.Loaded.{load-validates}
use replicron.Config.{
  Task, Outside, check_schedule, check_rest, validate_task, validate_tasks, validate, load,
}

-- The parser takes the schedule, if there is one.
abbrev pub Parses : Outside → Task → Type 0
Parses out t = t.schedule ≢ [] → out.parse_cron t.schedule ≡ none

check_schedule-parses :
    (out : Outside) (s : Text) → check_schedule out s ≡ ok tt → s ≢ [] → out.parse_cron s ≡ none
unfolding check_schedule
check_schedule-parses out [] h some_text = absurd (some_text refl)
check_schedule-parses out (c ∷ cs) h some_text = ground arith

validate_task-schedule :
    (out : Outside) (t u : Task)
    → validate_task out t ≡ ok u
    → (u.schedule ≡ t.schedule) × (check_schedule out t.schedule ≡ ok tt)
unfolding validate_task check_rest
validate_task-schedule out t u h = ground arith

validate_task-Parses : (out : Outside) (t u : Task) → validate_task out t ≡ ok u → Parses out u
validate_task-Parses out t u h =
    let (same, taken) = validate_task-schedule out t u h in
    rw same (check_schedule-parses out t.schedule taken)

validate_tasks-Parses :
    (out : Outside) (i : ℕ) (seen : List Text) (ts us : List Task)
    → validate_tasks out i seen ts ≡ ok us
    → All (Parses out) us
unfolding validate_tasks
validate_tasks-Parses out i seen [] us h = subst (All (Parses out)) (ok-injective h) tt
validate_tasks-Parses out i seen (t ∷ ts) us h = elim (Result-cases (validate_task out t)) [
  | inr (e, bad) ↦ absurd (cc (rw bad at h))
  | inl (u, good) ↦ elim (Result-cases (validate_tasks out (i + 1) (u.name ∷ seen) ts)) [
    | inr (e, bad) ↦ absurd (ground arith)
    | inl (rest, more) ↦
        let left : u ∷ rest ≡ us = ground arith in
        subst (All (Parses out)) left (
          validate_task-Parses out t u good,
          validate_tasks-Parses out (i + 1) (u.name ∷ seen) ts rest more,
        )
  ]
]

validate-Parses :
    (out : Outside) (ts us : List Task) → validate out ts ≡ ok us → All (Parses out) us
unfolding validate
validate-Parses out [] us h = absurd (cc h)
validate-Parses out (t ∷ ts) us h = validate_tasks-Parses out 0 [] (t ∷ ts) us h

pub load-Parses :
    (out : Outside) (path : Text) (us : List Task) → load out path ≡ ok us → All (Parses out) us
load-Parses out path us h =
    let (given, accepted) = load-validates out path us h in validate-Parses out given us accepted
