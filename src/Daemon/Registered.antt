-- ===== src/Daemon/Registered.antt =====
-- Which tasks the daemon schedules.
use replicron.Base.{
  ◌≡◌, ◌≢◌, ◌↔◌, refl, sym, ap, ◌∙◌, Text, List, [], ◌∷◌, ◌++◌, none, some, Bool, true, false, not,
  ◌||◌, All, In, Bool-cases, Option-cases, inl, inr, subst, All_imp, All-append_right,
}
use replicron.Model.{Error, Result, ok, err, register_schedule}
use replicron.Config.{Task, Outside, is_empty, load}
use replicron.Config.Schedules.{load-Parses}
use replicron.Runlog.Statements.{keep_if}
use replicron.Runlog.Queries.Listed.{keep_if-In}
use replicron.Daemon.{Host, is_scheduled, add_entry, register}

abbrev pub scheduled_tasks : List Task → List Task
scheduled_tasks ts = keep_if is_scheduled ts

due_iff :
    (schedule : Text) (enabled : Bool)
    → (not (is_empty schedule || not enabled) ≡ true) ↔ ((schedule ≢ []) × (enabled ≡ true))
due_iff [] enabled = (λ h. absurd (cc h), λ (h, on). absurd (h refl))
due_iff (c ∷ cs) false = (λ h. absurd (cc h), λ (h, on). absurd (cc on))
due_iff (c ∷ cs) true = (λ h. (λ e. cc e, refl), λ h. refl)

is_scheduled_iff :
    (t : Task) → (is_scheduled t ≡ true) ↔ ((t.schedule ≢ []) × (t.is_enabled ≡ true))
unfolding is_scheduled
is_scheduled_iff t = due_iff t.schedule t.is_enabled

-- The scheduled tasks are those with a schedule that are enabled.
pub scheduled_iff :
    (t : Task) (ts : List Task)
    → In t (scheduled_tasks ts) ↔ (In t ts × (t.schedule ≢ []) × (t.is_enabled ≡ true))
scheduled_iff t ts =
    let (there, back) = keep_if-In is_scheduled t ts in
    let (sound, complete) = is_scheduled_iff t in
    (
      λ m. let (i, p) = there m in let (a, b) = sound p in (i, a, b),
      λ (i, a, b). back (i, complete (a, b)),
    )

-- Whether the scheduler takes a task's schedule.
abbrev pub Accepts : Host → Task → Type 0
Accepts h t = h.add_func t.schedule ≡ none

-- How the registration ends: the scheduled tasks, in order, or the first of them that is refused.
pub data Registered (h : Host) (ts : List Task) (r : Result (List Task)) : Type 0 where
  entered : All (Accepts h) (scheduled_tasks ts) → r ≡ ok (scheduled_tasks ts) → Registered h ts r
  refused :
      (front : List Task) (t : Task) (back : List Task) (e : Error)
      → scheduled_tasks ts ≡ front ++ t ∷ back
      → All (Accepts h) front
      → h.add_func t.schedule ≡ some e
      → r ≡ err (register_schedule t.name e)
      → Registered h ts r

pub register-Registered : (h : Host) (ts : List Task) → Registered h ts (register h ts)
unfolding register add_entry keep_if
register-Registered h [] = entered tt refl
register-Registered h (t ∷ ts) = elim (Bool-cases (is_scheduled t)) [
  | inr off ↦ elim (register-Registered h ts) [
    | entered all r ↦ entered (rw off all) (rw off r)
    | refused front u back e split all no_entry r ↦
        refused front u back e (rw off split) all no_entry (rw off r)
  ]
  | inl due ↦ elim (Option-cases (h.add_func t.schedule)) [
    | inr (e, no_entry) ↦
        refused [] t (scheduled_tasks ts) e (rw due refl) tt no_entry
          (rw due (rw (no_entry, add_entry) refl))
    | inl taken ↦ elim (register-Registered h ts) [
      | entered all r ↦ entered (rw due (taken, all)) (rw due (rw (taken, add_entry) (rw r refl)))
      | refused front u back e split all no_entry r ↦
          refused (t ∷ front) u back e (rw due (ap (λ x. t ∷ x) split)) (taken, all) no_entry
            (rw due (rw (taken, add_entry) (rw r refl)))
    ]
  ]
]

All_where_scheduled :
    (P : Task → Type 0) (ts : List Task)
    → All (λ t. t.schedule ≢ [] → P t) ts
    → All P (scheduled_tasks ts)
unfolding keep_if
All_where_scheduled P [] h = tt
All_where_scheduled P (t ∷ ts) (h, hs) = elim (Bool-cases (is_scheduled t)) [
  | inl due ↦ rw due (h ((is_scheduled_iff t).0 due).0, All_where_scheduled P ts hs)
  | inr off ↦ rw off (All_where_scheduled P ts hs)
]

-- Where the scheduler takes each schedule that the configuration's own parser takes, every scheduled task of
-- a configuration that loads is registered.
pub load-register :
    (out : Outside) (h : Host) (path : Text) (ts : List Task)
    → ((s : Text) → out.parse_cron s ≡ none → h.add_func s ≡ none)
    → load out path ≡ ok ts
    → register h ts ≡ ok (scheduled_tasks ts)
load-register out h path ts same loads = elim (register-Registered h ts) [
  | entered all r ↦ r
  | refused front t back e split all no_entry r ↦
      let fine =
        All_where_scheduled (Accepts h) ts
          (All_imp (λ u p q. same u.schedule (p q)) ts (load-Parses out path ts loads)) in
      let taken =
        All-append_right (Accepts h) front (t ∷ back) (subst (All (Accepts h)) split fine) in
      absurd (cc (sym no_entry ∙ taken.0))
]
