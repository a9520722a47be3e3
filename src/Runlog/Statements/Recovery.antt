-- ===== src/Runlog/Statements/Recovery.antt =====
-- What opening the store does to the runs that a previous process left.
use replicron.Base.{
  ℕ, ◌≡◌, ◌≢◌, refl, sym, ap, ◌∙◌, List, [], ◌∷◌, map, some, Option-cases, true, All, subst,
  Bool-cases, inl, inr, ◌⊎◌,
}
use replicron.Model.{
  Run, RunStatus, unset, running, succeeded, failed, skipped, interrupted, run_interrupted,
  sweep_failed, Error, ok, err, Result-cases,
}
use replicron.Runlog.Statements.{
  Tables, Store, now, is_running, sweep_run, sweep, sweep_interrupted, migrate, open_store,
}
use replicron.Runlog.Statements.Kept.{statement-cases}
use replicron.Runlog.Statements.Lifecycle.{migrate-tables}

sweep_run-over : (at : ℕ) (r : Run) → (sweep_run at r).status ≢ running
unfolding sweep_run
sweep_run-over at r = elim (Bool-cases (is_running r.status)) [
  | inl e ↦ rw e (λ x. cc x)
  | inr e ↦ rw e (λ x. cc (sym e ∙ ap is_running x))
]

sweep-over : (at : ℕ) (rs : List Run) → All (λ r. r.status ≢ running) (map (sweep_run at) rs)
sweep-over at [] = tt
sweep-over at (r ∷ rs) = (sweep_run-over at r, sweep-over at rs)

-- A run as the sweep leaves it: one that was running is interrupted, with an end and an error; any other is
-- as it was.
pub data IsSwept (at : ℕ) (r r' : Run) : Type 0 where
  closed :
      (e : Error)
      → r.status ≡ running
      → r' ≡ record r { status = interrupted; finished_at = some at; error = some e }
      → IsSwept at r r'
  kept : r.status ≢ running → r' ≡ r → IsSwept at r r'

-- Row by row.
abbrev pub AllSwept : ℕ → List Run → List Run → Type 0
AllSwept at [] [] = Unit
AllSwept at [] (r' ∷ rs') = ⊥
AllSwept at (r ∷ rs) [] = ⊥
AllSwept at (r ∷ rs) (r' ∷ rs') = IsSwept at r r' × AllSwept at rs rs'

is_running-true : (s : RunStatus) → is_running s ≡ true → s ≡ running
is_running-true unset h = absurd (cc h)
is_running-true running h = refl
is_running-true succeeded h = absurd (cc h)
is_running-true failed h = absurd (cc h)
is_running-true skipped h = absurd (cc h)
is_running-true interrupted h = absurd (cc h)

sweep_run-running :
    (at : ℕ) (r : Run)
    → is_running r.status ≡ true
    → (e : Error) × (sweep_run at r
        ≡ record r { status = interrupted; finished_at = some at; error = some e })
unfolding sweep_run
sweep_run-running at r h = elim (Option-cases r.error) [
  | inl none_yet ↦ (run_interrupted, rw (h, sweep_run) (rw none_yet refl))
  | inr (e, there) ↦ (e, rw (h, sweep_run) (rw there refl))
]

sweep_run-IsSwept : (at : ℕ) (r : Run) → IsSwept at r (sweep_run at r)
unfolding sweep_run
sweep_run-IsSwept at r = elim (Bool-cases (is_running r.status)) [
  | inl h ↦ let (e, same) = sweep_run-running at r h in closed e (is_running-true r.status h) same
  | inr h ↦ kept (λ x. cc (sym h ∙ ap is_running x)) (rw (h, sweep_run) refl)
]

sweep-AllSwept : (at : ℕ) (rs : List Run) → AllSwept at rs (map (sweep_run at) rs)
sweep-AllSwept at [] = tt
sweep-AllSwept at (r ∷ rs) = (sweep_run-IsSwept at r, sweep-AllSwept at rs)

-- What `Open` does to the tables, by the time of its last statement.
abbrev pub Recovers : ℕ → Tables → Tables → Type 0
Recovers at t t' = AllSwept at t.runs t'.runs × All (λ r. r.status ≢ running) t'.runs

sweep_interrupted-cases :
    (s : Store)
    → (((sweep_interrupted s).0 ≡ ok tt) × Recovers (now s) s.tables (sweep_interrupted s).1.tables)
      ⊎ ((e : Error) × ((sweep_interrupted s).0 ≡ err e)
          × ((sweep_interrupted s).1.tables ≡ s.tables))
unfolding sweep_interrupted sweep
sweep_interrupted-cases s = elim (statement-cases sweep s) [
  | inl (e, same) ↦ inl (
    rw (e, sweep_interrupted) refl,
    subst (Recovers (now s) s.tables) (sym same)
        (sweep-AllSwept (now s) s.tables.runs, sweep-over (now s) s.tables.runs),
  )
  | inr (x, e, same) ↦ inr (sweep_failed x, rw (e, sweep_interrupted) refl, same)
]

-- `Open` either fails and leaves the tables as they are, or it leaves no run running: every run that was is
-- interrupted, with an end and an error, and every other run is as before.
pub open_store-Recovers :
    (s : Store)
    → (((open_store s).0 ≡ ok tt) × (at : ℕ) × Recovers at s.tables (open_store s).1.tables)
      ⊎ ((e : Error) × ((open_store s).0 ≡ err e) × ((open_store s).1.tables ≡ s.tables))
unfolding open_store
open_store-Recovers s =
    let made = migrate 5 s in
    let same = migrate-tables 5 s in
    elim (Result-cases made.0) [
      | inr (x, e) ↦ inr (x, rw (e, open_store) refl, rw (e, open_store) same)
      | inl (u, e) ↦ elim (sweep_interrupted-cases made.1) [
        | inl (done, rec) ↦ inl (
          rw (e, open_store) done,
          now made.1,
          rw (e, open_store)
              (subst (λ t. Recovers (now made.1) t (sweep_interrupted made.1).1.tables) same rec),
        )
        | inr (x, f, still) ↦ inr (x, rw (e, open_store) f, rw (e, open_store) (still ∙ same))
      ]
    ]
