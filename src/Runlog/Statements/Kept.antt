-- ===== src/Runlog/Statements/Kept.antt =====
-- What the statements of the run log leave alone.
use replicron.Base.{ℕ, suc, ◌≡◌, refl, Text, none, Option-cases, inl, inr, ◌⊎◌}
use replicron.Model.{RunResult, Error, driver, ok, err}
use replicron.Runlog.Statements.{
  Payload, Tables, Store, now, statement, start_run, finish_run, insert_run, insert_event, event,
}

-- A statement that the driver does not refuse.
pub statement-accepted :
    {A : Type 0} (f : ℕ → Tables → Tables × A) (s : Store)
    → s.faults s.calls ≡ none
    → statement f s ≡ (
      ok (f (now s) s.tables).1,
      record s { tables = (f (now s) s.tables).0; calls = suc s.calls },
    )
unfolding statement
statement-accepted f s h = rw (h, statement) refl

-- A statement is carried out or refused.
pub statement-cases :
    {A : Type 0} (f : ℕ → Tables → Tables × A) (s : Store)
    → (((statement f s).0 ≡ ok (f (now s) s.tables).1)
        × ((statement f s).1.tables ≡ (f (now s) s.tables).0))
      ⊎ ((e : Error) × ((statement f s).0 ≡ err e) × ((statement f s).1.tables ≡ s.tables))
unfolding statement
statement-cases f s = elim (Option-cases (s.faults s.calls)) [
  | inl e ↦ inl (rw (e, statement) refl, rw (e, statement) refl)
  | inr (x, e) ↦ inr (driver x, rw (e, statement) refl, rw (e, statement) refl)
]

-- A statement that leaves a view of the tables leaves that view of the store.
pub statement-family :
    {A V : Type 0} (f : ℕ → Tables → Tables × A) (s : Store) (view : Tables → V)
    → ((at : ℕ) (t : Tables) → view (f at t).0 ≡ view t)
    → view (statement f s).1.tables ≡ view s.tables
unfolding statement
statement-family f s view h = elim (Option-cases (s.faults s.calls)) [
  | inl e ↦ rw (e, statement) (h (now s) s.tables)
  | inr (x, e) ↦ rw (e, statement) refl
]

-- A property of the tables that a statement keeps.
pub statement-keeps :
    {A : Type 0} (P : Tables → Type 0) (f : ℕ → Tables → Tables × A) (s : Store)
    → ((at : ℕ) (t : Tables) → P t → P (f at t).0)
    → P s.tables
    → P (statement f s).1.tables
unfolding statement
statement-keeps P f s h p = elim (Option-cases (s.faults s.calls)) [
  | inl e ↦ rw (e, statement) (h (now s) s.tables p)
  | inr (x, e) ↦ rw (e, statement) p
]

-- Which statements will be refused does not depend on what is done.
pub statement-faults :
    {A : Type 0} (f : ℕ → Tables → Tables × A) (s : Store) → (statement f s).1.faults ≡ s.faults
unfolding statement
statement-faults f s = elim (Option-cases (s.faults s.calls)) [
  | inl e ↦ rw (e, statement) refl
  | inr (x, e) ↦ rw (e, statement) refl
]

pub statement-states :
    {A : Type 0} (f : ℕ → Tables → Tables × A) (s : Store)
    → ((at : ℕ) (t : Tables) → (f at t).0.states ≡ t.states)
    → (statement f s).1.tables.states ≡ s.tables.states
statement-states f s h = statement-family f s (λ t. t.states) h

pub start_run-states :
    (task trigger : Text) (s : Store) → (start_run task trigger s).1.tables.states ≡ s.tables.states
unfolding start_run insert_run
start_run-states task trigger s = statement-states _ s (λ at t. refl)

pub finish_run-states :
    (id : ℕ) (res : RunResult) (s : Store) → (finish_run id res s).1.tables.states ≡ s.tables.states
unfolding finish_run
finish_run-states id res s = statement-states _ s (λ at t. refl)

pub event-states :
    (run_id : ℕ) (kind : Text) (payload : Payload) (s : Store)
    → (event run_id kind payload s).1.tables.states ≡ s.tables.states
unfolding event insert_event
event-states run_id kind payload s = statement-states _ s (λ at t. refl)
