-- ===== src/Runlog/Queries.antt =====
-- The statements that only read the run log.
pub mod Listed
use replicron.Base.{
  ℕ, zero, suc, Text, List, [], ◌∷◌, length, take, Option, none, some, text_eq, ◌==◌, if◌then◌else◌,
}
use mathlib.Core.List.{reverse}
use replicron.Base.Ints.{ℤ, pos, negsuc}
use replicron.Config.{is_empty}
use replicron.Model.{Run, Result}
use replicron.Runlog.Statements.{EventRow, Tables, Store, statement, keep_if}

-- A `SELECT`: an answer, and the tables as they are.
abbrev pub select : {A : Type 0} → (Tables → A) → Store → Result A × Store
select f = statement (λ _ t. (t, f t))

-- `EventsCount`
unfoldable pub events_count : ℕ → Store → Result ℕ × Store
events_count run_id = select (λ t. length (keep_if (λ e. e.run_id == run_id) t.events))

-- A limit that is not positive becomes the default.
unfoldable pub effective_limit : ℤ → ℕ → ℕ
effective_limit (pos zero) def = def
effective_limit (pos (suc n)) def = suc n
effective_limit (negsuc n) def = def

-- `ListEvents`: oldest first.
unfoldable pub list_events : ℕ → ℤ → Store → Result (List EventRow) × Store
list_events run_id limit =
    select (λ t. take (effective_limit limit 500) (keep_if (λ e. e.run_id == run_id) t.events))

abbrev pub first : {A : Type 0} → List A → Option A
first [] = none
first (x ∷ xs) = some x

-- `GetRun`: `none` is the nil of a run that does not exist.
unfoldable pub get_run : ℕ → Store → Result (Option Run) × Store
get_run id = select (λ t. first (keep_if (λ r. r.id == id) t.runs))

of_task : Text → List Run → List Run
of_task task runs = if is_empty task then runs else keep_if (λ r. text_eq r.task task) runs

-- `List`: newest first, of one task or of all.
unfoldable pub list : Text → ℤ → Store → Result (List Run) × Store
unfolding of_task
list task n = select (λ t. take (effective_limit n 20) (reverse (of_task task t.runs)))
