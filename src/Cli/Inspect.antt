-- ===== src/Cli/Inspect.antt =====
-- internal/cli/inspect.go: `replicron validate` and `replicron runs`. A table is the list of its rows of cells,
-- before they are aligned.
pub mod Lists
use replicron.Base.{
  ℕ, Text, codes, List, [], ◌∷◌, ◌++◌, map, length, Option, none, some, Bool, true, false, not, ltb,
  ◌&&◌, if◌then◌else◌,
}
use replicron.Base.Ints.{ℤ}
use replicron.Base.Decimal.{format_nat}
use replicron.Model.{Run, status_text, Error, Result, ok, err, ◌>>=◌}
use replicron.Config.{Task, Outside, is_empty, load}
use replicron.Runlog.Statements.{Store, open_store}
use replicron.Runlog.Queries.{list}

abbrev pub Table : Type 0
Table = List (List Text)

-- What `replicron validate` prints: the table, and the line below it.
pub record Validated : Type 0 where
  pub table : Table
  pub summary : Text

unfoldable pub schedule_cell : Task → Text
schedule_cell t =
    let sched = if is_empty t.schedule then codes "(manual)" else t.schedule in
    if not t.is_enabled then sched ++ codes " [disabled]" else sched

unfoldable pub task_row : Task → List Text
task_row t = t.name ∷ schedule_cell t ∷ t.source.typ ∷ t.target.table ∷ t.target.mode ∷ []

abbrev pub validate_header : List Text
validate_header =
    codes "TASK" ∷ codes "SCHEDULE" ∷ codes "SOURCE" ∷ codes "TARGET TABLE" ∷ codes "MODE" ∷ []

unfoldable pub validate_command : Outside → Text → Result Validated
validate_command out config_path = do
  tasks ← load out config_path
  ok (record {
    table = validate_header ∷ map task_row tasks;
    summary = format_nat (length tasks) ++ codes " task(s) valid";
  })

abbrev pub runs_header : List Text
runs_header =
    codes "ID"
    ∷ codes "TASK"
    ∷ codes "TRIGGER"
    ∷ codes "STATUS"
    ∷ codes "TOTAL"
    ∷ codes "OK"
    ∷ codes "FAIL"
    ∷ codes "STARTED (UTC)"
    ∷ codes "ERROR"
    ∷ []

-- `err.Error()`, and the print of a time.
pub record Print : Type 0 where
  pub message : Error → Text
  pub rfc3339 : ℕ → Text

module _ (p : Print) where
  abbrev error_text : Option Error → Text
  error_text none = []
  error_text (some e) = p.message e

  unfoldable pub error_cell : Run → Text
  error_cell r =
      if is_empty (error_text r.error) && ltb 0 (length r.samples)
      then format_nat (length r.samples) ++ codes " sample(s)"
      else error_text r.error

  unfoldable pub run_row : Run → List Text
  run_row r =
      format_nat r.id
      ∷ r.task
      ∷ r.trigger
      ∷ status_text r.status
      ∷ format_nat r.total_rows
      ∷ format_nat r.ok_rows
      ∷ format_nat r.fail_rows
      ∷ p.rfc3339 r.started_at
      ∷ error_cell r
      ∷ []

  abbrev printed : Result (List Run) → Result Table
  printed (err e) = err e
  printed (ok runs) = ok (runs_header ∷ map run_row runs)

  listed : Text → ℤ → Result (Unit {0}) → Store → Result Table × Store
  listed task_name limit (err e) s = (err e, s)
  listed task_name limit (ok _) s = let (r, s') = list task_name limit s in (printed r, s')

  -- `replicron runs`: opening the store sweeps it.
  unfoldable pub runs_command : Text → ℤ → Store → Result Table × Store
  unfolding listed
  runs_command task_name limit s = let (r, s') = open_store s in listed task_name limit r s'
