-- ===== src/Cli/Run.antt =====
-- internal/cli/run.go: `replicron run` runs the matching tasks once, in the order of the file.
pub mod Counted
pub mod Exits
use replicron.Base.{
  ℕ, ◌+◌, Text, codes, List, [], ◌∷◌, ◌++◌, Option, none, some, Bool, true, false, ◌&&◌, ◌||◌,
  text_eq, ◌==◌, ltb, if◌then◌else◌,
}
use replicron.Model.{
  RunStatus, RunStatus-discrete, succeeded, RunResult, Error, Result, ok, err, no_task_matched,
  tasks_failed,
}
use replicron.Config.{Task, Outside, is_empty, load}
use replicron.Registry.{Registry, Token, new}
use replicron.Runlog.Statements.{Store, open_store}
use replicron.Engine.Run.{World, Engine, run_task}
use replicron.Engine.Openers.{Drivers, new_engine}

-- A line on standard error: a task that did not succeed.
pub record Complaint : Type 0 where
  pub task : Text
  pub status : RunStatus
  pub error : Option Error

-- `ran` and `failed`, and the lines printed.
pub record Totals : Type 0 where
  pub ran : ℕ
  pub failures : ℕ
  pub printed : List Complaint

abbrev pub no_totals : Totals
no_totals = record { ran = 0; failures = 0; printed = [] }

abbrev pub has_succeeded : RunStatus → Bool
has_succeeded succeeded = true
has_succeeded _ = false

-- The two tests before `continue`.
unfoldable pub matches : Text → Task → Bool
matches task_name t = t.is_enabled && (is_empty task_name || text_eq t.name task_name)

abbrev pub complaint : Task → RunResult → Complaint
complaint t res = record { task = t.name; status = res.status; error = res.err }

unfoldable pub counted : Task → RunResult → Totals → Totals
counted t res n = if has_succeeded res.status then record n { ran = n.ran + 1 } else record {
  ran = n.ran + 1;
  failures = n.failures + 1;
  printed = n.printed ++ complaint t res ∷ [];
}

module _ {L K D : Type 0} (e : Engine L K D) (task_name : Text) where
  -- The loop over the tasks. `none`: a run does not return.
  unfoldable pub run_tasks : List Task → Totals → World L D → Option (Totals × World L D)
  run_tasks [] n w = some (n, w)
  run_tasks (t ∷ ts) n w =
      let passed_over = run_tasks ts n w in
      let taken : Option (Totals × World L D) = elim (run_task e t (codes "manual") w) [
        | none ↦ none
        | some (res, w') ↦ run_tasks ts (counted t res n) w'
      ] in
      if matches task_name t then taken else passed_over

-- What the command returns.
unfoldable pub verdict : Totals → Result (Unit {0})
verdict n =
    if n.ran == 0
    then err no_task_matched
    else if ltb 0 n.failures
    then err (tasks_failed n.failures)
    else ok tt

-- The command's result, what it counted, and the run log and the target as it leaves them.
pub record Exit (D : Type 0) : Type 0 where
  pub result : Result (Unit {0})
  pub totals : Totals
  pub store : Store
  pub target : D

module _ {S D : Type 0} (out : Outside) (v : Drivers S D) (config_path task_name : Text) where
  abbrev exit_of : Option (Totals × World Registry D) → Option (Exit D)
  exit_of none = none
  exit_of (some (n, w)) =
      some (record { result = verdict n; totals = n; store = w.store; target = w.target })

  abbrev stopped : Error → Store → D → Option (Exit D)
  stopped x s d = some (record { result = err x; totals = no_totals; store = s; target = d })

  opened : List Task → Result (Unit {0}) × Store → D → Option (Exit D)
  opened tasks (err x, s) d = stopped x s d
  opened tasks (ok _, s) d = exit_of (
      run_tasks (new_engine v) task_name tasks no_totals
        (record { lock = new; store = s; target = d; trace = [] }))

  loaded : Result (List Task) → Store → D → Option (Exit D)
  unfolding opened
  loaded (err x) s d = stopped x s d
  loaded (ok tasks) s d = opened tasks (open_store s) d

  -- The command. `none`: it does not return.
  unfoldable pub run_command : Store → D → Option (Exit D)
  unfolding loaded
  run_command s d = loaded (load out config_path) s d
