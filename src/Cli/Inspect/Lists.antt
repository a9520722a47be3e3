-- ===== src/Cli/Inspect/Lists.antt =====
-- What `replicron runs` lists.
use replicron.Base.{ℕ, ◌≡◌, ◌≢◌, ap, Text, List, ◌∷◌, map, none, All, All-In, All-Any}
use replicron.Base.Ints.{ℤ}
use replicron.Model.{Run, running, ok}
use replicron.Runlog.Statements.{Store, open_store}
use replicron.Runlog.Statements.Lifecycle.{IsLog}
use replicron.Runlog.Statements.Ready.{open_store-IsReady}
use replicron.Runlog.Queries.{effective_limit}
use replicron.Runlog.Queries.Listed.{OfTask, AreNewest, list-AreNewest}
use replicron.Cli.Inspect.{Print, runs_header, run_row, printed, listed, runs_command}

-- Where the run log refuses no statement, `replicron runs` prints one row to each of the newest runs of the
-- task, or of all tasks, up to the limit, newest first. None of them is running, also where another process is
-- in the middle of that run: opening the run log has interrupted it.
pub runs_command-lists :
    (p : Print) (task_name : Text) (limit : ℤ) (s : Store)
    → IsLog s.tables
    → ((n : ℕ) → s.faults n ≡ none)
    → (found : List Run) × ((runs_command p task_name limit s).0
        ≡ ok (runs_header ∷ map (run_row p) found))
      × AreNewest (effective_limit limit 20) (OfTask task_name) (open_store s).1.tables.runs found
      × All (λ r. r.status ≢ running) found
unfolding runs_command listed
runs_command-lists p task_name limit s log accepting =
    let (opened, ready) = open_store-IsReady s log accepting in
    let at = (open_store s).1 in
    let (found, answer, newest, _) =
      list-AreNewest task_name limit at ready.log (ready.accepting at.calls) in
    (
      found,
      rw (opened, listed) (ap (printed p) answer),
      newest,
      All-In (λ r. r.status ≢ running) found
          (λ r m.
            All-Any (λ q. q.status ≢ running) at.tables.runs ready.closed (newest.fitting r m).0),
    )
