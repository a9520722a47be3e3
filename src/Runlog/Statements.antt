-- ===== src/Runlog/Statements.antt =====
-- The store and the statements that change it: opening, runs, events, pruning.
pub mod Kept
pub mod Lifecycle
pub mod Recovery
pub mod Newest
pub mod Rows
pub mod Ready
use replicron.Base.{
  ℕ, zero, suc, ◌+◌, ◌≤◌, Text, codes, List, [], ◌∷◌, ◌++◌, map, length, take, drop, Option, none,
  some, Bool, true, false, not, ◌&&◌, ◌||◌, Dict, ◌==◌, if◌then◌else◌,
}
use mathlib.Core.List.{reverse}
use replicron.Base.Ints.{ℤ, pos, negsuc}
use replicron.Model.{
  Value, Run, RunStatus, RunStatus-discrete, RunResult, running, interrupted, Error, Result, ok,
  err, driver, run_interrupted, migrate_failed, sweep_failed, wrap,
}

-- What the payload of an event says, before it is made JSON.
pub data Payload : Type 0 where
  progress : (seen ok_rows fail_rows : ℕ) → Payload
  failed_rows : ℕ → Payload
  value : Value → Payload

-- A row of `run_events`.
pub record EventRow : Type 0 where
  pub id : ℕ
  pub run_id : ℕ
  pub kind : Text
  pub payload : Payload
  pub ts : ℕ

-- A row of `task_state`, whose key is the task.
pub record StateRow : Type 0 where
  pub kind : Text
  pub raw : Text

-- The content of the database; the counters are those of AUTOINCREMENT.
pub record Tables : Type 0 where
  pub runs : List Run
  pub run_seq : ℕ
  pub events : List EventRow
  pub event_seq : ℕ
  pub states : Dict StateRow

abbrev pub no_tables : Tables
no_tables = record { runs = []; run_seq = 0; events = []; event_seq = 0; states = [] }

-- `Store`: the database, and what comes from outside: the time at each statement, and the error with
-- which the driver refuses it, if it does.
pub record Store : Type 0 where
  pub tables : Tables
  pub calls : ℕ
  pub clock : ℕ → ℕ
  pub faults : ℕ → Option Text

-- The time that is read now.
abbrev pub now : Store → ℕ
now s = s.clock s.calls

-- One `Exec` or `Query`.
unfoldable pub statement : {A : Type 0} → (ℕ → Tables → Tables × A) → Store → Result A × Store
statement f s =
    let s' = record s { calls = suc s.calls } in
    let (t, a) = f (now s) s.tables in
    elim (s.faults s.calls) [
      | some e ↦ (err (driver e), s')
      | none ↦ (ok a, record s' { tables = t })
    ]

abbrev is_running : RunStatus → Bool
is_running running = true
is_running _ = false

-- One row of the sweep: `COALESCE(NULLIF(error, ''), …)` keeps an error that is there.
sweep_run : ℕ → Run → Run
sweep_run at r =
    if is_running r.status
    then record r {
      status = interrupted;
      finished_at = some at;
      error = elim r.error [ none ↦ some run_interrupted | some e ↦ some e ];
    }
    else r

sweep : ℕ → Tables → Tables × Unit {0}
unfolding sweep_run
sweep at t = (record t { runs = map (sweep_run at) t.runs }, tt)

-- `sweepInterrupted`
unfoldable pub sweep_interrupted : Store → Result (Unit {0}) × Store
unfolding sweep
sweep_interrupted s = let (r, s') = statement sweep s in (wrap sweep_failed r, s')

-- `CREATE … IF NOT EXISTS` leaves the rows as they are.
create : ℕ → Tables → Tables × Unit {0}
create at t = (t, tt)

-- The loop of `migrate` over its statements.
pub migrate : ℕ → Store → Result (Unit {0}) × Store
unfolding create
migrate zero s = (ok tt, s)
migrate (suc left) s =
    let (r, s') = statement create s in
    elim r [ err e ↦ (err (migrate_failed e), s') | ok _ ↦ migrate left s' ]

-- `Open` behind `sql.Open`: the five migrations, then the sweep.
unfoldable pub open_store : Store → Result (Unit {0}) × Store
unfolding migrate
open_store s =
    let (r, s') = migrate 5 s in elim r [ err e ↦ (err e, s') | ok _ ↦ sweep_interrupted s' ]

unfoldable pub insert_run : Text → Text → ℕ → Tables → Tables × ℕ
insert_run task trigger at t =
    let id = suc t.run_seq in
    (
      record t {
        runs =
            t.runs
            ++ record {
              id = id;
              task = task;
              trigger = trigger;
              status = running;
              total_rows = 0;
              ok_rows = 0;
              fail_rows = 0;
              error = none;
              samples = [];
              started_at = at;
              finished_at = none;
            }
              ∷ [];
        run_seq = id;
      },
      id,
    )

-- `StartRun`
unfoldable pub start_run : Text → Text → Store → Result ℕ × Store
unfolding insert_run
start_run task trigger = statement (insert_run task trigger)

-- A run record as `FinishRun` leaves it.
unfoldable pub finalized : RunResult → ℕ → Run → Run
finalized r at run = record run {
  status = r.status;
  total_rows = r.total_rows;
  ok_rows = r.ok_rows;
  fail_rows = r.fail_rows;
  error = r.err;
  samples = r.samples;
  finished_at = some at;
}

unfoldable pub update_run : ℕ → (Run → Run) → List Run → List Run
update_run id f [] = []
update_run id f (r ∷ runs) = (if r.id == id then f r else r) ∷ update_run id f runs

-- `FinishRun`
unfoldable pub finish_run : ℕ → RunResult → Store → Result (Unit {0}) × Store
unfolding update_run finalized
finish_run id r =
    statement (λ at t. (record t { runs = update_run id (finalized r at) t.runs }, tt))

insert_event : ℕ → Text → Payload → ℕ → Tables → Tables × Unit {0}
insert_event run_id kind payload at t =
    let id = suc t.event_seq in
    (
      record t {
        events =
            t.events
            ++ record { id = id; run_id = run_id; kind = kind; payload = payload; ts = at } ∷ [];
        event_seq = id;
      },
      tt,
    )

-- `Event`
unfoldable pub event : ℕ → Text → Payload → Store → Result (Unit {0}) × Store
unfolding insert_event
event run_id kind payload = statement (insert_event run_id kind payload)

-- The ids of the runs, newest first.
unfoldable pub newest_ids : List Run → List ℕ
newest_ids runs = reverse (map (λ r. r.id) runs)

unfoldable pub is_in : ℕ → List ℕ → Bool
is_in n [] = false
is_in n (m ∷ ms) = (m == n) || is_in n ms

-- The rows that a test keeps.
unfoldable pub keep_if {ℓ} : {A : Type ℓ} → (A → Bool) → List A → List A
keep_if p [] = []
keep_if p (x ∷ xs) = let rest = keep_if p xs in if p x then x ∷ rest else rest

-- `if keep <= 0 { keep = 10000 }`
unfoldable pub effective_keep : ℤ → ℕ
effective_keep (pos zero) = 10000
effective_keep (pos (suc n)) = suc n
effective_keep (negsuc n) = 10000

pub prune_events : ℕ → Tables → Tables
unfolding keep_if newest_ids is_in
prune_events keep t = record t {
  events = keep_if (λ e. not (is_in e.run_id (drop keep (newest_ids t.runs)))) t.events;
}

pub prune_runs : ℕ → Tables → Tables
unfolding keep_if newest_ids is_in
prune_runs keep t = record t {
  runs = keep_if (λ r. is_in r.id (take keep (newest_ids t.runs))) t.runs;
}

-- `Prune`: two statements; the second is not made if the first fails.
unfoldable pub prune : ℤ → Store → Result (Unit {0}) × Store
unfolding prune_events prune_runs
prune keep s =
    let (r, s') = statement (λ _ t. (prune_events (effective_keep keep) t, tt)) s in
    elim r [
      | err e ↦ (err e, s')
      | ok _ ↦ statement (λ _ t. (prune_runs (effective_keep keep) t, tt)) s'
    ]
