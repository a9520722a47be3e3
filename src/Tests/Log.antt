-- ===== src/Tests/Log.antt =====
-- The run log: a run begun by a process that died, and a watermark.
use replicron.Base.{ℕ, ◌≡◌, refl, codes, [], none, some, ◌⊎◌, erase, arith, List, take, drop, ◌++◌}
use replicron.Base.Ints.{pos, negsuc}
use replicron.Base.Decimal.{format_int, parse_int, parse_int-format_int}
use replicron.Model.{Run, int, Error, ok, err}
use replicron.Runlog.Statements.{
  no_tables, Store, statement, start_run, open_store, effective_keep, prune,
}
use replicron.Runlog.Statements.Lifecycle.{IsLog}
use replicron.Runlog.Statements.Newest.{Splits, events_without, prune-newest}
use replicron.Runlog.Statements.Recovery.{Recovers, open_store-Recovers}
use replicron.Runlog.Invariant.{Step, Reach, Reach-IsLog}
use replicron.Runlog.Watermark.{FloatText, get_watermark, set_watermark}
use replicron.Runlog.Watermark.RoundTrip.{widened, get_watermark-set_watermark}

abbrev no_floats : FloatText
no_floats = record { format = λ x. []; parse = λ s. none }

abbrev pub empty_log : Store
empty_log = record { tables = no_tables; calls = 0; clock = λ n. n; faults = λ n. none }

abbrev pub dead_run : Store
dead_run = (start_run (codes "users") (codes "manual") empty_log).1

dead_run-Reach : Reach dead_run
dead_run-Reach =
    Reach.next (Reach.created empty_log refl) (Step.started (codes "users") (codes "manual") refl)

Reach-IsLog_example : IsLog dead_run.tables
Reach-IsLog_example = Reach-IsLog dead_run dead_run-Reach

abbrev pub two_runs : Store
two_runs = (start_run (codes "orders") (codes "cron") dead_run).1

pub two_runs-Reach : Reach two_runs
two_runs-Reach = Reach.next dead_run-Reach (Step.started (codes "orders") (codes "cron") refl)

abbrev older : List Run
older = take 1 two_runs.tables.runs

abbrev newer : List Run
newer = drop 1 two_runs.tables.runs

older_and_newer : two_runs.tables.runs ≡ older ++ newer
unfolding start_run statement
older_and_newer = refl

keeps_newer : Splits (effective_keep (pos 1)) older newer
unfolding start_run statement effective_keep
keeps_newer = Splits.full refl

prune-newest_example :
    let (done, s') = prune (pos 1) two_runs in
    (done ≡ ok tt)
    × (s'.tables.runs ≡ newer)
    × (s'.tables.events ≡ events_without older two_runs.tables.events)
    × (s'.tables.states ≡ two_runs.tables.states)
unfolding start_run statement
prune-newest_example =
    prune-newest (pos 1) two_runs older newer (Reach-IsLog two_runs two_runs-Reach) older_and_newer
      keeps_newer refl refl

open_store-Recovers_example :
    (((open_store dead_run).0 ≡ ok tt)
      × (at : ℕ) × Recovers at dead_run.tables (open_store dead_run).1.tables)
    ⊎ ((e : Error) × ((open_store dead_run).0 ≡ err e)
        × ((open_store dead_run).1.tables ≡ dead_run.tables))
open_store-Recovers_example = open_store-Recovers dead_run

get_watermark-set_watermark_example :
    let (saved, s') = set_watermark no_floats (codes "users") (int (negsuc 41)) empty_log in
    (saved ≡ ok tt)
    × ((get_watermark no_floats (codes "users") s').0 ≡ ok (some (widened (int (negsuc 41)))))
    × (erase (codes "users") s'.tables.states ≡ erase (codes "users") [])
get_watermark-set_watermark_example =
    get_watermark-set_watermark no_floats (codes "users") (int (negsuc 41)) empty_log
      (omega arith, omega arith) refl refl

parse_int-format_int_example : parse_int (format_int (negsuc 41)) ≡ some (negsuc 41)
parse_int-format_int_example = parse_int-format_int (negsuc 41) (omega arith, omega arith)
