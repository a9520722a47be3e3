-- ===== src/Tests/Runs.antt =====
-- Runs of the engine over the in-process registry, with a target that refuses every statement of more than
-- one row.
use replicron.Base.{
  ℕ, ◌≡◌, refl, codes, List, [], ◌∷◌, ◌++◌, length, none, some, true, false, ltb, arith, Bool-cases,
  inl, inr, if◌then◌else◌, subst, lookup, text_eq, ◌<◌, ◌≤◌, ◌*◌,
}
use replicron.Base.Ints.{pos, pos_part}
use replicron.Model.{int64, Row, skipped, RunResult, driver, Result, ok, err, ok-injective}
use replicron.Config.{Endpoint, Task}
use replicron.Registry.{Token, Registry, new, acquire, release}
use replicron.Runlog.Statements.{no_tables, Store}
use replicron.Engine.Batch.{
  param_limit, clamp_batch, TargetConn, Progress, row_written, write_chunk, write_rows,
  write_or_degrade, put_chunk, put_chunks, put_page,
}
use replicron.Engine.Batch.Accounting.{IsExact, Counts, Accounts, put_page-Accounts}
use replicron.Engine.Batch.Bounds.{clamp_batch_bounds, put_page-total}
use replicron.Engine.Page.{Locker}
use replicron.Engine.Run.{World, Engine, new_result, run_task}
use replicron.Engine.Run.Outcome.{OpensExact, IsOutcome, run_task-IsOutcome}
use replicron.Engine.Run.Watermarks.{IsHeld, run_task-IsHeld}
use replicron.Engine.Run.Recorded.{IsRecorded, run_task-IsRecorded}
use replicron.Engine.Run.Trace.{Closes, run_task-Closes}
use replicron.Engine.Run.Refused.{IsSkipped, run_task-skipped_iff_held}
use replicron.Registry.System.{System, Step, Reach}
use replicron.Base.{Any, ◌↔◌}
use Prim.Native.Nat.{max}

abbrev pub users : Endpoint
users = record {
  typ = codes "sqlite";
  dsn = codes "a.db";
  dsn_env = [];
  query = codes "SELECT id FROM users WHERE id > :watermark";
}

abbrev pub copy_users : Task
copy_users = record {
  name = codes "users";
  schedule = [];
  timeout = [];
  enabled = none;
  page_size = pos 2;
  source = users;
  target = record {
    endpoint = users;
    table = codes "users";
    mode = codes "upsert";
    keys = codes "id" ∷ [];
    batch_size = pos 2;
    bulk = false;
  };
  incremental = some (record { column = codes "id"; initial = codes "0" });
  timeout_dur = pos 1;
  is_enabled = true;
}

abbrev pub user : ℕ → Row
user n = (codes "id", int64 (pos n)) ∷ []

-- Each write appends its rows; more than one at a time are refused.
abbrev pub single_write : List Row → List Row → Result ℕ × List Row
single_write rows d =
    if ltb 1 (length rows)
    then (err (driver (codes "too many rows")), d)
    else (ok (length rows), d ++ rows)

abbrev pub single_target : TargetConn (List Row)
single_target = record {
  upsert_rows = λ table keys cols rows d. single_write rows d;
  insert_rows = λ table cols rows d. single_write rows d;
  bulk_load = none;
}

single_write-Counts : Counts {D = List Row} single_write
single_write-Counts rows d n h = elim (Bool-cases (ltb 1 (length rows))) [
  | inl many ↦ absurd (cc (rw many at h))
  | inr few ↦ cc (rw few at h)
]

single_target-IsExact : IsExact single_target
single_target-IsExact = record {
  upserts = λ table keys cols. single_write-Counts;
  inserts = λ table cols. single_write-Counts;
  bulks = λ load h table keys cols. absurd (cc h);
}

abbrev pub in_process : Locker Registry Token
in_process = record { acquire = acquire; release = λ k. release (some k); renew = none }

abbrev pub test_engine : Engine Registry Token (List Row)
test_engine = record {
  reg = in_process;
  source_of = λ typ dsn.
      ok (λ query size. record {
        pages = (user 1 ∷ user 2 ∷ []) ∷ (user 3 ∷ []) ∷ [];
        ending = none;
      });
  target_of = λ typ dsn d. (ok single_target, d);
  floats = record { format = λ x. []; parse = λ s. none };
}

pub test_engine-OpensExact : OpensExact test_engine
test_engine-OpensExact = record {
  exact = λ typ dsn d tgt h. subst IsExact (ok-injective h) single_target-IsExact;
}

abbrev pub empty_log : Store
empty_log = record { tables = no_tables; calls = 0; clock = λ n. n; faults = λ n. none }

abbrev pub idle : World Registry (List Row)
idle = record { lock = new; store = empty_log; target = []; trace = [] }

abbrev first_token : Token
first_token = record { addr = 1; name = codes "users"; gen = 1 }

-- The registry while a run of the task is under way.
abbrev busy : World Registry (List Row)
busy = record idle { lock = (acquire (codes "users") new).1 }

run_task-IsOutcome_example :
    (o : RunResult × World Registry (List Row)) × (run_task test_engine copy_users
        (codes "manual")
        idle
      ≡ some o)
    × IsOutcome o.0
run_task-IsOutcome_example =
    run_task-IsOutcome test_engine copy_users (codes "manual") idle refl test_engine-OpensExact

run_task-IsHeld_example :
    (o : RunResult × World Registry (List Row)) × (run_task test_engine copy_users
        (codes "manual")
        idle
      ≡ some o)
    × IsHeld (codes "users") [] o.0 o.1.store.tables.states
run_task-IsHeld_example = run_task-IsHeld test_engine copy_users (codes "manual") idle refl

run_task-IsRecorded_example :
    (o : RunResult × World Registry (List Row)) × (run_task test_engine copy_users
        (codes "manual")
        idle
      ≡ some o)
    × IsRecorded copy_users (codes "manual") empty_log o
run_task-IsRecorded_example =
    run_task-IsRecorded test_engine copy_users (codes "manual") idle refl
      (record { ascending = tt; issued = tt; settled = tt }) (λ n. refl)

run_task-Closes_example :
    (o : RunResult × World Registry (List Row)) × (run_task test_engine copy_users
        (codes "manual")
        idle
      ≡ some o)
    × Closes test_engine copy_users
        (codes "manual")
        first_token
        (acquire (codes "users") new).1
        idle
        o
unfolding acquire lookup
run_task-Closes_example =
    run_task-Closes test_engine copy_users (codes "manual") idle first_token
      (acquire (codes "users") new).1 refl refl

abbrev one_held : System
one_held = record { registry = busy.lock; held = first_token ∷ []; retired = [] }

one_held-Reach : Reach one_held
unfolding acquire lookup
one_held-Reach =
    Reach.next Reach.here
      (Step.acquired (codes "users") first_token (acquire (codes "users") new).1 refl refl)

run_task-skipped_iff_held_example :
    (o : RunResult × World Registry (List Row)) × (run_task test_engine copy_users
        (codes "manual")
        busy
      ≡ some o)
    × ((o.0.status ≡ skipped) ↔ Any (λ u. u.name ≡ codes "users") (first_token ∷ []))
    × (o.0.status ≡ skipped → IsSkipped copy_users busy o)
run_task-skipped_iff_held_example =
    run_task-skipped_iff_held test_engine copy_users (λ n r. refl) (codes "manual") one_held busy
      one_held-Reach refl refl

-- What the page comes to: the batch of two is refused, and each row goes alone.
abbrev written_page : Progress (List Row)
written_page = record {
  res = record (new_result (codes "users") (codes "manual")) { ok_rows = 2 };
  target = user 1 ∷ user 2 ∷ [];
}

put_page-written :
    put_page single_target copy_users
      (codes "id" ∷ [])
      (user 1 ∷ user 2 ∷ [])
      (record { res = new_result (codes "users") (codes "manual"); target = [] })
    ≡ some written_page
unfolding put_page put_chunks put_chunk write_or_degrade write_rows write_chunk clamp_batch
    row_written text_eq
put_page-written = refl

put_page-Accounts_example :
    Accounts 2 (new_result (codes "users") (codes "manual")) written_page.res
put_page-Accounts_example =
    put_page-Accounts single_target copy_users (codes "id" ∷ []) single_target-IsExact
      (user 1 ∷ user 2 ∷ [])
      (record { res = new_result (codes "users") (codes "manual"); target = [] }) written_page
      put_page-written

clamp_batch_bounds_example :
    let n = pos_part (clamp_batch (pos 500) 7) in (0 < n) × (n ≤ 500) × (n * 7 ≤ max param_limit 7)
clamp_batch_bounds_example = clamp_batch_bounds 500 7 (omega arith)

put_page-total_example :
    (p' : Progress (List Row)) × (put_page single_target copy_users
        (codes "id" ∷ [])
        (user 1 ∷ user 2 ∷ [])
        (record { res = new_result (codes "users") (codes "manual"); target = [] })
      ≡ some p')
put_page-total_example =
    put_page-total single_target copy_users (codes "id" ∷ []) (user 1 ∷ user 2 ∷ [])
      (record { res = new_result (codes "users") (codes "manual"); target = [] }) refl
