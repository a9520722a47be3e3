-- ===== src/Daemon.antt =====
-- internal/daemon/daemon.go: `Run`. The cron library, the templates and the HTTP server are a parameter,
-- `Host`; what its jobs do comes as a list of events. Jobs overlap: a job begins, its run is in progress while
-- other jobs begin and end, and the daemon returns without waiting for those in progress. The work of one run
-- between its beginning and its end is a single step. What a run in progress does behind the closing of the run
-- log, which refuses it every statement, is left out, and so is a job that comes due between the cron's start and
-- a failing parse of the templates.
pub mod Registered
pub mod Flights
pub mod Progress
pub mod Served
pub mod Sequential
use replicron.Base.{
  ℕ, zero, suc, Text, codes, List, [], ◌∷◌, get_elem?, Option, none, some, Bool, true, false, not,
  ◌||◌, if◌then◌else◌,
}
use replicron.Base.Ints.{ℤ}
use replicron.Model.{Error, Result, ok, err, open_run_log, init_ui, register_schedule, wrap, ◌>>=◌}
use replicron.Config.{Task, is_empty}
use replicron.Runlog.Statements.{Store, now, open_store, prune, start_run}
use replicron.Registry.{Registry, Token}
use replicron.Engine.Page.{Locker}
use replicron.Engine.Run.{World, Engine, new_result, id_of, run_body, finish, skip}
use replicron.Engine.Openers.{Drivers, open_source, open_target}

-- `AddFunc` (its error for a schedule), and `ui.New`'s error from parsing the templates.
pub record Host : Type 0 where
  pub add_func : Text → Option Error
  pub parse_templates : Option Error

-- `Options`, less the listen address; the in-process registry stands in for a nil lock.
pub record Options (L K : Type 0) : Type 0 where
  pub tasks : List Task
  pub keep_runs : ℤ
  pub lock : Locker L K
  pub ui : Bool

-- `eng.Reg = opts.Lock`
abbrev pub engine_with : {S D L K : Type 0} → Drivers S D → Locker L K → Engine L K D
engine_with v lock = record {
  reg = lock;
  source_of = open_source v;
  target_of = open_target v;
  floats = v.floats;
}

-- The test before `continue`, turned round.
unfoldable pub is_scheduled : Task → Bool
is_scheduled t = not (is_empty t.schedule || not t.is_enabled)

add_entry : Task → Option Error → Result (List Task) → Result (List Task)
add_entry t none rest = rest >>= λ ts. ok (t ∷ ts)
add_entry t (some e) rest = err (register_schedule t.name e)

-- The loop over the tasks: those whose job the scheduler has, or the first error.
unfoldable pub register : Host → List Task → Result (List Task)
unfolding add_entry
register h [] = ok []
register h (t ∷ ts) =
    let rest = register h ts in
    if is_scheduled t then add_entry t (h.add_func t.schedule) rest else rest

-- `if opts.UI`
unfoldable pub check_ui : Host → Bool → Result (Unit {0})
check_ui h false = ok tt
check_ui h true = elim h.parse_templates [ none ↦ ok tt | some e ↦ err (init_ui e) ]

-- What ends the wait: the context, or the server.
pub data End : Type 0 where
  cancelled : End
  listener_failed : Error → End

abbrev pub ended : End → Result (Unit {0})
ended cancelled = ok tt
ended (listener_failed e) = err e

-- A run that a job has begun and not ended: the task, the token of its lease, the id of its record, or 0, and the
-- time at which it began.
pub record Flight (K : Type 0) : Type 0 where
  pub task : Task
  pub tok : K
  pub run_id : ℕ
  pub began : ℕ

-- What happens while the daemon waits: the job of an entry comes due, by the entry's index, or a run in progress
-- does its work and ends, by its index. Any number of them are in progress, and they end in any order.
pub data Event : Type 0 where
  due over : ℕ → Event

-- The world that the jobs share, and the runs in progress, the newest first.
pub record Serving (L K D : Type 0) : Type 0 where
  pub world : World L D
  pub flights : List (Flight K)

abbrev pub remove_at : {A : Type 0} → ℕ → List A → List A
remove_at n [] = []
remove_at zero (x ∷ xs) = xs
remove_at (suc n) (x ∷ xs) = x ∷ remove_at n xs

module _ {L K D : Type 0} (e : Engine L K D) where
  -- A job with what `Acquire` gave it: the run is skipped, or its record is started.
  begin_with : Task → Option K → Serving L K D → Serving L K D
  begin_with t none v = record v {
    world = (skip e t (now v.world.store) (new_result t.name (codes "cron")) v.world).1;
  }
  begin_with t (some tok) v =
      let (id, s) = start_run t.name (codes "cron") v.world.store in
      record {
        world = record v.world { store = s };
        flights =
            record { task = t; tok = tok; run_id = id_of id; began = now v.world.store }
            ∷ v.flights;
      }

  -- A job that comes due: `RunTask` as far as its body.
  unfoldable pub begin : Task → Serving L K D → Serving L K D
  unfolding begin_with
  begin t v =
      let (tok, l) = e.reg.acquire t.name v.world.lock in
      begin_with t tok (record v { world = record v.world { lock = l } })

  -- The rest of `RunTask`, whose result the job drops; `rest` are the other runs in progress.
  unfoldable pub land : Flight K → List (Flight K) → World L D → Option (Serving L K D)
  land f rest w =
      elim (run_body e f.task f.run_id f.tok (new_result f.task.name (codes "cron")) w) [
        | none ↦ none
        | some (res, w') ↦
            some
              (record { world = (finish e f.task f.run_id f.tok f.began res w').1; flights = rest })
      ]

  -- The job of an entry.
  job : Option Task → Serving L K D → Serving L K D
  job none v = v
  job (some t) v = begin t v

  landed : Option (Flight K) → ℕ → Serving L K D → Option (Serving L K D)
  unfolding land
  landed none n v = some v
  landed (some f) n v = land f (remove_at n v.flights) v.world

  unfoldable pub happen : List Task → Event → Serving L K D → Option (Serving L K D)
  unfolding begin job landed
  happen entries (due i) v = some (job (get_elem? entries i) v)
  happen entries (over n) v = landed (get_elem? v.flights n) n v

  -- The events of the wait. `none`: a job does not return.
  unfoldable pub serve : List Task → List Event → Serving L K D → Option (Serving L K D)
  unfolding happen
  serve entries [] v = some v
  serve entries (x ∷ events) v = elim (happen entries x v) [
    | none ↦ none
    | some v' ↦ serve entries events v'
  ]

module _ {S D L K : Type 0} (h : Host) (v : Drivers S D) (opts : Options L K) (events : List Event)
    (end : End) where
  -- A return before any job.
  stopped : Error → World L D → Option (Result (Unit {0}) × Serving L K D)
  stopped x w = some (err x, record { world = w; flights = [] })

  -- The wait and its end, which leaves the runs in progress to themselves.
  waited : Option (Serving L K D) → Option (Result (Unit {0}) × Serving L K D)
  waited none = none
  waited (some served) = some (ended end, served)

  served : List Task → Result (Unit {0}) → World L D → Option (Result (Unit {0}) × Serving L K D)
  unfolding stopped waited
  served entries (err x) w = stopped x w
  served entries (ok _) w =
      waited (serve (engine_with v opts.lock) entries events (record { world = w; flights = [] }))

  scheduled : Result (List Task) → World L D → Option (Result (Unit {0}) × Serving L K D)
  unfolding served
  scheduled (err x) w = stopped x w
  scheduled (ok entries) w = served entries (check_ui h opts.ui) w

  -- The part behind `Open`; the error of the pruning is only logged.
  started : Result (Unit {0}) → World L D → Option (Result (Unit {0}) × Serving L K D)
  unfolding scheduled
  started (err x) w = stopped (open_run_log x) w
  started (ok _) w =
      scheduled (register h opts.tasks) (record w { store = (prune opts.keep_runs w.store).1 })

  -- `Run`: its error, and the world and the runs in progress when the run log is closed. `none`: a job does not
  -- return.
  unfoldable pub run : L → Store → D → Option (Result (Unit {0}) × Serving L K D)
  unfolding started
  run l s d =
      let (r, s') = open_store s in
      started r (record { lock = l; store = s'; target = d; trace = [] })
