-- ===== src/Daemon/Served.antt =====
-- internal/daemon/daemon.go: `Run` from its start to its end, over a run log that refuses no statement.
use replicron.Base.{
  ℕ, ◌≤◌, ◌≡◌, refl, sym, Text, List, [], ◌∷◌, ◌++◌, get_elem?, none, some, Bool, true, false, All,
  Any, All_imp, All-Any, All-In, Option-cases, inl, inr, arith, append_assoc, append-nil, subst,
}
use replicron.Base.Ints.{ℤ, pos, ltb_ℤ}
use replicron.Model.{Run, ok}
use replicron.Config.{Task, Outside, load}
use replicron.Config.Validated.{IsValid}
use replicron.Config.Loaded.{load-IsValid}
use replicron.Runlog.Statements.{Store, open_store, prune}
use replicron.Runlog.Statements.Lifecycle.{IsLog}
use replicron.Runlog.Statements.Ready.{IsReady, open_store-IsReady, prune-IsReady}
use replicron.Engine.Run.{World, Engine}
use replicron.Engine.Openers.{Drivers}
use replicron.Daemon.{
  Host, Options, End, Event, due, over, Flight, Serving, ended, engine_with, check_ui, job, landed,
  happen, serve, waited, served, scheduled, started, run,
}
use replicron.Daemon.Flights.{All-elem, AreApart, IsTrue, AreCronRows}
use replicron.Daemon.Progress.{IsServing}
use replicron.Daemon.Progress.Begun.{begin-IsServing}
use replicron.Daemon.Progress.Landed.{land-IsServing}
use replicron.Daemon.Registered.{scheduled_tasks, scheduled_iff, load-register}

-- The tasks whose jobs come due.
abbrev pub due_tasks : List Task → List Event → List Task
due_tasks entries [] = []
due_tasks entries (due i ∷ events) = elim (get_elem? entries i) [
  | none ↦ due_tasks entries events
  | some t ↦ t ∷ due_tasks entries events
]
due_tasks entries (over n ∷ events) = due_tasks entries events

-- The entries that the scheduler has, and the rows from before the jobs.
module _ {L K D : Type 0} (e : Engine L K D) (before : List Run) (base : ℕ)
    (old : All (λ r. r.id ≤ base) before) (entries : List Task)
    (positive : All (λ t. ltb_ℤ (pos 0) t.target.batch_size ≡ true) entries) where
  over-IsServing :
      (n : ℕ) (tasks : List Task) (v : Serving L K D)
      → IsServing before base tasks v
      → (v' : Serving L K D) × (happen e entries (over n) v ≡ some v')
        × IsServing before base tasks v'
  unfolding happen landed
  over-IsServing n tasks v h = elim (Option-cases (get_elem? v.flights n)) [
    | inl gone ↦ (v, rw (gone, happen) refl, h)
    | inr (f, there) ↦
        let (v', ran, kept) = land-IsServing before base e tasks v n f old h there in
        (v', rw (there, happen) ran, kept)
  ]

  -- The events of the wait, behind those that made the jobs of `tasks` begin.
  serve-IsServing :
      (events : List Event) (tasks : List Task) (v : Serving L K D)
      → IsServing before base tasks v
      → (v' : Serving L K D) × (serve e entries events v ≡ some v')
        × IsServing before base (tasks ++ due_tasks entries events) v'
  unfolding serve happen job
  serve-IsServing [] tasks v h =
      (v, refl, subst (λ ts. IsServing before base ts v) (sym (append-nil tasks)) h)
  serve-IsServing (over n ∷ events) tasks v h =
      let (v1, ran, h1) = over-IsServing n tasks v h in
      let (v', served, h') = serve-IsServing events tasks v1 h1 in (v', rw (ran, serve) served, h')
  serve-IsServing (due i ∷ events) tasks v h = elim (Option-cases (get_elem? entries i)) [
    | inl absent ↦
        let (v', served, h') = serve-IsServing events tasks v h in
        (v', rw (absent, serve, happen) served, rw (absent, due_tasks) h')
    | inr (t, there) ↦
        let (v', served, h') = serve-IsServing events (tasks ++ t ∷ []) _ (
          begin-IsServing before base e tasks t v
            (All-elem (λ u. ltb_ℤ (pos 0) u.target.batch_size ≡ true) entries i t positive there)
            h) in
        (
          v',
          rw (there, serve, happen) served,
          rw (there, due_tasks)
              (subst (λ ts. IsServing before base ts v')
                (append_assoc tasks (t ∷ []) (due_tasks entries events)) h'),
        )
  ]

-- Before the first job.
ready-IsServing :
    {L K D : Type 0} (w : World L D)
    → IsReady w.store
    → IsServing {K = K} w.store.tables.runs w.store.tables.run_seq []
        (record { world = w; flights = [] })
ready-IsServing w r = record {
  added = [];
  rows = sym (append-nil w.store.tables.runs);
  cron = tt;
  log = r.log;
  accepting = r.accepting;
  above = omega arith;
  under_way = All_imp (λ q c. ((λ x. absurd (c x)), λ m. absurd m)) w.store.tables.runs r.closed;
  flying = tt;
  apart = tt;
}

keep_if-positive :
    (ts : List Task)
    → All IsValid ts
    → All (λ t. ltb_ℤ (pos 0) t.target.batch_size ≡ true) (scheduled_tasks ts)
keep_if-positive ts h =
    All-In _ (scheduled_tasks ts)
      (λ t m. (All-Any IsValid ts h ((scheduled_iff t ts).0 m).0).batch_positive)

-- What the daemon leaves in the run log, `after`, with the runs in progress `flights`: behind the rows `before` there is one row to each job that came due, in
-- order; a row, old or new, is running exactly when a run in progress has its id; and the runs in progress have
-- different ids, each the id of a row.
pub record IsServed {K : Type 0} (entries : List Task) (events : List Event)
    (before after : List Run) (flights : List (Flight K)) : Type 0 where
  pub added : List Run
  pub rows : after ≡ before ++ added
  pub cron : AreCronRows (due_tasks entries events) added
  pub under_way : All (IsTrue flights) after
  pub recorded : All (λ f. Any (λ r. r.id ≡ f.run_id) after) flights
  pub apart : AreApart flights

-- The store behind the opening and the pruning.
abbrev pub swept_store : ℤ → Store → Store
swept_store keep s = (prune keep (open_store s).1).1

check_ui_ok : (h : Host) (ui : Bool) → h.parse_templates ≡ none → check_ui h ui ≡ ok tt
unfolding check_ui
check_ui_ok h false e = refl
check_ui_ok h true e = rw e refl

module _ {S D L K : Type 0} (h : Host) (v : Drivers S D) (opts : Options L K) (out : Outside)
    (path : Text) where
  pub run-IsServed :
      (events : List Event) (end : End) (l : L) (s : Store) (d : D)
      → load out path ≡ ok opts.tasks
      → ((x : Text) → out.parse_cron x ≡ none → h.add_func x ≡ none)
      → h.parse_templates ≡ none
      → IsLog s.tables
      → ((n : ℕ) → s.faults n ≡ none)
      → (left : Serving L K D) × (run h v opts events end l s d ≡ some (ended end, left))
        × IsServed
            (scheduled_tasks opts.tasks)
            events
            (swept_store opts.keep_runs s).tables.runs
            left.world.store.tables.runs
            left.flights
  unfolding run started scheduled served waited
  run-IsServed events end l s d loads same parsed log accepting =
      let (opened, ready) = open_store-IsReady s log accepting in
      let w : World L D = record {
        lock = l;
        store = swept_store opts.keep_runs s;
        target = d;
        trace = [];
      } in
      let swept = prune-IsReady opts.keep_runs (open_store s).1 ready in
      let registered = load-register out h path opts.tasks same loads in
      let shown = check_ui_ok h opts.ui parsed in
      let (left, returns, kept) =
        serve-IsServing (engine_with v opts.lock) w.store.tables.runs w.store.tables.run_seq
          swept.log.issued (scheduled_tasks opts.tasks)
          (keep_if-positive opts.tasks (load-IsValid out path opts.tasks loads).0) events []
          (record { world = w; flights = [] }) (ready-IsServing w swept) in
      (
        left,
        rw (opened, started)
            (rw (registered, scheduled) (rw (shown, served) (rw (returns, waited) refl))),
        record {
          added = kept.added;
          rows = kept.rows;
          cron = kept.cron;
          under_way = kept.under_way;
          recorded = All_imp (λ f k. k.recorded) left.flights kept.flying;
          apart = kept.apart;
        },
      )
