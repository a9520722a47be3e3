-- ===== src/Cli/Schedule/Ends.antt =====
-- How `replicron schedule` ends, over a run log that refuses no statement.
use replicron.Base.{ℕ, ◌≡◌, Text, codes, List, none, some, text_eq, ap}
use replicron.Model.{ok}
use replicron.Config.{Task, Outside, load}
use replicron.Registry
use replicron.Registry.{Token}
use replicron.Runlog.Statements.{Store}
use replicron.Runlog.Statements.Lifecycle.{IsLog}
use replicron.Lease.{Lease, LeaseDb}
use replicron.Lease.New
use replicron.Lease.New.{Machine, lease_locker}
use replicron.Engine.Page.{Locker}
use replicron.Engine.Openers.{Drivers}
use replicron.Daemon.{Host, End, Event, Flight, ended, run}
use replicron.Daemon.Registered.{scheduled_tasks}
use replicron.Daemon.Served.{IsServed, swept_store, run-IsServed}
use replicron.Cli.Schedule.{
  Flags, Left, in_process, options, over_lease, with_lock, configured, schedule_command,
  without_lock,
}

-- A lock that can be had: the process's own, or an instance over the lease table.
pub data CanLock (m : Machine) (f : Flags) : Type 0 where
  process : f.locking ≡ codes "process" → CanLock m f
  db : (l : Lease) → f.locking ≡ codes "db" → New.new m f.db_path f.lease_ttl ≡ ok l → CanLock m f

module _ {S D : Type 0} (out : Outside) (m : Machine) (h : Host) (v : Drivers S D) (f : Flags)
    (events : List Event) (end : End) (table : LeaseDb) (s : Store) (d : D)
    (same : (x : Text) → out.parse_cron x ≡ none → h.add_func x ≡ none)
    (parsed : h.parse_templates ≡ none) (log : IsLog s.tables)
    (accepting : (n : ℕ) → s.faults n ≡ none) where
  -- What the daemon leaves, whichever the lock.
  abbrev Serves : List Task → Left D → Type 0
  Serves tasks left =
      (s' : Store) × (d' : D) × (cut_off : List (Flight Token)) × (left
        ≡ some (ended end, s', d', cut_off))
      × IsServed (scheduled_tasks tasks) events (swept_store f.keep s).tables.runs s'.tables.runs
          cut_off

  run-Serves :
      {L : Type 0} (tasks : List Task) (lock : Locker L Token) (l : L)
      → load out f.config_path ≡ ok tasks
      → Serves tasks (without_lock (run h v (options f tasks lock) events end l s d))
  run-Serves tasks lock l loads =
      let (left, returns, served) =
        run-IsServed h v (options f tasks lock) out f.config_path events end l s d loads same parsed
          log accepting in
      (left.world.store, left.world.target, left.flights, ap without_lock returns, served)

  -- With a configuration that loads and a lock that can be had, the command serves to the end of the daemon,
  -- whichever of the two locks it is: it returns nil if it was cancelled, and the run log holds one row to each
  -- job that came due, of which only those of the runs that were cut off are still running.
  pub schedule_command-Serves :
      (tasks : List Task)
      → load out f.config_path ≡ ok tasks
      → CanLock m f
      → Serves tasks (schedule_command out m h v f events end table s d)
  unfolding schedule_command configured with_lock over_lease text_eq
  schedule_command-Serves tasks loads (process e) =
      rw (loads, configured) (rw e (run-Serves tasks in_process Registry.new loads))
  schedule_command-Serves tasks loads (db l e made) =
      rw (loads, configured)
        (rw e (
          rw (made, over_lease)
            (run-Serves tasks (lease_locker l) (record { db = table; next = 1 }) loads)))
