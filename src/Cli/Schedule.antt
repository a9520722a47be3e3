-- ===== src/Cli/Schedule.antt =====
-- internal/cli/schedule.go: `replicron schedule` starts the daemon over the lock that is asked for.
pub mod Ends
use replicron.Base.{
  ℕ, Text, codes, List, [], Option, none, some, Bool, true, false, ◌||◌, text_eq, if◌then◌else◌,
}
use replicron.Base.Ints.{ℤ}
use replicron.Model.{Error, Result, ok, err, bad_locking}
use replicron.Config.{Task, Outside, load}
use replicron.Registry
use replicron.Registry.{Registry, Token}
use replicron.Runlog.Statements.{Store}
use replicron.Lease.{Lease, LeaseDb}
use replicron.Lease.New
use replicron.Lease.New.{Machine, LeaseSide, lease_locker}
use replicron.Engine.Page.{Locker}
use replicron.Engine.Run.{World}
use replicron.Engine.Openers.{Drivers}
use replicron.Daemon.{Host, Options, End, Event, Flight, Serving, run}

-- The flags, less the listen address.
pub record Flags : Type 0 where
  pub config_path : Text
  pub db_path : Text
  pub locking : Text
  pub keep : ℤ
  pub lease_ttl : ℕ
  pub ui : Bool

-- What the command returns, the run log and the target as it leaves them, and the runs that it cuts off.
abbrev pub Left : Type 0 → Type 0
Left D = Option (Result (Unit {0}) × Store × D × List (Flight Token))

abbrev pub without_lock : {L D : Type 0} → Option (Result (Unit {0}) × Serving L Token D) → Left D
without_lock none = none
without_lock (some (r, v)) = some (r, v.world.store, v.world.target, v.flights)

-- `registry.New()` as a `Locker`.
abbrev pub in_process : Locker Registry Token
in_process = record {
  acquire = Registry.acquire;
  release = λ k. Registry.release (some k);
  renew = none;
}

abbrev pub options : {L : Type 0} → Flags → List Task → Locker L Token → Options L Token
options f tasks lock = record { tasks = tasks; keep_runs = f.keep; lock = lock; ui = f.ui }

module _ {S D : Type 0} (out : Outside) (m : Machine) (h : Host) (v : Drivers S D) (f : Flags)
    (events : List Event) (end : End) where
  over_lease : List Task → Result Lease → LeaseDb → Store → D → Left D
  over_lease tasks (err e) db s d = some (err e, s, d, [])
  over_lease tasks (ok l) db s d =
      without_lock
        (run h v (options f tasks (lease_locker l)) events end (record { db = db; next = 1 }) s d)

  with_lock : List Task → LeaseDb → Store → D → Left D
  unfolding over_lease
  with_lock tasks db s d =
      if text_eq f.locking (codes "db")
      then over_lease tasks (New.new m f.db_path f.lease_ttl) db s d
      else without_lock (run h v (options f tasks in_process) events end Registry.new s d)

  configured : Result (List Task) → LeaseDb → Store → D → Left D
  unfolding with_lock
  configured (err e) db s d = some (err e, s, d, [])
  configured (ok tasks) db s d =
      if text_eq f.locking (codes "process") || text_eq f.locking (codes "db")
      then with_lock tasks db s d
      else some (err (bad_locking f.locking), s, d, [])

  -- The command, with the lease table `db` as the daemon finds it.
  unfoldable pub schedule_command : LeaseDb → Store → D → Left D
  unfolding configured
  schedule_command db s d = configured (load out f.config_path) db s d
