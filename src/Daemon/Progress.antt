-- ===== src/Daemon/Progress.antt =====
-- internal/daemon/daemon.go: what holds all through the wait of `Run`.
pub mod Begun
pub mod Landed
use replicron.Base.{ℕ, ◌<◌, ◌≤◌, ◌≡◌, List, ◌++◌, none, true, All, Any}
use replicron.Base.Ints.{pos, ltb_ℤ}
use replicron.Model.{Run}
use replicron.Config.{Task}
use replicron.Runlog.Statements.{Tables}
use replicron.Runlog.Statements.Lifecycle.{IsLog}
use replicron.Daemon.{Flight, Serving}
use replicron.Daemon.Flights.{AreApart, IsTrue, AreCronRows}

-- `base` is the last id issued before the daemon's jobs.
module _ {K : Type 0} (base : ℕ) where
  -- A run in progress has its row, its id is of this daemon, and its task has a batch size.
  pub record IsFlight (t : Tables) (f : Flight K) : Type 0 where
    pub recorded : Any (λ r. r.id ≡ f.run_id) t.runs
    pub new : base < f.run_id
    pub issued : f.run_id ≤ t.run_seq
    pub positive : ltb_ℤ (pos 0) f.task.target.batch_size ≡ true

-- The jobs of `tasks` have begun; `before` are the rows from before them.
pub record IsServing {L K D : Type 0} (before : List Run) (base : ℕ) (tasks : List Task)
    (v : Serving L K D) : Type 0 where
  pub added : List Run
  pub rows : v.world.store.tables.runs ≡ before ++ added
  pub cron : AreCronRows tasks added
  pub log : IsLog v.world.store.tables
  pub accepting : (n : ℕ) → v.world.store.faults n ≡ none
  pub above : base ≤ v.world.store.tables.run_seq
  pub under_way : All (IsTrue v.flights) v.world.store.tables.runs
  pub flying : All (IsFlight base v.world.store.tables) v.flights
  pub apart : AreApart v.flights
