-- ===== src/Runlog/Invariant.antt =====
-- The run log through any sequence of its operations.
use replicron.Base.{ℕ, ◌≡◌, ◌≢◌, sym, subst, Text}
use replicron.Base.Ints.{ℤ}
use replicron.Model.{Value, RunResult, running}
use replicron.Runlog.Statements.{
  Payload, no_tables, Store, open_store, start_run, finish_run, event, prune,
}
use replicron.Runlog.Statements.Lifecycle.{
  IsLog, open_store-IsLog, start_run-IsLog, finish_run-IsLog, event-IsLog, prune-IsLog,
}
use replicron.Runlog.Watermark.{FloatText, set_watermark}
use replicron.Runlog.Watermark.Kept.{set_watermark-IsLog}

-- One operation, whether its statements are refused or not. A run is finished with a status other than
-- `running`, as the engine does it.
pub data Step (s s' : Store) : Type 0 where
  reopened : s' ≡ (open_store s).1 → Step s s'
  started : (task trigger : Text) → s' ≡ (start_run task trigger s).1 → Step s s'
  finished :
      (id : ℕ) (res : RunResult) → res.status ≢ running → s' ≡ (finish_run id res s).1 → Step s s'
  logged : (id : ℕ) (kind : Text) (payload : Payload) → s' ≡ (event id kind payload s).1 → Step s s'
  pruned : (keep : ℤ) → s' ≡ (prune keep s).1 → Step s s'
  marked :
      (ft : FloatText) (task : Text) (v : Value) → s' ≡ (set_watermark ft task v s).1 → Step s s'

-- The stores that come from an empty database.
pub data Reach : Store → Type 0 where
  created : (s : Store) → s.tables ≡ no_tables → Reach s
  next : {s s' : Store} → Reach s → Step s s' → Reach s'

Step-IsLog : (s s' : Store) → Step s s' → IsLog s.tables → IsLog s'.tables
Step-IsLog s s' (reopened e) l = rw e (open_store-IsLog s l)
Step-IsLog s s' (started task trigger e) l = rw e (start_run-IsLog task trigger s l)
Step-IsLog s s' (finished id res h e) l = rw e (finish_run-IsLog id res s h l)
Step-IsLog s s' (logged id kind payload e) l = rw e (event-IsLog id kind payload s l)
Step-IsLog s s' (pruned keep e) l = rw e (prune-IsLog keep s l)
Step-IsLog s s' (marked ft task v e) l = rw e (set_watermark-IsLog ft task v s l)

-- Whatever the sequence of operations from an empty database, and whichever statements are refused, the ids
-- of the runs ascend and none exceeds the last one issued, and a run has an end exactly when it is not
-- running.
pub Reach-IsLog : (s : Store) → Reach s → IsLog s.tables
Reach-IsLog s (created _ e) =
    subst IsLog (sym e) (record { ascending = tt; issued = tt; settled = tt })
Reach-IsLog _ (next {s} {s'} r st) = Step-IsLog s s' st (Reach-IsLog s r)
