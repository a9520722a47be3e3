-- ===== src/Engine/Run.antt =====
-- internal/engine/engine.go: `RunTask` and `finalizeWatermark`. The log lines are not modelled.
mod Prepared
pub mod Completed
pub mod Success
mod Rule
pub mod Outcome
pub mod Watermarks
pub mod Trace
pub mod Ended
pub mod Refused
pub mod Recorded
pub mod Replicated
use replicron.Base.{
  ℕ, zero, suc, ◌+◌, ◌-◌, Text, codes, List, [], ◌∷◌, ◌++◌, Option, none, some, Bool, true, false,
  not, ◌&&◌, ◌==◌, ltb, if◌then◌else◌,
}
use replicron.Base.Ints.{ℤ}
use replicron.Base.Strings.{contains, replace_all}
use replicron.Model.{
  Value, null, Row, RunStatus, unset, succeeded, failed, skipped, RunResult, Error, Result, ok, err,
  driver, open_source, open_target, read_watermark, render_watermark, token_missing, all_failed,
  still_active, wrap, ◌>>=◌,
}
use replicron.Config.{Task, Incremental, Endpoint}
use replicron.Connector.Conn.Paging.{Pages, deliver}
use replicron.Runlog.Statements.{Store, now, start_run, finish_run, event, failed_rows, value}
use replicron.Runlog.Watermark.{FloatText, get_watermark, set_watermark}
use replicron.Engine.Watermark.{watermark_token, watermark_literal, Tracker, fresh}
use replicron.Engine.Batch.{TargetConn, Progress}
use replicron.Engine.Page.{Locker, State, callback}

-- The calls of `RunTask` to the outside that leave no other mark, in order.
pub data Effect : Type 0 where
  source_opened source_closed target_opened target_closed : Effect
  run_finished : ℕ → Effect
  observed : (task : Text) (status : RunStatus) (ok_rows fail_rows duration : ℕ) → Effect
  lease_released : Effect

-- What a run changes: the lock, the run log, the target database, and the trace of its calls.
pub record World (L D : Type 0) : Type 0 where
  pub lock : L
  pub store : Store
  pub target : D
  pub trace : List Effect

-- A source connection gives the pages of a query at a page size.
abbrev pub SourceConn : Type 0
SourceConn = Text → ℤ → Pages

-- `Engine`. The openers get the type and the data source name.
pub record Engine (L K D : Type 0) : Type 0 where
  pub reg : Locker L K
  pub source_of : Text → Text → Result SourceConn
  pub target_of : Text → Text → D → Result (TargetConn D) × D
  pub floats : FloatText

abbrev pub log_effect : {L D : Type 0} → Effect → World L D → World L D
log_effect e w = record w { trace = w.trace ++ e ∷ [] }

-- `res` as it is made: no status yet.
abbrev pub new_result : Text → Text → RunResult
new_result task trigger = record {
  task = task;
  trigger = trigger;
  status = unset;
  total_rows = 0;
  ok_rows = 0;
  fail_rows = 0;
  duration = 0;
  err = none;
  samples = [];
}

abbrev pub fail : Error → RunResult → RunResult
fail e res = record res { status = failed; err = some e }

-- The literal that stands in for the token: the stored watermark's, or the initial one.
abbrev literal_for : FloatText → Incremental → Option Value → Result Text
literal_for ft inc none = ok inc.initial
literal_for ft inc (some v) = wrap render_watermark (watermark_literal ft v)

-- The query with the literal in place of the token, and a fresh tracker.
abbrev substituted : Task → Incremental → Result Text → Result (Text × Option Tracker)
substituted t inc (err e) = err e
substituted t inc (ok lit) =
    ok (replace_all t.source.query watermark_token lit, some (fresh inc.column))

-- The same from what `GetWatermark` returned.
abbrev with_previous :
    FloatText → Task → Incremental → Result (Option Value) → Result (Text × Option Tracker)
with_previous ft t inc (err e) = err (read_watermark e)
with_previous ft t inc (ok v) = substituted t inc (literal_for ft inc v)

unfoldable pub prepare_incremental :
    FloatText → Task → Option Incremental → Store → Result (Text × Option Tracker) × Store
prepare_incremental ft t none s = (ok (t.source.query, none), s)
prepare_incremental ft t (some inc) s =
    let (prev, s') = get_watermark ft t.name s in
    if contains watermark_token t.source.query
    then (with_previous ft t inc prev, s')
    else (err token_missing, s)

-- The query that is sent, and the tracker of an incremental task.
unfoldable pub prepare_query : FloatText → Task → Store → Result (Text × Option Tracker) × Store
unfolding prepare_incremental
prepare_query ft t s = prepare_incremental ft t t.incremental s

abbrev event_if : ℕ → (Store → Result (Unit {0}) × Store) → Store → Store
event_if run_id send s = if ltb 0 run_id then (send s).1 else s

abbrev is_null : Value → Bool
is_null null = true
is_null v = false

after_persist : ℕ → Value → Result (Unit {0}) → Store → Store
after_persist run_id v (err e) s = s
after_persist run_id v (ok _) s =
    event_if run_id (event run_id (codes "watermark_advanced") (value v)) s

-- `finalizeWatermark`
unfoldable pub finalize_watermark : FloatText → Task → ℕ → RunResult → Tracker → Store → Store
unfolding after_persist
finalize_watermark ft t run_id res wm s =
    let (saved, s') = set_watermark ft t.name wm.max s in
    if ltb 0 res.fail_rows
    then event_if run_id (event run_id (codes "watermark_held") (failed_rows res.fail_rows)) s
    else if is_null wm.max
    then s
    else after_persist run_id wm.max saved s'

-- The status of a stream that came to its end.
unfoldable pub settle : RunResult → RunResult
settle res =
    if ltb 0 res.total_rows && ((res.ok_rows == 0) && ltb 0 res.fail_rows)
    then fail (all_failed res.fail_rows) res
    else record res { status = succeeded }

module _ {L K D : Type 0} (e : Engine L K D) (t : Task) (run_id : ℕ) (tok : K) where
  pub finalized_store : Option Tracker → RunResult → Store → Store
  finalized_store none res s = s
  finalized_store (some wm) res s = finalize_watermark e.floats t run_id res wm s

  -- Behind `Stream`: the total, the error or the status, and the watermark.
  unfoldable pub conclude : Option Error → State L D → World L D → RunResult × World L D
  unfolding finalized_store
  conclude streamed st w =
      let res = record st.progress.res { total_rows = st.total_seen } in
      let w' = record w { lock = st.lock; store = st.store; target = st.progress.target } in
      elim streamed [
        | some x ↦ (fail x res, w')
        | none ↦
            let done = settle res in
            (done, record w' { store = finalized_store st.tracker done st.store })
      ]

  abbrev concluded : Option Error → Option (State L D) → World L D → Option (RunResult × World L D)
  concluded streamed none w = none
  concluded streamed (some st) w = some (conclude streamed st w)

  -- The stream and what follows it. `none`: the callback did not return.
  unfoldable pub stream_run :
      SourceConn
      → TargetConn D
      → Text
      → Option Tracker
      → RunResult
      → World L D
      → Option (RunResult × World L D)
  stream_run src tgt query wm res w =
      let source = src query t.page_size in
      let (end, st) = deliver (callback e.reg tgt t run_id tok) source.pages source.ending 0 (
        some (record {
          lock = w.lock;
          store = w.store;
          progress = record { res = res; target = w.target };
          keys_checked = false;
          tracker = wm;
          total_seen = 0;
        })) in
      concluded end.1 st w

  unfoldable pub prepared :
      SourceConn
      → TargetConn D
      → Result (Text × Option Tracker)
      → RunResult
      → World L D
      → Option (RunResult × World L D)
  prepared src tgt (err x) res w = some (fail x res, w)
  prepared src tgt (ok (query, wm)) res w = stream_run src tgt query wm res w

  abbrev after_close : Effect → Option (RunResult × World L D) → Option (RunResult × World L D)
  after_close x none = none
  after_close x (some (res, w)) = some (res, log_effect x w)

  unfoldable pub with_target :
      SourceConn → Result (TargetConn D) → RunResult → World L D → Option (RunResult × World L D)
  unfolding prepared
  with_target src (err x) res w = some (fail (open_target x) res, w)
  with_target src (ok tgt) res w =
      let (query, s) = prepare_query e.floats t w.store in
      after_close target_closed
        (prepared src tgt query res (record (log_effect target_opened w) { store = s }))

  unfoldable pub with_source :
      Result SourceConn → RunResult → World L D → Option (RunResult × World L D)
  unfolding with_target
  with_source (err x) res w = some (fail (open_source x) res, w)
  with_source (ok src) res w =
      let (tgt, d) = e.target_of t.target.endpoint.typ t.target.endpoint.dsn w.target in
      after_close source_closed
        (with_target src tgt res (record (log_effect source_opened w) { target = d }))

  -- The body of `RunTask` between the two deferred calls.
  unfoldable pub run_body : RunResult → World L D → Option (RunResult × World L D)
  unfolding with_source
  run_body res w = with_source (e.source_of t.source.typ t.source.dsn) res w

abbrev pub id_of : Result ℕ → ℕ
id_of (ok id) = id
id_of (err _) = 0

module _ {L K D : Type 0} (e : Engine L K D) (t : Task) where
  -- The deferred calls: the record is finalized and the run observed, then the lease is released.
  unfoldable pub finish : ℕ → K → ℕ → RunResult → World L D → RunResult × World L D
  finish run_id tok began res w =
      let done = record res { duration = now w.store - began } in
      let (_, s) = finish_run run_id done w.store in
      let w' =
        if ltb 0 run_id then log_effect (run_finished run_id) (record w { store = s }) else w in
      let w'' =
        log_effect (observed t.name done.status done.ok_rows done.fail_rows done.duration) w' in
      (done, log_effect lease_released (record w'' { lock = e.reg.release tok w''.lock }))

  abbrev finished : ℕ → K → ℕ → Option (RunResult × World L D) → Option (RunResult × World L D)
  finished run_id tok began none = none
  finished run_id tok began (some (res, w)) = some (finish run_id tok began res w)

  -- The record of a skipped run, where it could be started.
  skip_recorded : Result ℕ → RunResult → Store → Store
  skip_recorded (err x) done s = s
  skip_recorded (ok n) done s = (finish_run n done s).1

  -- A run of a task that is under way: observed, and recorded if the record can be started.
  unfoldable pub skip : ℕ → RunResult → World L D → RunResult × World L D
  unfolding skip_recorded
  skip began res w =
      let done = record res {
        status = skipped;
        err = some still_active;
        duration = now w.store - began;
      } in
      let w' = log_effect (observed t.name done.status 0 0 done.duration) w in
      let (id, s) = start_run t.name res.trigger w'.store in
      (done, record w' { store = skip_recorded id done s })

  unfoldable pub run_acquired :
      Option K → ℕ → RunResult → World L D → Option (RunResult × World L D)
  run_acquired none began res w = some (skip began res w)
  run_acquired (some tok) began res w =
      let (id, s) = start_run t.name res.trigger w.store in
      finished (id_of id) tok began (run_body e t (id_of id) tok res (record w { store = s }))

  -- `RunTask`. `none`: the call does not return.
  unfoldable pub run_task : Text → World L D → Option (RunResult × World L D)
  unfolding run_acquired
  run_task trigger w =
      let (tok, l) = e.reg.acquire t.name w.lock in
      run_acquired tok (now w.store) (new_result t.name trigger) (record w { lock = l })
