-- ===== src/Engine/Run/Rule.antt =====
-- The rule for what a run comes to: what its start gives, each page keeps and its conclusion needs.
use replicron.Base.{ℕ, ◌≡◌, refl, Text, List, Option, none, some, Bool, true, false}
use replicron.Base.Ints.{pos, ltb_ℤ}
use replicron.Model.{Row, RunResult, Error, Result, ok, err, open_source, open_target}
use replicron.Config.{Task}
use replicron.Runlog.Statements.{Store}
use replicron.Engine.Watermark.{Tracker}
use replicron.Engine.Batch.{TargetConn, Progress, put_page}
use replicron.Engine.Page.{State, page_done}
use replicron.Engine.Page.Kept.{Returns, deliver-keeps}
use replicron.Engine.Run.{
  World, SourceConn, Engine, Effect, source_opened, source_closed, target_opened, target_closed,
  log_effect, fail, prepare_query, conclude, concluded, stream_run, prepared, after_close,
  with_target, with_source, run_body,
}

module _ {L K D : Type 0} (e : Engine L K D) (t : Task) (run_id : ℕ) (tok : K)
    (positive : ltb_ℤ (pos 0) t.target.batch_size ≡ true) (Good : TargetConn D → Type 0)
    (good : (typ dsn : Text) (d : D) (tgt : TargetConn D)
      → (e.target_of typ dsn d).0 ≡ ok tgt
      → Good tgt)
    (Start : Store → Type 0) (read : (s : Store) → Start s → Start (prepare_query e.floats t s).1)
    (P : State L D → Type 0) (Q : RunResult → Store → Type 0) (res : RunResult)
    (started : (l : L) (s : Store) (d : D) (wm : Option Tracker)
      → Start s
      → P (record {
        lock = l;
        store = s;
        progress = record { res = res; target = d };
        keys_checked = false;
        tracker = wm;
        total_seen = 0;
      }))
    (checked : (st : State L D) (k : Bool) (w : Option Tracker)
      → P st
      → P (record st { keys_checked = k; tracker = w }))
    (written : (tgt : TargetConn D)
      → Good tgt
      → (cols : List Text) (page : List Row) (st : State L D) (p : Progress D)
      → put_page tgt t cols page st.progress ≡ some p
      → P st
      → P (page_done e.reg tgt t run_id tok page (record st { progress = p })))
    (failed_early : (x : Error) (s : Store) → Start s → Q (fail x res) s)
    (concludes : (streamed : Option Error) (st : State L D) (w : World L D)
      → P st
      → Q
          (conclude e t run_id tok streamed st w).0
          (conclude e t run_id tok streamed st w).1.store) where
  abbrev Fine : RunResult × World L D → Type 0
  Fine o = Q o.0 o.1.store

  concluded-rule :
      (streamed : Option Error) (st : Option (State L D)) (w : World L D)
      → Returns P st
      → Returns Fine (concluded e t run_id tok streamed st w)
  unfolding Returns
  concluded-rule streamed none w h = h
  concluded-rule streamed (some st) w h = concludes streamed st w h

  stream_run-rule :
      (src : SourceConn) (tgt : TargetConn D) (query : Text) (wm : Option Tracker) (w : World L D)
      → Good tgt
      → Start w.store
      → Returns Fine (stream_run e t run_id tok src tgt query wm res w)
  unfolding stream_run Returns
  stream_run-rule src tgt query wm w g h = concluded-rule _ _ w (
      deliver-keeps e.reg tgt t run_id tok positive P checked (written tgt g)
        (src query t.page_size).pages (src query t.page_size).ending 0 (some _)
        (started w.lock w.store w.target wm h))

  prepared-rule :
      (src : SourceConn) (tgt : TargetConn D) (q : Result (Text × Option Tracker)) (w : World L D)
      → Good tgt
      → Start w.store
      → Returns Fine (prepared e t run_id tok src tgt q res w)
  unfolding prepared Returns
  prepared-rule src tgt (err x) w g h = failed_early x w.store h
  prepared-rule src tgt (ok (query, wm)) w g h = stream_run-rule src tgt query wm w g h

  after_close-rule :
      (x : Effect) (o : Option (RunResult × World L D))
      → Returns Fine o
      → Returns Fine (after_close e t run_id tok x o)
  unfolding Returns
  after_close-rule x none h = h
  after_close-rule x (some (r, w)) h = h

  with_target-rule :
      (src : SourceConn) (tgt : Result (TargetConn D)) (w : World L D)
      → ((c : TargetConn D) → tgt ≡ ok c → Good c)
      → Start w.store
      → Returns Fine (with_target e t run_id tok src tgt res w)
  unfolding with_target Returns
  with_target-rule src (err x) w g h = failed_early (open_target x) w.store h
  with_target-rule src (ok tgt) w g h =
      let (q, s) = prepare_query e.floats t w.store in
      after_close-rule target_closed _ (
        prepared-rule src tgt q (record (log_effect target_opened w) { store = s }) (g tgt refl)
          (read w.store h))

  with_source-rule :
      (src : Result SourceConn) (w : World L D)
      → Start w.store
      → Returns Fine (with_source e t run_id tok src res w)
  unfolding with_source Returns
  with_source-rule (err x) w h = failed_early (open_source x) w.store h
  with_source-rule (ok src) w h =
      let typ : Text = t.target.endpoint.typ in
      let dsn : Text = t.target.endpoint.dsn in
      let (tgt, d) = e.target_of typ dsn w.target in
      after_close-rule source_closed _ (
        with_target-rule src tgt (record (log_effect source_opened w) { target = d })
          (good typ dsn w.target) h)

  -- The body of a run returns, and what it returns is fine.
  pub run_body-rule : (w : World L D) → Start w.store → Returns Fine (run_body e t run_id tok res w)
  unfolding run_body
  run_body-rule w h = with_source-rule (e.source_of t.source.typ t.source.dsn) w h
