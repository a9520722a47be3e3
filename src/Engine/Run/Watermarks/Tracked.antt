-- ===== src/Engine/Run/Watermarks/Tracked.antt =====
-- What an incremental run stores: the largest value of its column over all the rows of its query.
use replicron.Base.{
  ℕ, ◌≡◌, refl, sym, ap, false, ◌∙◌, Text, List, [], ◌∷◌, map, concat, Option, none, some, inl, inr,
  subst, All, Dict,
}
use replicron.Model.{Value, Row, succeeded, RunResult, ok, ok-injective}
use replicron.Config.{Task, Incremental}
use replicron.Connector.Conn.{get_value}
use replicron.Runlog.Statements.{StateRow, Store, now, start_run}
use replicron.Runlog.Statements.Kept.{start_run-states}
use replicron.Runlog.Statements.Rows.{start_run-Holds}
use replicron.Engine.Watermark.{Tracker, fresh}
use replicron.Engine.Watermark.Orderings.{Ordering}
use replicron.Engine.Watermark.Maximum.{value_of, IsMaximum, observe-IsMaximum}
use replicron.Engine.Page.{State}
use replicron.Engine.Page.Shown.{IsTracked, IsShown, deliver-IsShown}
use replicron.Engine.Run.Success.{run_task-IsSuccess}
use replicron.Engine.Run.{
  World, SourceConn, Engine, new_result, prepare_query, finish, run_task, id_of, finalized_store,
}
use replicron.Engine.Run.Recorded.{prepare_query-Holds}
use replicron.Engine.Run.Prepared.{prepare_query-states, prepare_query-IsPrepared}
use replicron.Engine.Run.Watermarks.{finish-states}
use replicron.Engine.Run.Watermarks.Asked.{Asked, prepare_query-Asked}
use replicron.Engine.Run.Watermarks.Advance.{IsStored, finalized_store-IsStored}

map-typed :
    {A : Type 0} (o : Ordering A) (column : Text) (read : Row → Option A) (rows : List Row)
    → All (λ r. get_value r column ≡ value_of o (read r)) rows
    → map (λ r. get_value r column) rows ≡ map (value_of o) (map read rows)
map-typed o column read [] h = refl
map-typed o column read (r ∷ rows) (e, h) = rw (e, map-typed o column read rows h) refl

module _ {L K D : Type 0} {A : Type 0} (e : Engine L K D) (t : Task) (inc : Incremental)
    (o : Ordering A) (read : Row → Option A) where
  -- The rows of a query.
  abbrev pub rows_of : SourceConn → Text → List Row
  rows_of src query = concat (src query t.page_size).pages

  -- From the run log `s` a run came to the watermarks `after`: it opened its source, prepared its query, which
  -- has the literal of the watermark `before` or the initial one in it, and the rows of the query came to an end
  -- without an error; `max` is the maximum of their column.
  pub record IsAdvance (s : Store) (before after : Dict StateRow) : Type 0 where
    pub src : SourceConn
    pub query : Text
    pub max : Value
    pub opened : e.source_of t.source.typ t.source.dsn ≡ ok src
    pub sent : (prepare_query e.floats t s).0 ≡ ok (query, some (fresh inc.column))
    pub asked : Asked e.floats t inc before query
    pub ended : (src query t.page_size).ending ≡ none
    pub largest : IsMaximum o inc.column max (map read (rows_of src query))
    pub kept : IsStored e.floats t.name max before after

  prepared_tracker :
      (s : Store) (query : Text) (wm : Option Tracker)
      → t.incremental ≡ some inc
      → (prepare_query e.floats t s).0 ≡ ok (query, wm)
      → wm ≡ some (fresh inc.column)
  prepared_tracker s query wm t_inc sent = elim (prepare_query-IsPrepared e.floats t inc s t_inc) [
    | inl (q, made) ↦ cc (sym sent ∙ made)
    | inr (x, refused) ↦ absurd (cc (sym sent ∙ refused))
  ]

  -- What the store holds before the first page.
  begun-IsTracked :
      (trigger : Text) (s : Store) (l : L) (d : D) (wm : Option Tracker)
      → wm ≡ some (fresh inc.column)
      → ((n : ℕ) → s.faults n ≡ none)
      → IsTracked s.tables.states (fresh inc.column) (record {
        lock = l;
        store = (prepare_query e.floats t (start_run t.name trigger s).1).1;
        progress = record { res = new_result t.name trigger; target = d };
        keys_checked = false;
        tracker = wm;
        total_seen = 0;
      })
  begun-IsTracked trigger s l d wm made accepting =
      let s' : Store = (start_run t.name trigger s).1 in
      let (started, held) = start_run-Holds t.name trigger s accepting in
      record {
        holds = made;
        same_states = prepare_query-states e.floats t s' ∙ start_run-states t.name trigger s;
        accepting = (prepare_query-Holds _ _ e.floats t s' held).accepting;
      }

  -- The tracker at the end of the stream holds the maximum of the column.
  shown-IsMaximum :
      (states : Dict StateRow) (rows : List Row) (st : State L D)
      (shown : IsShown states (fresh inc.column) rows st)
      → All (λ r. get_value r inc.column ≡ value_of o (read r)) rows
      → IsMaximum o inc.column shown.last.max (map read rows)
  shown-IsMaximum states rows st shown typed =
      let (m, seen, biggest) =
        observe-IsMaximum o inc.column rows (map read rows)
          (map-typed o inc.column read rows typed) in
      subst (λ (x : Tracker). IsMaximum o inc.column x.max (map read rows))
        (ok-injective (sym seen ∙ shown.observed)) biggest

  -- Where the source's column holds nil or values of one of the types with an Ordering, texts, integers or times
  -- but not floats, and the run log refuses no statement: a run of an incremental task that succeeds without a
  -- failed row sent the task's query with, in place of the token, the literal of the value that the run log
  -- stored for the task, or the initial literal where it stored none; the rows of that query came to an end without an error, and the largest value of the column among all of
  -- them is stored for the task, if there is one and it is of a kind that can be stored, else the watermarks
  -- are as before.
  pub run_task-IsAdvance :
      (trigger : Text) (w : World L D) (r : RunResult × World L D)
      → t.incremental ≡ some inc
      → ((src : SourceConn) (query : Text)
          → e.source_of t.source.typ t.source.dsn ≡ ok src
          → All (λ r. get_value r inc.column ≡ value_of o (read r)) (rows_of src query))
      → ((n : ℕ) → w.store.faults n ≡ none)
      → run_task e t trigger w ≡ some r
      → r.0.status ≡ succeeded
      → r.0.fail_rows ≡ 0
      → IsAdvance (start_run t.name trigger w.store).1 w.store.tables.states r.1.store.tables.states
  unfolding finish
  run_task-IsAdvance trigger w r t_inc typed accepting returns good clean =
      let success = run_task-IsSuccess e t trigger w r returns good in
      let body = success.body in
      let stream = body.stream in
      let run_id : ℕ = id_of (start_run t.name trigger w.store).0 in
      let made =
        prepared_tracker (start_run t.name trigger w.store).1 body.query body.wm t_inc body.sent in
      let (ended, shown) =
        deliver-IsShown e.reg body.tgt t run_id success.tok w.store.tables.states (fresh inc.column)
          (body.src body.query t.page_size).pages (body.src body.query t.page_size).ending _
          stream.last stream.count
          (begun-IsTracked trigger w.store success.held body.opened_target body.wm made accepting)
          stream.streamed in
      let none_failed : success.end.0.fail_rows ≡ 0 =
        ap (λ (x : RunResult × World L D). x.0.fail_rows) success.finish_made ∙ clean in
      let left : r.1.store.tables.states
          ≡ (finalized_store e t run_id success.tok stream.last.tracker success.end.0
              stream.last.store).tables.states =
        ap (λ (x : RunResult × World L D). x.1.store.tables.states) (sym success.finish_made)
        ∙ finish-states e t run_id success.tok (now w.store) success.end.0 success.end.1
        ∙ ap (λ (x : Store). x.tables.states) stream.left_store in
      record {
        src = body.src;
        query = body.query;
        max = shown.last.max;
        opened = body.source_made;
        sent = body.sent ∙ ap (λ x. ok (body.query, x)) made;
        asked =
            subst (λ x. Asked e.floats t inc x body.query) (start_run-states t.name trigger w.store)
              (prepare_query-Asked e.floats t inc (start_run t.name trigger w.store).1 body.query
                body.wm t_inc ((start_run-Holds t.name trigger w.store accepting).1.accepting _)
                body.sent);
        ended = ended;
        largest =
            shown-IsMaximum w.store.tables.states (rows_of body.src body.query) stream.last shown
              (typed body.src body.query body.source_made);
        kept = subst (IsStored e.floats t.name shown.last.max w.store.tables.states) (sym left) (
            finalized_store-IsStored e t run_id success.tok w.store.tables.states shown.last
              success.end.0 stream.last shown.tracked none_failed);
      }
