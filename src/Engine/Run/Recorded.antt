-- ===== src/Engine/Run/Recorded.antt =====
-- The row that a run leaves in the run log.
use replicron.Base.{
  ℕ, suc, ◌<◌, ◌-◌, ◌≡◌, refl, Text, codes, List, [], ◌∷◌, ◌++◌, Option, none, some, true,
  Bool-cases, inl, inr, arith, ltb, All, All_imp,
}
use replicron.Base.Ints.{pos, ltb_ℤ}
use replicron.Base.Strings.{contains}
use replicron.Model.{Value, Run, RunResult, Error, Result, ok, err}
use replicron.Config.{Task, Incremental}
use replicron.Runlog.Statements.{
  Store, now, Payload, event, failed_rows, value, start_run, finalized,
}
use replicron.Runlog.Statements.Rows.{
  Holds, event-Holds, started_run, start_run-Holds, finish_run-last,
}
use replicron.Runlog.Statements.Lifecycle.{IsLog}
use replicron.Runlog.Watermark.{FloatText, set_watermark}
use replicron.Runlog.Watermark.Rows.{get_watermark-Holds, set_watermark-Holds}
use replicron.Engine.Watermark.{watermark_token, Tracker}
use replicron.Engine.Page.{State}
use replicron.Engine.Page.Kept.{Returns, Returns-some, page_done-Holds}
use replicron.Engine.Run.{
  World, Engine, new_result, prepare_query, prepare_incremental, finalize_watermark,
  finalized_store, after_persist, event_if, is_null, conclude, run_body, finish, finished, skip,
  skip_recorded, run_acquired, run_task,
}
use replicron.Engine.Run.Rule.{run_body-rule}

module _ (runs : List Run) (seq : ℕ) where
  event_if-Holds :
      (run_id id : ℕ) (kind : Text) (payload : Payload) (s : Store)
      → Holds runs seq s
      → Holds runs seq (event_if run_id (event id kind payload) s)
  event_if-Holds run_id id kind payload s h = elim (Bool-cases (ltb 0 run_id)) [
    | inl e ↦ rw e (event-Holds runs seq id kind payload s h)
    | inr e ↦ rw e h
  ]

  prepare_incremental-Holds :
      (ft : FloatText) (t : Task) (inc : Option Incremental) (s : Store)
      → Holds runs seq s
      → Holds runs seq (prepare_incremental ft t inc s).1
  unfolding prepare_incremental
  prepare_incremental-Holds ft t none s h = h
  prepare_incremental-Holds ft t (some i) s h =
      elim (Bool-cases (contains watermark_token t.source.query)) [
        | inl e ↦ rw (e, prepare_incremental) (get_watermark-Holds runs seq ft t.name s h)
        | inr e ↦ rw (e, prepare_incremental) h
      ]

  pub prepare_query-Holds :
      (ft : FloatText) (t : Task) (s : Store)
      → Holds runs seq s
      → Holds runs seq (prepare_query ft t s).1
  unfolding prepare_query
  prepare_query-Holds ft t s h = prepare_incremental-Holds ft t t.incremental s h

  after_persist-Holds :
      (run_id : ℕ) (v : Value) (saved : Result (Unit {0})) (s : Store)
      → Holds runs seq s
      → Holds runs seq (after_persist run_id v saved s)
  unfolding after_persist
  after_persist-Holds run_id v (err e) s h = h
  after_persist-Holds run_id v (ok _) s h =
      event_if-Holds run_id run_id (codes "watermark_advanced") (value v) s h

  finalize_watermark-Holds :
      (ft : FloatText) (t : Task) (run_id : ℕ) (res : RunResult) (wm : Tracker) (s : Store)
      → Holds runs seq s
      → Holds runs seq (finalize_watermark ft t run_id res wm s)
  unfolding finalize_watermark
  finalize_watermark-Holds ft t run_id res wm s h = elim (Bool-cases (ltb 0 res.fail_rows)) [
    | inl bad ↦
        rw (bad, finalize_watermark)
          (event_if-Holds run_id run_id (codes "watermark_held") (failed_rows res.fail_rows) s h)
    | inr fine ↦ elim (Bool-cases (is_null wm.max)) [
      | inl empty ↦ rw (fine, finalize_watermark) (rw empty h)
      | inr there ↦
          rw (fine, finalize_watermark)
            (rw there (
              after_persist-Holds run_id wm.max (set_watermark ft t.name wm.max s).0 _
                (set_watermark-Holds runs seq ft t.name wm.max s h)))
    ]
  ]

module _ {L K D : Type 0} (e : Engine L K D) (t : Task) (run_id : ℕ) (tok : K) (runs : List Run)
    (seq : ℕ) where
  finalized_store-Holds :
      (wm : Option Tracker) (res : RunResult) (s : Store)
      → Holds runs seq s
      → Holds runs seq (finalized_store e t run_id tok wm res s)
  unfolding finalized_store
  finalized_store-Holds none res s h = h
  finalized_store-Holds (some wm) res s h =
      finalize_watermark-Holds runs seq e.floats t run_id res wm s h

  conclude-Holds :
      (streamed : Option Error) (st : State L D) (w : World L D)
      → Holds runs seq st.store
      → Holds runs seq (conclude e t run_id tok streamed st w).1.store
  unfolding conclude
  conclude-Holds none st w h = finalized_store-Holds st.tracker _ st.store h
  conclude-Holds (some x) st w h = h

  pub run_body-Holds :
      (res : RunResult) (w : World L D)
      → ltb_ℤ (pos 0) t.target.batch_size ≡ true
      → Holds runs seq w.store
      → Returns (λ o. Holds runs seq o.1.store) (run_body e t run_id tok res w)
  run_body-Holds res w positive h =
      run_body-rule e t run_id tok positive (λ tgt. Unit {0}) (λ typ dsn d tgt k. tt)
        (Holds runs seq) (λ s k. prepare_query-Holds runs seq e.floats t s k)
        (λ st. Holds runs seq st.store) (λ r s. Holds runs seq s) res (λ l s d wm k. k)
        (λ st k w' p. p)
        (λ tgt x cols page st p eq k.
          page_done-Holds e.reg tgt t run_id tok runs seq page (record st { progress = p }) k)
        (λ x s k. k) (λ streamed st w' k. conclude-Holds streamed st w' k) w h

-- The row with the id `id` as the returned result fills it.
abbrev pub recorded_run : ℕ → Text → Text → RunResult → ℕ → ℕ → Run
recorded_run id task trigger res began at = record {
  id = id;
  task = task;
  trigger = trigger;
  status = res.status;
  total_rows = res.total_rows;
  ok_rows = res.ok_rows;
  fail_rows = res.fail_rows;
  error = res.err;
  samples = res.samples;
  started_at = began;
  finished_at = some at;
}

-- The run log gained one row, the last, which holds the returned result; its id is the last one issued, and no
-- later statement is refused either.
pub record IsRecorded {L D : Type 0} (t : Task) (trigger : Text) (s : Store)
    (o : RunResult × World L D) : Type 0 where
  pub at : ℕ
  pub row :
      o.1.store.tables.runs
      ≡ s.tables.runs ++ recorded_run (suc s.tables.run_seq) t.name trigger o.0 (now s) at ∷ []
  pub issued : o.1.store.tables.run_seq ≡ suc s.tables.run_seq
  pub accepting : (n : ℕ) → o.1.store.faults n ≡ none

below_next : (s : Store) → IsLog s.tables → All (λ q. q.id < suc s.tables.run_seq) s.tables.runs
below_next s l = All_imp (λ q h. omega arith) s.tables.runs l.issued

module _ {L K D : Type 0} (e : Engine L K D) (t : Task) (trigger : Text) where
  held-IsRecorded :
      (s : Store) (o : RunResult × World L D) (at : ℕ)
      → Holds
          (s.tables.runs ++ recorded_run (suc s.tables.run_seq) t.name trigger o.0 (now s) at ∷ [])
          (suc s.tables.run_seq)
          o.1.store
      → IsRecorded t trigger s o
  held-IsRecorded s o at h = record {
    at = at;
    row = h.same_runs;
    issued = h.same_seq;
    accepting = h.accepting;
  }

  finished-IsRecorded :
      (s : Store) (tok : K) (began : ℕ) (o : Option (RunResult × World L D))
      → IsLog s.tables
      → Returns
          (λ o.
            Holds
              (s.tables.runs ++ started_run (suc s.tables.run_seq) t.name trigger (now s) ∷ [])
              (suc s.tables.run_seq)
              o.1.store)
          o
      → Returns (IsRecorded t trigger s) (finished e t (suc s.tables.run_seq) tok began o)
  unfolding Returns finish finalized
  finished-IsRecorded s tok began none l h = h
  finished-IsRecorded s tok began (some (res, w)) l h =
      let id : ℕ = suc s.tables.run_seq in
      let done : RunResult = record res { duration = now w.store - began } in
      let begun : ltb 0 (suc s.tables.run_seq) ≡ true = ground arith in
      held-IsRecorded s _ (now w.store) (
        rw (begun, finish)
          (finish_run-last id done s.tables.runs id (started_run id t.name trigger (now s)) w.store
            (below_next s l) refl h))

  pub run_acquired-IsRecorded :
      (tok : Option K) (began : ℕ) (w : World L D)
      → ltb_ℤ (pos 0) t.target.batch_size ≡ true
      → IsLog w.store.tables
      → ((n : ℕ) → w.store.faults n ≡ none)
      → Returns
          (IsRecorded t trigger w.store)
          (run_acquired e t tok began (new_result t.name trigger) w)
  unfolding run_acquired Returns skip skip_recorded finalized
  run_acquired-IsRecorded none began w positive l h =
      let id : ℕ = suc w.store.tables.run_seq in
      let (started, held) = start_run-Holds t.name trigger w.store h in
      rw started (
        held-IsRecorded w.store _ (now (start_run t.name trigger w.store).1) (
          finish_run-last id _ w.store.tables.runs id _ (start_run t.name trigger w.store).1
            (below_next w.store l) refl held))
  run_acquired-IsRecorded (some tok) began w positive l h =
      let id : ℕ = suc w.store.tables.run_seq in
      let (started, held) = start_run-Holds t.name trigger w.store h in
      rw started (
        finished-IsRecorded w.store tok began _ l (
          run_body-Holds e t id tok _ id (new_result t.name trigger)
            (record w { store = (start_run t.name trigger w.store).1 }) positive held))

  -- Where the run log refuses no statement, a run of a task with a positive batch size returns, whether it
  -- was skipped or not, and the run log has one row more, the last: its id is the next one, and it holds the
  -- task, the trigger, and the status, the counts, the error and the samples that the run returns. Every
  -- other row is as before.
  pub run_task-IsRecorded :
      (w : World L D)
      → ltb_ℤ (pos 0) t.target.batch_size ≡ true
      → IsLog w.store.tables
      → ((n : ℕ) → w.store.faults n ≡ none)
      → (o : RunResult × World L D) × (run_task e t trigger w ≡ some o)
        × IsRecorded t trigger w.store o
  unfolding run_task
  run_task-IsRecorded w positive l h =
      Returns-some (IsRecorded t trigger w.store) _ (run_acquired-IsRecorded _ _ _ positive l h)
