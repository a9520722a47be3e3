-- ===== src/Engine/Run/Watermarks.antt =====
-- Which watermarks a run changes: none but its own task's, and that one only at a clean end.
pub mod Advance
pub mod Asked
pub mod Tracked
pub mod Resumed
use replicron.Base.{
  ℕ, ◌≡◌, refl, ap, ◌∙◌, Text, codes, Option, none, some, true, Bool-cases, inl, inr, arith, ltb,
  Dict, erase, ◌⊎◌,
}
use replicron.Base.Ints.{pos, ltb_ℤ}
use replicron.Model.{Value, succeeded, RunResult, Error, Result, ok, err}
use replicron.Config.{Task}
use replicron.Runlog.Statements.{StateRow, Store, Payload, event, value, failed_rows}
use replicron.Runlog.Statements.Kept.{start_run-states, finish_run-states, event-states}
use replicron.Runlog.Watermark.{FloatText, set_watermark}
use replicron.Runlog.Watermark.Kept.{set_watermark-others}
use replicron.Engine.Watermark.{Tracker}
use replicron.Engine.Page.{State}
use replicron.Engine.Page.Kept.{Returns, Returns-some, page_done-states}
use replicron.Engine.Run.{
  World, Engine, new_result, settle, finalize_watermark, finalized_store, after_persist, event_if,
  is_null, conclude, run_body, finish, finished, skip, skip_recorded, run_acquired, run_task,
}
use replicron.Engine.Run.Prepared.{prepare_query-states}
use replicron.Engine.Run.Rule.{run_body-rule}

-- From `before` to `after` a run of `task` that came to `res` changed no other task's watermark, and
-- its own only if it succeeded and no row failed.
pub record IsHeld (task : Text) (before : Dict StateRow) (res : RunResult) (after : Dict StateRow)
    : Type 0 where
  pub others : erase task after ≡ erase task before
  pub held : ((res.status ≡ succeeded) × (res.fail_rows ≡ 0)) ⊎ (after ≡ before)

same-IsHeld :
    (task : Text) (before : Dict StateRow) (res : RunResult) (after : Dict StateRow)
    → after ≡ before
    → IsHeld task before res after
same-IsHeld task before res after h = record { others = ap (erase task) h; held = inr h }

event_if-states :
    (run_id id : ℕ) (kind : Text) (payload : Payload) (s : Store)
    → (event_if run_id (event id kind payload) s).tables.states ≡ s.tables.states
event_if-states run_id id kind payload s = elim (Bool-cases (ltb 0 run_id)) [
  | inl h ↦ rw h (event-states id kind payload s)
  | inr h ↦ rw h refl
]

module _ (ft : FloatText) (t : Task) (run_id : ℕ) where
  after_persist-states :
      (v : Value) (saved : Result (Unit {0})) (s : Store)
      → (after_persist run_id v saved s).tables.states ≡ s.tables.states
  unfolding after_persist
  after_persist-states v (err e) s = refl
  after_persist-states v (ok _) s =
      event_if-states run_id run_id (codes "watermark_advanced") (value v) s

  finalize_watermark-held :
      (res : RunResult) (wm : Tracker) (s : Store)
      → ltb 0 res.fail_rows ≡ true
      → (finalize_watermark ft t run_id res wm s).tables.states ≡ s.tables.states
  unfolding finalize_watermark
  finalize_watermark-held res wm s h =
      rw (h, finalize_watermark)
        (event_if-states run_id run_id (codes "watermark_held") (failed_rows res.fail_rows) s)

  finalize_watermark-others :
      (res : RunResult) (wm : Tracker) (s : Store)
      → erase t.name (finalize_watermark ft t run_id res wm s).tables.states
        ≡ erase t.name s.tables.states
  unfolding finalize_watermark
  finalize_watermark-others res wm s = elim (Bool-cases (ltb 0 res.fail_rows)) [
    | inl bad ↦ ap (erase t.name) (finalize_watermark-held res wm s bad)
    | inr fine ↦ elim (Bool-cases (is_null wm.max)) [
      | inl empty ↦ rw (fine, finalize_watermark) (rw empty refl)
      | inr there ↦
          let (saved, s') = set_watermark ft t.name wm.max s in
          rw (fine, finalize_watermark)
            (rw there (
              ap (erase t.name) (after_persist-states wm.max saved s')
              ∙ set_watermark-others ft t.name wm.max s))
    ]
  ]

settle-held :
    (res : RunResult)
    → (((settle res).status ≡ succeeded) × ((settle res).fail_rows ≡ 0))
      ⊎ (ltb 0 (settle res).fail_rows ≡ true)
unfolding settle
settle-held res = elim (Bool-cases (ltb 0 res.fail_rows)) [
  | inl bad ↦ inr (ground arith)
  | inr clean ↦ inl (ground arith)
]

module _ {L K D : Type 0} (e : Engine L K D) (t : Task) (run_id : ℕ) (tok : K) where
  finalized_store-IsHeld :
      (wm : Option Tracker) (res : RunResult) (s : Store) (before : Dict StateRow)
      → s.tables.states ≡ before
      → IsHeld t.name before
          (settle res)
          (finalized_store e t run_id tok wm (settle res) s).tables.states
  unfolding finalized_store
  finalized_store-IsHeld none res s before h = same-IsHeld t.name before (settle res) _ h
  finalized_store-IsHeld (some wm) res s before h = record {
    others = finalize_watermark-others e.floats t run_id (settle res) wm s ∙ ap (erase t.name) h;
    held = elim (settle-held res) [
      | inl clean ↦ inl clean
      | inr bad ↦ inr (finalize_watermark-held e.floats t run_id (settle res) wm s bad ∙ h)
    ];
  }

  conclude-IsHeld :
      (streamed : Option Error) (st : State L D) (w : World L D) (before : Dict StateRow)
      → st.store.tables.states ≡ before
      → let (res, w') = conclude e t run_id tok streamed st w in
        IsHeld t.name before res w'.store.tables.states
  unfolding conclude
  conclude-IsHeld none st w before h = finalized_store-IsHeld st.tracker _ st.store before h
  conclude-IsHeld (some x) st w before h = same-IsHeld t.name before _ _ h

  run_body-IsHeld :
      (trigger : Text) (w : World L D) (before : Dict StateRow)
      → w.store.tables.states ≡ before
      → ltb_ℤ (pos 0) t.target.batch_size ≡ true
      → Returns
          (λ o. IsHeld t.name before o.0 o.1.store.tables.states)
          (run_body e t run_id tok (new_result t.name trigger) w)
  run_body-IsHeld trigger w before same positive =
      run_body-rule e t run_id tok positive (λ tgt. Unit {0}) (λ typ dsn d tgt h. tt)
        (λ s. s.tables.states ≡ before) (λ s h. prepare_query-states e.floats t s ∙ h)
        (λ st. st.store.tables.states ≡ before) (λ res s. IsHeld t.name before res s.tables.states)
        (new_result t.name trigger) (λ l s d wm h. h) (λ st k w' h. h)
        (λ tgt x cols page st p eq h.
          page_done-states e.reg tgt t run_id tok page (record st { progress = p }) ∙ h)
        (λ x s h. same-IsHeld t.name before _ _ h)
        (λ streamed st w' h. conclude-IsHeld streamed st w' before h) w same

module _ {L K D : Type 0} (e : Engine L K D) (t : Task) where
  pub finish-states :
      (run_id : ℕ) (tok : K) (began : ℕ) (res : RunResult) (w : World L D)
      → (finish e t run_id tok began res w).1.store.tables.states ≡ w.store.tables.states
  unfolding finish
  finish-states run_id tok began res w = elim (Bool-cases (ltb 0 run_id)) [
    | inl h ↦ rw (h, finish) (finish_run-states run_id _ w.store)
    | inr h ↦ rw (h, finish) refl
  ]

  skip_recorded-states :
      (id : Result ℕ) (done : RunResult) (s : Store)
      → (skip_recorded e t id done s).tables.states ≡ s.tables.states
  unfolding skip_recorded
  skip_recorded-states (err x) done s = refl
  skip_recorded-states (ok n) done s = finish_run-states n done s

  finished-IsHeld :
      (before : Dict StateRow) (run_id : ℕ) (tok : K) (began : ℕ)
      (o : Option (RunResult × World L D))
      → Returns (λ o. IsHeld t.name before o.0 o.1.store.tables.states) o
      → Returns
          (λ o. IsHeld t.name before o.0 o.1.store.tables.states)
          (finished e t run_id tok began o)
  unfolding Returns finish
  finished-IsHeld before run_id tok began none h = h
  finished-IsHeld before run_id tok began (some (res, w)) h =
      let same = finish-states run_id tok began res w in
      record {
        others = ap (erase t.name) same ∙ h.others;
        held = elim h.held [ inl clean ↦ inl clean | inr kept ↦ inr (same ∙ kept) ];
      }

  run_acquired-IsHeld :
      (tok : Option K) (began : ℕ) (trigger : Text) (w : World L D)
      → ltb_ℤ (pos 0) t.target.batch_size ≡ true
      → Returns
          (λ o. IsHeld t.name w.store.tables.states o.0 o.1.store.tables.states)
          (run_acquired e t tok began (new_result t.name trigger) w)
  unfolding run_acquired Returns skip
  run_acquired-IsHeld none began trigger w positive =
      same-IsHeld t.name w.store.tables.states _ _
        (skip_recorded-states _ _ _ ∙ start_run-states t.name trigger w.store)
  run_acquired-IsHeld (some tok) began trigger w positive =
      finished-IsHeld w.store.tables.states _ tok began _ (
        run_body-IsHeld e t _ tok trigger _ w.store.tables.states
          (start_run-states t.name trigger w.store) positive)

  -- Whatever a run of a task with a positive batch size meets, it changes no other task's watermark, and
  -- unless it succeeds without a failed row it leaves its own watermark too.
  pub run_task-IsHeld :
      (trigger : Text) (w : World L D)
      → ltb_ℤ (pos 0) t.target.batch_size ≡ true
      → (o : RunResult × World L D) × (run_task e t trigger w ≡ some o)
        × IsHeld t.name w.store.tables.states o.0 o.1.store.tables.states
  unfolding run_task
  run_task-IsHeld trigger w positive =
      Returns-some (λ o. IsHeld t.name w.store.tables.states o.0 o.1.store.tables.states) _
        (run_acquired-IsHeld _ _ trigger (record w { lock = (e.reg.acquire t.name w.lock).1 })
          positive)
