-- ===== src/Engine/Run/Watermarks/Advance.antt =====
-- A clean end of an incremental run stores the maximum that the tracker holds.
use replicron.Base.{
  ℕ, ◌≡◌, refl, ap, ◌∙◌, Text, codes, none, some, false, arith, ltb, lookup, lookup-insert,
  text_eq_refl, if◌then◌else◌, Bool-cases, inl, inr, subst, Dict,
}
use replicron.Model.{
  Value, null, int, int64, float64, text, bytes, time, bool, other, RunResult, Error, ok, err,
  Result-cases,
}
use replicron.Config.{Task}
use replicron.Runlog.Statements.{StateRow, Store, value}
use replicron.Runlog.Watermark.{FloatText, encode_watermark}
use replicron.Runlog.Watermark.RoundTrip.{set_watermark-accepted, set_watermark-unsupported}
use replicron.Engine.Watermark.{Tracker}
use replicron.Engine.Page.{State}
use replicron.Engine.Page.Shown.{IsTracked}
use replicron.Engine.Run.{
  World, Engine, settle, finalize_watermark, finalized_store, after_persist, is_null, conclude,
}
use replicron.Engine.Run.Watermarks.{event_if-states}

encode_watermark-present :
    (ft : FloatText) (v : Value) (row : StateRow)
    → encode_watermark ft v ≡ ok row
    → is_null v ≡ false
unfolding encode_watermark
encode_watermark-present ft null row h = absurd (cc h)
encode_watermark-present ft (int x) row h = refl
encode_watermark-present ft (int64 x) row h = refl
encode_watermark-present ft (float64 x) row h = refl
encode_watermark-present ft (text x) row h = refl
encode_watermark-present ft (bytes x) row h = refl
encode_watermark-present ft (time x) row h = refl
encode_watermark-present ft (bool x) row h = refl
encode_watermark-present ft (other x) row h = refl

finalize_watermark-stores :
    (ft : FloatText) (t : Task) (run_id : ℕ) (res : RunResult) (wm : Tracker) (s : Store)
    (row : StateRow)
    → ltb 0 res.fail_rows ≡ false
    → encode_watermark ft wm.max ≡ ok row
    → s.faults s.calls ≡ none
    → lookup t.name (finalize_watermark ft t run_id res wm s).tables.states ≡ some row
unfolding finalize_watermark after_persist
finalize_watermark-stores ft t run_id res wm s row clean e h =
    rw (clean, finalize_watermark)
      (rw
        (
          encode_watermark-present ft wm.max row e,
          set_watermark-accepted ft t.name wm.max row s e h,
        )
        (ap (lookup t.name)
            (event_if-states run_id run_id (codes "watermark_advanced") (value wm.max) _)
          ∙ lookup-insert t.name t.name row s.tables.states
          ∙ ap (λ b. if b then some row else lookup t.name s.tables.states) (text_eq_refl t.name)))

settle-fail_rows : (res : RunResult) → (settle res).fail_rows ≡ res.fail_rows
unfolding settle
settle-fail_rows res = ground arith

-- What becomes of a maximum at the end of a run: nothing where it is nil or of a kind that is not stored, else
-- it is stored for the task.
pub data IsStored (ft : FloatText) (task : Text) (max : Value) (before after : Dict StateRow)
    : Type 0 where
  unstorable :
      (e : Error)
      → encode_watermark ft max ≡ err e
      → after ≡ before
      → IsStored ft task max before after
  stored :
      (row : StateRow)
      → encode_watermark ft max ≡ ok row
      → lookup task after ≡ some row
      → IsStored ft task max before after

finalize_watermark-IsStored :
    (ft : FloatText) (t : Task) (run_id : ℕ) (res : RunResult) (wm : Tracker) (s : Store)
    → res.fail_rows ≡ 0
    → ((n : ℕ) → s.faults n ≡ none)
    → IsStored ft t.name wm.max s.tables.states
        (finalize_watermark ft t run_id res wm s).tables.states
unfolding finalize_watermark after_persist
finalize_watermark-IsStored ft t run_id res wm s clean accepting =
    let none_failed : ltb 0 res.fail_rows ≡ false = rw clean refl in
    elim (Result-cases (encode_watermark ft wm.max)) [
      | inl (row, e) ↦
          stored row e
            (finalize_watermark-stores ft t run_id res wm s row none_failed e (accepting s.calls))
      | inr (x, e) ↦ unstorable x e (elim (Bool-cases (is_null wm.max)) [
        | inl empty ↦ rw (none_failed, finalize_watermark) (rw empty refl)
        | inr there ↦
            rw (none_failed, finalize_watermark)
              (rw (there, set_watermark-unsupported ft t.name wm.max x s e) refl)
      ])
    ]

module _ {L K D : Type 0} (e : Engine L K D) (t : Task) (run_id : ℕ) (tok : K) where
  -- Where the stream of an incremental run ends without an error and no row failed, and the tracker holds a
  -- value that can be stored, that value is stored for the task, unless the statement is refused.
  pub conclude-advances :
      (st : State L D) (w : World L D) (wm : Tracker) (row : StateRow)
      → st.tracker ≡ some wm
      → st.progress.res.fail_rows ≡ 0
      → encode_watermark e.floats wm.max ≡ ok row
      → st.store.faults st.store.calls ≡ none
      → lookup t.name (conclude e t run_id tok none st w).1.store.tables.states ≡ some row
  unfolding conclude finalized_store
  conclude-advances st w wm row h clean enc accepted =
      let res : RunResult = record st.progress.res { total_rows = st.total_seen } in
      let none_failed : ltb 0 (settle res).fail_rows ≡ false =
        rw (settle-fail_rows res, clean) refl in
      rw (h, finalized_store)
        (finalize_watermark-stores e.floats t run_id (settle res) wm st.store row none_failed enc
          accepted)

pub finalized_store-IsStored :
    {L K D : Type 0} (e : Engine L K D) (t : Task) (run_id : ℕ) (tok : K) (states : Dict StateRow)
    (last : Tracker) (res : RunResult) (st : State L D)
    → IsTracked states last st
    → res.fail_rows ≡ 0
    → IsStored e.floats t.name last.max states
        (finalized_store e t run_id tok st.tracker res st.store).tables.states
unfolding finalized_store
finalized_store-IsStored e t run_id tok states last res st h clean =
    rw (h.holds, finalized_store)
      (subst
        (λ x.
          IsStored e.floats t.name last.max x
            (finalize_watermark e.floats t run_id res last st.store).tables.states)
        h.same_states
        (finalize_watermark-IsStored e.floats t run_id res last st.store clean h.accepting))
