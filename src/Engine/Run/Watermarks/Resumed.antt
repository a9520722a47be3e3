-- ===== src/Engine/Run/Watermarks/Resumed.antt =====
-- The run behind one that stored its watermark asks from there on.
use replicron.Base.{
  ℕ, ◌≡◌, refl, sym, ap, ◌∙◌, Text, Option, none, some, Bool-cases, inl, inr, lookup, Dict,
}
use replicron.Base.Strings.{contains, replace_all}
use replicron.Model.{Value, Row, succeeded, RunResult, ok, Result-cases, ok-injective}
use replicron.Config.{Task, Incremental}
use replicron.Runlog.Statements.{StateRow, Store, start_run}
use replicron.Runlog.Statements.Kept.{start_run-states}
use replicron.Runlog.Statements.Rows.{start_run-Holds}
use replicron.Runlog.Watermark.{FloatText, get_watermark}
use replicron.Runlog.Watermark.RoundTrip.{
  IsWatermark, widened, decode-encode, get_watermark-accepted,
}
use replicron.Engine.Watermark.{watermark_token, watermark_literal, Tracker}
use replicron.Engine.Watermark.Orderings.{Ordering}
use replicron.Engine.Run.{World, Engine, prepare_query, prepare_incremental, run_task}
use replicron.Engine.Run.Success.{IsSuccess, run_task-IsSuccess}
use replicron.Engine.Run.Watermarks.Advance.{IsStored}
use replicron.Engine.Run.Watermarks.Tracked.{IsAdvance}

-- The query is the task's, with the literal of the value in place of the token.
pub record AsksFrom (ft : FloatText) (t : Task) (v : Value) (query : Text) : Type 0 where
  pub lit : Text
  pub literal : watermark_literal ft v ≡ ok lit
  pub replaced : query ≡ replace_all t.source.query watermark_token lit

prepare_query-AsksFrom :
    (ft : FloatText) (t : Task) (inc : Incremental) (v : Value) (s : Store) (query : Text)
    (wm : Option Tracker)
    → t.incremental ≡ some inc
    → (get_watermark ft t.name s).0 ≡ ok (some v)
    → (prepare_query ft t s).0 ≡ ok (query, wm)
    → AsksFrom ft t v query
unfolding prepare_query prepare_incremental
prepare_query-AsksFrom ft t inc v s query wm t_inc got sent =
    let sent' = rw (t_inc, prepare_incremental) at sent in
    elim (Bool-cases (contains watermark_token t.source.query)) [
      | inl there ↦
          let made = rw (there, got) at sent' in
          elim (Result-cases (watermark_literal ft v)) [
            | inl (lit, literal) ↦ record {
              lit = lit;
              literal = literal;
              replaced = cc (rw literal at made);
            }
            | inr (x, refused) ↦ absurd (cc (rw refused at made))
          ]
      | inr missing ↦ absurd (cc (rw missing at sent'))
    ]

-- A watermark that was stored is got.
IsStored-get_watermark :
    (ft : FloatText) (task : Text) (max : Value) (before after : Dict StateRow) (s : Store)
    → IsStored ft task max before after
    → IsWatermark ft max
    → s.tables.states ≡ after
    → ((n : ℕ) → s.faults n ≡ none)
    → (get_watermark ft task s).0 ≡ ok (some (widened max))
IsStored-get_watermark ft task max before after s (IsStored.unstorable x refused kept) w same
      accepting =
    let (row, encoded, decoded) = decode-encode ft max w in absurd (cc (sym encoded ∙ refused))
IsStored-get_watermark ft task max before after s (IsStored.stored row encoded found) w same
      accepting =
    let (row', encoded', decoded) = decode-encode ft max w in
    let row_same : row ≡ row' = ok-injective (sym encoded ∙ encoded') in
    get_watermark-accepted ft task row s (accepting s.calls) (ap (lookup task) same ∙ found)
    ∙ rw (row_same, decoded) refl

module _ {L K D : Type 0} {A : Type 0} (e : Engine L K D) (t : Task) (inc : Incremental)
    (o : Ordering A) (read : Row → Option A) where
  -- Where a run of an incremental task advanced the watermark to a value that can be stored, the next run of it
  -- that succeeds, over a run log that has these watermarks and refuses no statement, streamed the task's query
  -- with the literal of that value, an int as an int64, in place of the token.
  pub IsAdvance-AsksFrom :
      (s : Store) (before after : Dict StateRow) (a : IsAdvance e t inc o read s before after)
      (trigger : Text) (w : World L D) (r : RunResult × World L D)
      → t.incremental ≡ some inc
      → IsWatermark e.floats a.max
      → w.store.tables.states ≡ after
      → ((n : ℕ) → w.store.faults n ≡ none)
      → run_task e t trigger w ≡ some r
      → r.0.status ≡ succeeded
      → (success : IsSuccess e t trigger w r) × AsksFrom e.floats t
          (widened a.max)
          success.body.query
  IsAdvance-AsksFrom s before after a trigger w r t_inc storable same accepting returns good =
      let success = run_task-IsSuccess e t trigger w r returns good in
      let body = success.body in
      let (started, held) = start_run-Holds t.name trigger w.store accepting in
      (
        success,
        prepare_query-AsksFrom e.floats t inc (widened a.max) (start_run t.name trigger w.store).1
            body.query body.wm t_inc
            (IsStored-get_watermark e.floats t.name a.max before after
              (start_run t.name trigger w.store).1 a.kept storable
              (start_run-states t.name trigger w.store ∙ same) held.accepting)
            body.sent,
      )
