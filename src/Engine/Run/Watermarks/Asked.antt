-- ===== src/Engine/Run/Watermarks/Asked.antt =====
-- internal/engine/engine.go: the query that an incremental run sends.
use replicron.Base.{
  ◌≡◌, refl, Text, Option, none, some, Bool-cases, Option-cases, inl, inr, lookup, Dict,
}
use replicron.Base.Strings.{contains, replace_all}
use replicron.Model.{Value, ok, Result-cases}
use replicron.Config.{Task, Incremental}
use replicron.Runlog.Statements.{StateRow, Store}
use replicron.Runlog.Statements.Kept.{statement-accepted}
use replicron.Runlog.Watermark.{FloatText, get_watermark, decode_row, decode_watermark}
use replicron.Runlog.Watermark.RoundTrip.{get_watermark-accepted}
use replicron.Engine.Watermark.{watermark_token, watermark_literal, Tracker}
use replicron.Engine.Run.{prepare_query, prepare_incremental}

-- The task's query with a literal in place of the token: the initial literal where the watermarks have no row
-- for the task, else the literal of the value that its row holds.
pub data Asked (ft : FloatText) (t : Task) (inc : Incremental) (states : Dict StateRow)
    (query : Text) : Type 0 where
  from_initial :
      lookup t.name states ≡ none
      → query ≡ replace_all t.source.query watermark_token inc.initial
      → Asked ft t inc states query
  from_stored :
      (row : StateRow) (v : Value) (lit : Text)
      → lookup t.name states ≡ some row
      → decode_watermark ft row ≡ ok v
      → watermark_literal ft v ≡ ok lit
      → query ≡ replace_all t.source.query watermark_token lit
      → Asked ft t inc states query

-- Without a row there is no watermark.
get_watermark-absent :
    (ft : FloatText) (task : Text) (s : Store)
    → s.faults s.calls ≡ none
    → lookup task s.tables.states ≡ none
    → (get_watermark ft task s).0 ≡ ok none
unfolding get_watermark decode_row
get_watermark-absent ft task s h l =
    rw (statement-accepted (λ _ t. (t, lookup task t.states)) s h, get_watermark, l) refl

module _ (ft : FloatText) (t : Task) (inc : Incremental) (s : Store) (query : Text)
    (wm : Option Tracker) (t_inc : t.incremental ≡ some inc) (accepted : s.faults s.calls ≡ none)
    (sent : (prepare_query ft t s).0 ≡ ok (query, wm)) where
  unsealed : (prepare_incremental ft t (some inc) s).0 ≡ ok (query, wm)
  unfolding prepare_query
  unsealed = rw t_inc at sent

  absent-Asked : lookup t.name s.tables.states ≡ none → Asked ft t inc s.tables.states query
  unfolding prepare_incremental
  absent-Asked free =
      let got = get_watermark-absent ft t.name s accepted free in
      elim (Bool-cases (contains watermark_token t.source.query)) [
        | inl there ↦
            Asked.from_initial free
              (let made = rw (prepare_incremental, there, got) at unsealed in cc made)
        | inr missing ↦ absurd (cc (rw (prepare_incremental, missing) at unsealed))
      ]

  stored-Asked :
      (row : StateRow)
      → lookup t.name s.tables.states ≡ some row
      → Asked ft t inc s.tables.states query
  unfolding prepare_incremental
  stored-Asked row found =
      let got = get_watermark-accepted ft t.name row s accepted found in
      elim (Bool-cases (contains watermark_token t.source.query)) [
        | inr missing ↦ absurd (cc (rw (prepare_incremental, missing) at unsealed))
        | inl there ↦
            let made = rw (prepare_incremental, there, got) at unsealed in
            elim (Result-cases (decode_watermark ft row)) [
              | inr (x, garbled) ↦ absurd (cc (rw garbled at made))
              | inl (v, decoded) ↦
                  let made' = rw decoded at made in
                  elim (Result-cases (watermark_literal ft v)) [
                    | inl (lit, literal) ↦
                        Asked.from_stored row v lit found decoded literal (cc (rw literal at made'))
                    | inr (x, refused) ↦ absurd (cc (rw refused at made'))
                  ]
            ]
      ]

  -- The query of an incremental task, prepared over a run log that answers.
  pub prepare_query-Asked : Asked ft t inc s.tables.states query
  prepare_query-Asked = elim (Option-cases (lookup t.name s.tables.states)) [
    | inl free ↦ absent-Asked free
    | inr (row, found) ↦ stored-Asked row found
  ]
