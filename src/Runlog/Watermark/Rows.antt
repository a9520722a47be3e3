-- ===== src/Runlog/Watermark/Rows.antt =====
-- The reads and writes of watermarks leave the rows of `runs`.
use replicron.Base.{ℕ, refl, Text, List, lookup, inl, inr}
use replicron.Model.{Value, Run, Result-cases}
use replicron.Runlog.Statements.{Store, statement}
use replicron.Runlog.Statements.Rows.{Holds, statement-Holds}
use replicron.Runlog.Watermark.{
  FloatText, get_watermark, set_watermark, encode_watermark, store_row,
}

module _ (runs : List Run) (seq : ℕ) where
  pub get_watermark-Holds :
      (ft : FloatText) (task : Text) (s : Store)
      → Holds runs seq s
      → Holds runs seq (get_watermark ft task s).1
  unfolding get_watermark
  get_watermark-Holds ft task s h =
      let kept =
        statement-Holds runs seq (λ _ t. (t, lookup task t.states)) s (λ at t. refl) (λ at t. refl)
          h in
      elim (Result-cases (statement (λ _ t. (t, lookup task t.states)) s).0) [
        | inl (a, e) ↦ rw (e, get_watermark) kept
        | inr (a, e) ↦ rw (e, get_watermark) kept
      ]

  pub set_watermark-Holds :
      (ft : FloatText) (task : Text) (v : Value) (s : Store)
      → Holds runs seq s
      → Holds runs seq (set_watermark ft task v s).1
  unfolding set_watermark store_row
  set_watermark-Holds ft task v s h = elim (Result-cases (encode_watermark ft v)) [
    | inl (row, e) ↦
        rw (e, store_row) (statement-Holds runs seq _ s (λ at t. refl) (λ at t. refl) h)
    | inr (x, e) ↦ rw (e, store_row) h
  ]
