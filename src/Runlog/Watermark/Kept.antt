-- ===== src/Runlog/Watermark/Kept.antt =====
-- What the reads and writes of watermarks leave alone.
use replicron.Base.{◌≡◌, refl, Text, lookup, erase, erase-insert, inl, inr}
use replicron.Model.{Value, Result, ok, err, Result-cases}
use replicron.Runlog.Statements.{StateRow, Store, statement}
use replicron.Runlog.Statements.Kept.{statement-states, statement-family, statement-keeps}
use replicron.Runlog.Statements.Lifecycle.{IsLog}
use replicron.Runlog.Watermark.{
  FloatText, get_watermark, set_watermark, encode_watermark, store_row,
}

pub get_watermark-states :
    (ft : FloatText) (task : Text) (s : Store)
    → (get_watermark ft task s).1.tables.states ≡ s.tables.states
unfolding get_watermark
get_watermark-states ft task s =
    elim (Result-cases (statement (λ _ t. (t, lookup task t.states)) s).0) [
      | inl (a, e) ↦ rw (e, get_watermark) (statement-states _ s (λ at t. refl))
      | inr (a, e) ↦ rw (e, get_watermark) (statement-states _ s (λ at t. refl))
    ]

store_row-others :
    (ft : FloatText) (task : Text) (row : Result StateRow) (s : Store)
    → erase task (store_row ft task row s).1.tables.states ≡ erase task s.tables.states
unfolding store_row
store_row-others ft task (err e) s = refl
store_row-others ft task (ok row) s =
    statement-family _ s (λ t. erase task t.states) (λ at t. erase-insert task row t.states)

-- A write of one task's watermark leaves the others'.
pub set_watermark-others :
    (ft : FloatText) (task : Text) (v : Value) (s : Store)
    → erase task (set_watermark ft task v s).1.tables.states ≡ erase task s.tables.states
unfolding set_watermark
set_watermark-others ft task v s = store_row-others ft task (encode_watermark ft v) s

store_row-IsLog :
    (ft : FloatText) (task : Text) (row : Result StateRow) (s : Store)
    → IsLog s.tables
    → IsLog (store_row ft task row s).1.tables
unfolding store_row
store_row-IsLog ft task (err e) s l = l
store_row-IsLog ft task (ok row) s l =
    statement-keeps IsLog _ s
      (λ at t h. record { ascending = h.ascending; issued = h.issued; settled = h.settled }) l

pub set_watermark-IsLog :
    (ft : FloatText) (task : Text) (v : Value) (s : Store)
    → IsLog s.tables
    → IsLog (set_watermark ft task v s).1.tables
unfolding set_watermark
set_watermark-IsLog ft task v s = store_row-IsLog ft task (encode_watermark ft v) s
