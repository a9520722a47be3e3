-- ===== src/Runlog/Watermark/RoundTrip.antt =====
-- A watermark that is stored is the one that is read.
use replicron.Base.{
  suc, ◌≡◌, refl, ap, ◌∙◌, Text, Option, none, some, lookup, insert, lookup-insert, text_eq,
  text_eq_refl, erase, erase-insert, if◌then◌else◌,
}
use replicron.Base.Ints.{InRange64}
use replicron.Base.Decimal.{parse_int-format_int}
use replicron.Model.{
  Value, null, int, int64, float64, text, bytes, time, bool, other, Error, Result, ok, err,
}
use replicron.Model.Times.RoundTrip.{IsTime, parse_rfc3339_nano-format_rfc3339_nano}
use replicron.Runlog.Statements.{StateRow, Tables, Store}
use replicron.Runlog.Statements.Kept.{statement-accepted}
use replicron.Runlog.Watermark.{
  FloatText, encode_watermark, decode_watermark, decode_row, get_watermark, store_row,
  set_watermark,
}

-- The values that a watermark takes: an integer of 64 bits, a float that the printer and the reader of
-- floats agree on, a time in the years 0 to 9999, or any text.
abbrev pub IsWatermark : FloatText → Value → Type 0
IsWatermark ft (int x) = InRange64 x
IsWatermark ft (int64 x) = InRange64 x
IsWatermark ft (float64 x) = ft.parse (ft.format x) ≡ some x
IsWatermark ft (time t) = IsTime t
IsWatermark ft (text x) = Unit
IsWatermark ft _ = ⊥

-- A value as it comes back: an `int` has become an `int64`.
unfoldable pub widened : Value → Value
widened (int x) = int64 x
widened v = v

pub decode-encode :
    (ft : FloatText) (v : Value)
    → IsWatermark ft v
    → (row : StateRow) × (encode_watermark ft v ≡ ok row)
      × (decode_watermark ft row ≡ ok (widened v))
unfolding encode_watermark decode_watermark widened text_eq
decode-encode ft null h = absurd h
decode-encode ft (int x) h = (_, refl, rw (parse_int-format_int x h) refl)
decode-encode ft (int64 x) h = (_, refl, rw (parse_int-format_int x h) refl)
decode-encode ft (float64 x) h = (_, refl, rw h refl)
decode-encode ft (text x) h = (_, refl, refl)
decode-encode ft (bytes x) h = absurd h
decode-encode ft (time t) h = (_, refl, rw (parse_rfc3339_nano-format_rfc3339_nano t h) refl)
decode-encode ft (bool x) h = absurd h
decode-encode ft (other x) h = absurd h

pub set_watermark-accepted :
    (ft : FloatText) (task : Text) (v : Value) (row : StateRow) (s : Store)
    → encode_watermark ft v ≡ ok row
    → s.faults s.calls ≡ none
    → set_watermark ft task v s ≡ (
      ok tt,
      record s {
        tables = record s.tables { states = insert task row s.tables.states };
        calls = suc s.calls;
      },
    )
unfolding set_watermark store_row
set_watermark-accepted ft task v row s e h = rw e (statement-accepted _ s h)

pub set_watermark-unsupported :
    (ft : FloatText) (task : Text) (v : Value) (x : Error) (s : Store)
    → encode_watermark ft v ≡ err x
    → set_watermark ft task v s ≡ (err x, s)
unfolding set_watermark store_row
set_watermark-unsupported ft task v x s e = rw (e, store_row) refl

-- A row that was read, as `GetWatermark` returns it.
abbrev pub wrapped : Result Value → Result (Option Value)
wrapped r = elim r [ ok v ↦ ok (some v) | err e ↦ err e ]

pub get_watermark-accepted :
    (ft : FloatText) (task : Text) (row : StateRow) (s : Store)
    → s.faults s.calls ≡ none
    → lookup task s.tables.states ≡ some row
    → (get_watermark ft task s).0 ≡ wrapped (decode_watermark ft row)
unfolding get_watermark decode_row
get_watermark-accepted ft task row s h l =
    rw (statement-accepted (λ _ t. (t, lookup task t.states)) s h, get_watermark, l) refl

-- Where neither statement is refused, a watermark that is set is the one that is got for that task, and no
-- other task's row is changed.
pub get_watermark-set_watermark :
    (ft : FloatText) (task : Text) (v : Value) (s : Store)
    → IsWatermark ft v
    → s.faults s.calls ≡ none
    → s.faults (suc s.calls) ≡ none
    → let (saved, s') = set_watermark ft task v s in
      (saved ≡ ok tt)
      × ((get_watermark ft task s').0 ≡ ok (some (widened v)))
      × (erase task s'.tables.states ≡ erase task s.tables.states)
get_watermark-set_watermark ft task v s w h k =
    let (row, encoded, decoded) = decode-encode ft v w in
    let after : Tables = record s.tables { states = insert task row s.tables.states } in
    rw (set_watermark-accepted ft task v row s encoded h) (
      refl,
      get_watermark-accepted ft task row (record s { tables = after; calls = suc s.calls }) k
            (lookup-insert task task row s.tables.states
              ∙ ap (λ b. if b then some row else lookup task s.tables.states) (text_eq_refl task))
          ∙ ap wrapped decoded,
      erase-insert task row s.tables.states,
    )
