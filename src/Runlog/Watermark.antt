-- ===== src/Runlog/Watermark.antt =====
-- The watermark of a task, stored as a kind and a text. The print and the read of floats (`strconv`)
-- are a parameter, `FloatText`.
pub mod RoundTrip
pub mod Kept
pub mod Rows
use replicron.Base.{
  Text, codes, List, Option, none, some, Dict, lookup, insert, text_eq, if◌then◌else◌,
}
use replicron.Base.Decimal.{format_int, parse_int}
use replicron.Model.{
  Value, int, int64, float64, text, time, Float, Error, Result, ok, err, unsupported_value,
  unknown_kind, bad_number, bad_time,
}
use replicron.Model.Times.{format_rfc3339_nano, parse_rfc3339_nano}
use replicron.Runlog.Statements.{StateRow, Tables, Store, statement}

-- `strconv.FormatFloat(x, 'g', -1, 64)`, which is also `fmt.Sprintf("%g", x)`, and
-- `strconv.ParseFloat(raw, 64)`.
pub record FloatText : Type 0 where
  pub format : Float → Text
  pub parse : Text → Option Float

abbrev kind_time : Text
kind_time = codes "time"

abbrev kind_int : Text
kind_int = codes "int"

abbrev kind_float : Text
kind_float = codes "float"

abbrev kind_string : Text
kind_string = codes "string"

-- `none` is an error of the parse function.
abbrev or_err : {A : Type 0} → Error → (A → Value) → Option A → Result Value
or_err e f none = err e
or_err e f (some a) = ok (f a)

module _ (ft : FloatText) where
  -- `encodeWatermark`
  unfoldable pub encode_watermark : Value → Result StateRow
  encode_watermark (time t) = ok (record { kind = kind_time; raw = format_rfc3339_nano t })
  encode_watermark (int64 x) = ok (record { kind = kind_int; raw = format_int x })
  encode_watermark (int x) = ok (record { kind = kind_int; raw = format_int x })
  encode_watermark (float64 x) = ok (record { kind = kind_float; raw = ft.format x })
  encode_watermark (text x) = ok (record { kind = kind_string; raw = x })
  encode_watermark v = err (unsupported_value v)

  -- `decodeWatermark`
  unfoldable pub decode_watermark : StateRow → Result Value
  decode_watermark r =
      if text_eq r.kind kind_time
      then or_err (bad_time r.raw) time (parse_rfc3339_nano r.raw)
      else if text_eq r.kind kind_int
      then or_err (bad_number r.raw) int64 (parse_int r.raw)
      else if text_eq r.kind kind_float
      then or_err (bad_number r.raw) float64 (ft.parse r.raw)
      else if text_eq r.kind kind_string
      then ok (text r.raw)
      else err (unknown_kind r.kind)

  unfoldable pub decode_row : Option StateRow → Result (Option Value)
  decode_row none = ok none
  decode_row (some r) = elim (decode_watermark r) [ ok v ↦ ok (some v) | err e ↦ err e ]

  -- `GetWatermark`: `ok none` is the nil of a task with no row.
  unfoldable pub get_watermark : Text → Store → Result (Option Value) × Store
  unfolding decode_row
  get_watermark task s =
      let (r, s') = statement (λ _ t. (t, lookup task t.states)) s in
      elim r [ err e ↦ (err e, s') | ok row ↦ (decode_row row, s') ]

  store_row : Text → Result StateRow → Store → Result (Unit {0}) × Store
  store_row task (err e) s = (err e, s)
  store_row task (ok row) s =
      statement (λ _ t. (record t { states = insert task row t.states }, tt)) s

  -- `SetWatermark`
  unfoldable pub set_watermark : Text → Value → Store → Result (Unit {0}) × Store
  unfolding store_row
  set_watermark task v s = store_row task (encode_watermark v) s
