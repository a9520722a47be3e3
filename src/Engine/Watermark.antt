-- ===== src/Engine/Watermark.antt =====
-- internal/engine/watermark.go: the running maximum of the incremental column and its SQL literal.
pub mod Orderings
pub mod Maximum
pub mod Literal
use replicron.Base.{
  ℕ, Text, codes, List, [], ◌∷◌, ◌++◌, Option, none, some, Bool, true, false, text_lt,
  if◌then◌else◌,
}
use replicron.Base.Ints.{ℤ, ltb_ℤ}
use replicron.Base.Decimal.{format_int}
use replicron.Base.Strings.{replace_all}
use replicron.Model.{
  Value, null, int, int64, float64, text, time, Float, float_gt, float_of_int, time_after, Row,
  Error, Result, ok, err, kind_mismatch, unsupported_value, ◌>>=◌,
}
use replicron.Model.Times.{format_micro}
use replicron.Connector.Conn.{get_value}
use replicron.Runlog.Watermark.{FloatText}

abbrev pub watermark_token : Text
watermark_token = codes ":watermark"

-- `"'" + strings.ReplaceAll(x, "'", "''") + "'"`
unfoldable pub quote_literal : Text → Text
quote_literal x = codes "'" ++ (replace_all x (codes "'") (codes "''") ++ codes "'")

-- `watermarkLiteral`
unfoldable pub watermark_literal : FloatText → Value → Result Text
unfolding quote_literal
watermark_literal ft (time x) = ok (codes "'" ++ (format_micro x ++ codes "'"))
watermark_literal ft (int x) = ok (format_int x)
watermark_literal ft (int64 x) = ok (format_int x)
watermark_literal ft (float64 x) = ok (ft.format x)
watermark_literal ft (text x) = ok (quote_literal x)
watermark_literal ft v = err (unsupported_value v)

-- `asInt64`
unfoldable pub as_int64 : Value → Option ℤ
as_int64 (int x) = some x
as_int64 (int64 x) = some x
as_int64 v = none

-- `asFloat64`
unfoldable pub as_float64 : Value → Option Float
as_float64 (int x) = some (float_of_int x)
as_float64 (int64 x) = some (float_of_int x)
as_float64 (float64 x) = some x
as_float64 v = none

compare_floats : Value → Value → Option Float → Option Float → Result Bool
compare_floats a b (some x) (some y) = ok (float_gt x y)
compare_floats a b (some x) none = err (kind_mismatch a b)
compare_floats a b none y = err (kind_mismatch a b)

-- The `default` branch of `watermarkGreater`.
unfoldable pub compare_numbers : Value → Value → Option ℤ → Option ℤ → Result Bool
unfolding compare_floats
compare_numbers a b (some x) (some y) = ok (ltb_ℤ y x)
compare_numbers a b (some x) none = compare_floats a b (as_float64 a) (as_float64 b)
compare_numbers a b none y = compare_floats a b (as_float64 a) (as_float64 b)

time_greater : Value → Value → Result Bool
time_greater (time x) (time y) = ok (time_after x y)
time_greater a b = err (kind_mismatch a b)

text_greater : Value → Value → Result Bool
text_greater (text x) (text y) = ok (text_lt y x)
text_greater a b = err (kind_mismatch a b)

-- `watermarkGreater`: whether `a > b`.
unfoldable pub watermark_greater : Value → Value → Result Bool
unfolding compare_numbers time_greater text_greater
watermark_greater (time x) b = time_greater (time x) b
watermark_greater (text x) b = text_greater (text x) b
watermark_greater a b = compare_numbers a b (as_int64 a) (as_int64 b)

-- `watermarkTracker`; a `max` of nil is `null`.
pub record Tracker : Type 0 where
  pub column : Text
  pub max : Value
  pub seen : Bool

abbrev pub fresh : Text → Tracker
fresh column = record { column = column; max = null; seen = false }

-- A value that is not nil. Where the comparison fails the whole run does, and the tracker is not read
-- again.
unfoldable pub observe_present : Value → Tracker → Result Tracker
observe_present v w =
    if w.seen
    then (watermark_greater v w.max >>= λ gt. ok (if gt then record w { max = v } else w))
    else ok (record w { max = v; seen = true })

-- One round of `observe`, on the value of the column.
unfoldable pub observe_value : Value → Tracker → Result Tracker
unfolding observe_present
observe_value null w = ok w
observe_value v w = observe_present v w

-- `observe`
unfoldable pub observe : List Row → Tracker → Result Tracker
observe [] w = ok w
observe (r ∷ rows) w = do w' ← observe_value (get_value r w.column) w; observe rows w'
