-- ===== src/Model/Times.antt =====
-- The prints and the read of Go's `time` that the program uses, for times in UTC in the years 0 to 9999.
pub mod RoundTrip
use replicron.Base.{
  ℕ, zero, suc, ◌+◌, ◌-◌, ◌*◌, ◌/◌, ◌%◌, ◌^◌, Text, codes, List, [], ◌∷◌, ◌++◌, Option, none, some,
  Bool, true, false, ◌&&◌, ◌||◌, not, leb, ltb, ◌==◌, if◌then◌else◌,
}
use replicron.Base.Decimal.{is_digit}
use replicron.Model.Values.{Time}

-- The last `w` decimal digits of `n`.
unfoldable pub pad : ℕ → ℕ → Text
pad zero n = []
pad (suc w) n = (b'0' + n / 10 ^ w % 10) ∷ pad w n

put_digit : ℕ → Text → Text
put_digit c [] = if c == b'0' then [] else c ∷ []
put_digit c (d ∷ s) = c ∷ d ∷ s

-- The text without the zeros at its end.
unfoldable pub trim_zeros : Text → Text
unfolding put_digit
trim_zeros [] = []
trim_zeros (c ∷ s) = put_digit c (trim_zeros s)

-- `.999999` of a layout: a dot and the digits without trailing zeros, or nothing at all.
dotted : Text → Text
dotted [] = []
dotted (c ∷ s) = b'.' ∷ c ∷ s

date_text : Time → Text
unfolding pad
date_text t = pad 4 t.year ++ (b'-' ∷ (pad 2 t.month ++ (b'-' ∷ pad 2 t.day)))

clock_text : Time → Text
unfolding pad
clock_text t = pad 2 t.hour ++ (b':' ∷ (pad 2 t.minute ++ (b':' ∷ pad 2 t.second)))

-- `t.UTC().Format("2006-01-02 15:04:05.999999")`
unfoldable pub format_micro : Time → Text
unfolding date_text clock_text dotted trim_zeros
format_micro t =
    date_text t ++ (b' ' ∷ (clock_text t ++ dotted (trim_zeros (pad 6 (t.nanos / 1000)))))

-- `t.UTC().Format(time.RFC3339Nano)`
unfoldable pub format_rfc3339_nano : Time → Text
unfolding date_text clock_text dotted trim_zeros
format_rfc3339_nano t =
    date_text t ++ (b'T' ∷ (clock_text t ++ (dotted (trim_zeros (pad 9 t.nanos)) ++ (b'Z' ∷ []))))

infixl 5 ◌>>=◌
abbrev ◌>>=◌ : {A B : Type 0} → Option A → (A → Option B) → Option B
none >>= f = none
some a >>= f = f a

-- Exactly `w` digits behind `n`, and the rest.
read_digits : ℕ → Text → ℕ → Option (ℕ × Text)
read_digits zero s n = some (n, s)
read_digits (suc w) [] n = none
read_digits (suc w) (c ∷ s) n = if is_digit c then read_digits w s (n * 10 + (c - b'0')) else none

expect : ℕ → Text → Option Text
expect c [] = none
expect c (d ∷ s) = if d == c then some s else none

-- The digits of a fraction, up to `left` of them; missing ones are zeros.
read_fraction : ℕ → Text → ℕ → ℕ × Text
read_fraction left [] n = (n * 10 ^ left, [])
read_fraction zero (c ∷ s) n = if is_digit c then read_fraction zero s n else (n, c ∷ s)
read_fraction (suc left) (c ∷ s) n =
    let more = read_fraction left s (n * 10 + (c - b'0')) in
    if is_digit c then more else (n * 10 ^ suc left, c ∷ s)

-- A fraction behind a dot that a digit follows; else none.
read_nanos : Text → ℕ × Text
unfolding read_fraction
read_nanos (d ∷ c ∷ s) =
    if (d == b'.') && is_digit c then read_fraction 9 (c ∷ s) 0 else (0, d ∷ c ∷ s)
read_nanos s = (0, s)

is_leap : ℕ → Bool
is_leap y = (y % 4 == 0) && (not (y % 100 == 0) || (y % 400 == 0))

days_in : ℕ → ℕ → ℕ
unfolding is_leap
days_in m y =
    if m == 2
    then (if is_leap y then 29 else 28)
    else if (m == 4) || ((m == 6) || ((m == 9) || (m == 11)))
    then 30
    else 31

-- The fields are a date and a time of day.
unfoldable pub is_calendar : Time → Bool
unfolding days_in
is_calendar t =
    leb 1 t.month
    && (leb t.month 12
        && (leb 1 t.day
            && (leb t.day (days_in t.month t.year)
                && (ltb t.hour 24 && (ltb t.minute 60 && ltb t.second 60)))))

at_end : Text → Time → Option Time
at_end [] t = if is_calendar t then some t else none
at_end (c ∷ s) t = none

-- `time.Parse(time.RFC3339Nano, raw)` on texts that end in `Z`, the only ones that the program stores;
-- a numeric zone is refused here.
unfoldable pub parse_rfc3339_nano : Text → Option Time
unfolding read_digits expect read_nanos at_end is_calendar
parse_rfc3339_nano raw = do
  (year, s) ← read_digits 4 raw 0
  s ← expect b'-' s
  (month, s) ← read_digits 2 s 0
  s ← expect b'-' s
  (day, s) ← read_digits 2 s 0
  s ← expect b'T' s
  (hour, s) ← read_digits 2 s 0
  s ← expect b':' s
  (minute, s) ← read_digits 2 s 0
  s ← expect b':' s
  (second, s) ← read_digits 2 s 0
  let (nanos, s) = read_nanos s
  s ← expect b'Z' s
  at_end s (record {
    year = year;
    month = month;
    day = day;
    hour = hour;
    minute = minute;
    second = second;
    nanos = nanos;
  })
