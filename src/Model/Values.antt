-- ===== src/Model/Values.antt =====
-- Go's `any` as the drivers fill it: the dynamic values of a row, with floats as their IEEE bits and
-- times as their reading in UTC.
use replicron.Base.{
  ℕ, zero, suc, ◌+◌, ◌-◌, ◌*◌, ◌/◌, ◌%◌, ◌^◌, Bool, false, ◌&&◌, ◌||◌, not, Text, ltb, leb, ◌==◌,
  if◌then◌else◌,
}
use replicron.Base.Ints.{ℤ, pos, negsuc}

-- A `float64`, by its 64 bits: sign, 11 bits of exponent, 52 of fraction.
pub record Float : Type 0 where
  pub bits : ℕ

abbrev sign_bit : ℕ
sign_bit = 2 ^ 63

abbrev magnitude : Float → ℕ
magnitude f = f.bits % sign_bit

abbrev infinity : ℕ
infinity = 2047 * 2 ^ 52

unfoldable pub is_nan : Float → Bool
is_nan f = ltb infinity (magnitude f)

abbrev is_negative : Float → Bool
is_negative f = leb sign_bit f.bits

-- Go's `a > b` on float64: false when either is NaN, and the two zeros are equal.
unfoldable pub float_gt : Float → Float → Bool
unfolding is_nan
float_gt a b =
    if is_nan a || is_nan b
    then false
    else if is_negative a
    then is_negative b && ltb (magnitude a) (magnitude b)
    else if is_negative b
    then ltb 0 (magnitude a + magnitude b)
    else ltb (magnitude b) (magnitude a)

bit_length : ℕ → ℕ → ℕ
bit_length zero m = 0
bit_length (suc fuel) m = if m == 0 then 0 else suc (bit_length fuel (m / 2))

-- The nearest multiple of 2^shift, in units of 2^shift, ties to even.
round_shift : ℕ → ℕ → ℕ
round_shift m shift =
    let q = m / 2 ^ shift in
    let r = m % 2 ^ shift in
    let half = 2 ^ (shift - 1) in if ltb half r || (r == half && (q % 2 == 1)) then q + 1 else q

-- The bits of the float64 nearest to a magnitude of at most 64 bits. A significand that rounds up to
-- 2^53 carries into the exponent by the addition.
nearest : ℕ → ℕ
unfolding bit_length round_shift
nearest m =
    let k = bit_length 64 m in
    if m == 0
    then 0
    else if leb k 53
    then (k + 1022) * 2 ^ 52 + (m * 2 ^ (53 - k) - 2 ^ 52)
    else (k + 1022) * 2 ^ 52 + (round_shift m (k - 53) - 2 ^ 52)

-- Go's `float64(x)` of an int64.
unfoldable pub float_of_int : ℤ → Float
unfolding nearest
float_of_int (pos n) = record { bits = nearest n }
float_of_int (negsuc n) = record { bits = sign_bit + nearest (suc n) }

-- A `time.Time`, by its calendar reading in UTC.
pub record Time : Type 0 where
  pub year : ℕ
  pub month : ℕ
  pub day : ℕ
  pub hour : ℕ
  pub minute : ℕ
  pub second : ℕ
  pub nanos : ℕ

-- `t.After(u)`: the first field that differs decides.
unfoldable pub time_after : Time → Time → Bool
time_after t u =
    if not (t.year == u.year)
    then ltb u.year t.year
    else if not (t.month == u.month)
    then ltb u.month t.month
    else if not (t.day == u.day)
    then ltb u.day t.day
    else if not (t.hour == u.hour)
    then ltb u.hour t.hour
    else if not (t.minute == u.minute)
    then ltb u.minute t.minute
    else if not (t.second == u.second)
    then ltb u.second t.second
    else ltb u.nanos t.nanos

-- `other` is a value of any further dynamic type, with the name of that type.
pub data Value : Type 0 where
  null : Value
  int : ℤ → Value
  int64 : ℤ → Value
  float64 : Float → Value
  text : Text → Value
  bytes : Text → Value
  time : Time → Value
  bool : Bool → Value
  other : Text → Value
