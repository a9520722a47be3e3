-- ===== src/Model/Times/RoundTrip.antt =====
-- A time that is printed for the run log reads back as itself.
use replicron.Base.{
  ℕ, zero, suc, ◌+◌, ◌-◌, ◌*◌, ◌/◌, ◌%◌, ◌^◌, ◌<◌, ◌≡◌, refl, sym, ap, ◌∙◌, Text, [], ◌∷◌, ◌++◌,
  some, true, ◌==◌, ==_iff, arith, append_assoc, All, length, subst, Bool-cases, inl, inr,
}
use native.Mathlib.Nat.{div-add-mod', div-div-eq-div-mul, mod-eq_of_lt}
use replicron.Base.Decimal.{is_digit}
use replicron.Model.Values.{Time}
use replicron.Model.Times.{
  pad, put_digit, trim_zeros, dotted, date_text, clock_text, format_rfc3339_nano, read_digits,
  expect, read_fraction, read_nanos, at_end, is_calendar, days_in, parse_rfc3339_nano,
}

abbrev AllDigits : Text → Type 0
AllDigits = All (λ c. is_digit c ≡ true)

-- The number that digits stand for, behind the digits of `n`.
val : ℕ → Text → ℕ
val n [] = n
val n (c ∷ s) = val (n * 10 + (c - b'0')) s

digit_ok : (d : ℕ) → d < 10 → (is_digit (b'0' + d) ≡ true) × (b'0' + d - b'0' ≡ d)
digit_ok d h = (ground arith, omega arith)

pad-AllDigits : (w n : ℕ) → AllDigits (pad w n)
unfolding pad
pad-AllDigits zero n = tt
pad-AllDigits (suc w) n = ((digit_ok (n / 10 ^ w % 10) (omega arith)).0, pad-AllDigits w n)

length-pad : (w n : ℕ) → length (pad w n) ≡ w
unfolding pad
length-pad zero n = refl
length-pad (suc w) n = ap suc (length-pad w n)

cancel_tens : (q d p r m n : ℕ) → (q * 10 + d) * p + r ≡ n → q * (p * 10) + m ≡ n → m ≡ d * p + r
cancel_tens q d p r m n h k = grind arith

-- The last digits: the first of them, and those behind it.
mod_split : (n p : ℕ) → n % (p * 10) ≡ n / p % 10 * p + n % p
mod_split n p =
    cancel_tens (n / p / 10) (n / p % 10) p (n % p) (n % (p * 10)) n
      (rw div-add-mod' (div-add-mod' n p)) (rw div-div-eq-div-mul (div-add-mod' n (p * 10)))

pow_tens : (w : ℕ) → 10 ^ suc w ≡ 10 ^ w * 10
pow_tens w = omega arith

shift : (n d p r : ℕ) → (n * 10 + (b'0' + d - b'0')) * p + r ≡ n * (p * 10) + (d * p + r)
shift n d p r = grind arith

val-pad : (w n x : ℕ) → val n (pad w x) ≡ n * 10 ^ w + x % 10 ^ w
unfolding val pad
val-pad zero n x = ground arith
val-pad (suc w) n x =
    let d : ℕ = x / 10 ^ w % 10 in
    val-pad w (n * 10 + (b'0' + d - b'0')) x
    ∙ shift n d (10 ^ w) (x % 10 ^ w)
    ∙ ap (λ m. n * (10 ^ w * 10) + m) (sym (mod_split x (10 ^ w)))
    ∙ ap (λ p. n * p + x % p) (sym (pow_tens w))

read_digits-val :
    (s rest : Text) (n : ℕ)
    → AllDigits s
    → read_digits (length s) (s ++ rest) n ≡ some (val n s, rest)
unfolding read_digits val
read_digits-val [] rest n h = refl
read_digits-val (c ∷ s) rest n (h, hs) = rw h (read_digits-val s rest _ hs)

zero_plus : (p x : ℕ) → 0 * p + x ≡ x
zero_plus p x = omega arith

read_pad : (w x : ℕ) (rest : Text) → x < 10 ^ w → read_digits w (pad w x ++ rest) 0 ≡ some (x, rest)
read_pad w x rest h =
    subst (λ k. read_digits k (pad w x ++ rest) 0 ≡ some (x, rest)) (length-pad w x)
      (read_digits-val (pad w x) rest 0 (pad-AllDigits w x)
        ∙ ap (λ v. some (v, rest))
            (val-pad w 0 x ∙ ap (λ m. 0 * 10 ^ w + m) (mod-eq_of_lt h) ∙ zero_plus (10 ^ w) x))

put_digit-AllDigits :
    (c : ℕ) (s : Text) → is_digit c ≡ true → AllDigits s → AllDigits (put_digit c s)
unfolding put_digit
put_digit-AllDigits c [] h hs = elim (Bool-cases (c == b'0')) [
  | inl e ↦ rw e tt
  | inr e ↦ rw e (h, tt)
]
put_digit-AllDigits c (d ∷ s) h hs = (h, hs)

trim_zeros-AllDigits : (s : Text) → AllDigits s → AllDigits (trim_zeros s)
unfolding trim_zeros
trim_zeros-AllDigits [] h = tt
trim_zeros-AllDigits (c ∷ s) (h, hs) =
    put_digit-AllDigits c (trim_zeros s) h (trim_zeros-AllDigits s hs)

-- What stands behind the fraction.
abbrev zulu : Text
zulu = b'Z' ∷ []

read_fraction-zulu : (left n : ℕ) → read_fraction left zulu n ≡ (n * 10 ^ left, zulu)
unfolding read_fraction
read_fraction-zulu zero n = ground arith
read_fraction-zulu (suc left) n = refl

zero_digit : (n c p q : ℕ) → c ≡ b'0' → q ≡ p * 10 → n * q ≡ (n * 10 + (c - b'0')) * p
zero_digit n c p q h k = rw (h, k) (grind arith)

put_digit-read :
    (c : ℕ) (s : Text) (left n v : ℕ)
    → is_digit c ≡ true
    → read_fraction left (s ++ zulu) (n * 10 + (c - b'0')) ≡ (v, zulu)
    → read_fraction (suc left) (put_digit c s ++ zulu) n ≡ (v, zulu)
unfolding put_digit read_fraction
put_digit-read c [] left n v h e = elim (Bool-cases (c == b'0')) [
  | inl z ↦ rw z (
      ap (λ m. (m, zulu))
        (zero_digit n c (10 ^ left) (10 ^ suc left) ((==_iff c b'0').0 z) (pow_tens left))
      ∙ sym (read_fraction-zulu left (n * 10 + (c - b'0')))
      ∙ e)
  | inr d ↦ rw d (rw h e)
]
put_digit-read c (d ∷ s) left n v h e = rw h e

read_fraction-trim :
    (s : Text) (n : ℕ)
    → AllDigits s
    → read_fraction (length s) (trim_zeros s ++ zulu) n ≡ (val n s, zulu)
unfolding trim_zeros val
read_fraction-trim [] n h = read_fraction-zulu 0 n ∙ ap (λ m. (m, zulu)) (omega arith)
read_fraction-trim (c ∷ s) n (h, hs) =
    put_digit-read c (trim_zeros s) (length s) n _ h (read_fraction-trim s _ hs)

read_nanos-dotted :
    (s : Text)
    → AllDigits s
    → length s ≡ 9
    → read_nanos (dotted (trim_zeros s) ++ zulu) ≡ (val 0 s, zulu)
unfolding read_nanos dotted
read_nanos-dotted s h k = go (trim_zeros s) (trim_zeros-AllDigits s h) (
    subst (λ l. read_fraction l (trim_zeros s ++ zulu) 0 ≡ (val 0 s, zulu)) k
      (read_fraction-trim s 0 h))
  where
    go :
        (r : Text)
        → AllDigits r
        → read_fraction 9 (r ++ zulu) 0 ≡ (val 0 s, zulu)
        → read_nanos (dotted r ++ zulu) ≡ (val 0 s, zulu)
    go [] d e = sym (read_fraction-zulu 9 0) ∙ e
    go (c ∷ r) (d, ds) e = rw d (rw d at e)

-- The fields of a time as Go makes it.
pub record IsTime (t : Time) : Type 0 where
  pub calendar : is_calendar t ≡ true
  pub year_short : t.year < 10_000
  pub nanos_short : t.nanos < 1_000_000_000

calendar_bounds :
    (t : Time)
    → is_calendar t ≡ true
    → (t.month < 100) × (t.day < 100) × (t.hour < 100) × (t.minute < 100) × (t.second < 100)
unfolding is_calendar days_in
calendar_bounds t h = ground arith

-- A time in the years 0 to 9999 reads back from its print in RFC 3339 with nanoseconds.
pub parse_rfc3339_nano-format_rfc3339_nano :
    (t : Time) → IsTime t → parse_rfc3339_nano (format_rfc3339_nano t) ≡ some t
unfolding parse_rfc3339_nano format_rfc3339_nano date_text clock_text expect at_end
parse_rfc3339_nano-format_rfc3339_nano t h =
    let (month, day, hour, minute, second) = calendar_bounds t h.calendar in
    simp (
      append_assoc,
      read_pad 4 t.year _ h.year_short,
      read_pad 2 t.month _ month,
      read_pad 2 t.day _ day,
      read_pad 2 t.hour _ hour,
      read_pad 2 t.minute _ minute,
      read_pad 2 t.second _ second,
      read_nanos-dotted (pad 9 t.nanos) (pad-AllDigits 9 t.nanos) (length-pad 9 t.nanos),
      val-pad 9 0 t.nanos,
      mod-eq_of_lt h.nanos_short,
      zero_plus (10 ^ 9) t.nanos,
      h.calendar,
    )
