-- ===== src/Base/Decimal.antt =====
-- The decimal prints and reads of Go's `strconv` and `fmt` that the program uses.
use replicron.Base.{
  ℕ, zero, suc, ◌+◌, ◌-◌, ◌*◌, ◌/◌, ◌%◌, ◌^◌, ◌<◌, ◌≡◌, refl, Text, [], ◌∷◌, Bool, ◌&&◌, Option,
  none, some, arith, ltb, leb, ◌==◌, if◌then◌else◌, Bool-cases, inl, inr, true, ◌∙◌, sym, ap,
  ==_iff,
}
use replicron.Base.Ints.{ℤ, pos, negsuc, InRange64}

-- The digits of `n`, written from the last to the first, in front of `out`.
unfoldable pub emit : ℕ → ℕ → Text → Text
emit zero n out = out
emit (suc fuel) n out =
    let rest = emit fuel (n / 10) ((b'0' + n % 10) ∷ out) in if n == 0 then out else rest

unfoldable pub format_nat : ℕ → Text
format_nat n = if n == 0 then b'0' ∷ [] else emit (suc n) n []

-- `strconv.FormatInt(x, 10)`, `strconv.Itoa(x)` and `fmt.Sprintf("%d", x)`.
unfoldable pub format_int : ℤ → Text
unfolding format_nat
format_int (pos n) = format_nat n
format_int (negsuc n) = b'-' ∷ format_nat (suc n)

abbrev pub is_digit : ℕ → Bool
is_digit c = leb b'0' c && leb c b'9'

-- The number that the digits spell behind `n`.
unfoldable pub scan : Text → ℕ → Option ℕ
scan [] n = some n
scan (c ∷ s) n = if is_digit c then scan s (n * 10 + (c - b'0')) else none

unfoldable pub scan_some : Text → Option ℕ
scan_some [] = none
scan_some (c ∷ s) = scan (c ∷ s) 0

positive : Option ℕ → Option ℤ
positive none = none
positive (some n) = if ltb n (2 ^ 63) then some (pos n) else none

negative : Option ℕ → Option ℤ
negative none = none
negative (some zero) = some (pos 0)
negative (some (suc n)) = if ltb n (2 ^ 63) then some (negsuc n) else none

-- `strconv.ParseInt(raw, 10, 64)`; `none` is its error, for syntax or range.
unfoldable pub parse_int : Text → Option ℤ
unfolding positive negative
parse_int [] = none
parse_int (c ∷ s) =
    if c == b'-'
    then negative (scan_some s)
    else if c == b'+'
    then positive (scan_some s)
    else positive (scan_some (c ∷ s))

scan-emit : (fuel n : ℕ) (out : Text) → n < fuel → scan (emit fuel n out) 0 ≡ scan out n
unfolding emit scan
scan-emit zero n out h = absurd (omega arith)
scan-emit (suc fuel) n out h = ground (arith, scan-emit fuel (n / 10) ((b'0' + n % 10) ∷ out))

-- A text that begins with a digit.
abbrev StartsDigit : Text → Type 0
StartsDigit s = (c : ℕ) × (rest : Text) × (s ≡ c ∷ rest) × (is_digit c ≡ true)

emit-StartsDigit :
    (fuel n c : ℕ) (s : Text) → n < fuel → is_digit c ≡ true → StartsDigit (emit fuel n (c ∷ s))
unfolding emit
emit-StartsDigit zero n c s h d = absurd (omega arith)
emit-StartsDigit (suc fuel) n c s h d = elim (Bool-cases (n == 0)) [
  | inl done ↦ rw done (c, s, refl, d)
  | inr more ↦
      rw more (emit-StartsDigit fuel (n / 10) (b'0' + n % 10) (c ∷ s) (ground arith) (ground arith))
]

format_nat-StartsDigit : (n : ℕ) → StartsDigit (format_nat n)
unfolding format_nat emit
format_nat-StartsDigit n = elim (Bool-cases (n == 0)) [
  | inl done ↦ rw done (b'0', [], refl, refl)
  | inr more ↦
      rw more (emit-StartsDigit n (n / 10) (b'0' + n % 10) [] (ground arith) (ground arith))
]

scan-format_nat : (n : ℕ) → scan (format_nat n) 0 ≡ some n
unfolding format_nat scan
scan-format_nat n = elim (Bool-cases (n == 0)) [
  | inl done ↦ rw done (sym (ap some ((==_iff n 0).0 done)))
  | inr more ↦ rw more (scan-emit (suc n) n [] (omega arith))
]

scan_some-scan : (s : Text) → StartsDigit s → scan_some s ≡ scan s 0
unfolding scan_some
scan_some-scan [] (c, rest, e, d) = cc
scan_some-scan (c ∷ s) d = refl

scan_some-format_nat : (n : ℕ) → scan_some (format_nat n) ≡ some n
scan_some-format_nat n =
    scan_some-scan (format_nat n) (format_nat-StartsDigit n) ∙ scan-format_nat n

-- Every int64 is read back from its decimal print.
pub parse_int-format_int : (z : ℤ) → InRange64 z → parse_int (format_int z) ≡ some z
unfolding parse_int format_int
parse_int-format_int (pos n) r =
    let (c, rest, e, d) = format_nat-StartsDigit n in
    rw e (ground (arith, scan_some-format_nat n, e))
parse_int-format_int (negsuc n) r = ground (arith, scan_some-format_nat (suc n))
