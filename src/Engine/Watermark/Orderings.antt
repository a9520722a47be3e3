-- ===== src/Engine/Watermark/Orderings.antt =====
-- The types of values that the tracker compares: texts, integers of either Go type, times.
use replicron.Base.{
  ◌≡◌, ◌≢◌, refl, sym, Text, Bool, true, false, inl, inr, arith, subst, text_lt, text_lt_irrefl,
  text_lt_trans, text_lt_total,
}
use replicron.Base.Ints.{ℤ, ltb_ℤ, ltb_ℤ_irrefl}
use replicron.Model.{Value, null, int, int64, text, time, Time, time_after, ok}
use replicron.Engine.Watermark.{
  watermark_greater, compare_numbers, text_greater, time_greater, as_int64,
}

-- A type of values that the tracker compares, and its order.
pub record Ordering (A : Type 0) : Type 0 where
  pub inject : A → Value
  pub gt : A → A → Bool
  pub compared : (a b : A) → watermark_greater (inject a) (inject b) ≡ ok (gt a b)
  pub present : (a : A) → inject a ≢ null
  pub gt_irrefl : (a : A) → gt a a ≡ false
  pub gt_asym : (a b : A) → gt a b ≡ true → gt b a ≡ false
  pub le_trans : (a b c : A) → gt a b ≡ false → gt b c ≡ false → gt a c ≡ false

pub text_asym : (a b : Text) → text_lt b a ≡ true → text_lt a b ≡ false
text_asym a b h = ground (arith, text_lt_irrefl a, text_lt_trans a b a)

pub text_le_trans : (a b c : Text) → text_lt b a ≡ false → text_lt c b ≡ false → text_lt c a ≡ false
text_le_trans a b c h k = elim (text_lt_total a b) [
  | inl lt ↦ ground (arith, text_lt_trans c a b)
  | inr (inl e) ↦ subst (λ x. text_lt c x ≡ false) (sym e) k
  | inr (inr gt) ↦ absurd (ground arith)
]

pub text_compared : (a b : Text) → watermark_greater (text a) (text b) ≡ ok (text_lt b a)
unfolding watermark_greater text_greater
text_compared a b = refl

pub text_present : (a : Text) → text a ≢ null
text_present a e = cc e

abbrev pub texts : Ordering Text
texts = record {
  inject = text;
  gt = λ a b. text_lt b a;
  compared = text_compared;
  present = text_present;
  gt_irrefl = text_lt_irrefl;
  gt_asym = text_asym;
  le_trans = text_le_trans;
}

-- The integers of either Go type; the flag says `int64`.
abbrev pub integer : ℤ × Bool → Value
integer (x, false) = int x
integer (x, true) = int64 x

pub integer_compared :
    (a b : ℤ × Bool) → watermark_greater (integer a) (integer b) ≡ ok (ltb_ℤ b.0 a.0)
unfolding watermark_greater compare_numbers as_int64
integer_compared (x, false) (y, false) = refl
integer_compared (x, false) (y, true) = refl
integer_compared (x, true) (y, false) = refl
integer_compared (x, true) (y, true) = refl

pub integer_present : (a : ℤ × Bool) → integer a ≢ null
integer_present (x, false) = λ e. cc e
integer_present (x, true) = λ e. cc e

pub integer_asym : (a b : ℤ) → ltb_ℤ b a ≡ true → ltb_ℤ a b ≡ false
integer_asym a b h = ground arith

pub integer_le_trans : (a b c : ℤ) → ltb_ℤ b a ≡ false → ltb_ℤ c b ≡ false → ltb_ℤ c a ≡ false
integer_le_trans a b c h k = ground arith

abbrev pub integers : Ordering (ℤ × Bool)
integers = record {
  inject = integer;
  gt = λ a b. ltb_ℤ b.0 a.0;
  compared = integer_compared;
  present = integer_present;
  gt_irrefl = λ a. ltb_ℤ_irrefl a.0;
  gt_asym = λ a b. integer_asym a.0 b.0;
  le_trans = λ a b c. integer_le_trans a.0 b.0 c.0;
}

pub time_irrefl : (t : Time) → time_after t t ≡ false
unfolding time_after
time_irrefl t = ground arith

pub time_asym : (t u : Time) → time_after t u ≡ true → time_after u t ≡ false
unfolding time_after
time_asym t u h = ground arith

pub time_le_trans :
    (t u v : Time) → time_after t u ≡ false → time_after u v ≡ false → time_after t v ≡ false
unfolding time_after
time_le_trans t u v h k = ground arith

pub time_compared : (a b : Time) → watermark_greater (time a) (time b) ≡ ok (time_after a b)
unfolding watermark_greater time_greater
time_compared a b = refl

pub time_present : (a : Time) → time a ≢ null
time_present a e = cc e

abbrev pub times : Ordering Time
times = record {
  inject = time;
  gt = time_after;
  compared = time_compared;
  present = time_present;
  gt_irrefl = time_irrefl;
  gt_asym = time_asym;
  le_trans = time_le_trans;
}
