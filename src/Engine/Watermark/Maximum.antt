-- ===== src/Engine/Watermark/Maximum.antt =====
-- The tracker holds the maximum of the column.
use replicron.Base.{
  ◌≡◌, ◌≢◌, refl, sym, ap, ◌∙◌, Text, List, [], ◌∷◌, map, Option, none, some, true, false, All, Any,
  All_imp, Bool-cases, inl, inr, ◌⊎◌, if◌then◌else◌,
}
use replicron.Model.{Value, null, int, int64, float64, text, bytes, time, bool, other, Row, ok}
use replicron.Connector.Conn.{get_value}
use replicron.Engine.Watermark.Orderings.{Ordering}
use replicron.Engine.Watermark.{Tracker, fresh, observe_present, observe_value, observe}

observe_value-present :
    (v : Value) (w : Tracker) → v ≢ null → observe_value v w ≡ observe_present v w
unfolding observe_value
observe_value-present null w h = absurd (h refl)
observe_value-present (int x) w h = refl
observe_value-present (int64 x) w h = refl
observe_value-present (float64 x) w h = refl
observe_value-present (text x) w h = refl
observe_value-present (bytes x) w h = refl
observe_value-present (time x) w h = refl
observe_value-present (bool x) w h = refl
observe_value-present (other x) w h = refl

-- A value of the column: nil, or of the ordered type.
abbrev pub value_of : {A : Type 0} → Ordering A → Option A → Value
value_of o none = null
value_of o (some a) = o.inject a

-- Not above `m`.
abbrev pub IsBelow : {A : Type 0} → Ordering A → A → Option A → Type 0
IsBelow o m none = Unit
IsBelow o m (some a) = o.gt a m ≡ false

module _ {A : Type 0} (o : Ordering A) (column : Text) where
  abbrev holding : A → Tracker
  holding m = record { column = column; max = o.inject m; seen = true }

  -- From the maximum `m` on, the tracker comes to `m'`.
  record IsFold (m m' : A) (vals : List (Option A)) : Type 0 where
    grown : o.gt m m' ≡ false
    above : All (IsBelow o m') vals
    among : (m' ≡ m) ⊎ Any (λ v. v ≡ some m') vals

  observe_step :
      (m a : A) → observe_value (o.inject a) (holding m) ≡ ok (holding (if o.gt a m then a else m))
  unfolding observe_present
  observe_step m a = elim (Bool-cases (o.gt a m)) [
    | inl up ↦
        observe_value-present (o.inject a) (holding m) (o.present a)
        ∙ rw (o.compared a m, observe_present) (rw up refl)
    | inr down ↦
        observe_value-present (o.inject a) (holding m) (o.present a)
        ∙ rw (o.compared a m, observe_present) (rw down refl)
  ]

  IsBelow-le :
      (m n : A) (vals : List (Option A))
      → o.gt m n ≡ false
      → All (IsBelow o m) vals
      → All (IsBelow o n) vals
  IsBelow-le m n vals h = All_imp below vals
    where
      below : (v : Option A) → IsBelow o m v → IsBelow o n v
      below none b = tt
      below (some a) b = o.le_trans a m n b h

  observe-cons :
      (r : Row) (rows : List Row) (w w' : Tracker)
      → observe_value (get_value r w.column) w ≡ ok w'
      → observe (r ∷ rows) w ≡ observe rows w'
  unfolding observe
  observe-cons r rows w w' h = rw (h, observe) refl

  IsFold-none : (m m' : A) (vals : List (Option A)) → IsFold m m' vals → IsFold m m' (none ∷ vals)
  IsFold-none m m' vals f = record {
    grown = f.grown;
    above = (tt, f.above);
    among = elim f.among [ inl e ↦ inl e | inr i ↦ inr (inr i) ];
  }

  IsFold-some :
      (m a m' : A) (vals : List (Option A))
      → IsFold (if o.gt a m then a else m) m' vals
      → IsFold m m' (some a ∷ vals)
  IsFold-some m a m' vals f = elim (Bool-cases (o.gt a m)) [
    | inl up ↦
        let g : IsFold a m' vals = rw up at f in
        record {
          grown = o.le_trans m a m' (o.gt_asym a m up) g.grown;
          above = (g.grown, g.above);
          among = elim g.among [ inl e ↦ inr (inl (ap some (sym e))) | inr i ↦ inr (inr i) ];
        }
    | inr down ↦
        let g : IsFold m m' vals = rw down at f in
        record {
          grown = g.grown;
          above = (o.le_trans a m m' down g.grown, g.above);
          among = elim g.among [ inl e ↦ inl e | inr i ↦ inr (inr i) ];
        }
  ]

  observe-IsFold :
      (rows : List Row) (vals : List (Option A)) (m : A)
      → map (λ r. get_value r column) rows ≡ map (value_of o) vals
      → (m' : A) × (observe rows (holding m) ≡ ok (holding m')) × IsFold m m' vals
  observe-IsFold [] [] m h =
      (m, unfold observe in refl, record { grown = o.gt_irrefl m; above = tt; among = inl refl })
  observe-IsFold [] (v ∷ vals) m h = absurd (cc h)
  observe-IsFold (r ∷ rows) [] m h = absurd (cc h)
  observe-IsFold (r ∷ rows) (none ∷ vals) m h =
      let (m', eq, f) = observe-IsFold rows vals m (cc h) in
      let null_here : get_value r column ≡ null = cc h in
      (
        m',
        observe-cons r rows (holding m) (holding m) (rw null_here (unfold observe_value in refl))
            ∙ eq,
        IsFold-none m m' vals f,
      )
  observe-IsFold (r ∷ rows) (some a ∷ vals) m h =
      let top : A = if o.gt a m then a else m in
      let (m', eq, f) = observe-IsFold rows vals top (cc h) in
      let here : get_value r column ≡ o.inject a = cc h in
      (
        m',
        observe-cons r rows (holding m) (holding top) (rw here (observe_step m a)) ∙ eq,
        IsFold-some m a m' vals f,
      )

  -- What the tracker holds of a column: nil if all its values are, else the largest of them.
  pub data IsMaximum (max : Value) (vals : List (Option A)) : Type 0 where
    empty : max ≡ null → All (λ v. v ≡ none) vals → IsMaximum max vals
    largest :
        (m : A)
        → max ≡ o.inject m
        → All (IsBelow o m) vals
        → Any (λ v. v ≡ some m) vals
        → IsMaximum max vals

  IsMaximum-none :
      (max : Value) (vals : List (Option A)) → IsMaximum max vals → IsMaximum max (none ∷ vals)
  IsMaximum-none max vals (empty e all) = empty e (refl, all)
  IsMaximum-none max vals (largest m e above among) = largest m e (tt, above) (inr among)

  -- Over rows whose column holds nil or values of one ordered type, the tracker never fails, and ends with
  -- nil if all are nil, else with a value of the column that none of them exceeds.
  pub observe-IsMaximum :
      (rows : List Row) (vals : List (Option A))
      → map (λ r. get_value r column) rows ≡ map (value_of o) vals
      → (w : Tracker) × (observe rows (fresh column) ≡ ok w) × IsMaximum w.max vals
  observe-IsMaximum [] [] h = (fresh column, unfold observe in refl, empty refl tt)
  observe-IsMaximum [] (v ∷ vals) h = absurd (cc h)
  observe-IsMaximum (r ∷ rows) [] h = absurd (cc h)
  observe-IsMaximum (r ∷ rows) (none ∷ vals) h =
      let (w, eq, i) = observe-IsMaximum rows vals (cc h) in
      let null_here : get_value r column ≡ null = cc h in
      (
        w,
        observe-cons r rows (fresh column) (fresh column)
              (rw null_here (unfold observe_value in refl))
            ∙ eq,
        IsMaximum-none w.max vals i,
      )
  observe-IsMaximum (r ∷ rows) (some a ∷ vals) h =
      let (m, eq, f) = observe-IsFold rows vals a (cc h) in
      let here : get_value r column ≡ o.inject a = cc h in
      (
        holding m,
        observe-cons r rows (fresh column) (holding a) (
              rw here (
                observe_value-present (o.inject a) (fresh column) (o.present a)
                ∙ unfold observe_present in refl))
            ∙ eq,
        largest m refl (f.grown, f.above)
            (elim f.among [ inl e ↦ inl (ap some (sym e)) | inr i ↦ inr i ]),
      )
