-- ===== src/Runlog/Queries/Listed.antt =====
-- `List` finds the newest runs of a task, newest first.
use replicron.Base.{
  ℕ, ◌-◌, ◌<◌, ◌≤◌, ◌≡◌, ◌↔◌, refl, sym, ap, ◌∙◌, Text, List, [], ◌∷◌, ◌++◌, length, take, drop,
  none, Bool, true, All, All-append, All-reverse, All-Any, leb, leb→le, In, In-reverse, In-reversed,
  In-append_cases, In-append_right, inl, inr, ◌⊎◌, arith, length-drop, length-reverse,
  take-append-drop, take-front, take-short, Bool-cases, subst, text_eq, text_eq_iff,
}
use mathlib.Core.List.{reverse, reverse-append, reverse-cons}
use replicron.Base.Ints.{ℤ}
use replicron.Model.{Run, ok}
use replicron.Runlog.Statements.{Store, keep_if}
use replicron.Runlog.Statements.Kept.{statement-accepted}
use replicron.Runlog.Statements.Lifecycle.{Ascends, keep_if-Ascends, IsLog}
use replicron.Runlog.Statements.Newest.{Splits, full, all_kept, Ascends-above, Ascends-split}
use replicron.Runlog.Queries.{of_task, effective_limit, list}

-- What a filter keeps is what was there and passes it.
pub keep_if-In :
    {A : Type 0} (p : A → Bool) (a : A) (xs : List A)
    → In a (keep_if p xs) ↔ (In a xs × (p a ≡ true))
unfolding keep_if
keep_if-In p a [] = (λ h. absurd h, λ h. absurd h.0)
keep_if-In p a (x ∷ xs) =
    let (there, back) = keep_if-In p a xs in
    elim (Bool-cases (p x)) [
      | inl yes_x ↦ rw yes_x (
        λ h. elim h [
          | inl e ↦ (inl e, ap p (sym e) ∙ yes_x)
          | inr m ↦ let (i, q) = there m in (inr i, q)
        ],
        λ (i, q). elim i [ inl e ↦ inl e | inr m ↦ inr (back (m, q)) ],
      )
      | inr no_x ↦ rw no_x (
        λ m. let (i, q) = there m in (inr i, q),
        λ (i, q). elim i [ inl e ↦ absurd (cc (sym no_x ∙ ap p e ∙ q)) | inr m ↦ back (m, q) ],
      )
    ]

-- The ids descend.
abbrev pub Descends : List Run → Type 0
Descends [] = Unit
Descends (r ∷ rs) = All (λ q. q.id < r.id) rs × Descends rs

Descends-snoc :
    (rs : List Run) (r : Run) → Descends rs → All (λ q. r.id < q.id) rs → Descends (rs ++ r ∷ [])
Descends-snoc [] r h k = (tt, tt)
Descends-snoc (q ∷ rs) r (h, hs) (k, ks) =
    (All-append (λ x. x.id < q.id) rs (r ∷ []) h (k, tt), Descends-snoc rs r hs ks)

Ascends-Descends : (lo : ℕ) (rs : List Run) → Ascends lo rs → Descends (reverse rs)
Ascends-Descends lo [] h = tt
Ascends-Descends lo (r ∷ rs) (h, hs) = rw reverse-cons (
    Descends-snoc (reverse rs) r (Ascends-Descends r.id rs hs)
      (All-reverse (λ q. r.id < q.id) rs (Ascends-above r.id rs hs)))

-- `found` are the newest `k` of the runs of `runs` that fit, newest first; all of them, if there are no more.
pub record AreNewest (k : ℕ) (Fits : Run → Type 0) (runs found : List Run) : Type 0 where
  pub bounded : length found ≤ k
  pub fitting : (r : Run) → In r found → In r runs × Fits r
  pub descending : Descends found
  pub newest :
      (r : Run)
      → In r runs
      → Fits r
      → In r found ⊎ ((length found ≡ k) × All (λ q. r.id < q.id) found)

-- The last `k` of a list, or all.
split_last :
    (k : ℕ) (xs : List Run)
    → (old : List Run) × (new : List Run) × (xs ≡ old ++ new) × Splits k old new
split_last k xs =
    let n : ℕ = length xs - k in
    let apart : xs ≡ take n xs ++ drop n xs = sym (take-append-drop n xs) in
    elim (Bool-cases (leb k (length xs))) [
      | inl enough ↦ (
        take n xs,
        drop n xs,
        apart,
        full (omega (arith, length-drop n xs, leb→le k (length xs) enough)),
      )
      | inr few ↦
          let short : length xs < k = ground arith in
          let nothing : n ≡ 0 = omega arith in ([], xs, refl, all_kept refl (omega arith))
    ]

-- The test of `WHERE task = ?`, where there is one.
abbrev pub OfTask : Text → Run → Type 0
OfTask task r = (task ≡ []) ⊎ (r.task ≡ task)

of_task-In :
    (task : Text) (r : Run) (runs : List Run)
    → In r (of_task task runs) ↔ (In r runs × OfTask task r)
unfolding of_task
of_task-In [] r runs = (λ m. (m, inl refl), λ h. h.0)
of_task-In (c ∷ cs) r runs =
    let (there, back) = keep_if-In (λ q. text_eq q.task (c ∷ cs)) r runs in
    (
      λ m. let (i, p) = there m in (i, inr ((text_eq_iff r.task (c ∷ cs)).0 p)),
      λ (i, f). elim f [
        | inl none_given ↦ absurd (cc none_given)
        | inr same ↦ back (i, (text_eq_iff r.task (c ∷ cs)).1 same)
      ],
    )

of_task-Ascends : (task : Text) (runs : List Run) → Ascends 0 runs → Ascends 0 (of_task task runs)
unfolding of_task
of_task-Ascends [] runs h = h
of_task-Ascends (c ∷ cs) runs h = keep_if-Ascends (λ q. text_eq q.task (c ∷ cs)) 0 runs h

take-reverse :
    (k : ℕ) (old new : List Run) → Splits k old new → take k (reverse (old ++ new)) ≡ reverse new
take-reverse k old new (full h) =
    let size : k ≡ length (reverse new) = omega (arith, length-reverse new) in
    rw (reverse-append, size) (take-front (reverse new) (reverse old))
take-reverse k old new (all_kept none_old h) =
    rw none_old (take-short k (reverse new) (omega (arith, length-reverse new)))

Splits-le : (k : ℕ) (old new : List Run) → Splits k old new → length new ≤ k
Splits-le k old new (full h) = omega arith
Splits-le k old new (all_kept none_old h) = h

older : (k : ℕ) (r : Run) (old new : List Run) → Splits k old new → In r old → length new ≡ k
older k r old new (full h) m = h
older k r old new (all_kept none_old h) m = absurd (subst (In r) none_old m)

Ascends-rest : (lo : ℕ) (old new : List Run) → Ascends lo (old ++ new) → (hi : ℕ) × Ascends hi new
Ascends-rest lo [] new h = (lo, h)
Ascends-rest lo (r ∷ old) new (h, hs) = Ascends-rest r.id old new hs

-- The last runs of a list with ascending ids, turned round.
reversed-AreNewest :
    (k : ℕ) (Fits : Run → Type 0) (runs xs old new : List Run)
    → ((r : Run) → In r xs ↔ (In r runs × Fits r))
    → Ascends 0 xs
    → xs ≡ old ++ new
    → Splits k old new
    → AreNewest k Fits runs (reverse new)
reversed-AreNewest k Fits runs xs old new fits a apart sp = record {
  bounded = omega (arith, length-reverse new, Splits-le k old new sp);
  fitting = λ r m.
      (fits r).0 (subst (In r) (sym apart) (In-append_right r old new (In-reversed r new m)));
  descending =
      let (hi, late) = Ascends-rest 0 old new (subst (Ascends 0) apart a) in
      Ascends-Descends hi new late;
  newest = λ r m f. elim (In-append_cases r old new (subst (In r) apart ((fits r).1 (m, f)))) [
    | inr late ↦ inl (In-reverse r new late)
    | inl early ↦
        let above =
          All-Any (λ q. All (λ n. q.id < n.id) new) old
            (Ascends-split 0 old new (subst (Ascends 0) apart a)) early in
        inr (
          omega (arith, length-reverse new, older k r old new sp early),
          All-reverse (λ q. r.id < q.id) new above,
        )
  ];
}

-- Where the statement is not refused, `List` finds the newest runs of the task, or of all tasks if none is
-- named, newest first: as many as the limit, which is 20 where the one given is not positive, or all that there
-- are; and it leaves the tables.
pub list-AreNewest :
    (task : Text) (n : ℤ) (s : Store)
    → IsLog s.tables
    → s.faults s.calls ≡ none
    → (found : List Run) × ((list task n s).0 ≡ ok found)
      × AreNewest (effective_limit n 20) (OfTask task) s.tables.runs found
      × ((list task n s).1.tables ≡ s.tables)
unfolding list
list-AreNewest task n s l h =
    let k : ℕ = effective_limit n 20 in
    let (old, new, apart, sp) = split_last k (of_task task s.tables.runs) in
    let done = statement-accepted (λ at t. (t, take k (reverse (of_task task t.runs)))) s h in
    (
      reverse new,
      rw done (ap (λ xs. ok (take k (reverse xs))) apart ∙ ap ok (take-reverse k old new sp)),
      reversed-AreNewest k (OfTask task) s.tables.runs (of_task task s.tables.runs) old new
          (λ r. of_task-In task r s.tables.runs) (of_task-Ascends task s.tables.runs l.ascending)
          apart sp,
      rw done refl,
    )
