-- ===== src/Runlog/Statements/Newest.antt =====
-- What pruning keeps.
use replicron.Base.{
  ℕ, zero, suc, ◌<◌, ◌≤◌, ◌≡◌, refl, sym, ap, ◌∙◌, List, [], ◌∷◌, ◌++◌, map, take, drop, length,
  none, Bool, true, false, not, ◌||◌, All, All_imp, All-append_right, Any, All-In, take-front,
  take-short, inl, inr, arith, length-append, append-nil, subst,
}
use mathlib.Core.List.{reverse, reverse-append, reverse-cons, map-append}
use replicron.Base.Ints.{ℤ}
use replicron.Model.{Run, Result, ok, err}
use replicron.Runlog.Statements.{
  EventRow, Store, statement, newest_ids, is_in, keep_if, effective_keep, prune_events, prune_runs,
  prune,
}
use replicron.Runlog.Statements.Kept.{statement-accepted}
use replicron.Runlog.Statements.Lifecycle.{Ascends, IsLog}

abbrev ids : List Run → List ℕ
ids runs = map (λ r. r.id) runs

is_in-append : (n : ℕ) (xs ys : List ℕ) → is_in n (xs ++ ys) ≡ (is_in n xs || is_in n ys)
unfolding is_in
is_in-append n [] ys = refl
is_in-append n (x ∷ xs) ys = ground (arith, is_in-append n xs ys)

is_in-reverse : (n : ℕ) (xs : List ℕ) → is_in n (reverse xs) ≡ is_in n xs
is_in-reverse n [] = refl
is_in-reverse n (x ∷ xs) =
    rw (reverse-cons, is_in-append, is_in-reverse n xs) (unfold is_in in ground arith)

-- A run stands in a list where its id does.
is_in-ids : (r : Run) (rs : List Run) → Any (λ q. q ≡ r) rs → is_in r.id (ids rs) ≡ true
unfolding is_in
is_in-ids r [] m = absurd m
is_in-ids r (q ∷ rs) (inl e) =
    let same : q.id ≡ r.id = ap (λ (x : Run). x.id) e in ground (arith, same)
is_in-ids r (q ∷ rs) (inr m) = ground (arith, is_in-ids r rs m)

is_in-above : (n : ℕ) (rs : List Run) → All (λ q. n < q.id) rs → is_in n (ids rs) ≡ false
unfolding is_in
is_in-above n [] h = refl
is_in-above n (q ∷ rs) (h, hs) = ground (arith, is_in-above n rs hs)

pub Ascends-above : (lo : ℕ) (rs : List Run) → Ascends lo rs → All (λ q. lo < q.id) rs
Ascends-above lo [] h = tt
Ascends-above lo (r ∷ rs) (h, hs) = (h, All_imp (λ q k. omega arith) rs (Ascends-above r.id rs hs))

-- Every id of the front is below every id of the rest.
pub Ascends-split :
    (lo : ℕ) (old new : List Run)
    → Ascends lo (old ++ new)
    → All (λ r. All (λ q. r.id < q.id) new) old
Ascends-split lo [] new h = tt
Ascends-split lo (r ∷ old) new (h, hs) = (
  All-append_right (λ q. r.id < q.id) old new (Ascends-above r.id (old ++ new) hs),
  Ascends-split r.id old new hs,
)

module _ {A : Type 0} (p : A → Bool) where
  pub keep_if-append : (xs ys : List A) → keep_if p (xs ++ ys) ≡ keep_if p xs ++ keep_if p ys
  unfolding keep_if
  keep_if-append [] ys = refl
  keep_if-append (x ∷ xs) ys = ground (arith, keep_if-append xs ys)

  keep_if-none : (xs : List A) → All (λ x. p x ≡ false) xs → keep_if p xs ≡ []
  unfolding keep_if
  keep_if-none [] h = refl
  keep_if-none (x ∷ xs) (h, hs) = rw (h, keep_if-none xs hs) refl

  keep_if-all : (xs : List A) → All (λ x. p x ≡ true) xs → keep_if p xs ≡ xs
  unfolding keep_if
  keep_if-all [] h = refl
  keep_if-all (x ∷ xs) (h, hs) = rw (h, keep_if-all xs hs) refl

  keep_if-cong : (q : A → Bool) (xs : List A) → ((x : A) → p x ≡ q x) → keep_if p xs ≡ keep_if q xs
  unfolding keep_if
  keep_if-cong q [] h = refl
  keep_if-cong q (x ∷ xs) h = rw (h x, keep_if-cong q xs h) refl

drop-front : {A : Type 0} (xs ys : List A) → drop (length xs) (xs ++ ys) ≡ ys
drop-front [] ys = refl
drop-front (x ∷ xs) ys = drop-front xs ys

newest-split :
    (old new : List Run) → newest_ids (old ++ new) ≡ reverse (ids new) ++ reverse (ids old)
unfolding newest_ids
newest-split old new = rw (map-append, reverse-append) refl

drop-short : {A : Type 0} (k : ℕ) (xs : List A) → length xs ≤ k → drop k xs ≡ []
drop-short zero [] h = refl
drop-short (suc k) [] h = refl
drop-short zero (x ∷ xs) h = absurd (omega arith)
drop-short (suc k) (x ∷ xs) h = drop-short k xs (omega arith)

length-reverse-ids : (rs : List Run) → length (reverse (ids rs)) ≡ length rs
length-reverse-ids [] = refl
length-reverse-ids (r ∷ rs) = rw (reverse-cons, length-append, length-reverse-ids rs) (omega arith)

-- `new` is what a limit of `k` keeps of `old ++ new`: the last `k`, or all where there are no more.
pub data Splits (k : ℕ) (old new : List Run) : Type 0 where
  full : length new ≡ k → Splits k old new
  all_kept : old ≡ [] → length new ≤ k → Splits k old new

kept_ids :
    (k : ℕ) (old new : List Run)
    → Splits k old new
    → (take k (newest_ids (old ++ new)) ≡ reverse (ids new))
      × (drop k (newest_ids (old ++ new)) ≡ reverse (ids old))
kept_ids k old new (full h) =
    let size : k ≡ length (reverse (ids new)) = sym (length-reverse-ids new ∙ h) in
    rw (newest-split, size)
      (
        take-front (reverse (ids new)) (reverse (ids old)),
        drop-front (reverse (ids new)) (reverse (ids old)),
      )
kept_ids k old new (all_kept none_old h) =
    let short : length (reverse (ids new)) ≤ k = omega (arith, length-reverse-ids new) in
    rw (newest-split, none_old)
      (rw append-nil
        (take-short k (reverse (ids new)) short, drop-short k (reverse (ids new)) short))

keep_if-new :
    (old new : List Run)
    → Ascends 0 (old ++ new)
    → keep_if (λ r. is_in r.id (reverse (ids new))) (old ++ new) ≡ new
keep_if-new old new a =
    let p : Run → Bool = λ r. is_in r.id (reverse (ids new)) in
    let below = Ascends-split 0 old new a in
    rw
      (
        keep_if-append,
        keep_if-none p old
            (All_imp (λ r h. is_in-reverse r.id (ids new) ∙ is_in-above r.id new h) old below),
        keep_if-all p new (
            All-In (λ r. p r ≡ true) new (λ r m. is_in-reverse r.id (ids new) ∙ is_in-ids r new m)),
      )
      refl

-- The events that are not those of a run in the list.
abbrev pub events_without : List Run → List EventRow → List EventRow
events_without old events = keep_if (λ e. not (is_in e.run_id (map (λ r. r.id) old))) events

-- The two statements, neither of them refused.
pub prune-accepted :
    (keep : ℤ) (s : Store)
    → s.faults s.calls ≡ none
    → s.faults (suc s.calls) ≡ none
    → prune keep s ≡ (
      ok tt,
      record s {
        tables = prune_runs (effective_keep keep) (prune_events (effective_keep keep) s.tables);
        calls = suc (suc s.calls);
      },
    )
unfolding prune
prune-accepted keep s h k =
    let n : ℕ = effective_keep keep in
    let s1 : Store = record s { tables = prune_events n s.tables; calls = suc s.calls } in
    ap (second n) (statement-accepted (λ _ t. (prune_events n t, tt)) s h)
    ∙ statement-accepted (λ _ t. (prune_runs n t, tt)) s1 k
  where
    second : ℕ → Result (Unit {0}) × Store → Result (Unit {0}) × Store
    second n (r, s') = elim r [
      | err e ↦ (err e, s')
      | ok _ ↦ statement (λ _ t. (prune_runs n t, tt)) s'
    ]

-- In a run log whose ids ascend, `Prune`, where neither statement is refused, leaves the newest runs, as many
-- as the limit in force, and removes all other runs with their events, and no other event.
pub prune-newest :
    (keep : ℤ) (s : Store) (old new : List Run)
    → IsLog s.tables
    → s.tables.runs ≡ old ++ new
    → Splits (effective_keep keep) old new
    → s.faults s.calls ≡ none
    → s.faults (suc s.calls) ≡ none
    → let (done, s') = prune keep s in
      (done ≡ ok tt)
      × (s'.tables.runs ≡ new)
      × (s'.tables.events ≡ events_without old s.tables.events)
      × (s'.tables.states ≡ s.tables.states)
unfolding prune_events prune_runs
prune-newest keep s old new l split sp h k =
    let (kept, gone) = kept_ids (effective_keep keep) old new sp in
    rw (prune-accepted keep s h k) (
      rw (split, kept, gone)
        (
          refl,
          keep_if-new old new (subst (Ascends 0) split l.ascending),
          keep_if-cong _ _ s.tables.events (λ e. ap not (is_in-reverse e.run_id (ids old))),
          refl,
        ))
