-- ===== src/Ui/Detail.antt =====
-- What the page of one run answers.
use replicron.Base.{
  ℕ, zero, suc, ◌<◌, ◌≡◌, ◌≢◌, refl, sym, ap, ◌∙◌, Text, codes, List, [], ◌∷◌, take, Option, none,
  some, true, All, All-In, All-Any, In, inl, inr, arith, ltb, ◌==◌, ==_iff, subst,
}
use replicron.Base.Ints.{ℤ, pos, negsuc}
use replicron.Base.Decimal.{parse_int}
use replicron.Model.{Run, Error, ok}
use replicron.Runlog.Statements.{Tables, Store, keep_if}
use replicron.Runlog.Statements.Kept.{statement-accepted}
use replicron.Runlog.Statements.Lifecycle.{Ascends, IsLog}
use replicron.Runlog.Statements.Newest.{Ascends-above}
use replicron.Runlog.Queries.{first, get_run, list_events, effective_limit}
use replicron.Runlog.Queries.Listed.{keep_if-In}
use replicron.Ui.{Response, detail_page, http_error, detail, detail_at, detail_of, with_events}

-- Two runs of a log with one id are one.
Ascends-unique :
    (lo : ℕ) (rs : List Run) (q r : Run) → Ascends lo rs → In q rs → In r rs → q.id ≡ r.id → q ≡ r
Ascends-unique lo [] q r h a b e = absurd a
Ascends-unique lo (x ∷ rs) q r (h, hs) (inl a) (inl b) e = sym a ∙ b
Ascends-unique lo (x ∷ rs) q r (h, hs) (inr a) (inr b) e = Ascends-unique x.id rs q r hs a b e
Ascends-unique lo (x ∷ rs) q r (h, hs) (inl a) (inr b) e =
    let above : x.id < r.id = All-Any (λ y. x.id < y.id) rs (Ascends-above x.id rs hs) b in
    let same : x.id ≡ q.id = ap (λ (y : Run). y.id) a in absurd (omega arith)
Ascends-unique lo (x ∷ rs) q r (h, hs) (inr a) (inl b) e =
    let above : x.id < q.id = All-Any (λ y. x.id < y.id) rs (Ascends-above x.id rs hs) a in
    let same : x.id ≡ r.id = ap (λ (y : Run). y.id) b in absurd (omega arith)

-- What a query by id finds.
data Finds (n : ℕ) (runs : List Run) : Option Run → Type 0 where
  nothing : All (λ r. r.id ≢ n) runs → Finds n runs none
  that_run :
      (r : Run)
      → In r runs
      → r.id ≡ n
      → ((q : Run) → In q runs → q.id ≡ n → q ≡ r)
      → Finds n runs (some r)

first-Finds :
    (n : ℕ) (runs found : List Run)
    → Ascends 0 runs
    → keep_if (λ r. r.id == n) runs ≡ found
    → Finds n runs (first found)
first-Finds n runs [] a h = nothing (
    All-In (λ r. r.id ≢ n) runs
      (λ r m e. subst (In r) h ((keep_if-In (λ q. q.id == n) r runs).1 (m, (==_iff r.id n).1 e))))
first-Finds n runs (r ∷ rest) a h =
    let (m, test) = (keep_if-In (λ q. q.id == n) r runs).0 (subst (In r) (sym h) (inl refl)) in
    let e : r.id ≡ n = (==_iff r.id n).0 test in
    that_run r m e (λ q i same. Ascends-unique 0 runs q r a i m (same ∙ sym e))

-- The answer for the path's `{id}`, by what that is and what the log holds.
pub data IsDetail (path_id : Text) (t : Tables) (page : Response) : Type 0 where
  bad_request :
      ((n : ℕ) → 0 < n → parse_int path_id ≢ some (pos n))
      → page ≡ http_error 400 (codes "invalid run id")
      → IsDetail path_id t page
  not_found :
      (n : ℕ)
      → parse_int path_id ≡ some (pos n)
      → All (λ r. r.id ≢ n) t.runs
      → page ≡ http_error 404 (codes "run not found")
      → IsDetail path_id t page
  shown :
      (n : ℕ) (r : Run)
      → parse_int path_id ≡ some (pos n)
      → In r t.runs
      → r.id ≡ n
      → ((q : Run) → In q t.runs → q.id ≡ n → q ≡ r)
      → page ≡ detail_page r (take 500 (keep_if (λ e. e.run_id == n) t.events))
      → IsDetail path_id t page

module _ (message : Error → Text) (s : Store) (l : IsLog s.tables)
    (first_accepted : s.faults s.calls ≡ none)
    (second_accepted : s.faults (suc s.calls) ≡ none) where
  -- The store behind the first query.
  abbrev asked : Store
  asked = record s { calls = suc s.calls }

  found-IsDetail :
      (path_id : Text) (n : ℕ) (r : Option Run)
      → parse_int path_id ≡ some (pos n)
      → Finds n s.tables.runs r
      → IsDetail path_id s.tables (detail_of message n (ok r) asked).0
        × ((detail_of message n (ok r) asked).1.tables ≡ s.tables)
  unfolding detail_of list_events with_events effective_limit
  found-IsDetail path_id n none p (nothing absent) = (not_found n p absent refl, refl)
  found-IsDetail path_id n (some r) p (that_run _ m e unique) =
      let done =
        statement-accepted (λ _ t. (t, take 500 (keep_if (λ e. e.run_id == n) t.events))) asked
          second_accepted in
      (shown n r p m e unique (rw done refl), rw done refl)

  detail_at-IsDetail :
      (path_id : Text) (z : Option ℤ)
      → parse_int path_id ≡ z
      → IsDetail path_id s.tables (detail_at message z s).0
        × ((detail_at message z s).1.tables ≡ s.tables)
  unfolding detail_at get_run
  detail_at-IsDetail path_id none p = (bad_request (λ n h e. cc (sym p ∙ e)) refl, refl)
  detail_at-IsDetail path_id (some (negsuc k)) p =
      (bad_request (λ n h e. cc (sym p ∙ e)) refl, refl)
  detail_at-IsDetail path_id (some (pos zero)) p =
      (bad_request (λ n h e. let none_such : n ≡ 0 = cc (sym p ∙ e) in omega arith) refl, refl)
  detail_at-IsDetail path_id (some (pos (suc k))) p =
      let n : ℕ = suc k in
      let done =
        statement-accepted (λ _ t. (t, first (keep_if (λ r. r.id == n) t.runs))) s first_accepted in
      let begun : ltb 0 (suc k) ≡ true = ground arith in
      rw (begun, detail_at)
        (rw done (
          found-IsDetail path_id n (first (keep_if (λ r. r.id == n) s.tables.runs)) p
            (first-Finds n s.tables.runs _ l.ascending refl)))

  -- In a run log whose ids ascend, where neither of the two statements is refused, the answer for a path's id
  -- is: an id that is no positive decimal number of 64 bits is a bad request; a number that no run has is not
  -- found; for any other the page shows the one run with that id, and the oldest five hundred of its events.
  -- The run log is as before.
  pub detail-IsDetail :
      (path_id : Text)
      → let (page, s') = detail message path_id s in
        IsDetail path_id s.tables page × (s'.tables ≡ s.tables)
  unfolding detail
  detail-IsDetail path_id = detail_at-IsDetail path_id (parse_int path_id) refl
