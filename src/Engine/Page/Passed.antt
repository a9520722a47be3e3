-- ===== src/Engine/Page/Passed.antt =====
-- What holds of the rows seen so far, page by page, holds of all the rows of a stream that ends without an
-- error.
use replicron.Base.{
  ℕ, ◌+◌, ◌≡◌, refl, sym, Text, List, [], ◌∷◌, ◌++◌, length, concat, Option, none, some, Bool, true,
  subst, append-nil, append_assoc,
}
use replicron.Model.{Row, Error, Result, ok, err, wrap, columns_rejected, ◌>>◌}
use replicron.Config.{Task}
use replicron.Connector.Conn.Paging.{deliver}
use replicron.Engine.Watermark.{Tracker}
use replicron.Engine.Batch.{TargetConn, Progress, put_page}
use replicron.Connector.Ident.{validate_columns}
use replicron.Engine.Page.{
  sorted_cols, check_first, check_widths, Locker, State, check_page, observe_page, page_done,
  page_written, page_observed, page_checked, on_page, split_outcome, callback,
}

-- The columns that a page is written at are those of its first row.
check_page-sorted_cols :
    (t : Task) (keys_checked : Bool) (r : Row) (page : List Row) (cols : List Text)
    → check_page t keys_checked r page ≡ ok cols
    → cols ≡ sorted_cols r
unfolding check_page
check_page-sorted_cols t k r page cols h =
    go (wrap columns_rejected (validate_columns (sorted_cols r)))
      (check_first t k r (sorted_cols r)) (check_widths 0 (length (sorted_cols r)) page) h
  where
    go :
        (a b c : Result (Unit {0}))
        → (a >> (b >> (c >> ok (sorted_cols r)))) ≡ ok cols
        → cols ≡ sorted_cols r
    go (err x) b c e = absurd (cc e)
    go (ok _) (err x) c e = absurd (cc e)
    go (ok _) (ok _) (err x) e = absurd (cc e)
    go (ok _) (ok _) (ok _) e = cc e

-- A callback that returned without an error.
Passes : {L D : Type 0} → (State L D → Type 0) → Option (Option Error × State L D) → Type 0
Passes P none = Unit
Passes P (some (some e, st)) = Unit
Passes P (some (none, st)) = P st

Passed : {L D : Type 0} → (State L D → Type 0) → Option Error × Option (State L D) → Type 0
Passed P (some e, st) = Unit
Passed P (none, none) = Unit
Passed P (none, some st) = P st

-- A stream that ended without an error, and a callback that always returned.
Ended : {L D : Type 0} → (State L D → Type 0) → (ℕ × Option Error) × Option (State L D) → Type 0
Ended P ((n, some e), st) = Unit
Ended P ((n, none), none) = Unit
Ended P ((n, none), some st) = P st

module _ {L K D : Type 0} (reg : Locker L K) (tgt : TargetConn D) (t : Task) (run_id : ℕ) (tok : K)
    (Seen : List Row → State L D → Type 0)
    (written : (rows : List Row) (cols : List Text) (r : Row) (rest : List Row) (st : State L D)
        (w : Option Tracker) (p : Progress D)
      → cols ≡ sorted_cols r
      → observe_page st.tracker (r ∷ rest) ≡ ok w
      → put_page tgt t cols (r ∷ rest) st.progress ≡ some p
      → Seen rows st
      → Seen (rows ++ r ∷ rest) (
          page_done reg tgt t run_id tok
            (r ∷ rest)
            (record st { keys_checked = true; tracker = w; progress = p }))) where
  page_written-Passes :
      (rows : List Row) (cols : List Text) (r : Row) (rest : List Row) (st : State L D)
      (w : Option Tracker) (p : Option (Progress D))
      → cols ≡ sorted_cols r
      → observe_page st.tracker (r ∷ rest) ≡ ok w
      → put_page tgt t cols (r ∷ rest) st.progress ≡ p
      → Seen rows st
      → Passes (Seen (rows ++ r ∷ rest)) (
          page_written reg tgt t run_id tok
            (r ∷ rest)
            (record st { keys_checked = true; tracker = w })
            p)
  unfolding page_written Passes
  page_written-Passes rows cols r rest st w none c o e h = tt
  page_written-Passes rows cols r rest st w (some p) c o e h =
      written rows cols r rest st w p c o e h

  page_observed-Passes :
      (rows : List Row) (cols : List Text) (r : Row) (rest : List Row) (st : State L D)
      (o : Result (Option Tracker))
      → cols ≡ sorted_cols r
      → observe_page st.tracker (r ∷ rest) ≡ o
      → Seen rows st
      → Passes
          (Seen (rows ++ r ∷ rest))
          (page_observed reg tgt t run_id tok cols (r ∷ rest) (record st { keys_checked = true }) o)
  unfolding page_observed Passes
  page_observed-Passes rows cols r rest st (err x) c e h = tt
  page_observed-Passes rows cols r rest st (ok w) c e h =
      page_written-Passes rows cols r rest st w (put_page tgt t cols (r ∷ rest) st.progress) c e
        refl h

  page_checked-Passes :
      (rows : List Row) (r : Row) (rest : List Row) (st : State L D) (c : Result (List Text))
      → check_page t st.keys_checked r (r ∷ rest) ≡ c
      → Seen rows st
      → Passes (Seen (rows ++ r ∷ rest)) (page_checked reg tgt t run_id tok (r ∷ rest) st c)
  unfolding page_checked Passes
  page_checked-Passes rows r rest st (err x) e h = tt
  page_checked-Passes rows r rest st (ok cols) e h =
      page_observed-Passes rows cols r rest st (observe_page st.tracker (r ∷ rest))
        (check_page-sorted_cols t st.keys_checked r (r ∷ rest) cols e) refl h

  on_page-Passes :
      (rows page : List Row) (st : State L D)
      → Seen rows st
      → Passes (Seen (rows ++ page)) (on_page reg tgt t run_id tok page st)
  unfolding on_page Passes
  on_page-Passes rows [] st h = subst (λ x. Seen x st) (sym (append-nil rows)) h
  on_page-Passes rows (r ∷ page) st h =
      page_checked-Passes rows r page st (check_page t st.keys_checked r (r ∷ page)) refl h

  split_outcome-Passed :
      (P : State L D → Type 0) (o : Option (Option Error × State L D))
      → Passes P o
      → Passed P (split_outcome o)
  unfolding split_outcome Passes Passed
  split_outcome-Passed P none h = tt
  split_outcome-Passed P (some (some e, st)) h = tt
  split_outcome-Passed P (some (none, st)) h = h

  deliver-lost :
      (P : State L D → Type 0) (pages : List (List Row)) (ending : Option Error) (total : ℕ)
      → Ended P (deliver (callback reg tgt t run_id tok) pages ending total none)
  unfolding Ended deliver callback
  deliver-lost P [] none total = tt
  deliver-lost P [] (some e) total = tt
  deliver-lost P (page ∷ pages) ending total = deliver-lost P pages ending (total + length page)

  abbrev Complete : List Row → Option Error → State L D → Type 0
  Complete rows ending st = (ending ≡ none) × Seen rows st

  -- The rest of a delivery behind one call of the callback.
  deliver_rest :
      (rows page : List Row) (pages : List (List Row)) (ending : Option Error) (total : ℕ)
      (step : Option Error × Option (State L D))
      → ((st : State L D)
          → Seen (rows ++ page) st
          → Ended (Complete (rows ++ concat (page ∷ pages)) ending) (
              deliver (callback reg tgt t run_id tok) pages ending (total + length page) (some st)))
      → Passed (Seen (rows ++ page)) step
      → Ended (Complete (rows ++ concat (page ∷ pages)) ending) (elim step.0 [
        | some e ↦ ((total, some e), step.1)
        | none ↦ deliver (callback reg tgt t run_id tok) pages ending (total + length page) step.1
      ])
  unfolding Passed Ended
  deliver_rest rows page pages ending total (some e, st) rest h = tt
  deliver_rest rows page pages ending total (none, none) rest h =
      deliver-lost (Complete (rows ++ concat (page ∷ pages)) ending) pages ending
        (total + length page)
  deliver_rest rows page pages ending total (none, some st) rest h = rest st h

  deliver-Ended :
      (rows : List Row) (pages : List (List Row)) (ending : Option Error) (total : ℕ)
      (st : State L D)
      → Seen rows st
      → Ended
          (Complete (rows ++ concat pages) ending)
          (deliver (callback reg tgt t run_id tok) pages ending total (some st))
  unfolding Ended deliver callback
  deliver-Ended rows [] none total st h = (refl, subst (λ x. Seen x st) (sym (append-nil rows)) h)
  deliver-Ended rows [] (some e) total st h = tt
  deliver-Ended rows (page ∷ pages) ending total st h =
      deliver_rest rows page pages ending total (callback reg tgt t run_id tok page (some st))
        (λ st' k.
          subst
            (λ x. Ended (Complete x ending) (
              deliver (callback reg tgt t run_id tok) pages ending (total + length page)
                (some st')))
            (append_assoc rows page (concat pages))
            (deliver-Ended (rows ++ page) pages ending (total + length page) st' k))
        (split_outcome-Passed (Seen (rows ++ page)) _ (on_page-Passes rows page st h))

  -- From a state in which nothing was seen: if the delivery ends without an error, then so do the pages, and
  -- all their rows were seen.
  pub deliver-Seen :
      (pages : List (List Row)) (ending : Option Error) (st st' : State L D) (count : ℕ)
      → Seen [] st
      → deliver (callback reg tgt t run_id tok) pages ending 0 (some st) ≡ ((count, none), some st')
      → (ending ≡ none) × Seen (concat pages) st'
  unfolding Ended
  deliver-Seen pages ending st st' count h e =
      subst (Ended (Complete (concat pages) ending)) e (deliver-Ended [] pages ending 0 st h)
