-- ===== src/Engine/Page/Kept.antt =====
-- What every page keeps, the whole delivery keeps; and the delivery comes to its end.
use replicron.Base.{
  ℕ, ◌+◌, ◌≡◌, refl, Text, List, [], ◌∷◌, length, Option, none, some, Bool, true, Option-cases,
  Bool-cases, inl, inr, ltb, codes,
}
use replicron.Base.Ints.{pos, ltb_ℤ}
use replicron.Model.{Run, Row, Error, Result, ok, err}
use replicron.Config.{Task}
use replicron.Connector.Conn.Paging.{deliver}
use replicron.Runlog.Statements.Kept.{event-states}
use replicron.Runlog.Statements.Rows.{Holds, event-Holds}
use replicron.Engine.Watermark.{Tracker}
use replicron.Engine.Batch.{TargetConn, Progress, put_page}
use replicron.Engine.Batch.Bounds.{put_page-total}
use replicron.Engine.Page.{
  Locker, State, check_page, observe_page, page_done, report, page_written, page_observed,
  page_checked, on_page, split_outcome, callback,
}

-- There is a result, and it has the property.
unfoldable pub Returns : {A : Type 0} → (A → Type 0) → Option A → Type 0
Returns P none = ⊥
Returns P (some a) = P a

pub Returns-some :
    {A : Type 0} (P : A → Type 0) (o : Option A) → Returns P o → (a : A) × (o ≡ some a) × P a
unfolding Returns
Returns-some P none h = absurd h
Returns-some P (some a) h = (a, refl, h)

module _ {L K D : Type 0} (reg : Locker L K) (tgt : TargetConn D) (t : Task) (run_id : ℕ)
    (tok : K) where
  -- The end of a page leaves the watermarks.
  pub page_done-states :
      (page : List Row) (st : State L D)
      → (page_done reg tgt t run_id tok page st).store.tables.states ≡ st.store.tables.states
  unfolding page_done report
  page_done-states page st = elim (Bool-cases (ltb 0 run_id)) [
    | inl h ↦ rw (h, page_done, report) (event-states run_id (codes "progress") _ st.store)
    | inr h ↦ rw (h, page_done, report) refl
  ]

  -- The end of a page leaves the rows of `runs`.
  pub page_done-Holds :
      (runs : List Run) (seq : ℕ) (page : List Row) (st : State L D)
      → Holds runs seq st.store
      → Holds runs seq (page_done reg tgt t run_id tok page st).store
  unfolding page_done report
  page_done-Holds runs seq page st kept = elim (Bool-cases (ltb 0 run_id)) [
    | inl h ↦
        rw (h, page_done, report) (event-Holds runs seq run_id (codes "progress") _ st.store kept)
    | inr h ↦ rw (h, page_done, report) kept
  ]

module _ {L K D : Type 0} (reg : Locker L K) (tgt : TargetConn D) (t : Task) (run_id : ℕ) (tok : K)
    (positive : ltb_ℤ (pos 0) t.target.batch_size ≡ true) (P : State L D → Type 0)
    (checked : (st : State L D) (k : Bool) (w : Option Tracker)
      → P st
      → P (record st { keys_checked = k; tracker = w }))
    (written : (cols : List Text) (page : List Row) (st : State L D) (p : Progress D)
      → put_page tgt t cols page st.progress ≡ some p
      → P st
      → P (page_done reg tgt t run_id tok page (record st { progress = p }))) where
  page_observed-keeps :
      (cols : List Text) (page : List Row) (st : State L D) (r : Result (Option Tracker))
      → P st
      → Returns (λ o. P o.1) (page_observed reg tgt t run_id tok cols page st r)
  unfolding page_observed page_written Returns
  page_observed-keeps cols page st (err e) h = h
  page_observed-keeps cols page st (ok w) h =
      let (p, e) = put_page-total tgt t cols page st.progress positive in
      rw e (written cols page (record st { tracker = w }) p e (checked st st.keys_checked w h))

  page_checked-keeps :
      (page : List Row) (st : State L D) (r : Result (List Text))
      → P st
      → Returns (λ o. P o.1) (page_checked reg tgt t run_id tok page st r)
  unfolding page_checked Returns
  page_checked-keeps page st (err e) h = h
  page_checked-keeps page st (ok cols) h =
      page_observed-keeps cols page (record st { keys_checked = true })
        (observe_page st.tracker page) (checked st true st.tracker h)

  on_page-keeps :
      (page : List Row) (st : State L D)
      → P st
      → Returns (λ o. P o.1) (on_page reg tgt t run_id tok page st)
  unfolding on_page Returns
  on_page-keeps [] st h = h
  on_page-keeps (r ∷ rows) st h =
      page_checked-keeps (r ∷ rows) st (check_page t st.keys_checked r (r ∷ rows)) h

  split_outcome-keeps :
      (o : Option (Option Error × State L D))
      → Returns (λ o. P o.1) o
      → Returns P (split_outcome o).1
  unfolding split_outcome Returns
  split_outcome-keeps none h = h
  split_outcome-keeps (some (e, st)) h = h

  callback-keeps :
      (page : List Row) (st : Option (State L D))
      → Returns P st
      → Returns P (callback reg tgt t run_id tok page st).1
  unfolding callback Returns
  callback-keeps page none h = h
  callback-keeps page (some st) h =
      split_outcome-keeps (on_page reg tgt t run_id tok page st) (on_page-keeps page st h)

  pub deliver-keeps :
      (pages : List (List Row)) (ending : Option Error) (total : ℕ) (st : Option (State L D))
      → Returns P st
      → Returns P (deliver (callback reg tgt t run_id tok) pages ending total st).1
  unfolding deliver
  deliver-keeps [] ending total st h = h
  deliver-keeps (page ∷ pages) ending total st h =
      let step = callback reg tgt t run_id tok page st in
      let kept = callback-keeps page st h in
      let rest = deliver-keeps pages ending (total + length page) step.1 kept in
      elim (Option-cases step.0) [
        | inl e ↦ rw (e, deliver) rest
        | inr (x, e) ↦ rw (e, deliver) kept
      ]
