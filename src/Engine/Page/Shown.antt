-- ===== src/Engine/Page/Shown.antt =====
-- A stream that ends without an error has shown every row of its pages to the tracker.
use replicron.Base.{
  ℕ, ◌≡◌, refl, sym, ap, ◌∙◌, Text, List, [], ◌∷◌, ◌++◌, concat, Option, none, some, true, inl, inr,
  ◌⊎◌, Dict,
}
use replicron.Model.{Row, Error, ok, err, watermark_column, Result-cases, ok-injective}
use replicron.Config.{Task}
use replicron.Connector.Conn.{get_value}
use replicron.Connector.Conn.Paging.{deliver}
use replicron.Runlog.Statements.{StateRow}
use replicron.Engine.Watermark.{Tracker, observe, observe_value}
use replicron.Engine.Batch.{TargetConn, Progress, put_page}
use replicron.Engine.Page.{sorted_cols, Locker, State, observe_page, page_done, callback}
use replicron.Engine.Page.Passed.{deliver-Seen}
use replicron.Engine.Page.Kept.{page_done-states, page_done-Holds}

observe-append :
    (xs ys : List Row) (w w' : Tracker)
    → observe xs w ≡ ok w'
    → observe (xs ++ ys) w ≡ observe ys w'
unfolding observe
observe-append [] ys w w' h = ap (observe ys) (cc h)
observe-append (r ∷ xs) ys w w' h = elim (Result-cases (observe_value (get_value r w.column) w)) [
  | inl (v, e) ↦ rw e (observe-append xs ys v w' (rw e at h))
  | inr (x, e) ↦ absurd (cc (rw e at h))
]

observe_page-cases :
    (w : Tracker) (page : List Row)
    → ((last : Tracker) × (observe page w ≡ ok last)
        × (observe_page (some w) page ≡ ok (some last)))
      ⊎ ((e : Error) × (observe_page (some w) page ≡ err e))
unfolding observe_page
observe_page-cases w page = elim (Result-cases (observe page w)) [
  | inl (last, e) ↦ inl (last, e, rw (e, observe_page) refl)
  | inr (x, e) ↦ inr (watermark_column w.column x, rw (e, observe_page) refl)
]

-- The state of a stream whose tracker holds `w`, over a run log that still has these watermarks and refuses
-- no statement.
pub record IsTracked {L D : Type 0} (states : Dict StateRow) (w : Tracker) (st : State L D)
    : Type 0 where
  pub holds : st.tracker ≡ some w
  pub same_states : st.store.tables.states ≡ states
  pub accepting : (n : ℕ) → st.store.faults n ≡ none

-- The tracker came from `w` over the rows.
pub record IsShown {L D : Type 0} (states : Dict StateRow) (w : Tracker) (rows : List Row)
    (st : State L D) : Type 0 where
  pub last : Tracker
  pub observed : observe rows w ≡ ok last
  pub tracked : IsTracked states last st

module _ {L K D : Type 0} (reg : Locker L K) (tgt : TargetConn D) (t : Task) (run_id : ℕ) (tok : K)
    (states : Dict StateRow) where
  page_done-IsTracked :
      (w : Tracker) (page : List Row) (st : State L D)
      → IsTracked states w st
      → IsTracked states w (page_done reg tgt t run_id tok page st)
  unfolding page_done
  page_done-IsTracked w page st h = record {
    holds = h.holds;
    same_states = page_done-states reg tgt t run_id tok page st ∙ h.same_states;
    accepting =
        (page_done-Holds reg tgt t run_id tok st.store.tables.runs st.store.tables.run_seq page st
          (record { same_runs = refl; same_seq = refl; accepting = h.accepting })).accepting;
  }

  written-IsShown :
      (w : Tracker) (rows : List Row) (cols : List Text) (r : Row) (rest : List Row)
      (st : State L D) (w' : Option Tracker) (p : Progress D)
      → cols ≡ sorted_cols r
      → observe_page st.tracker (r ∷ rest) ≡ ok w'
      → put_page tgt t cols (r ∷ rest) st.progress ≡ some p
      → IsShown states w rows st
      → IsShown states w (rows ++ r ∷ rest) (
          page_done reg tgt t run_id tok
            (r ∷ rest)
            (record st { keys_checked = true; tracker = w'; progress = p }))
  written-IsShown w rows cols r rest st w' p c o e h = elim (observe_page-cases h.last (r ∷ rest)) [
    | inl (last, seen, shown) ↦ record {
      last = last;
      observed = observe-append rows (r ∷ rest) w h.last h.observed ∙ seen;
      tracked =
          page_done-IsTracked last (r ∷ rest)
            (record st { keys_checked = true; tracker = w'; progress = p })
            (record {
              holds =
                  ok-injective
                    (sym o ∙ ap (λ x. observe_page x (r ∷ rest)) h.tracked.holds ∙ shown);
              same_states = h.tracked.same_states;
              accepting = h.tracked.accepting;
            });
    }
    | inr (x, refused) ↦
        absurd (cc (sym o ∙ ap (λ x. observe_page x (r ∷ rest)) h.tracked.holds ∙ refused))
  ]

  -- If the delivery ends without an error then the pages do, and the tracker has seen all their rows.
  pub deliver-IsShown :
      (w : Tracker) (pages : List (List Row)) (ending : Option Error) (st st' : State L D)
      (count : ℕ)
      → IsTracked states w st
      → deliver (callback reg tgt t run_id tok) pages ending 0 (some st) ≡ ((count, none), some st')
      → (ending ≡ none) × IsShown states w (concat pages) st'
  deliver-IsShown w pages ending st st' count h e =
      deliver-Seen reg tgt t run_id tok (IsShown states w) (written-IsShown w) pages ending st st'
        count (record { last = w; observed = unfold observe in refl; tracked = h }) e
