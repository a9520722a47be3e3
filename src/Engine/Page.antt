-- ===== src/Engine/Page.antt =====
-- internal/engine/engine.go: the callback that `RunTask` hands to `Stream`.
pub mod Columns
pub mod Kept
pub mod Shown
pub mod Passed
use replicron.Base.{
  ℕ, zero, suc, ◌+◌, Text, codes, List, [], ◌∷◌, length, Option, none, some, Bool, true, false, not,
  ◌==◌, ltb, text_lt, keys, has, if◌then◌else◌,
}
use replicron.Model.{
  Value, Row, RunResult, Error, Result, ok, err, columns_rejected, key_missing, incremental_missing,
  ragged_row, watermark_column, ◌>>=◌, ◌>>◌, wrap,
}
use replicron.Config.{Task, Incremental}
use replicron.Connector.Ident.{validate_columns}
use replicron.Runlog.Statements.{Store, event, progress}
use replicron.Engine.Watermark.{Tracker, observe}
use replicron.Engine.Batch.{TargetConn, Progress, put_page}

-- `registry.Locker` over the state `L` of the lock, with tokens `K`. `renew` is there where the lock
-- implements `registry.Renewer`.
pub record Locker (L K : Type 0) : Type 0 where
  pub acquire : Text → L → Option K × L
  pub release : K → L → L
  pub renew : Option (K → L → L)

-- `sort.Strings` by insertion.
unfoldable pub insert_sorted : Text → List Text → List Text
insert_sorted c [] = c ∷ []
insert_sorted c (d ∷ ds) = if text_lt d c then d ∷ insert_sorted c ds else c ∷ d ∷ ds

unfoldable pub sort : List Text → List Text
unfolding insert_sorted
sort [] = []
sort (c ∷ cs) = insert_sorted c (sort cs)

-- `sortedCols`
unfoldable pub sorted_cols : Row → List Text
sorted_cols r = sort (keys r)

unfoldable pub check_keys : Row → List Text → List Text → Result (Unit {0})
check_keys r cols [] = ok tt
check_keys r cols (k ∷ ks) = if has k r then check_keys r cols ks else err (key_missing k cols)

unfoldable pub check_column : Row → List Text → Option Incremental → Result (Unit {0})
check_column r cols none = ok tt
check_column r cols (some inc) =
    if has inc.column r then ok tt else err (incremental_missing inc.column cols)

-- The loop that refuses rows of another width, from row `i` on.
unfoldable pub check_widths : ℕ → ℕ → List Row → Result (Unit {0})
check_widths i width [] = ok tt
check_widths i width (r ∷ rows) =
    if length r == width
    then check_widths (i + 1) width rows
    else err (ragged_row i (length r) width)

-- The checks that are made until a page has passed them.
unfoldable pub check_first : Task → Bool → Row → List Text → Result (Unit {0})
unfolding check_keys check_column
check_first t true r cols = ok tt
check_first t false r cols = do check_keys r cols t.target.keys; check_column r cols t.incremental

-- The checks of the callback on a page whose first row is `r`: the sorted columns.
unfoldable pub check_page : Task → Bool → Row → List Row → Result (List Text)
unfolding check_first
check_page t keys_checked r page = do
  let cols = sorted_cols r
  wrap columns_rejected (validate_columns cols)
  check_first t keys_checked r cols
  check_widths 0 (length cols) page
  ok cols

-- The variables that the callback shares with `RunTask`.
pub record State (L D : Type 0) : Type 0 where
  pub lock : L
  pub store : Store
  pub progress : Progress D
  pub keys_checked : Bool
  pub tracker : Option Tracker
  pub total_seen : ℕ

-- `wm.observe(page)`, where there is a tracker.
unfoldable pub observe_page : Option Tracker → List Row → Result (Option Tracker)
observe_page none page = ok none
observe_page (some w) page = elim (observe page w) [
  | ok w' ↦ ok (some w')
  | err e ↦ err (watermark_column w.column e)
]

-- An outcome as an error, and a state where there is one.
unfoldable pub split_outcome : {S : Type 0} → Option (Option Error × S) → Option Error × Option S
split_outcome none = (none, none)
split_outcome (some (e, st)) = (e, some st)

module _ {L K D : Type 0} (reg : Locker L K) (tgt : TargetConn D) (t : Task) (run_id : ℕ)
    (tok : K) where
  renewed : Option (K → L → L) → L → L
  renewed none l = l
  renewed (some renew) l = renew tok l

  -- The progress event; its error is dropped.
  report : State L D → Store
  report st =
      let res = st.progress.res in
      if ltb 0 run_id
      then (event run_id (codes "progress") (progress st.total_seen res.ok_rows res.fail_rows)
          st.store).1
      else st.store

  -- The end of the callback: the count, the renewal and the event.
  unfoldable pub page_done : List Row → State L D → State L D
  unfolding renewed report
  page_done page st =
      let counted = record st { total_seen = st.total_seen + length page } in
      record counted { lock = renewed reg.renew st.lock; store = report counted }

  unfoldable pub page_written :
      List Row → State L D → Option (Progress D) → Option (Option Error × State L D)
  page_written page st none = none
  page_written page st (some p) = some (none, page_done page (record st { progress = p }))

  unfoldable pub page_observed :
      List Text → List Row → State L D → Result (Option Tracker) → Option (Option Error × State L D)
  unfolding page_written
  page_observed cols page st (err e) = some (some e, st)
  page_observed cols page st (ok w) =
      page_written page (record st { tracker = w }) (put_page tgt t cols page st.progress)

  -- An error of the callback ends the stream, and the flag is not read again.
  unfoldable pub page_checked :
      List Row → State L D → Result (List Text) → Option (Option Error × State L D)
  unfolding page_observed
  page_checked page st (err e) = some (some e, st)
  page_checked page st (ok cols) =
      page_observed cols page (record st { keys_checked = true }) (observe_page st.tracker page)

  -- The callback on a page: its error, and the state after it. `none`: it does not return.
  unfoldable pub on_page : List Row → State L D → Option (Option Error × State L D)
  unfolding page_checked
  on_page [] st = some (none, st)
  on_page (r ∷ rows) st = page_checked (r ∷ rows) st (check_page t st.keys_checked r (r ∷ rows))

  -- The callback as `Stream` calls it; once a call has not returned no later one is made.
  unfoldable pub callback : List Row → Option (State L D) → Option Error × Option (State L D)
  callback page none = (none, none)
  callback page (some st) = split_outcome (on_page page st)
