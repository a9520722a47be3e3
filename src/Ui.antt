-- ===== src/Ui.antt =====
-- internal/ui/ui.go: the pages over the run log. A page is the data that its template gets; the template,
-- the text of an error and the print of times are left out, so a view holds the times themselves.
pub mod Index
pub mod Detail
use replicron.Base.{
  ℕ, ◌+◌, ◌-◌, Text, codes, List, [], ◌∷◌, ◌++◌, map, length, take, Option, none, some, Bool, true,
  false, ◌||◌, text_eq, ltb, leb, if◌then◌else◌,
}
use replicron.Base.Ints.{ℤ, pos, negsuc}
use replicron.Base.Decimal.{parse_int}
use replicron.Model.{
  Run, RunStatus, running, succeeded, failed, skipped, interrupted, status_text, Error, Result, ok,
  err,
}
use replicron.Config.{Task, is_empty}
use replicron.Runlog.Statements.{Store, EventRow, keep_if}
use replicron.Runlog.Queries.{list, get_run, list_events}

-- `taskView`
pub record TaskView : Type 0 where
  pub name : Text
  pub schedule : Text
  pub enabled : Bool

-- `runView`; the duration is that between two times, none for the dash.
pub record RunView : Type 0 where
  pub id : ℕ
  pub task : Text
  pub trigger : Text
  pub status : Text
  pub ok_rows : ℕ
  pub fail_rows : ℕ
  pub started : ℕ
  pub took : Option (ℕ × ℕ)
  pub error : Text

-- `indexData`
pub record IndexData : Type 0 where
  pub tasks : List TaskView
  pub statuses : List Text
  pub filter_task : Text
  pub filter_status : Text
  pub runs : List RunView

-- What a handler answers: a page, or `http.Error` with its code and text.
pub data Response : Type 0 where
  index_page : IndexData → Response
  detail_page : Run → List EventRow → Response
  http_error : ℕ → Text → Response

-- The code points of an ellipsis, as UTF-8.
abbrev pub ellipsis : Text
ellipsis = 0xE2 ∷ 0x80 ∷ 0xA6 ∷ []

-- `errMsg[:120] + "…"`, where the text is longer.
unfoldable pub shortened : Text → Text
shortened s = if ltb 120 (length s) then take 120 s ++ ellipsis else s

abbrev pub span : ℕ → Option ℕ → Option (ℕ × ℕ)
span began none = none
span began (some ended) = some (began, ended)

unfoldable pub task_view : Task → TaskView
task_view t = record {
  name = t.name;
  schedule = if is_empty t.schedule then codes "manual" else t.schedule;
  enabled = t.is_enabled;
}

-- The statuses that the page offers as a filter.
abbrev pub statuses : List Text
statuses = map status_text (running ∷ succeeded ∷ failed ∷ skipped ∷ interrupted ∷ [])

-- `if filterStatus != "" && string(run.Status) != filterStatus { continue }`, turned round.
unfoldable pub is_shown : Text → Run → Bool
is_shown filter_status r = is_empty filter_status || text_eq (status_text r.status) filter_status

-- `err.Error()`, with the empty string for no error.
module _ (message : Error → Text) where
  abbrev pub text_of : Option Error → Text
  text_of none = []
  text_of (some e) = message e

  unfoldable pub run_view : Run → RunView
  run_view r = record {
    id = r.id;
    task = r.task;
    trigger = r.trigger;
    status = status_text r.status;
    ok_rows = r.ok_rows;
    fail_rows = r.fail_rows;
    started = r.started_at;
    took = span r.started_at r.finished_at;
    error = shortened (text_of r.error);
  }

  -- The answer of the server's own error.
  abbrev pub internal : Error → Response
  internal e = http_error 500 (message e)

  index_of : List Task → Text → Text → Result (List Run) → Response
  index_of tasks filter_task filter_status (err e) = internal e
  index_of tasks filter_task filter_status (ok runs) = index_page (record {
    tasks = map task_view tasks;
    statuses = statuses;
    filter_task = filter_task;
    filter_status = filter_status;
    runs = map run_view (keep_if (is_shown filter_status) runs);
  })

  -- `index`
  unfoldable pub index : List Task → Text → Text → Store → Response × Store
  unfolding index_of
  index tasks filter_task filter_status s =
      let (r, s') = list filter_task (pos 100) s in (index_of tasks filter_task filter_status r, s')

  with_events : Run → Result (List EventRow) → Response
  with_events r (err e) = internal e
  with_events r (ok events) = detail_page r events

  detail_of : ℕ → Result (Option Run) → Store → Response × Store
  unfolding with_events
  detail_of id (err e) s = (internal e, s)
  detail_of id (ok none) s = (http_error 404 (codes "run not found"), s)
  detail_of id (ok (some r)) s =
      let (events, s') = list_events id (pos 500) s in (with_events r events, s')

  abbrev bad_id : Store → Response × Store
  bad_id s = (http_error 400 (codes "invalid run id"), s)

  detail_at : Option ℤ → Store → Response × Store
  unfolding detail_of
  detail_at none s = bad_id s
  detail_at (some (negsuc n)) s = bad_id s
  detail_at (some (pos n)) s =
      let (r, s') = get_run n s in if ltb 0 n then detail_of n r s' else bad_id s

  -- `detail` of the path's `{id}`
  unfoldable pub detail : Text → Store → Response × Store
  unfolding detail_at
  detail path_id s = detail_at (parse_int path_id) s
