-- ===== src/Ui/Index.antt =====
-- What the page of runs shows.
use replicron.Base.{
  ◌≡◌, ◌↔◌, refl, ap, Text, List, [], ◌∷◌, map, Bool, true, none, Bool-cases, ◌<◌, In, inl, inr,
  ◌⊎◌, text_eq_iff,
}
use replicron.Base.Ints.{pos}
use replicron.Model.{Run, status_text, Error}
use replicron.Config.{Task}
use replicron.Runlog.Statements.{Store, keep_if}
use replicron.Runlog.Statements.Lifecycle.{IsLog, keep_if-All}
use replicron.Runlog.Queries.{effective_limit}
use replicron.Runlog.Queries.Listed.{OfTask, AreNewest, Descends, keep_if-In, list-AreNewest}
use replicron.Ui.{IndexData, index_page, is_shown, run_view, index, index_of}

-- The test on the status, where one is asked for.
abbrev pub HasStatus : Text → Run → Type 0
HasStatus filter_status r = (filter_status ≡ []) ⊎ (status_text r.status ≡ filter_status)

is_shown_iff :
    (filter_status : Text) (r : Run) → (is_shown filter_status r ≡ true) ↔ HasStatus filter_status r
unfolding is_shown
is_shown_iff [] r = (λ h. inl refl, λ h. refl)
is_shown_iff (c ∷ cs) r = (
  λ h. inr ((text_eq_iff (status_text r.status) (c ∷ cs)).0 h),
  λ h. elim h [
    | inl nothing ↦ absurd (cc nothing)
    | inr same ↦ (text_eq_iff (status_text r.status) (c ∷ cs)).1 same
  ],
)

-- The runs on the page are, newest first, those of the newest hundred of the task that have the status.
pub record IsIndex (message : Error → Text) (filter_task filter_status : Text) (runs : List Run)
    (d : IndexData) : Type 0 where
  pub newest : List Run
  pub shown : List Run
  pub are_newest : AreNewest 100 (OfTask filter_task) runs newest
  pub descending : Descends shown
  pub members : (r : Run) → In r shown ↔ (In r newest × HasStatus filter_status r)
  pub views : d.runs ≡ map (run_view message) shown

keep_if-Descends : (p : Run → Bool) (rs : List Run) → Descends rs → Descends (keep_if p rs)
unfolding keep_if
keep_if-Descends p [] h = tt
keep_if-Descends p (r ∷ rs) (h, hs) = elim (Bool-cases (p r)) [
  | inl e ↦ rw e (keep_if-All (λ q. q.id < r.id) p rs h, keep_if-Descends p rs hs)
  | inr e ↦ rw e (keep_if-Descends p rs hs)
]

shown_iff :
    (filter_status : Text) (r : Run) (newest : List Run)
    → In r (keep_if (is_shown filter_status) newest) ↔ (In r newest × HasStatus filter_status r)
shown_iff filter_status r newest =
    let (there, back) = keep_if-In (is_shown filter_status) r newest in
    let (sound, complete) = is_shown_iff filter_status r in
    (λ m. let (i, p) = there m in (i, sound p), λ (i, p). back (i, complete p))

-- Where the statement is not refused, the page of runs shows the newest hundred runs of the task asked for, or
-- of all tasks, less those that do not have the status asked for, newest first; and the run log is as before.
-- So a run with the status stays off the page where a hundred newer runs of the task stand before it.
pub index-IsIndex :
    (message : Error → Text) (tasks : List Task) (filter_task filter_status : Text) (s : Store)
    → IsLog s.tables
    → s.faults s.calls ≡ none
    → let (page, s') = index message tasks filter_task filter_status s in
      (d : IndexData) × (page ≡ index_page d)
      × IsIndex message filter_task filter_status s.tables.runs d
      × (s'.tables ≡ s.tables)
unfolding index index_of effective_limit
index-IsIndex message tasks filter_task filter_status s l h =
    let (found, listed, newest, same) = list-AreNewest filter_task (pos 100) s l h in
    (
      _,
      ap (index_of message tasks filter_task filter_status) listed,
      record {
        newest = found;
        shown = keep_if (is_shown filter_status) found;
        are_newest = newest;
        descending = keep_if-Descends (is_shown filter_status) found newest.descending;
        members = λ r. shown_iff filter_status r found;
        views = refl;
      },
      same,
    )
