-- ===== src/Tests/Pages.antt =====
-- The pages over a run log of two runs.
use replicron.Base.{◌≡◌, refl, Text, codes, []}
use replicron.Model.{Error}
use replicron.Runlog.Invariant.{Reach-IsLog}
use replicron.Runlog.Statements.{statement, start_run}
use replicron.Ui.{IndexData, index_page, index, detail}
use replicron.Ui.Index.{IsIndex, index-IsIndex}
use replicron.Ui.Detail.{IsDetail, detail-IsDetail}
use replicron.Tests.Log.{two_runs, two_runs-Reach}

abbrev no_message : Error → Text
no_message e = []

index-IsIndex_example :
    let (page, s') = index no_message [] (codes "users") (codes "running") two_runs in
    (d : IndexData) × (page ≡ index_page d)
    × IsIndex no_message (codes "users") (codes "running") two_runs.tables.runs d
    × (s'.tables ≡ two_runs.tables)
unfolding start_run statement
index-IsIndex_example =
    index-IsIndex no_message [] (codes "users") (codes "running") two_runs
      (Reach-IsLog two_runs two_runs-Reach) refl

detail-IsDetail_example :
    let (page, s') = detail no_message (codes "2") two_runs in
    IsDetail (codes "2") two_runs.tables page × (s'.tables ≡ two_runs.tables)
unfolding start_run statement
detail-IsDetail_example =
    detail-IsDetail no_message two_runs (Reach-IsLog two_runs two_runs-Reach) refl refl (codes "2")
