-- ===== src/Tests/Counters.antt =====
-- The metrics over vectors that keep the lists of their additions and observations.
use replicron.Base.{ℕ, ◌+◌, refl, Text, codes, List, [], ◌∷◌, if◌then◌else◌}
use replicron.Model.{succeeded, failed}
use replicron.Engine.Run.{Effect, source_opened, observed, lease_released}
use replicron.Metrics.{Counters, Histograms, Seconds, nanos_of, Metrics, same_labels, collect}
use replicron.Metrics.Totals.{AreTotals, collect-AreTotals}

-- The counters keep their additions, the histograms their observations.
abbrev Additions : Type 0
Additions = List (List Text × ℕ)

abbrev sum_of : List Text → Additions → ℕ
sum_of ms [] = 0
sum_of ms ((ls, n) ∷ rest) = if same_labels ls ms then sum_of ms rest + n else sum_of ms rest

abbrev kept_additions : Counters Additions
kept_additions = record {
  add = λ ls n c. (ls, n) ∷ c;
  count = sum_of;
  count-add = λ ls ms n c. refl;
}

abbrev Observations : Type 0
Observations = List (List Text × Seconds)

abbrev seconds_of : List Text → Observations → ℕ
seconds_of ms [] = 0
seconds_of ms ((ls, x) ∷ rest) =
    if same_labels ls ms then seconds_of ms rest + nanos_of x else seconds_of ms rest

abbrev times_of : List Text → Observations → ℕ
times_of ms [] = 0
times_of ms ((ls, x) ∷ rest) = if same_labels ls ms then times_of ms rest + 1 else times_of ms rest

abbrev kept_observations : Histograms Observations
kept_observations = record {
  observe = λ ls x h. (ls, x) ∷ h;
  sum = seconds_of;
  times = times_of;
  sum-observe = λ ls ms x h. refl;
  times-observe = λ ls ms x h. refl;
}

abbrev nothing_yet : Metrics Additions Observations
nothing_yet = record { runs = []; rows = []; dur = [] }

abbrev two_observed : List Effect
two_observed =
    source_opened
    ∷ observed (codes "users") succeeded 3 1 1_500_000_000
    ∷ lease_released
    ∷ observed (codes "users") failed 0 2 700_000_000
    ∷ []

collect-AreTotals_example :
    AreTotals kept_additions kept_observations
      (codes "users")
      two_observed
      nothing_yet
      (collect kept_additions kept_observations two_observed nothing_yet)
collect-AreTotals_example =
    collect-AreTotals kept_additions kept_observations (codes "users") two_observed nothing_yet
