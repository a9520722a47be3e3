-- ===== src/Metrics/Totals.antt =====
-- The metrics are the totals of the observed runs.
use replicron.Base.{ℕ, ◌+◌, ◌≡◌, refl, Text, List, [], ◌∷◌, ◌&&◌, text_eq, arith, if◌then◌else◌}
use replicron.Model.{RunStatus, status_text}
use replicron.Engine.Run.{
  Effect, source_opened, source_closed, target_opened, target_closed, run_finished, observed,
  lease_released,
}
use replicron.Metrics.{
  Counters, Histograms, Metrics, seconds, nanos_of, ok_label, fail_label, observe_run, collect,
}

-- The sum of a measure of the observed runs.
abbrev pub total : (Text → RunStatus → ℕ → ℕ → ℕ → ℕ) → List Effect → ℕ
total f [] = 0
total f (observed task status ok_rows fail_rows d ∷ trace) =
    f task status ok_rows fail_rows d + total f trace
total f (_ ∷ trace) = total f trace

abbrev pub where_task : Text → Text → ℕ → ℕ
where_task task t n = if text_eq t task then n else 0

abbrev pub where_status : Text → Text → Text → RunStatus → ℕ
where_status task status t st = if text_eq t task && text_eq (status_text st) status then 1 else 0

module _ {C H : Type 0} (v : Counters C) (hs : Histograms H) where
  observe_run-runs :
      (task status : Text) (t : Text) (st : RunStatus) (g b d : ℕ) (m : Metrics C H)
      → v.count (task ∷ status ∷ []) (observe_run v hs t st g b d m).runs
        ≡ v.count (task ∷ status ∷ []) m.runs + where_status task status t st
  unfolding observe_run
  observe_run-runs task status t st g b d m =
      ground (arith, v.count-add (t ∷ status_text st ∷ []) (task ∷ status ∷ []) 1 m.runs)

  observe_run-ok :
      (task t : Text) (st : RunStatus) (g b d : ℕ) (m : Metrics C H)
      → v.count (ok_label task) (observe_run v hs t st g b d m).rows
        ≡ v.count (ok_label task) m.rows + where_task task t g
  unfolding observe_run text_eq
  observe_run-ok task t st g b d m = ground (
    arith,
    v.count-add (ok_label t) (ok_label task) g m.rows,
    v.count-add (fail_label t) (ok_label task) b m.rows,
    v.count-add (fail_label t) (ok_label task) b (v.add (ok_label t) g m.rows),
  )

  observe_run-fail :
      (task t : Text) (st : RunStatus) (g b d : ℕ) (m : Metrics C H)
      → v.count (fail_label task) (observe_run v hs t st g b d m).rows
        ≡ v.count (fail_label task) m.rows + where_task task t b
  unfolding observe_run text_eq
  observe_run-fail task t st g b d m = ground (
    arith,
    v.count-add (ok_label t) (fail_label task) g m.rows,
    v.count-add (fail_label t) (fail_label task) b m.rows,
    v.count-add (fail_label t) (fail_label task) b (v.add (ok_label t) g m.rows),
  )

  -- The seconds of a duration are that duration.
  seconds-nanos : (d : ℕ) → nanos_of (seconds d) ≡ d
  unfolding seconds
  seconds-nanos d = omega arith

  observe_run-dur :
      (task t : Text) (st : RunStatus) (g b d : ℕ) (m : Metrics C H)
      → (hs.sum (task ∷ []) (observe_run v hs t st g b d m).dur
          ≡ hs.sum (task ∷ []) m.dur + where_task task t d)
        × (hs.times (task ∷ []) (observe_run v hs t st g b d m).dur
            ≡ hs.times (task ∷ []) m.dur + where_task task t 1)
  unfolding observe_run
  observe_run-dur task t st g b d m = ground (
    arith,
    seconds-nanos d,
    hs.sum-observe (t ∷ []) (task ∷ []) (seconds d) m.dur,
    hs.times-observe (t ∷ []) (task ∷ []) (seconds d) m.dur,
  )

  -- What the metrics of a task gained over a trace, from `m` to `m'`.
  pub record AreTotals (task : Text) (trace : List Effect) (m m' : Metrics C H) : Type 0 where
    pub runs :
        (status : Text)
        → v.count (task ∷ status ∷ []) m'.runs
          ≡ v.count (task ∷ status ∷ []) m.runs
            + total (λ t st g b d. where_status task status t st) trace
    pub ok_rows :
        v.count (ok_label task) m'.rows
        ≡ v.count (ok_label task) m.rows + total (λ t st g b d. where_task task t g) trace
    pub fail_rows :
        v.count (fail_label task) m'.rows
        ≡ v.count (fail_label task) m.rows + total (λ t st g b d. where_task task t b) trace
    pub durations :
        hs.sum (task ∷ []) m'.dur
        ≡ hs.sum (task ∷ []) m.dur + total (λ t st g b d. where_task task t d) trace
    pub observations :
        hs.times (task ∷ []) m'.dur
        ≡ hs.times (task ∷ []) m.dur + total (λ t st g b d. where_task task t 1) trace

  observed-AreTotals :
      (task t : Text) (st : RunStatus) (g b d : ℕ) (trace : List Effect) (m m' : Metrics C H)
      → AreTotals task trace (observe_run v hs t st g b d m) m'
      → AreTotals task (observed t st g b d ∷ trace) m m'
  observed-AreTotals task t st g b d trace m m' h = record {
    runs = λ status. omega (arith, h.runs status, observe_run-runs task status t st g b d m);
    ok_rows = omega (arith, h.ok_rows, observe_run-ok task t st g b d m);
    fail_rows = omega (arith, h.fail_rows, observe_run-fail task t st g b d m);
    durations = omega (arith, h.durations, observe_run-dur task t st g b d m);
    observations = omega (arith, h.observations, observe_run-dur task t st g b d m);
  }

  -- A call that is no observation counts for nothing.
  other-AreTotals :
      (task : Text) (x : Effect) (trace : List Effect) (m m' : Metrics C H)
      → ((f : Text → RunStatus → ℕ → ℕ → ℕ → ℕ) → total f (x ∷ trace) ≡ total f trace)
      → AreTotals task trace m m'
      → AreTotals task (x ∷ trace) m m'
  other-AreTotals task x trace m m' same h = record {
    runs = λ status. rw (same (λ t st g b d. where_status task status t st)) (h.runs status);
    ok_rows = rw (same (λ t st g b d. where_task task t g)) h.ok_rows;
    fail_rows = rw (same (λ t st g b d. where_task task t b)) h.fail_rows;
    durations = rw (same (λ t st g b d. where_task task t d)) h.durations;
    observations = rw (same (λ t st g b d. where_task task t 1)) h.observations;
  }

  -- Over any trace of the engine's calls, the counter of a task's runs with a status gains the number of the
  -- observed runs of the task with that status, the two counters of its rows gain the sums of the rows written
  -- and of the rows failed in its observed runs, and its histogram of seconds gains one observation to each of
  -- these runs and the sum of their durations, in nanoseconds, to the billionths of its sum; what other tasks did
  -- does not count.
  pub collect-AreTotals :
      (task : Text) (trace : List Effect) (m : Metrics C H)
      → AreTotals task trace m (collect v hs trace m)
  unfolding collect
  collect-AreTotals task [] m = record {
    runs = λ status. omega arith;
    ok_rows = omega arith;
    fail_rows = omega arith;
    durations = omega arith;
    observations = omega arith;
  }
  collect-AreTotals task (observed t st g b d ∷ trace) m =
      observed-AreTotals task t st g b d trace m _
        (collect-AreTotals task trace (observe_run v hs t st g b d m))
  collect-AreTotals task (source_opened ∷ trace) m =
      other-AreTotals task source_opened trace m _ (λ f. refl) (collect-AreTotals task trace m)
  collect-AreTotals task (source_closed ∷ trace) m =
      other-AreTotals task source_closed trace m _ (λ f. refl) (collect-AreTotals task trace m)
  collect-AreTotals task (target_opened ∷ trace) m =
      other-AreTotals task target_opened trace m _ (λ f. refl) (collect-AreTotals task trace m)
  collect-AreTotals task (target_closed ∷ trace) m =
      other-AreTotals task target_closed trace m _ (λ f. refl) (collect-AreTotals task trace m)
  collect-AreTotals task (run_finished id ∷ trace) m =
      other-AreTotals task (run_finished id) trace m _ (λ f. refl) (collect-AreTotals task trace m)
  collect-AreTotals task (lease_released ∷ trace) m =
      other-AreTotals task lease_released trace m _ (λ f. refl) (collect-AreTotals task trace m)
