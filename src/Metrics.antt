-- ===== src/Metrics.antt =====
-- internal/metrics/metrics.go: what a run adds to the metrics. The vectors of the Prometheus client are a
-- parameter, `Counters` and `Histograms`; the registry and the handler that serves it are not modelled.
pub mod Totals
use replicron.Base.{
  ℕ, ◌+◌, ◌*◌, ◌/◌, ◌%◌, ◌≡◌, Text, codes, List, [], ◌∷◌, Bool, true, false, ◌&&◌, text_eq, ltb,
  if◌then◌else◌,
}
use replicron.Model.{RunStatus, status_text}
use replicron.Engine.Run.{
  Effect, source_opened, source_closed, target_opened, target_closed, run_finished, observed,
  lease_released,
}

abbrev pub same_labels : List Text → List Text → Bool
same_labels [] [] = true
same_labels [] (m ∷ ms) = false
same_labels (l ∷ ls) [] = false
same_labels (l ∷ ls) (m ∷ ms) = text_eq l m && same_labels ls ms

-- A number of seconds, `nanos` the fraction in billionths.
pub record Seconds : Type 0 where
  pub whole : ℕ
  pub nanos : ℕ

-- `d.Seconds()` of a duration in nanoseconds; the rounding to a float64 is not modelled.
unfoldable pub seconds : ℕ → Seconds
seconds d = record { whole = d / 1_000_000_000; nanos = d % 1_000_000_000 }

-- Its billionths.
abbrev pub nanos_of : Seconds → ℕ
nanos_of x = x.whole * 1_000_000_000 + x.nanos

-- A vector of counters, one to each list of label values: what an addition does to the count that one holds.
pub record Counters (C : Type 0) : Type 0 where
  pub add : List Text → ℕ → C → C
  pub count : List Text → C → ℕ
  pub count-add :
      (ls ms : List Text) (n : ℕ) (c : C)
      → count ms (add ls n c) ≡ (if same_labels ls ms then count ms c + n else count ms c)

-- A vector of histograms of seconds: what an observation does to the sum that one holds, in billionths, and to
-- its number of observations.
pub record Histograms (H : Type 0) : Type 0 where
  pub observe : List Text → Seconds → H → H
  pub sum : List Text → H → ℕ
  pub times : List Text → H → ℕ
  pub sum-observe :
      (ls ms : List Text) (x : Seconds) (h : H)
      → sum ms (observe ls x h) ≡ (if same_labels ls ms then sum ms h + nanos_of x else sum ms h)
  pub times-observe :
      (ls ms : List Text) (x : Seconds) (h : H)
      → times ms (observe ls x h) ≡ (if same_labels ls ms then times ms h + 1 else times ms h)

-- `M`, less its registry.
pub record Metrics (C H : Type 0) : Type 0 where
  pub runs : C
  pub rows : C
  pub dur : H

abbrev pub ok_label : Text → List Text
ok_label task = task ∷ codes "ok" ∷ []

abbrev pub fail_label : Text → List Text
fail_label task = task ∷ codes "fail" ∷ []

module _ {C H : Type 0} (v : Counters C) (hs : Histograms H) where
  -- `ObserveRun`; the duration is in nanoseconds.
  unfoldable pub observe_run : Text → RunStatus → ℕ → ℕ → ℕ → Metrics C H → Metrics C H
  observe_run task status ok_rows fail_rows d m =
      let good = if ltb 0 ok_rows then v.add (ok_label task) ok_rows m.rows else m.rows in
      record m {
        runs = v.add (task ∷ status_text status ∷ []) 1 m.runs;
        rows = if ltb 0 fail_rows then v.add (fail_label task) fail_rows good else good;
        dur = hs.observe (task ∷ []) (seconds d) m.dur;
      }

  -- The metrics behind a trace of the engine's calls.
  unfoldable pub collect : List Effect → Metrics C H → Metrics C H
  collect [] m = m
  collect (observed task status ok_rows fail_rows d ∷ trace) m =
      collect trace (observe_run task status ok_rows fail_rows d m)
  collect (_ ∷ trace) m = collect trace m
