-- ===== src/Cli/Run/Exits.antt =====
-- How `replicron run` ends.
use replicron.Base.{
  suc, ◌≡◌, ◌≢◌, ◌↔◌, refl, Text, List, [], ◌∷◌, length, some, true, inl, inr, arith, All, All_imp,
  Bool-cases,
}
use replicron.Model.{
  RunStatus, unset, running, succeeded, failed, skipped, interrupted, Error, ok, err, Result-cases,
}
use replicron.Config.{Task, Outside, load}
use replicron.Config.Loaded.{load-IsValid}
use replicron.Registry.{Registry, new}
use replicron.Runlog.Statements.{Store, open_store, keep_if}
use replicron.Engine.Run.{World}
use replicron.Engine.Openers.{Drivers, new_engine, new_engine-OpensExact}
use replicron.Cli.Run.{Totals, no_totals, has_succeeded, verdict, Exit, opened, loaded, run_command}
use replicron.Cli.Run.Counted.{Call, failed_calls, RanAll, run_tasks-RanAll}

has_succeeded-true : (s : RunStatus) → has_succeeded s ≡ true → s ≡ succeeded
has_succeeded-true unset h = absurd (cc h)
has_succeeded-true running h = absurd (cc h)
has_succeeded-true succeeded h = refl
has_succeeded-true failed h = absurd (cc h)
has_succeeded-true skipped h = absurd (cc h)
has_succeeded-true interrupted h = absurd (cc h)

module _ {L D : Type 0} where
  abbrev AllSucceeded : List (Call L D) → Type 0
  AllSucceeded calls = All (λ c. c.result.status ≡ succeeded) calls

  none_failed : (calls : List (Call L D)) → length (failed_calls calls) ≡ 0 → AllSucceeded calls
  unfolding keep_if
  none_failed [] h = tt
  none_failed (c ∷ calls) h = elim (Bool-cases (has_succeeded c.result.status)) [
    | inl good ↦ (has_succeeded-true c.result.status good, none_failed calls (rw good at h))
    | inr bad ↦
        let more : suc (length (failed_calls calls)) ≡ 0 = rw bad at h in absurd (omega arith)
  ]

  failed_none : (calls : List (Call L D)) → AllSucceeded calls → length (failed_calls calls) ≡ 0
  unfolding keep_if
  failed_none [] h = refl
  failed_none (c ∷ calls) (h, hs) = rw h (failed_none calls hs)

  some_call : (calls : List (Call L D)) → length calls ≢ 0 → calls ≢ []
  some_call [] h e = h refl
  some_call (c ∷ calls) h e = cc e

  length_of_some : (calls : List (Call L D)) → calls ≢ [] → length calls ≢ 0
  length_of_some [] h e = h refl
  length_of_some (c ∷ calls) h e = omega arith

verdict_iff : (n : Totals) → (verdict n ≡ ok tt) ↔ ((n.ran ≢ 0) × (n.failures ≡ 0))
unfolding verdict
verdict_iff n = (λ h. ground arith, λ h. ground arith)

-- How the command ends, `x`, for what it is given.
pub data Exits {S D : Type 0} (out : Outside) (v : Drivers S D) (config_path task_name : Text)
    (s : Store) (d : D) (x : Exit D) : Type 0 where
  not_loaded :
      (e : Error)
      → load out config_path ≡ err e
      → x ≡ record { result = err e; totals = no_totals; store = s; target = d }
      → Exits out v config_path task_name s d x
  not_opened :
      (ts : List Task) (e : Error)
      → load out config_path ≡ ok ts
      → (open_store s).0 ≡ err e
      → x ≡ record { result = err e; totals = no_totals; store = (open_store s).1; target = d }
      → Exits out v config_path task_name s d x
  all_run :
      (ts : List Task) (w : World Registry D)
      → load out config_path ≡ ok ts
      → (open_store s).0 ≡ ok tt
      → x.store ≡ w.store
      → x.target ≡ w.target
      → (all : RanAll
          (new_engine v)
          task_name
          ts
          no_totals
          (record { lock = new; store = (open_store s).1; target = d; trace = [] })
          x.totals
          w)
      → (x.result ≡ ok tt) ↔ ((all.calls ≢ []) × AllSucceeded all.calls)
      → Exits out v config_path task_name s d x

module _ {S D : Type 0} (out : Outside) (v : Drivers S D) (config_path task_name : Text) where
  verdict_of_calls :
      (ts : List Task) (w w' : World Registry D) (n : Totals)
      → (all : RanAll (new_engine v) task_name ts no_totals w n w')
      → (verdict n ≡ ok tt) ↔ ((all.calls ≢ []) × AllSucceeded all.calls)
  verdict_of_calls ts w w' n all = (
    λ h.
        let (some_ran, no_failure) = (verdict_iff n).0 h in
        (
          some_call all.calls (λ e. some_ran (omega (arith, all.ran))),
          none_failed all.calls (omega (arith, all.failures)),
        ),
    λ (calls, good). (verdict_iff n).1 (
      λ e. length_of_some all.calls calls (omega (arith, all.ran)),
      omega (arith, all.failures, failed_none all.calls good),
    ),
  )

  -- `replicron run` always returns, in one of three ways. A configuration that does not load, or a run log
  -- that does not open, is its error, and nothing is run. Otherwise each enabled task, of the name given if
  -- one is, is run once, in the order of the configuration, and the command succeeds exactly if there was
  -- such a task and all of these runs succeeded; it counts the runs and the failures, and prints a line for
  -- each failure; and a task's watermark is left as it was unless a run of that task succeeded without a
  -- failed row.
  pub run_command-Exits :
      (s : Store) (d : D)
      → (x : Exit D) × (run_command out v config_path task_name s d ≡ some x)
        × Exits out v config_path task_name s d x
  unfolding run_command loaded opened
  run_command-Exits s d = elim (Result-cases (load out config_path)) [
    | inr (e, h) ↦ (_, rw (h, loaded) refl, not_loaded e h refl)
    | inl (ts, h) ↦ elim (Result-cases (open_store s).0) [
      | inr (e, k) ↦ (_, rw (h, loaded) (rw (k, opened) refl), not_opened ts e h k refl)
      | inl (_, k) ↦
          let w : World Registry D = record {
            lock = new;
            store = (open_store s).1;
            target = d;
            trace = [];
          } in
          let ((n, w'), returns, all) =
            run_tasks-RanAll (new_engine v) task_name ts no_totals w
              (All_imp (λ t p. p.batch_positive) ts (load-IsValid out config_path ts h).0)
              (new_engine-OpensExact v) in
          (
            record { result = verdict n; totals = n; store = w'.store; target = w'.target },
            rw (h, loaded) (rw (k, opened) (rw returns refl)),
            all_run ts w' h k refl refl all (verdict_of_calls ts w w' n all),
          )
    ]
  ]
