-- ===== src/Engine/Run/Outcome.antt =====
-- What every run returns: that it returns, its counts, its samples, and its status with its error.
use replicron.Base.{
  ℕ, ◌<◌, ◌≡◌, refl, ◌∙◌, Text, List, Option, none, some, true, false, Bool-cases, inl, inr, ◌⊎◌,
  arith, ltb, ◌==◌, ◌-◌, ◌&&◌,
}
use replicron.Base.Ints.{pos, ltb_ℤ}
use replicron.Model.{
  Row, succeeded, failed, skipped, RunResult, Error, ok, all_failed, still_active,
}
use replicron.Config.{Task}
use replicron.Runlog.Statements.{now}
use replicron.Engine.Batch.{TargetConn, Progress, put_page}
use replicron.Engine.Batch.Accounting.{IsExact, tally, Sampled, put_page-Accounts}
use replicron.Engine.Page.{State, page_done}
use replicron.Engine.Page.Kept.{Returns, Returns-some}
use replicron.Engine.Run.{
  World, Engine, new_result, settle, conclude, run_body, finish, finished, skip, run_acquired,
  run_task,
}
use replicron.Engine.Run.Rule.{run_body-rule}

-- Every target that the engine opens counts as it should.
pub record OpensExact {L K D : Type 0} (e : Engine L K D) : Type 0 where
  pub exact :
      (typ dsn : Text) (d : D) (tgt : TargetConn D)
      → (e.target_of typ dsn d).0 ≡ ok tgt
      → IsExact tgt

-- A status and its error: a success has no error and, where there were rows, has written some; any
-- other end has an error.
pub data Settled (res : RunResult) : Type 0 where
  success :
      res.status ≡ succeeded
      → res.err ≡ none
      → (res.total_rows ≡ 0) ⊎ (0 < res.ok_rows)
      → Settled res
  failure : (x : Error) → res.status ≡ failed → res.err ≡ some x → Settled res
  not_run : (x : Error) → res.status ≡ skipped → res.err ≡ some x → res.total_rows ≡ 0 → Settled res

-- The deferred call sets the duration only.
later : (res : RunResult) (d : ℕ) → Settled res → Settled (record res { duration = d })
later res d (success s n w) = success s n w
later res d (failure x s n) = failure x s n
later res d (not_run x s n z) = not_run x s n z

-- What a result says of its run.
pub record IsOutcome (res : RunResult) : Type 0 where
  pub counted : tally res ≡ res.total_rows
  pub sampled : Sampled res
  pub settled : Settled res

-- What holds between two pages.
record IsOngoing {L D : Type 0} (st : State L D) : Type 0 where
  counted : tally st.progress.res ≡ st.total_seen
  sampled : Sampled st.progress.res
  no_err : st.progress.res.err ≡ none

some_written :
    (res : RunResult)
    → (ltb 0 res.total_rows && ((res.ok_rows == 0) && ltb 0 res.fail_rows)) ≡ false
    → tally res ≡ res.total_rows
    → (res.total_rows ≡ 0) ⊎ (0 < res.ok_rows)
some_written res h c = elim (Bool-cases (res.ok_rows == 0)) [
  | inl none_ok ↦ inl (ground arith)
  | inr some_ok ↦ inr (ground arith)
]

settle-IsOutcome :
    (res : RunResult)
    → tally res ≡ res.total_rows
    → Sampled res
    → res.err ≡ none
    → IsOutcome (settle res)
unfolding settle
settle-IsOutcome res c s n =
    elim (Bool-cases (ltb 0 res.total_rows && ((res.ok_rows == 0) && ltb 0 res.fail_rows))) [
      | inl bad ↦
          rw (bad, settle)
            (record {
              counted = c;
              sampled = s;
              settled = failure (all_failed res.fail_rows) refl refl;
            })
      | inr fine ↦
          rw (fine, settle)
            (record {
              counted = c;
              sampled = s;
              settled = success refl n (some_written res fine c);
            })
    ]

module _ {L K D : Type 0} (e : Engine L K D) (t : Task) (run_id : ℕ) (tok : K) where
  conclude-IsOutcome :
      (streamed : Option Error) (st : State L D) (w : World L D)
      → IsOngoing st
      → IsOutcome (conclude e t run_id tok streamed st w).0
  unfolding conclude
  conclude-IsOutcome none st w h = settle-IsOutcome _ h.counted h.sampled h.no_err
  conclude-IsOutcome (some x) st w h = record {
    counted = h.counted;
    sampled = h.sampled;
    settled = failure x refl refl;
  }

  written-IsOngoing :
      (tgt : TargetConn D) (cols : List Text) (page : List Row) (st : State L D) (p : Progress D)
      → IsExact tgt
      → put_page tgt t cols page st.progress ≡ some p
      → IsOngoing st
      → IsOngoing (page_done e.reg tgt t run_id tok page (record st { progress = p }))
  unfolding page_done
  written-IsOngoing tgt cols page st p x eq h =
      let a = put_page-Accounts tgt t cols x page st.progress p eq in
      record {
        counted = omega (arith, a.counted, h.counted);
        sampled = a.sampled h.sampled;
        no_err = a.same_err ∙ h.no_err;
      }

  run_body-IsOutcome :
      (trigger : Text) (w : World L D)
      → ltb_ℤ (pos 0) t.target.batch_size ≡ true
      → OpensExact e
      → Returns (λ o. IsOutcome o.0) (run_body e t run_id tok (new_result t.name trigger) w)
  run_body-IsOutcome trigger w positive opens =
      run_body-rule e t run_id tok positive IsExact opens.exact (λ s. Unit {0}) (λ s h. tt)
        IsOngoing (λ res s. IsOutcome res) (new_result t.name trigger)
        (λ l s d wm h. record { counted = refl; sampled = refl; no_err = refl })
        (λ st k w' h. record { counted = h.counted; sampled = h.sampled; no_err = h.no_err })
        (λ tgt x cols page st p eq h. written-IsOngoing tgt cols page st p x eq h)
        (λ x s h. record { counted = refl; sampled = refl; settled = failure x refl refl })
        (λ streamed st w' h. conclude-IsOutcome streamed st w' h) w tt

module _ {L K D : Type 0} (e : Engine L K D) (t : Task) where
  skip-IsOutcome :
      (began : ℕ) (trigger : Text) (w : World L D)
      → IsOutcome (skip e t began (new_result t.name trigger) w).0
  unfolding skip
  skip-IsOutcome began trigger w = record {
    counted = refl;
    sampled = refl;
    settled = not_run still_active refl refl refl;
  }

  finished-IsOutcome :
      (run_id : ℕ) (tok : K) (began : ℕ) (o : Option (RunResult × World L D))
      → Returns (λ o. IsOutcome o.0) o
      → Returns (λ o. IsOutcome o.0) (finished e t run_id tok began o)
  unfolding finish Returns
  finished-IsOutcome run_id tok began none h = h
  finished-IsOutcome run_id tok began (some (res, w)) h = record {
    counted = h.counted;
    sampled = h.sampled;
    settled = later res (now w.store - began) h.settled;
  }

  run_acquired-IsOutcome :
      (tok : Option K) (began : ℕ) (trigger : Text) (w : World L D)
      → ltb_ℤ (pos 0) t.target.batch_size ≡ true
      → OpensExact e
      → Returns (λ o. IsOutcome o.0) (run_acquired e t tok began (new_result t.name trigger) w)
  unfolding run_acquired Returns
  run_acquired-IsOutcome none began trigger w positive opens = skip-IsOutcome began trigger w
  run_acquired-IsOutcome (some tok) began trigger w positive opens =
      finished-IsOutcome _ tok began _ (run_body-IsOutcome e t _ tok trigger _ positive opens)

  -- With a positive batch size and targets that count what they write, `run_task` always returns. Its
  -- counts add up to the rows that were read, its samples are as many as the failures up to 20, and it
  -- is a success without an error (and with some row written if there were rows), a failure with an
  -- error, or a run that was skipped with an error and without rows.
  pub run_task-IsOutcome :
      (trigger : Text) (w : World L D)
      → ltb_ℤ (pos 0) t.target.batch_size ≡ true
      → OpensExact e
      → (o : RunResult × World L D) × (run_task e t trigger w ≡ some o) × IsOutcome o.0
  unfolding run_task
  run_task-IsOutcome trigger w positive opens =
      Returns-some (λ o. IsOutcome o.0) _ (run_acquired-IsOutcome _ _ trigger _ positive opens)
