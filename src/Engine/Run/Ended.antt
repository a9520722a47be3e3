-- ===== src/Engine/Run/Ended.antt =====
-- internal/engine/engine.go: the status that the body of a run comes to.
use replicron.Base.{ℕ, ◌≡◌, ◌≢◌, ◌&&◌, ◌==◌, ltb, Option, none, some, true, Bool-cases, inl, inr}
use replicron.Base.Ints.{pos, ltb_ℤ}
use replicron.Model.{RunResult, RunStatus, succeeded, failed, Error}
use replicron.Config.{Task}
use replicron.Engine.Page.{State}
use replicron.Engine.Page.Kept.{Returns}
use replicron.Engine.Run.{World, Engine, settle, conclude, run_body}
use replicron.Engine.Run.Rule.{run_body-rule}

module _ (other : RunStatus) (good : succeeded ≢ other) (bad : failed ≢ other) where
  settle-not : (res : RunResult) → (settle res).status ≢ other
  unfolding settle
  settle-not res q =
      elim (Bool-cases (ltb 0 res.total_rows && ((res.ok_rows == 0) && ltb 0 res.fail_rows))) [
        | inl all_bad ↦ bad (rw all_bad at q)
        | inr some_good ↦ good (rw some_good at q)
      ]

  module _ {L K D : Type 0} (e : Engine L K D) (t : Task) (run_id : ℕ) (tok : K) where
    conclude-not :
        (streamed : Option Error) (st : State L D) (w : World L D)
        → (conclude e t run_id tok streamed st w).0.status ≢ other
    unfolding conclude
    conclude-not none st w q = settle-not _ q
    conclude-not (some x) st w q = bad q

    -- The body of a run returns, with one of the two other statuses.
    pub run_body-not :
        (res : RunResult) (w : World L D)
        → ltb_ℤ (pos 0) t.target.batch_size ≡ true
        → Returns (λ o. o.0.status ≢ other) (run_body e t run_id tok res w)
    run_body-not res w positive =
        run_body-rule e t run_id tok positive (λ tgt. Unit {0}) (λ typ dsn d tgt k. tt)
          (λ s. Unit {0}) (λ s k. tt) (λ st. Unit {0}) (λ r s. r.status ≢ other) res
          (λ l s d wm k. tt) (λ st k w' p. tt) (λ tgt x cols page st p eq k. tt) (λ x s k q. bad q)
          (λ streamed st w' k. conclude-not streamed st w') w tt
