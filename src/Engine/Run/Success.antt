-- ===== src/Engine/Run/Success.antt =====
-- A run that succeeded got the lease, and what it returns is what its body came to.
use replicron.Base.{ℕ, ◌≡◌, refl, ◌∙◌, ap, Text, Option, none, some}
use replicron.Model.{succeeded, RunResult, Result}
use replicron.Config.{Task}
use replicron.Runlog.Statements.{Store, now, start_run}
use replicron.Engine.Run.{
  World, Engine, new_result, finish, finished, skip, run_acquired, run_task, id_of,
}
use replicron.Engine.Run.Completed.{Completes, IsCompleted, run_body-IsCompleted}

module _ {L K D : Type 0} (e : Engine L K D) (t : Task) (trigger : Text) where
  -- The run log behind the start of the run, and the id in it.
  abbrev pub started : Store → Result ℕ × Store
  started s = start_run t.name trigger s

  -- A whole run that succeeded: it got the lease, and its body came this way.
  pub record IsSuccess (w : World L D) (r : RunResult × World L D) : Type 0 where
    pub tok : K
    pub held : L
    pub end : RunResult × World L D
    pub acquired : e.reg.acquire t.name w.lock ≡ (some tok, held)
    pub body :
        IsCompleted e t
          (id_of (started w.store).0)
          tok
          (new_result t.name trigger)
          (record w { lock = held; store = (started w.store).1 })
          end
    pub finish_made : finish e t (id_of (started w.store).0) tok (now w.store) end.0 end.1 ≡ r

  finished-IsSuccess :
      (w : World L D) (r : RunResult × World L D) (tok : K) (l : L)
      (body : Option (RunResult × World L D))
      → e.reg.acquire t.name w.lock ≡ (some tok, l)
      → Completes
          (IsCompleted e t
            (id_of (started w.store).0)
            tok
            (new_result t.name trigger)
            (record w { lock = l; store = (started w.store).1 }))
          body
      → finished e t (id_of (started w.store).0) tok (now w.store) body ≡ some r
      → r.0.status ≡ succeeded
      → IsSuccess w r
  unfolding Completes finish
  finished-IsSuccess w r tok l none a h k good = absurd (cc k)
  finished-IsSuccess w r tok l (some end) a h k good =
      let made : finish e t (id_of (started w.store).0) tok (now w.store) end.0 end.1 ≡ r = cc k in
      record {
        tok = tok;
        held = l;
        end = end;
        acquired = a;
        body = h (ap (λ (o : RunResult × World L D). o.0.status) made ∙ good);
        finish_made = made;
      }

  run_acquired-IsSuccess :
      (w : World L D) (r : RunResult × World L D) (tok : Option K) (l : L)
      → e.reg.acquire t.name w.lock ≡ (tok, l)
      → run_acquired e t tok (now w.store) (new_result t.name trigger) (record w { lock = l })
        ≡ some r
      → r.0.status ≡ succeeded
      → IsSuccess w r
  unfolding run_acquired skip
  run_acquired-IsSuccess w r none l a k good =
      let made : skip e t (now w.store) (new_result t.name trigger) (record w { lock = l }) ≡ r =
        cc k in
      absurd (cc (ap (λ (o : RunResult × World L D). o.0.status) made ∙ good))
  run_acquired-IsSuccess w r (some tok) l a k good =
      finished-IsSuccess w r tok l _ a
        (run_body-IsCompleted e t (id_of (started w.store).0) tok (new_result t.name trigger)
          (record w { lock = l; store = (started w.store).1 }))
        k good

  pub run_task-IsSuccess :
      (w : World L D) (r : RunResult × World L D)
      → run_task e t trigger w ≡ some r
      → r.0.status ≡ succeeded
      → IsSuccess w r
  unfolding run_task
  run_task-IsSuccess w r k good =
      run_acquired-IsSuccess w r (e.reg.acquire t.name w.lock).0 (e.reg.acquire t.name w.lock).1
        refl k good
