-- ===== src/Engine/Run/Trace.antt =====
-- What a run opens it closes, and the lease is released behind everything else.
use replicron.Base.{
  ◌-◌, ℕ, ◌≡◌, refl, sym, ap, ◌∙◌, Text, List, [], ◌∷◌, ◌++◌, Option, none, some, true, Bool-cases,
  inl, inr, ltb, append_assoc, append-nil, subst, if◌then◌else◌,
}
use replicron.Base.Ints.{pos, ltb_ℤ}
use replicron.Model.{RunResult, Error, Result, ok, err}
use replicron.Config.{Task}
use replicron.Runlog.Statements.{now, start_run, finish_run}
use replicron.Engine.Watermark.{Tracker}
use replicron.Engine.Batch.{TargetConn}
use replicron.Engine.Page.{State}
use replicron.Engine.Run.{
  World, SourceConn, Engine, Effect, source_opened, source_closed, target_opened, target_closed,
  run_finished, observed, lease_released, new_result, conclude, concluded, stream_run, prepared,
  after_close, with_target, with_source, run_body, finish, finished, run_acquired, run_task, id_of,
}
use replicron.Engine.Run.Watermarks.{run_task-IsHeld}

-- Where there is a result, the calls made are those, behind those made before.
MadeCalls :
    {L D : Type 0} → List Effect → (List Effect → Type 0) → Option (RunResult × World L D) → Type 0
MadeCalls before P none = Unit
MadeCalls before P (some (res, w)) = (calls : List Effect) × P calls × (w.trace ≡ before ++ calls)

-- Connections that are opened are closed in the other order: none, the source, or both.
pub data IsBalanced : List Effect → Type 0 where
  nothing : IsBalanced []
  source_only : IsBalanced (source_opened ∷ source_closed ∷ [])
  both : IsBalanced (source_opened ∷ target_opened ∷ target_closed ∷ source_closed ∷ [])

-- The same of the target alone.
data IsInner : List Effect → Type 0 where
  nothing : IsInner []
  target_only : IsInner (target_opened ∷ target_closed ∷ [])

abbrev IsNone : List Effect → Type 0
IsNone calls = calls ≡ []

module _ {L K D : Type 0} (e : Engine L K D) (t : Task) (run_id : ℕ) (tok : K) where
  conclude-trace :
      (streamed : Option Error) (st : State L D) (w : World L D)
      → (conclude e t run_id tok streamed st w).1.trace ≡ w.trace
  unfolding conclude
  conclude-trace none st w = refl
  conclude-trace (some x) st w = refl

  concluded-trace :
      (streamed : Option Error) (st : Option (State L D)) (w : World L D)
      → MadeCalls w.trace IsNone (concluded e t run_id tok streamed st w)
  unfolding MadeCalls
  concluded-trace streamed none w = tt
  concluded-trace streamed (some st) w =
      ([], refl, conclude-trace streamed st w ∙ sym (append-nil w.trace))

  prepared-trace :
      (src : SourceConn) (tgt : TargetConn D) (q : Result (Text × Option Tracker)) (res : RunResult)
      (w : World L D)
      → MadeCalls w.trace IsNone (prepared e t run_id tok src tgt q res w)
  unfolding prepared stream_run MadeCalls
  prepared-trace src tgt (err x) res w = ([], refl, sym (append-nil w.trace))
  prepared-trace src tgt (ok (query, wm)) res w = concluded-trace _ _ w

  closed-IsInner :
      (before : List Effect) (o : Option (RunResult × World L D))
      → MadeCalls (before ++ target_opened ∷ []) IsNone o
      → MadeCalls before IsInner (after_close e t run_id tok target_closed o)
  unfolding MadeCalls
  closed-IsInner before none h = tt
  closed-IsInner before (some (r, w)) (calls, n, eq) =
      (target_opened ∷ target_closed ∷ [], target_only, rw (eq, n) (simp append_assoc))

  with_target-trace :
      (src : SourceConn) (tgt : Result (TargetConn D)) (res : RunResult) (w : World L D)
      → MadeCalls w.trace IsInner (with_target e t run_id tok src tgt res w)
  unfolding with_target
  with_target-trace src (err x) res w = unfold MadeCalls in ([], nothing, sym (append-nil w.trace))
  with_target-trace src (ok tgt) res w = closed-IsInner w.trace _ (prepared-trace src tgt _ res _)

  closed-IsBalanced :
      (before : List Effect) (o : Option (RunResult × World L D))
      → MadeCalls (before ++ source_opened ∷ []) IsInner o
      → MadeCalls before IsBalanced (after_close e t run_id tok source_closed o)
  unfolding MadeCalls
  closed-IsBalanced before none h = tt
  closed-IsBalanced before (some (r, w)) ([], nothing, eq) =
      (source_opened ∷ source_closed ∷ [], source_only, rw eq (simp append_assoc))
  closed-IsBalanced before (some (r, w)) (_, target_only, eq) = (
    source_opened ∷ target_opened ∷ target_closed ∷ source_closed ∷ [],
    both,
    rw eq (simp append_assoc),
  )

  with_source-trace :
      (src : Result SourceConn) (res : RunResult) (w : World L D)
      → MadeCalls w.trace IsBalanced (with_source e t run_id tok src res w)
  unfolding with_source
  with_source-trace (err x) res w = unfold MadeCalls in ([], nothing, sym (append-nil w.trace))
  with_source-trace (ok src) res w = closed-IsBalanced w.trace _ (with_target-trace src _ res _)

-- The calls at the end of a run: the record is finalized if there is one, the run is observed with what
-- it returns, and the lease is released.
abbrev pub ending : ℕ → Text → RunResult → List Effect
ending run_id name res =
    (if ltb 0 run_id then run_finished run_id ∷ [] else [])
    ++ observed name res.status res.ok_rows res.fail_rows res.duration ∷ lease_released ∷ []

-- From the world `w`, a run got the lease `tok`, which left the lock `l`, and came to `o`: `res` and `left` are
-- what its body came to, `run_id` is the id that its record got, or 0, and the calls stand behind those made
-- before.
pub record Closes {L K D : Type 0} (e : Engine L K D) (t : Task) (trigger : Text) (tok : K) (l : L)
    (w : World L D) (o : RunResult × World L D) : Type 0 where
  pub run_id : ℕ
  pub res : RunResult
  pub left : World L D
  pub calls : List Effect
  pub issued : run_id ≡ id_of (start_run t.name trigger w.store).0
  pub ran :
      run_body e t run_id tok
        (new_result t.name trigger)
        (record w { lock = l; store = (start_run t.name trigger w.store).1 })
      ≡ some (res, left)
  pub returned : o.0 ≡ record res { duration = now left.store - now w.store }
  pub balanced : IsBalanced calls
  pub traced : o.1.trace ≡ w.trace ++ (calls ++ ending run_id t.name o.0)
  pub finalized :
      o.1.store ≡ (if ltb 0 run_id then (finish_run run_id o.0 left.store).1 else left.store)
  pub released : o.1.lock ≡ e.reg.release tok left.lock

Finally : {A : Type 0} → (A → Type 0) → Option A → Type 0
Finally P none = Unit
Finally P (some a) = P a

Finally-some : {A : Type 0} (P : A → Type 0) (o : Option A) (a : A) → o ≡ some a → Finally P o → P a
unfolding Finally
Finally-some P none a h f = cc h
Finally-some P (some b) a h f = let same : b ≡ a = cc h in subst P same f

module _ {L K D : Type 0} (e : Engine L K D) (t : Task) where
  finish-trace :
      (run_id : ℕ) (tok : K) (began : ℕ) (res : RunResult) (w : World L D)
      → let (done, w') = finish e t run_id tok began res w in
        w'.trace ≡ w.trace ++ ending run_id t.name done
  unfolding finish
  finish-trace run_id tok began res w = elim (Bool-cases (ltb 0 run_id)) [
    | inl h ↦ rw (h, finish) (simp append_assoc)
    | inr h ↦ rw (h, finish) (simp append_assoc)
  ]

  finish-lock :
      (run_id : ℕ) (tok : K) (began : ℕ) (res : RunResult) (w : World L D)
      → (finish e t run_id tok began res w).1.lock ≡ e.reg.release tok w.lock
  unfolding finish
  finish-lock run_id tok began res w = elim (Bool-cases (ltb 0 run_id)) [
    | inl h ↦ rw (h, finish) refl
    | inr h ↦ rw (h, finish) refl
  ]

  finish-store :
      (run_id : ℕ) (tok : K) (began : ℕ) (res : RunResult) (w : World L D)
      → let (done, w') = finish e t run_id tok began res w in
        w'.store ≡ (if ltb 0 run_id then (finish_run run_id done w.store).1 else w.store)
  unfolding finish
  finish-store run_id tok began res w = elim (Bool-cases (ltb 0 run_id)) [
    | inl h ↦ rw (h, finish) refl
    | inr h ↦ rw (h, finish) refl
  ]

  module _ (trigger : Text) (tok : K) (l : L) (w : World L D) where
    finished-Closes :
        (run_id : ℕ) (o : Option (RunResult × World L D))
        → run_id ≡ id_of (start_run t.name trigger w.store).0
        → run_body e t run_id tok
            (new_result t.name trigger)
            (record w { lock = l; store = (start_run t.name trigger w.store).1 })
          ≡ o
        → MadeCalls w.trace IsBalanced o
        → Finally (Closes e t trigger tok l w) (finished e t run_id tok (now w.store) o)
    unfolding MadeCalls Finally finish
    finished-Closes run_id none issued ran h = tt
    finished-Closes run_id (some (res, left)) issued ran (calls, b, eq) =
        let tail : List Effect =
          ending run_id t.name (finish e t run_id tok (now w.store) res left).0 in
        record {
          run_id = run_id;
          res = res;
          left = left;
          calls = calls;
          issued = issued;
          ran = ran;
          returned = refl;
          balanced = b;
          traced =
              finish-trace run_id tok (now w.store) res left
              ∙ ap (λ x. x ++ tail) eq
              ∙ append_assoc w.trace calls tail;
          finalized = finish-store run_id tok (now w.store) res left;
          released = finish-lock run_id tok (now w.store) res left;
        }

    run_acquired-Closes : Finally (Closes e t trigger tok l w) (
        run_acquired e t
          (some tok)
          (now w.store)
          (new_result t.name trigger)
          (record w { lock = l }))
    unfolding run_acquired run_body
    run_acquired-Closes =
        finished-Closes _ _ refl refl (with_source-trace e t _ tok _ (new_result t.name trigger) _)

    run_task-Closes_acquired :
        (o : RunResult × World L D)
        → e.reg.acquire t.name w.lock ≡ (some tok, l)
        → run_task e t trigger w ≡ some o
        → Closes e t trigger tok l w o
    unfolding run_task
    run_task-Closes_acquired o h returns =
        Finally-some (Closes e t trigger tok l w) _ o (rw h at returns) run_acquired-Closes

  -- A run that gets the lease returns, if the batch size is positive. It closes what it opened, the target
  -- before the source; then, if a record was started for it, FinishRun finalizes that record, by its id, with the
  -- very result that is returned; the run is observed once, with the status and the counts that are returned,
  -- and last the lease is released with its own token.
  pub run_task-Closes :
      (trigger : Text) (w : World L D) (tok : K) (l : L)
      → ltb_ℤ (pos 0) t.target.batch_size ≡ true
      → e.reg.acquire t.name w.lock ≡ (some tok, l)
      → (o : RunResult × World L D) × (run_task e t trigger w ≡ some o)
        × Closes e t trigger tok l w o
  run_task-Closes trigger w tok l positive h =
      let (o, returns, _) = run_task-IsHeld e t trigger w positive in
      (o, returns, run_task-Closes_acquired trigger tok l w o h returns)
