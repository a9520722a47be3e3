-- ===== src/Engine/Run/Refused.antt =====
-- internal/engine/engine.go: which runs are skipped, over the in-process registry.
use replicron.Base.{
  ℕ, ◌≡◌, ◌≢◌, ◌↔◌, refl, sym, ap, ◌∙◌, Text, [], ◌∷◌, ◌++◌, lookup, Option, none, some, true, Any,
  Option-cases, inl, inr,
}
use replicron.Base.Ints.{pos, ltb_ℤ}
use replicron.Model.{RunResult, skipped, still_active}
use replicron.Config.{Task}
use replicron.Registry.{Token, Registry, acquire}
use replicron.Registry.System.{System, Reach}
use replicron.Registry.Exclusion.{acquire_refused_iff_held}
use replicron.Runlog.Statements.{now}
use replicron.Engine.Page.Kept.{Returns, Returns-some}
use replicron.Engine.Run.{World, Engine, observed, finish, finished, skip, run_acquired, run_task}
use replicron.Engine.Run.Ended.{run_body-not}

acquire-refused :
    (name : Text) (r : Registry) → (acquire name r).0 ≡ none → acquire name r ≡ (none, r)
unfolding acquire
acquire-refused name r h = elim (Option-cases (lookup name r.running)) [
  | inl free ↦ absurd (cc (rw (free, acquire) at h))
  | inr (u, held) ↦ rw (held, acquire) refl
]

-- A run that was refused the lease: it opened nothing, left the target and the lock, and was observed once.
pub record IsSkipped {L D : Type 0} (t : Task) (w : World L D) (o : RunResult × World L D)
    : Type 0 where
  pub status : o.0.status ≡ skipped
  pub error : o.0.err ≡ some still_active
  pub target : o.1.target ≡ w.target
  pub lock : o.1.lock ≡ w.lock
  pub trace : o.1.trace ≡ w.trace ++ observed t.name skipped 0 0 o.0.duration ∷ []

module _ {L K D : Type 0} (e : Engine L K D) (t : Task) where
  finished-not_skipped :
      (run_id : ℕ) (tok : K) (began : ℕ) (o : Option (RunResult × World L D))
      → Returns (λ o. o.0.status ≢ skipped) o
      → Returns (λ o. o.0.status ≢ skipped) (finished e t run_id tok began o)
  unfolding Returns finish
  finished-not_skipped run_id tok began none h = h
  finished-not_skipped run_id tok began (some (res, w)) h = h

  -- A run that gets the lease is not skipped.
  run_task-not_skipped :
      (trigger : Text) (w : World L D) (tok : K)
      → ltb_ℤ (pos 0) t.target.batch_size ≡ true
      → (e.reg.acquire t.name w.lock).0 ≡ some tok
      → (o : RunResult × World L D) × (run_task e t trigger w ≡ some o) × (o.0.status ≢ skipped)
  unfolding run_task run_acquired
  run_task-not_skipped trigger w tok positive h = rw h (
      Returns-some (λ o. o.0.status ≢ skipped) _
        (finished-not_skipped _ tok (now w.store) _
          (run_body-not skipped (λ q. cc q) (λ q. cc q) e t _ tok _ _ positive)))

  -- A run that is refused it is.
  run_task-IsSkipped_refused :
      (trigger : Text) (w : World L D) (l : L)
      → e.reg.acquire t.name w.lock ≡ (none, l)
      → (o : RunResult × World L D) × (run_task e t trigger w ≡ some o)
        × IsSkipped t (record w { lock = l }) o
  unfolding run_task run_acquired skip
  run_task-IsSkipped_refused trigger w l h =
      rw h
        (_, refl, record { status = refl; error = refl; target = refl; lock = refl; trace = refl })

module _ {D : Type 0} (e : Engine Registry Token D) (t : Task)
    (same : (name : Text) (r : Registry) → e.reg.acquire name r ≡ acquire name r) where
  -- Over the in-process registry, as any interleaving of runs has left it, a run of a task with a positive batch
  -- size returns, and it is skipped exactly when a run under way holds a token of this task. A run that is
  -- skipped reports that the task is still active, opens no connection, leaves the target and the registry as
  -- they are, and is observed once, as skipped, without rows.
  pub run_task-skipped_iff_held :
      (trigger : Text) (s : System) (w : World Registry D)
      → Reach s
      → w.lock ≡ s.registry
      → ltb_ℤ (pos 0) t.target.batch_size ≡ true
      → (o : RunResult × World Registry D) × (run_task e t trigger w ≡ some o)
        × ((o.0.status ≡ skipped) ↔ Any (λ u. u.name ≡ t.name) s.held)
        × (o.0.status ≡ skipped → IsSkipped t w o)
  run_task-skipped_iff_held trigger s w reached there positive =
      let (held_if, refused_if) = acquire_refused_iff_held s reached t.name in
      let asked : e.reg.acquire t.name w.lock ≡ acquire t.name s.registry =
        same t.name w.lock ∙ ap (acquire t.name) there in
      elim (Option-cases (acquire t.name s.registry).0) [
        | inl refused ↦
            let kept : e.reg.acquire t.name w.lock ≡ (none, w.lock) =
              same t.name w.lock
              ∙ acquire-refused t.name w.lock (ap (λ r. (acquire t.name r).0) there ∙ refused) in
            let (o, returns, skips) = run_task-IsSkipped_refused e t trigger w w.lock kept in
            (o, returns, (λ q. held_if refused, λ h. skips.status), λ q. skips)
        | inr (tok, got) ↦
            let (o, returns, not_skipped) =
              run_task-not_skipped e t trigger w tok positive (ap (λ x. x.0) asked ∙ got) in
            (
              o,
              returns,
              (λ q. absurd (not_skipped q), λ h. absurd (cc (sym got ∙ refused_if h))),
              λ q. absurd (not_skipped q),
            )
      ]
