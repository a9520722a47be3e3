-- ===== src/Cli/Run/Counted.antt =====
-- The loop runs each matching task once, in order, each in the world that the one before leaves.
use replicron.Base.{
  ◌+◌, ◌≡◌, ◌≢◌, refl, sym, ap, ◌∙◌, Text, codes, List, [], ◌∷◌, ◌++◌, map, length, some, true,
  false, not, inl, inr, ◌⊎◌, arith, All, Bool-cases, append_assoc, append-nil, text_eq_iff, Dict,
  lookup, erase, lookup-erase,
}
use replicron.Base.Ints.{pos, ltb_ℤ}
use replicron.Model.{succeeded, RunResult}
use replicron.Config.{Task}
use replicron.Runlog.Statements.{StateRow, keep_if}
use replicron.Engine.Run.{World, Engine, run_task}
use replicron.Engine.Run.Outcome.{OpensExact, IsOutcome, run_task-IsOutcome}
use replicron.Engine.Run.Watermarks.{IsHeld, run_task-IsHeld}
use replicron.Cli.Run.{Totals, has_succeeded, matches, complaint, counted, run_tasks}

-- One call of `RunTask`: the task, its result, and the world that it leaves.
pub record Call (L D : Type 0) : Type 0 where
  pub task : Task
  pub result : RunResult
  pub left : World L D

abbrev pub failed_calls : {L D : Type 0} → List (Call L D) → List (Call L D)
failed_calls calls = keep_if (λ c. not (has_succeeded c.result.status)) calls

abbrev pub IsClean : RunResult → Type 0
IsClean res = (res.status ≡ succeeded) × (res.fail_rows ≡ 0)

-- Each call is made in the world that the one before left.
abbrev pub Chained :
    {L K D : Type 0} → Engine L K D → World L D → List (Call L D) → World L D → Type 0
Chained e w [] w' = w' ≡ w
Chained e w (c ∷ calls) w' =
    (run_task e c.task (codes "manual") w ≡ some (c.result, c.left)) × Chained e c.left calls w'

-- What the loop over `ts` does to the totals and the world.
pub record RanAll {L K D : Type 0} (e : Engine L K D) (task_name : Text) (ts : List Task)
    (n : Totals) (w : World L D) (n' : Totals) (w' : World L D) : Type 0 where
  pub calls : List (Call L D)
  pub chosen : map (λ c. c.task) calls ≡ keep_if (matches task_name) ts
  pub chained : Chained e w calls w'
  pub outcomes : All (λ c. IsOutcome c.result) calls
  pub ran : n'.ran ≡ n.ran + length calls
  pub failures : n'.failures ≡ n.failures + length (failed_calls calls)
  pub printed : n'.printed ≡ n.printed ++ map (λ c. complaint c.task c.result) (failed_calls calls)
  pub held :
      (k : Text)
      → All (λ c. (c.task.name ≢ k) ⊎ (¬ IsClean c.result)) calls
      → lookup k w'.store.tables.states ≡ lookup k w.store.tables.states

-- A lookup of another key does not see an erased one.
lookup_of_erase :
    (task k : Text) (m : Dict StateRow) → task ≢ k → lookup k (erase task m) ≡ lookup k m
lookup_of_erase task k m h = ground (arith, lookup-erase task k m, text_eq_iff task k)

held_at :
    (task k : Text) (res : RunResult) (before after : Dict StateRow)
    → IsHeld task before res after
    → (task ≢ k) ⊎ (¬ IsClean res)
    → lookup k after ≡ lookup k before
held_at task k res before after h (inl other) =
    sym (lookup_of_erase task k after other)
    ∙ ap (lookup k) h.others
    ∙ lookup_of_erase task k before other
held_at task k res before after h (inr unclean) = elim h.held [
  | inl clean ↦ absurd (unclean clean)
  | inr same ↦ ap (lookup k) same
]

counted_success :
    (t : Task) (res : RunResult) (n : Totals)
    → has_succeeded res.status ≡ true
    → counted t res n ≡ record n { ran = n.ran + 1 }
unfolding counted
counted_success t res n h = rw h refl

counted_failure :
    (t : Task) (res : RunResult) (n : Totals)
    → has_succeeded res.status ≡ false
    → counted t res n ≡ record {
      ran = n.ran + 1;
      failures = n.failures + 1;
      printed = n.printed ++ complaint t res ∷ [];
    }
unfolding counted
counted_failure t res n h = rw h refl

module _ {L K D : Type 0} (e : Engine L K D) (task_name : Text) where
  -- A run of one task, with all that is known of it.
  run_once :
      (t : Task) (w : World L D)
      → ltb_ℤ (pos 0) t.target.batch_size ≡ true
      → OpensExact e
      → (o : RunResult × World L D) × (run_task e t (codes "manual") w ≡ some o)
        × IsOutcome o.0
        × IsHeld t.name w.store.tables.states o.0 o.1.store.tables.states
  run_once t w positive exact =
      let (o, returns, outcome) = run_task-IsOutcome e t (codes "manual") w positive exact in
      let (o', returns', held) = run_task-IsHeld e t (codes "manual") w positive in
      let same : o' ≡ o = cc in (o, returns, outcome, rw same at held)

  passed-RanAll :
      (t : Task) (ts : List Task) (n n' : Totals) (w w' : World L D)
      → matches task_name t ≡ false
      → RanAll e task_name ts n w n' w'
      → RanAll e task_name (t ∷ ts) n w n' w'
  unfolding keep_if
  passed-RanAll t ts n n' w w' over h = record {
    calls = h.calls;
    chosen = rw over h.chosen;
    chained = h.chained;
    outcomes = h.outcomes;
    ran = h.ran;
    failures = h.failures;
    printed = h.printed;
    held = h.held;
  }

  taken-RanAll :
      (t : Task) (ts : List Task) (n n' : Totals) (w w' : World L D) (o : RunResult × World L D)
      → matches task_name t ≡ true
      → run_task e t (codes "manual") w ≡ some o
      → IsOutcome o.0
      → IsHeld t.name w.store.tables.states o.0 o.1.store.tables.states
      → RanAll e task_name ts (counted t o.0 n) o.1 n' w'
      → RanAll e task_name (t ∷ ts) n w n' w'
  unfolding keep_if
  taken-RanAll t ts n n' w w' (res, w1) taken returns outcome held h =
      let kept = λ (k : Text) (p : (t.name ≢ k) ⊎ (¬ IsClean res)).
        held_at t.name k res w.store.tables.states w1.store.tables.states held p in
      let all : List (Call L D) = record { task = t; result = res; left = w1 } ∷ h.calls in
      elim (Bool-cases (has_succeeded res.status)) [
        | inl good ↦
            let same = counted_success t res n good in
            let r : n'.ran ≡ n.ran + 1 + length h.calls = rw same at h.ran in
            record {
              calls = all;
              chosen = rw taken (ap (λ x. t ∷ x) h.chosen);
              chained = (returns, h.chained);
              outcomes = (outcome, h.outcomes);
              ran = omega (arith, r);
              failures = rw good (rw same at h.failures);
              printed = rw good (rw same at h.printed);
              held = λ k (p, ps). h.held k ps ∙ kept k p;
            }
        | inr bad ↦
            let same = counted_failure t res n bad in
            let r : n'.ran ≡ n.ran + 1 + length h.calls = rw same at h.ran in
            let f : n'.failures ≡ n.failures + 1 + length (failed_calls h.calls) =
              rw same at h.failures in
            record {
              calls = all;
              chosen = rw taken (ap (λ x. t ∷ x) h.chosen);
              chained = (returns, h.chained);
              outcomes = (outcome, h.outcomes);
              ran = omega (arith, r);
              failures = rw bad (omega (arith, f));
              printed = rw bad ((rw same at h.printed) ∙ append_assoc n.printed _ _);
              held = λ k (p, ps). h.held k ps ∙ kept k p;
            }
      ]

  -- The loop returns, and what it returns is described by its calls.
  pub run_tasks-RanAll :
      (ts : List Task) (n : Totals) (w : World L D)
      → All (λ t. ltb_ℤ (pos 0) t.target.batch_size ≡ true) ts
      → OpensExact e
      → (o : Totals × World L D) × (run_tasks e task_name ts n w ≡ some o)
        × RanAll e task_name ts n w o.0 o.1
  unfolding run_tasks keep_if
  run_tasks-RanAll [] n w positive exact = (
    (n, w),
    refl,
    record {
      calls = [];
      chosen = refl;
      chained = refl;
      outcomes = tt;
      ran = omega arith;
      failures = omega arith;
      printed = sym (append-nil n.printed);
      held = λ k h. refl;
    },
  )
  run_tasks-RanAll (t ∷ ts) n w (p, ps) exact = elim (Bool-cases (matches task_name t)) [
    | inr over ↦
        let (o, returns, all) = run_tasks-RanAll ts n w ps exact in
        (o, rw over returns, passed-RanAll t ts n o.0 w o.1 over all)
    | inl taken ↦
        let (once, ran, outcome, held) = run_once t w p exact in
        let (o, returns, all) = run_tasks-RanAll ts (counted t once.0 n) once.1 ps exact in
        (o, rw (taken, ran) returns, taken-RanAll t ts n o.0 w o.1 once taken ran outcome held all)
  ]
