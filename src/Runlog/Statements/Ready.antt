-- ===== src/Runlog/Statements/Ready.antt =====
-- A run log between two runs: no run is under way, and no statement is refused.
use replicron.Base.{ℕ, zero, suc, ◌≡◌, ◌≢◌, refl, sym, ap, ◌∙◌, Text, Option, none, All, inl, inr}
use replicron.Base.Ints.{ℤ}
use replicron.Model.{running, Result, ok}
use replicron.Runlog.Statements.{
  Tables, Store, statement, sweep, sweep_interrupted, create, migrate, open_store, effective_keep,
  prune_events, prune_runs, prune,
}
use replicron.Runlog.Statements.Kept.{statement-accepted, statement-faults}
use replicron.Runlog.Statements.Lifecycle.{IsLog, open_store-IsLog, prune-IsLog, keep_if-All}
use replicron.Runlog.Statements.Newest.{prune-accepted}
use replicron.Runlog.Statements.Recovery.{open_store-Recovers}

pub record IsReady (s : Store) : Type 0 where
  pub log : IsLog s.tables
  pub accepting : (n : ℕ) → s.faults n ≡ none
  pub closed : All (λ r. r.status ≢ running) s.tables.runs

abbrev Accepting : Store → Type 0
Accepting s = (n : ℕ) → s.faults n ≡ none

statement-Accepting :
    {A : Type 0} (f : ℕ → Tables → Tables × A) (s : Store)
    → Accepting s
    → Accepting (statement f s).1
statement-Accepting f s h n = ap (λ (x : ℕ → Option Text). x n) (statement-faults f s) ∙ h n

migrate-Accepting :
    (left : ℕ) (s : Store)
    → Accepting s
    → ((migrate left s).0 ≡ ok tt) × Accepting (migrate left s).1
unfolding migrate create
migrate-Accepting zero s h = (refl, h)
migrate-Accepting (suc left) s h =
    let made : (statement create s).0 ≡ ok tt =
      ap (λ (x : Result (Unit {0}) × Store). x.0) (statement-accepted create s (h s.calls)) in
    rw (made, migrate)
      (migrate-Accepting left (statement create s).1 (statement-Accepting create s h))

sweep-Accepting :
    (s : Store)
    → Accepting s
    → ((sweep_interrupted s).0 ≡ ok tt) × Accepting (sweep_interrupted s).1
unfolding sweep_interrupted
sweep-Accepting s h = rw (statement-accepted sweep s (h s.calls)) (refl, h)

open_store-Accepting :
    (s : Store) → Accepting s → ((open_store s).0 ≡ ok tt) × Accepting (open_store s).1
unfolding open_store
open_store-Accepting s h =
    let (made, kept) = migrate-Accepting 5 s h in rw (made, open_store) (sweep-Accepting _ kept)

-- Where no statement is refused, `Open` succeeds and makes the run log ready.
pub open_store-IsReady :
    (s : Store)
    → IsLog s.tables
    → ((n : ℕ) → s.faults n ≡ none)
    → ((open_store s).0 ≡ ok tt) × IsReady (open_store s).1
open_store-IsReady s l h =
    let (opened, kept) = open_store-Accepting s h in
    (
      opened,
      record {
        log = open_store-IsLog s l;
        accepting = kept;
        closed = elim (open_store-Recovers s) [
          | inl (_, at, (swept, over)) ↦ over
          | inr (e, bad, same) ↦ absurd (cc (sym opened ∙ bad))
        ];
      },
    )

prune-closed :
    (keep : ℕ) (t : Tables)
    → All (λ r. r.status ≢ running) t.runs
    → All (λ r. r.status ≢ running) (prune_runs keep (prune_events keep t)).runs
unfolding prune_runs prune_events
prune-closed keep t h = keep_if-All (λ r. r.status ≢ running) _ t.runs h

-- `Prune` leaves it ready.
pub prune-IsReady : (keep : ℤ) (s : Store) → IsReady s → IsReady (prune keep s).1
prune-IsReady keep s r =
    let done = prune-accepted keep s (r.accepting s.calls) (r.accepting (suc s.calls)) in
    record {
      log = prune-IsLog keep s r.log;
      accepting = rw done r.accepting;
      closed = rw done (prune-closed (effective_keep keep) s.tables r.closed);
    }
