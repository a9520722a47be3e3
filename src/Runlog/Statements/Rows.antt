-- ===== src/Runlog/Statements/Rows.antt =====
-- The rows of `runs` between the start and the end of a run: nothing else changes them.
use replicron.Base.{
  ℕ, suc, ◌<◌, ◌≡◌, refl, ap, ◌∙◌, Text, List, [], ◌∷◌, ◌++◌, Option, none, arith, All, ==_iff,
}
use replicron.Model.{Run, RunResult, running, ok}
use replicron.Runlog.Statements.{
  Payload, Tables, Store, now, statement, insert_run, start_run, finalized, update_run, finish_run,
  insert_event, event,
}
use replicron.Runlog.Statements.Kept.{statement-accepted, statement-family, statement-faults}

-- The store still holds these runs, `seq` is the last id issued, and no statement is refused.
pub record Holds (runs : List Run) (seq : ℕ) (s : Store) : Type 0 where
  pub same_runs : s.tables.runs ≡ runs
  pub same_seq : s.tables.run_seq ≡ seq
  pub accepting : (n : ℕ) → s.faults n ≡ none

pub statement-Holds :
    {A : Type 0} (runs : List Run) (seq : ℕ) (f : ℕ → Tables → Tables × A) (s : Store)
    → ((at : ℕ) (t : Tables) → (f at t).0.runs ≡ t.runs)
    → ((at : ℕ) (t : Tables) → (f at t).0.run_seq ≡ t.run_seq)
    → Holds runs seq s
    → Holds runs seq (statement f s).1
statement-Holds runs seq f s same still h = record {
  same_runs = statement-family f s (λ t. t.runs) same ∙ h.same_runs;
  same_seq = statement-family f s (λ t. t.run_seq) still ∙ h.same_seq;
  accepting = λ n. ap (λ (x : ℕ → Option Text). x n) (statement-faults f s) ∙ h.accepting n;
}

pub event-Holds :
    (runs : List Run) (seq id : ℕ) (kind : Text) (payload : Payload) (s : Store)
    → Holds runs seq s
    → Holds runs seq (event id kind payload s).1
unfolding event insert_event
event-Holds runs seq id kind payload s h =
    statement-Holds runs seq _ s (λ at t. refl) (λ at t. refl) h

-- The row of a run that has begun.
abbrev pub started_run : ℕ → Text → Text → ℕ → Run
started_run id task trigger at = record {
  id = id;
  task = task;
  trigger = trigger;
  status = running;
  total_rows = 0;
  ok_rows = 0;
  fail_rows = 0;
  error = none;
  samples = [];
  started_at = at;
  finished_at = none;
}

-- `StartRun`, where it is not refused.
pub start_run-Holds :
    (task trigger : Text) (s : Store)
    → ((n : ℕ) → s.faults n ≡ none)
    → let id = suc s.tables.run_seq in
      ((start_run task trigger s).0 ≡ ok id)
      × Holds
          (s.tables.runs ++ started_run id task trigger (now s) ∷ [])
          id
          (start_run task trigger s).1
unfolding start_run insert_run
start_run-Holds task trigger s h =
    rw (statement-accepted (insert_run task trigger) s (h s.calls))
      (refl, record { same_runs = refl; same_seq = refl; accepting = h })

update_run-last :
    (id : ℕ) (f : Run → Run) (rs : List Run) (r : Run)
    → All (λ q. q.id < id) rs
    → r.id ≡ id
    → update_run id f (rs ++ r ∷ []) ≡ rs ++ f r ∷ []
unfolding update_run
update_run-last id f [] r h e = rw ((==_iff r.id id).1 e) refl
update_run-last id f (q ∷ rs) r (h, hs) e = ground (arith, update_run-last id f rs r hs e)

-- `FinishRun` of the run that was started last, where it is not refused.
pub finish_run-last :
    (id : ℕ) (res : RunResult) (rs : List Run) (seq : ℕ) (r : Run) (s : Store)
    → All (λ q. q.id < id) rs
    → r.id ≡ id
    → Holds (rs ++ r ∷ []) seq s
    → Holds (rs ++ finalized res (now s) r ∷ []) seq (finish_run id res s).1
unfolding finish_run
finish_run-last id res rs seq r s below e h =
    rw
      (statement-accepted
        (λ at t. (record t { runs = update_run id (finalized res at) t.runs }, tt)) s
        (h.accepting s.calls))
      (record {
        same_runs = rw h.same_runs (update_run-last id (finalized res (now s)) rs r below e);
        same_seq = h.same_seq;
        accepting = h.accepting;
      })
