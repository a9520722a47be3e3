-- ===== src/Runlog/Statements/Lifecycle.antt =====
-- The rows of `runs` through every operation: their ids ascend, and a row has an end exactly when it is
-- not running.
use replicron.Base.{
  ℕ, zero, suc, ◌<◌, ◌≤◌, ◌≡◌, ◌≢◌, refl, sym, ap, ◌∙◌, Text, List, [], ◌∷◌, ◌++◌, map, none, some,
  Bool, true, All, All_imp, All-append, subst, Bool-cases, inl, inr, ◌⊎◌, arith, ◌==◌,
  if◌then◌else◌,
}
use replicron.Base.Ints.{ℤ}
use replicron.Model.{
  Run, RunStatus, unset, running, succeeded, failed, skipped, interrupted, RunResult, Result-cases,
}
use replicron.Runlog.Statements.{
  Payload, Tables, Store, statement, is_running, sweep_run, sweep, sweep_interrupted, create,
  migrate, open_store, insert_run, start_run, finalized, update_run, finish_run, insert_event,
  event, keep_if, effective_keep, prune_events, prune_runs, prune,
}
use replicron.Runlog.Statements.Kept.{statement-keeps, statement-family}

-- A run is open without an end, or closed with one.
pub data IsSettled (r : Run) : Type 0 where
  open_run : r.status ≡ running → r.finished_at ≡ none → IsSettled r
  closed_run : (at : ℕ) → r.status ≢ running → r.finished_at ≡ some at → IsSettled r

-- The ids ascend, from above `lo`.
abbrev pub Ascends : ℕ → List Run → Type 0
Ascends lo [] = Unit
Ascends lo (r ∷ rs) = (lo < r.id) × Ascends r.id rs

pub record IsLog (t : Tables) : Type 0 where
  pub ascending : Ascends 0 t.runs
  pub issued : All (λ r. r.id ≤ t.run_seq) t.runs
  pub settled : All IsSettled t.runs

-- A change of rows one by one that keeps the ids.
Ascends-map :
    (f : Run → Run)
    → ((r : Run) → (f r).id ≡ r.id)
    → (lo : ℕ) (rs : List Run) → Ascends lo rs
    → Ascends lo (map f rs)
Ascends-map f same lo [] h = tt
Ascends-map f same lo (r ∷ rs) (h, hs) = rw (same r) (h, Ascends-map f same r.id rs hs)

All-map :
    (P Q : Run → Type 0) (f : Run → Run)
    → ((r : Run) → P r → Q (f r))
    → (rs : List Run) → All P rs
    → All Q (map f rs)
All-map P Q f h [] p = tt
All-map P Q f h (r ∷ rs) (p, ps) = (h r p, All-map P Q f h rs ps)

map-IsLog :
    (f : Run → Run)
    → ((r : Run) → (f r).id ≡ r.id)
    → ((r : Run) → IsSettled r → IsSettled (f r))
    → (t : Tables) → IsLog t
    → IsLog (record t { runs = map f t.runs })
map-IsLog f same kept t h = record {
  ascending = Ascends-map f same 0 t.runs h.ascending;
  issued =
      All-map (λ r. r.id ≤ t.run_seq) (λ r. r.id ≤ t.run_seq) f (λ r b. rw (same r) b) t.runs
        h.issued;
  settled = All-map IsSettled IsSettled f kept t.runs h.settled;
}

is_running_iff : (s : RunStatus) → (is_running s ≡ true) ⊎ (s ≢ running)
is_running_iff unset = inr (λ e. cc e)
is_running_iff running = inl refl
is_running_iff succeeded = inr (λ e. cc e)
is_running_iff failed = inr (λ e. cc e)
is_running_iff skipped = inr (λ e. cc e)
is_running_iff interrupted = inr (λ e. cc e)

sweep_run-IsSettled : (at : ℕ) (r : Run) → IsSettled r → IsSettled (sweep_run at r)
unfolding sweep_run
sweep_run-IsSettled at r h = elim (Bool-cases (is_running r.status)) [
  | inl e ↦ rw e (closed_run at (λ x. cc x) refl)
  | inr e ↦ rw e h
]

sweep_run-id : (at : ℕ) (r : Run) → (sweep_run at r).id ≡ r.id
unfolding sweep_run
sweep_run-id at r = ground arith

sweep-IsLog : (at : ℕ) (t : Tables) → IsLog t → IsLog (sweep at t).0
unfolding sweep
sweep-IsLog at t h = map-IsLog (sweep_run at) (sweep_run-id at) (sweep_run-IsSettled at) t h

update_run-map :
    (id : ℕ) (f : Run → Run) (rs : List Run)
    → update_run id f rs ≡ map (λ r. if r.id == id then f r else r) rs
unfolding update_run
update_run-map id f [] = refl
update_run-map id f (r ∷ rs) =
    ap (λ x. (if r.id == id then f r else r) ∷ x) (update_run-map id f rs)

finalized-IsSettled :
    (res : RunResult) (at id : ℕ)
    → res.status ≢ running
    → (r : Run) → IsSettled r
    → IsSettled (if r.id == id then finalized res at r else r)
unfolding finalized
finalized-IsSettled res at id h r s = elim (Bool-cases (r.id == id)) [
  | inl e ↦ rw e (closed_run at h refl)
  | inr e ↦ rw e s
]

finalized-id :
    (res : RunResult) (at id : ℕ) (r : Run)
    → (if r.id == id then finalized res at r else r).id ≡ r.id
unfolding finalized
finalized-id res at id r = ground arith

finish-IsLog :
    (res : RunResult) (id : ℕ)
    → res.status ≢ running
    → (at : ℕ) (t : Tables) → IsLog t
    → IsLog (record t { runs = update_run id (finalized res at) t.runs })
finish-IsLog res id h at t l =
    rw (update_run-map id (finalized res at) t.runs)
      (map-IsLog _ (finalized-id res at id) (finalized-IsSettled res at id h) t l)

pub Ascends-snoc :
    (lo n : ℕ) (rs : List Run) (r : Run)
    → lo ≤ n
    → n < r.id
    → Ascends lo rs
    → All (λ x. x.id ≤ n) rs
    → Ascends lo (rs ++ r ∷ [])
Ascends-snoc lo n [] r h k a b = (omega arith, tt)
Ascends-snoc lo n (x ∷ rs) r h k (a, more) (b, bs) = (a, Ascends-snoc x.id n rs r b k more bs)

insert_run-IsLog :
    (task trigger : Text) (at : ℕ) (t : Tables) → IsLog t → IsLog (insert_run task trigger at t).0
unfolding insert_run
insert_run-IsLog task trigger at t l = record {
  ascending = Ascends-snoc 0 t.run_seq t.runs _ (omega arith) (omega arith) l.ascending l.issued;
  issued =
      All-append (λ r. r.id ≤ suc t.run_seq) t.runs _ (All_imp (λ r b. omega arith) t.runs l.issued)
        (omega arith, tt);
  settled = All-append IsSettled t.runs _ l.settled (open_run refl refl, tt);
}

Ascends-weaken : (lo hi : ℕ) (rs : List Run) → lo ≤ hi → Ascends hi rs → Ascends lo rs
Ascends-weaken lo hi [] h a = tt
Ascends-weaken lo hi (r ∷ rs) h (a, more) = (omega arith, more)

pub keep_if-Ascends :
    (p : Run → Bool) (lo : ℕ) (rs : List Run) → Ascends lo rs → Ascends lo (keep_if p rs)
unfolding keep_if
keep_if-Ascends p lo [] h = tt
keep_if-Ascends p lo (r ∷ rs) (a, more) = elim (Bool-cases (p r)) [
  | inl e ↦ rw e (a, keep_if-Ascends p r.id rs more)
  | inr e ↦ rw e (keep_if-Ascends p lo rs (Ascends-weaken lo r.id rs (omega arith) more))
]

pub keep_if-All :
    (P : Run → Type 0) (p : Run → Bool) (rs : List Run) → All P rs → All P (keep_if p rs)
unfolding keep_if
keep_if-All P p [] h = tt
keep_if-All P p (r ∷ rs) (h, hs) = elim (Bool-cases (p r)) [
  | inl e ↦ rw e (h, keep_if-All P p rs hs)
  | inr e ↦ rw e (keep_if-All P p rs hs)
]

prune_runs-IsLog : (keep : ℕ) (t : Tables) → IsLog t → IsLog (prune_runs keep t)
unfolding prune_runs
prune_runs-IsLog keep t l = record {
  ascending = keep_if-Ascends _ 0 t.runs l.ascending;
  issued = keep_if-All _ _ t.runs l.issued;
  settled = keep_if-All IsSettled _ t.runs l.settled;
}

pub start_run-IsLog :
    (task trigger : Text) (s : Store) → IsLog s.tables → IsLog (start_run task trigger s).1.tables
unfolding start_run
start_run-IsLog task trigger s = statement-keeps IsLog _ s (insert_run-IsLog task trigger)

pub finish_run-IsLog :
    (id : ℕ) (res : RunResult) (s : Store)
    → res.status ≢ running
    → IsLog s.tables
    → IsLog (finish_run id res s).1.tables
unfolding finish_run
finish_run-IsLog id res s h = statement-keeps IsLog _ s (finish-IsLog res id h)

pub event-IsLog :
    (id : ℕ) (kind : Text) (payload : Payload) (s : Store)
    → IsLog s.tables
    → IsLog (event id kind payload s).1.tables
unfolding event insert_event
event-IsLog id kind payload s =
    statement-keeps IsLog _ s
      (λ at t l. record { ascending = l.ascending; issued = l.issued; settled = l.settled })

prune_events-IsLog : (keep : ℕ) (t : Tables) → IsLog t → IsLog (prune_events keep t)
unfolding prune_events
prune_events-IsLog keep t l = record {
  ascending = l.ascending;
  issued = l.issued;
  settled = l.settled;
}

pub prune-IsLog : (keep : ℤ) (s : Store) → IsLog s.tables → IsLog (prune keep s).1.tables
unfolding prune
prune-IsLog keep s l =
    let n : ℕ = effective_keep keep in
    let first = statement (λ _ t. (prune_events n t, tt)) s in
    let kept =
      statement-keeps IsLog (λ _ t. (prune_events n t, tt)) s (λ at. prune_events-IsLog n) l in
    elim (Result-cases first.0) [
      | inl (u, e) ↦
          rw (e, prune)
            (statement-keeps IsLog (λ _ t. (prune_runs n t, tt)) first.1 (λ at. prune_runs-IsLog n)
              kept)
      | inr (x, e) ↦ rw (e, prune) kept
    ]

pub migrate-tables : (left : ℕ) (s : Store) → (migrate left s).1.tables ≡ s.tables
unfolding migrate create
migrate-tables zero s = refl
migrate-tables (suc left) s =
    let first = statement create s in
    let kept : first.1.tables ≡ s.tables = statement-family create s (λ t. t) (λ at t. refl) in
    elim (Result-cases first.0) [
      | inl (u, e) ↦ rw (e, migrate) (migrate-tables left first.1 ∙ kept)
      | inr (x, e) ↦ rw (e, migrate) kept
    ]

sweep_interrupted-IsLog : (s : Store) → IsLog s.tables → IsLog (sweep_interrupted s).1.tables
unfolding sweep_interrupted
sweep_interrupted-IsLog s = statement-keeps IsLog sweep s sweep-IsLog

pub open_store-IsLog : (s : Store) → IsLog s.tables → IsLog (open_store s).1.tables
unfolding open_store
open_store-IsLog s l =
    let made = migrate 5 s in
    let kept = subst IsLog (sym (migrate-tables 5 s)) l in
    elim (Result-cases made.0) [
      | inl (u, e) ↦ rw (e, open_store) (sweep_interrupted-IsLog made.1 kept)
      | inr (x, e) ↦ rw (e, open_store) kept
    ]
