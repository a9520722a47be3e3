-- ===== src/Daemon/Progress/Landed.antt =====
-- internal/daemon/daemon.go: a run in progress that ends keeps what holds in the wait.
use replicron.Base.{
  ℕ, suc, ◌<◌, ◌≤◌, ◌-◌, ◌≡◌, ◌≢◌, refl, sym, ap, ◌∙◌, codes, List, get_elem?, none, some, true,
  ltb, All, All_imp, arith, subst,
}
use replicron.Model.{Run, running, RunResult, ok}
use replicron.Config.{Task}
use replicron.Runlog.Statements.{Tables, Store, now, finish_run, update_run, finalized}
use replicron.Runlog.Statements.Kept.{statement-accepted}
use replicron.Runlog.Statements.Lifecycle.{IsLog, finish_run-IsLog}
use replicron.Runlog.Statements.Rows.{Holds}
use replicron.Engine.Page.Kept.{Returns-some}
use replicron.Engine.Run.{World, Engine, new_result, run_body, finish}
use replicron.Engine.Run.Ended.{run_body-not}
use replicron.Engine.Run.Recorded.{run_body-Holds}
use replicron.Daemon.{Flight, Serving, remove_at, land}
use replicron.Daemon.Flights.{
  All-elem, All-remove_at, AreApart-remove_at, finalized-AreTrue, AreCronRows-finalized,
  update_run-behind, update_run-Any,
}
use replicron.Daemon.Progress.{IsFlight, IsServing}

same-IsLog : (t t' : Tables) → t'.runs ≡ t.runs → t'.run_seq ≡ t.run_seq → IsLog t → IsLog t'
same-IsLog t t' rows seq l = record {
  ascending = rw rows l.ascending;
  issued = rw (rows, seq) l.issued;
  settled = rw rows l.settled;
}

-- What the deferred calls of a run with a record make of the run log.
record IsFinished {L D : Type 0} (run_id : ℕ) (done : RunResult) (w w' : World L D) : Type 0 where
  tables : w'.store.tables ≡ (finish_run run_id done w.store).1.tables
  rows : w'.store.tables.runs ≡ update_run run_id (finalized done (now w.store)) w.store.tables.runs
  seq : w'.store.tables.run_seq ≡ w.store.tables.run_seq
  accepting : (n : ℕ) → w'.store.faults n ≡ none

finish_run-accepted :
    (id : ℕ) (res : RunResult) (s : Store)
    → s.faults s.calls ≡ none
    → finish_run id res s ≡ (
      ok tt,
      record s {
        tables = record s.tables { runs = update_run id (finalized res (now s)) s.tables.runs };
        calls = suc s.calls;
      },
    )
unfolding finish_run
finish_run-accepted id res s accepted =
    statement-accepted (λ at t. (record t { runs = update_run id (finalized res at) t.runs }, tt)) s
      accepted

finish-IsFinished :
    {L K D : Type 0} (e : Engine L K D) (t : Task) (run_id : ℕ) (tok : K) (began : ℕ)
    (res : RunResult) (w : World L D)
    → 0 < run_id
    → ((n : ℕ) → w.store.faults n ≡ none)
    → IsFinished run_id
        (record res { duration = now w.store - began })
        w
        (finish e t run_id tok began res w).1
unfolding finish
finish-IsFinished e t run_id tok began res w positive accepting =
    let begun : ltb 0 run_id ≡ true = ground (arith, positive) in
    let made =
      finish_run-accepted run_id (record res { duration = now w.store - began }) w.store
        (accepting w.store.calls) in
    record {
      tables = rw (begun, finish) refl;
      rows = rw (begun, finish) (rw made refl);
      seq = rw (begun, finish) (rw made refl);
      accepting = λ n. rw (begun, finish) (rw made (accepting n));
    }

land-made :
    {L K D : Type 0} (e : Engine L K D) (f : Flight K) (rest : List (Flight K)) (w : World L D)
    (o : RunResult × World L D)
    → run_body e f.task f.run_id f.tok (new_result f.task.name (codes "cron")) w ≡ some o
    → land e f rest w
      ≡ some (record { world = (finish e f.task f.run_id f.tok f.began o.0 o.1).1; flights = rest })
unfolding land
land-made e f rest w o ran = rw (ran, land) refl

module _ {L K D : Type 0} (before : List Run) (base : ℕ) where
  -- The deferred calls of a run in progress.
  finish-IsServing :
      (e : Engine L K D) (f : Flight K) (tasks : List Task) (v : Serving L K D) (n : ℕ)
      → All (λ r. r.id ≤ base) before
      → IsServing before base tasks v
      → get_elem? v.flights n ≡ some f
      → IsFlight base v.world.store.tables f
      → (res : RunResult) (w : World L D)
      → Holds v.world.store.tables.runs v.world.store.tables.run_seq w.store
      → res.status ≢ running
      → IsServing before base tasks (record {
        world = (finish e f.task f.run_id f.tok f.began res w).1;
        flights = remove_at n v.flights;
      })
  finish-IsServing e f tasks v n old h there k res w held over =
      let t : Tables = v.world.store.tables in
      let at : ℕ = now w.store in
      let done : RunResult = record res { duration = at - f.began } in
      let above = k.new in
      let ends =
        finish-IsFinished e f.task f.run_id f.tok f.began res w (omega (arith, above))
          held.accepting in
      let left : (finish e f.task f.run_id f.tok f.began res w).1.store.tables.runs
          ≡ update_run f.run_id (finalized done at) t.runs =
        ends.rows ∙ ap (update_run f.run_id (finalized done at)) held.same_runs in
      record {
        added = update_run f.run_id (finalized done at) h.added;
        rows =
            left
            ∙ ap (update_run f.run_id (finalized done at)) h.rows
            ∙ update_run-behind f.run_id (finalized done at) before h.added
                (All_imp (λ r b. omega (arith, b, above)) before old);
        cron = AreCronRows-finalized f.run_id at done tasks h.added h.cron;
        log = subst IsLog (sym ends.tables) (
            finish_run-IsLog f.run_id done w.store over
              (same-IsLog t w.store.tables held.same_runs held.same_seq h.log));
        accepting = ends.accepting;
        above = let b = h.above in omega (arith, b, ends.seq, held.same_seq);
        under_way =
            rw left (finalized-AreTrue n v.flights f done at t.runs there h.apart over h.under_way);
        flying =
            All_imp
              (λ g kept. record {
                recorded = rw left (update_run-Any f.run_id g.run_id done at t.runs kept.recorded);
                new = kept.new;
                issued = let b = kept.issued in omega (arith, b, ends.seq, held.same_seq);
                positive = kept.positive;
              })
              (remove_at n v.flights) (All-remove_at (IsFlight base t) n v.flights h.flying);
        apart = AreApart-remove_at n v.flights h.apart;
      }

  module _ (e : Engine L K D) (tasks : List Task) where
    -- A run in progress that ends.
    pub land-IsServing :
        (v : Serving L K D) (n : ℕ) (f : Flight K)
        → All (λ r. r.id ≤ base) before
        → IsServing before base tasks v
        → get_elem? v.flights n ≡ some f
        → (v' : Serving L K D) × (land e f (remove_at n v.flights) v.world ≡ some v')
          × IsServing before base tasks v'
    land-IsServing v n f old h there =
        let t : Tables = v.world.store.tables in
        let k = All-elem (IsFlight base t) v.flights n f h.flying there in
        let first : RunResult = new_result f.task.name (codes "cron") in
        let (o, ran, held) =
          Returns-some (λ o. Holds t.runs t.run_seq o.1.store) _
            (run_body-Holds e f.task f.run_id f.tok t.runs t.run_seq first v.world k.positive
              (record { same_runs = refl; same_seq = refl; accepting = h.accepting })) in
        let (o', ran', over') =
          Returns-some (λ o. o.0.status ≢ running) _
            (run_body-not running (λ q. cc q) (λ q. cc q) e f.task f.run_id f.tok first v.world
              k.positive) in
        let same : o' ≡ o = cc (ran, ran') in
        let over : o.0.status ≢ running =
          subst (λ (x : RunResult × World L D). x.0.status ≢ running) same over' in
        (
          record {
            world = (finish e f.task f.run_id f.tok f.began o.0 o.1).1;
            flights = remove_at n v.flights;
          },
          land-made e f (remove_at n v.flights) v.world o ran,
          finish-IsServing e f tasks v n old h there k o.0 o.1 held over,
        )
