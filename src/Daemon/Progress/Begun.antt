-- ===== src/Daemon/Progress/Begun.antt =====
-- internal/daemon/daemon.go: a job that comes due keeps what holds in the wait.
use replicron.Base.{
  ℕ, suc, ◌≤◌, ◌≡◌, ◌≢◌, refl, sym, ap, ◌∙◌, codes, List, [], ◌∷◌, ◌++◌, Option, none, some, true,
  All, Any, All-append, All_imp, All_and, inl, inr, arith, append_assoc,
}
use replicron.Base.Ints.{pos, ltb_ℤ}
use replicron.Model.{Run, running}
use replicron.Config.{Task}
use replicron.Runlog.Statements.{Tables, now, start_run}
use replicron.Runlog.Statements.Lifecycle.{IsLog, IsSettled, open_run, closed_run, Ascends-snoc}
use replicron.Runlog.Statements.Rows.{started_run, start_run-Holds}
use replicron.Engine.Page.Kept.{Returns}
use replicron.Engine.Run.{World, Engine, new_result, id_of, skip, run_acquired}
use replicron.Engine.Run.Recorded.{recorded_run, IsRecorded, run_acquired-IsRecorded}
use replicron.Daemon.{Flight, Serving, begin_with, begin}
use replicron.Daemon.Flights.{IsTrue, AreCronRows-snoc, Has-not}
use replicron.Daemon.Progress.{IsFlight, IsServing}

-- One row more.
snoc-IsLog :
    (t t' : Tables) (row : Run)
    → t'.runs ≡ t.runs ++ row ∷ []
    → t'.run_seq ≡ suc t.run_seq
    → row.id ≡ suc t.run_seq
    → IsSettled row
    → IsLog t
    → IsLog t'
snoc-IsLog t t' row rows seq id settled l = record {
  ascending =
      rw rows
        (Ascends-snoc 0 t.run_seq t.runs row (omega arith) (omega arith) l.ascending l.issued);
  issued =
      rw (rows, seq)
        (All-append (λ q. q.id ≤ suc t.run_seq) t.runs (row ∷ [])
          (All_imp (λ q b. omega arith) t.runs l.issued) (omega (arith, id), tt));
  settled = rw rows (All-append IsSettled t.runs (row ∷ []) l.settled (settled, tt));
}

Any-append_left : (P : Run → Type 0) (xs ys : List Run) → Any P xs → Any P (xs ++ ys)
Any-append_left P [] ys m = absurd m
Any-append_left P (x ∷ xs) ys (inl p) = inl p
Any-append_left P (x ∷ xs) ys (inr m) = inr (Any-append_left P xs ys m)

Any-last : (P : Run → Type 0) (xs : List Run) (y : Run) → P y → Any P (xs ++ y ∷ [])
Any-last P [] y p = inl p
Any-last P (x ∷ xs) y p = inr (Any-last P xs y p)

module _ {K : Type 0} (base : ℕ) where
  joined-IsFlight :
      (t t' : Tables) (row : Run) (f : Flight K)
      → t'.runs ≡ t.runs ++ row ∷ []
      → t'.run_seq ≡ suc t.run_seq
      → IsFlight base t f
      → IsFlight base t' f
  joined-IsFlight t t' row f rows seq h = record {
    recorded = rw rows (Any-append_left (λ r. r.id ≡ f.run_id) t.runs (row ∷ []) h.recorded);
    new = h.new;
    issued = let b = h.issued in omega (arith, seq, b);
    positive = h.positive;
  }

  -- No run in progress has the next id.
  next-apart :
      (t : Tables) (id : ℕ) (fs : List (Flight K))
      → id ≡ suc t.run_seq
      → All (IsFlight base t) fs
      → All (λ g. g.run_id ≢ id) fs
  next-apart t id fs e h = All_imp (λ g k q. let b = k.issued in omega (arith, b, q, e)) fs h

module _ {L K D : Type 0} (before : List Run) (base : ℕ) where
  module _ (e : Engine L K D) (t : Task) (positive : ltb_ℤ (pos 0) t.target.batch_size ≡ true)
      (tasks : List Task) (v : Serving L K D) (h : IsServing before base tasks v) where
    skipped-IsServing : IsServing before base (tasks ++ t ∷ []) (begin_with e t none v)
    unfolding begin_with run_acquired Returns skip
    skipped-IsServing =
        let w : World L D = v.world in
        let seq : ℕ = w.store.tables.run_seq in
        let row : IsRecorded t (codes "cron") w.store
            (skip e t (now w.store) (new_result t.name (codes "cron")) w) =
          run_acquired-IsRecorded e t (codes "cron") none (now w.store) w positive h.log
            h.accepting in
        let last : Run =
          recorded_run (suc seq) t.name (codes "cron")
            (skip e t (now w.store) (new_result t.name (codes "cron")) w).0 (now w.store) row.at in
        let over : last.status ≢ running = λ q. cc q in
        let free = next-apart base w.store.tables (suc seq) v.flights refl h.flying in
        record {
          added = h.added ++ last ∷ [];
          rows =
              row.row ∙ ap (λ x. x ++ last ∷ []) h.rows ∙ append_assoc before h.added (last ∷ []);
          cron = AreCronRows-snoc tasks h.added t last h.cron refl refl;
          log =
              snoc-IsLog w.store.tables _ last row.row row.issued refl (closed_run row.at over refl)
                h.log;
          accepting = row.accepting;
          above = let b = h.above in omega (arith, b, row.issued);
          under_way = rw row.row (
              All-append (IsTrue v.flights) w.store.tables.runs (last ∷ []) h.under_way
                ((λ q. absurd (over q), λ m. absurd (Has-not (suc seq) v.flights free m)), tt));
          flying =
              All_imp (λ f k. joined-IsFlight base w.store.tables _ last f row.row row.issued k)
                v.flights h.flying;
          apart = h.apart;
        }

    begun-IsServing :
        (tok : K) → IsServing before base (tasks ++ t ∷ []) (begin_with e t (some tok) v)
    unfolding begin_with
    begun-IsServing tok =
        let w : World L D = v.world in
        let seq : ℕ = w.store.tables.run_seq in
        let (started, held) = start_run-Holds t.name (codes "cron") w.store h.accepting in
        let last : Run = started_run (suc seq) t.name (codes "cron") (now w.store) in
        let id : id_of (start_run t.name (codes "cron") w.store).0 ≡ suc seq = ap id_of started in
        let f : Flight K = record {
          task = t;
          tok = tok;
          run_id = id_of (start_run t.name (codes "cron") w.store).0;
          began = now w.store;
        } in
        record {
          added = h.added ++ last ∷ [];
          rows =
              held.same_runs
              ∙ ap (λ x. x ++ last ∷ []) h.rows
              ∙ append_assoc before h.added (last ∷ []);
          cron = AreCronRows-snoc tasks h.added t last h.cron refl refl;
          log =
              snoc-IsLog w.store.tables _ last held.same_runs held.same_seq refl
                (open_run refl refl) h.log;
          accepting = held.accepting;
          above = let b = h.above in omega (arith, b, held.same_seq);
          under_way = rw held.same_runs (
              All-append (IsTrue (f ∷ v.flights)) w.store.tables.runs (last ∷ [])
                (All_and
                  (λ r k b. (
                    λ q. inr (k.0 q),
                    λ m. elim m [
                      | inl same ↦ absurd (omega (arith, same, id, b))
                      | inr m' ↦ k.1 m'
                    ],
                  ))
                  w.store.tables.runs h.under_way h.log.issued)
                ((λ q. inl id, λ m. refl), tt));
          flying = (
            record {
              recorded =
                  rw held.same_runs
                    (Any-last (λ r. r.id ≡ f.run_id) w.store.tables.runs last (sym id));
              new = let b = h.above in omega (arith, b, id);
              issued = omega (arith, id, held.same_seq);
              positive = positive;
            },
            All_imp
                (λ g k. joined-IsFlight base w.store.tables _ last g held.same_runs held.same_seq k)
                v.flights h.flying,
          );
          apart = (next-apart base w.store.tables f.run_id v.flights id h.flying, h.apart);
        }

  module _ (e : Engine L K D) (tasks : List Task) where
    begin_with-IsServing :
        (t : Task) (tok : Option K) (v : Serving L K D)
        → ltb_ℤ (pos 0) t.target.batch_size ≡ true
        → IsServing before base tasks v
        → IsServing before base (tasks ++ t ∷ []) (begin_with e t tok v)
    begin_with-IsServing t none v positive h = skipped-IsServing e t positive tasks v h
    begin_with-IsServing t (some tok) v positive h = begun-IsServing e t positive tasks v h tok

    -- A job that comes due.
    pub begin-IsServing :
        (t : Task) (v : Serving L K D)
        → ltb_ℤ (pos 0) t.target.batch_size ≡ true
        → IsServing before base tasks v
        → IsServing before base (tasks ++ t ∷ []) (begin e t v)
    unfolding begin
    begin-IsServing t v positive h =
        let (tok, l) = e.reg.acquire t.name v.world.lock in
        begin_with-IsServing t tok (record v { world = record v.world { lock = l } }) positive
          (record {
            added = h.added;
            rows = h.rows;
            cron = h.cron;
            log = h.log;
            accepting = h.accepting;
            above = h.above;
            under_way = h.under_way;
            flying = h.flying;
            apart = h.apart;
          })
