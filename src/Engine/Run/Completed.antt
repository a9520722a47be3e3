-- ===== src/Engine/Run/Completed.antt =====
-- The way of a run that succeeded: what it opened and sent, the stream that came to its end, and what it left.
use replicron.Base.{ℕ, ◌≡◌, refl, ap, Text, Option, none, some, false, inl, inr}
use replicron.Model.{succeeded, RunResult, Error, open_source, open_target, ok, Result-cases}
use replicron.Config.{Task}
use replicron.Connector.Conn.Paging.{deliver}
use replicron.Runlog.Statements.{Store}
use replicron.Engine.Watermark.{Tracker}
use replicron.Engine.Batch.{TargetConn}
use replicron.Engine.Page.{State, callback}
use replicron.Engine.Run.{
  World, SourceConn, Engine, Effect, fail, settle, log_effect, source_opened, source_closed,
  target_opened, target_closed, prepare_query, finalized_store, conclude, concluded, stream_run,
  prepared, after_close, with_target, with_source, run_body,
}

-- A run that did not succeed, or one that did and has the property.
unfoldable pub Completes :
    {L D : Type 0} → (RunResult × World L D → Type 0) → Option (RunResult × World L D) → Type 0
Completes P none = Unit
Completes P (some o) = o.0.status ≡ succeeded → P o

module _ {L K D : Type 0} (e : Engine L K D) (t : Task) (run_id : ℕ) (tok : K)
    (res : RunResult) where
  -- The state before the first page.
  abbrev pub begun : L → Store → D → Option Tracker → State L D
  begun l s d wm = record {
    lock = l;
    store = s;
    progress = record { res = res; target = d };
    keys_checked = false;
    tracker = wm;
    total_seen = 0;
  }

  -- The stream of `query` ended without an error, and this is its outcome.
  pub record IsStreamed (src : SourceConn) (tgt : TargetConn D) (query : Text) (wm : Option Tracker)
      (l : L) (s : Store) (d : D) (o : RunResult × World L D) : Type 0 where
    pub count : ℕ
    pub last : State L D
    pub streamed :
        deliver
          (callback e.reg tgt t run_id tok)
          (src query t.page_size).pages
          (src query t.page_size).ending
          0
          (some (begun l s d wm))
        ≡ ((count, none), some last)
    pub settled : o.0 ≡ settle (record last.progress.res { total_rows = last.total_seen })
    pub left_store : o.1.store ≡ finalized_store e t run_id tok last.tracker o.0 last.store
    pub left_target : o.1.target ≡ last.progress.target

  concluded-IsStreamed :
      (src : SourceConn) (tgt : TargetConn D) (query : Text) (wm : Option Tracker) (w : World L D)
      (r : (ℕ × Option Error) × Option (State L D))
      → deliver
          (callback e.reg tgt t run_id tok)
          (src query t.page_size).pages
          (src query t.page_size).ending
          0
          (some (begun w.lock w.store w.target wm))
        ≡ r
      → Completes
          (IsStreamed src tgt query wm w.lock w.store w.target)
          (concluded e t run_id tok r.0.1 r.1 w)
  unfolding Completes conclude
  concluded-IsStreamed src tgt query wm w ((n, some x), none) h = tt
  concluded-IsStreamed src tgt query wm w ((n, some x), some st) h = λ k. absurd (cc k)
  concluded-IsStreamed src tgt query wm w ((n, none), none) h = tt
  concluded-IsStreamed src tgt query wm w ((n, none), some st) h = λ _. record {
    count = n;
    last = st;
    streamed = h;
    settled = refl;
    left_store = refl;
    left_target = refl;
  }

  -- The body of a run that succeeded, from the world `w`.
  pub record IsCompleted (w : World L D) (o : RunResult × World L D) : Type 0 where
    pub src : SourceConn
    pub tgt : TargetConn D
    pub opened_target : D
    pub query : Text
    pub wm : Option Tracker
    pub source_made : e.source_of t.source.typ t.source.dsn ≡ ok src
    pub target_made :
        e.target_of t.target.endpoint.typ t.target.endpoint.dsn w.target ≡ (ok tgt, opened_target)
    pub sent : (prepare_query e.floats t w.store).0 ≡ ok (query, wm)
    pub stream :
        IsStreamed src tgt query wm w.lock (prepare_query e.floats t w.store).1 opened_target o

  Completes-failed :
      (P : RunResult × World L D → Type 0) (x : Error) (w : World L D)
      → Completes P (some (fail x res, w))
  unfolding Completes
  Completes-failed P x w = λ k. absurd (cc k)

  after_close-IsStreamed :
      (src : SourceConn) (tgt : TargetConn D) (query : Text) (wm : Option Tracker) (l : L)
      (s : Store) (d : D) (x : Effect) (o : Option (RunResult × World L D))
      → Completes (IsStreamed src tgt query wm l s d) o
      → Completes (IsStreamed src tgt query wm l s d) (after_close e t run_id tok x o)
  unfolding Completes
  after_close-IsStreamed src tgt query wm l s d x none h = h
  after_close-IsStreamed src tgt query wm l s d x (some (r, w)) h = λ good.
      let s = h good in
      record {
        count = s.count;
        last = s.last;
        streamed = s.streamed;
        settled = s.settled;
        left_store = s.left_store;
        left_target = s.left_target;
      }

  Completes-imp :
      (P Q : RunResult × World L D → Type 0) (o : Option (RunResult × World L D))
      → ((a : RunResult × World L D) → P a → Q a)
      → Completes P o
      → Completes Q o
  unfolding Completes
  Completes-imp P Q none f h = tt
  Completes-imp P Q (some a) f h = λ good. f a (h good)

  opened-IsCompleted :
      (w : World L D) (src : SourceConn) (tgt : TargetConn D) (d : D)
      → e.source_of t.source.typ t.source.dsn ≡ ok src
      → e.target_of t.target.endpoint.typ t.target.endpoint.dsn w.target ≡ (ok tgt, d)
      → Completes (IsCompleted w) (
          after_close e t run_id tok source_closed (
            with_target e t run_id tok src
              (ok tgt)
              res
              (record (log_effect source_opened w) { target = d })))
  unfolding with_target prepared stream_run
  opened-IsCompleted w src tgt d source_made target_made =
      elim (Result-cases (prepare_query e.floats t w.store).0) [
        | inl ((query, wm), sent) ↦
            let s : Store = (prepare_query e.floats t w.store).1 in
            rw sent (
              Completes-imp (IsStreamed src tgt query wm w.lock s d) (IsCompleted w) _
                (λ o h. record {
                  src = src;
                  tgt = tgt;
                  opened_target = d;
                  query = query;
                  wm = wm;
                  source_made = source_made;
                  target_made = target_made;
                  sent = sent;
                  stream = h;
                })
                (after_close-IsStreamed src tgt query wm w.lock s d source_closed _ (
                  after_close-IsStreamed src tgt query wm w.lock s d target_closed _ (
                    concluded-IsStreamed src tgt query wm
                      (record (log_effect target_opened (log_effect source_opened w)) {
                        store = s;
                        target = d;
                      })
                      _ refl))))
        | inr (x, refused) ↦ rw refused (Completes-failed (IsCompleted w) x _)
      ]

  pub run_body-IsCompleted :
      (w : World L D) → Completes (IsCompleted w) (run_body e t run_id tok res w)
  unfolding run_body with_source with_target
  run_body-IsCompleted w = elim (Result-cases (e.source_of t.source.typ t.source.dsn)) [
    | inl (src, opened) ↦
        let made = e.target_of t.target.endpoint.typ t.target.endpoint.dsn w.target in
        elim (Result-cases made.0) [
          | inl (tgt, there) ↦
              rw (opened, there)
                (opened-IsCompleted w src tgt made.1 opened (ap (λ x. (x, made.1)) there))
          | inr (x, refused) ↦
              rw (opened, refused) (Completes-failed (IsCompleted w) (open_target x) _)
        ]
    | inr (x, refused) ↦ rw refused (Completes-failed (IsCompleted w) (open_source x) w)
  ]
