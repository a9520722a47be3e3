-- ===== src/Engine/Run/Replicated.antt =====
-- What a run that succeeded left in the target: the rows of its query.
use replicron.Base.{
  All, All-append_left, All-append_right, subst, ◌∷◌, ℕ, ◌+◌, ◌≡◌, refl, sym, ap, ◌∙◌, Text, List,
  length, concat, Option, none, some, arith, Bool-cases, inl, inr, ltb,
}
use replicron.Model.{Row, succeeded, RunResult, Error, ok}
use replicron.Config.{Task}
use replicron.Connector.Conn.Paging.{deliver}
use replicron.Runlog.Statements.{now, start_run}
use replicron.Engine.Watermark.{Tracker}
use replicron.Engine.Batch.{TargetConn}
use replicron.Engine.Batch.Written.{
  IsPart, put_all, IsFaithful, IsWritten, IsWritten-refl, IsWritten-append,
}
use replicron.Engine.Batch.Faithful.{put_page-IsWritten}
use replicron.Engine.Page.{sorted_cols, Locker, State, page_done, callback}
use replicron.Engine.Page.Passed.{deliver-Seen}
use replicron.Engine.Run.{World, SourceConn, Engine, settle, prepare_query, finish, run_task, id_of}
use replicron.Engine.Run.Success.{run_task-IsSuccess}

settle-counts :
    (res : RunResult)
    → ((settle res).ok_rows ≡ res.ok_rows) × ((settle res).fail_rows ≡ res.fail_rows)
unfolding settle
settle-counts res = (ground arith, ground arith)

finish-target :
    {L K D : Type 0} (e : Engine L K D) (t : Task) (run_id : ℕ) (tok : K) (began : ℕ)
    (res : RunResult) (w : World L D)
    → (finish e t run_id tok began res w).1.target ≡ w.target
unfolding finish
finish-target e t run_id tok began res w = elim (Bool-cases (ltb 0 run_id)) [
  | inl h ↦ rw (h, finish) refl
  | inr h ↦ rw (h, finish) refl
]

module _ {L K D S : Type 0} (content : D → S) (put : Row → S → S) (t : Task) where
  deliver-IsWritten :
      (reg : Locker L K) (tgt : TargetConn D) (run_id : ℕ) (tok : K) (columns : List Text)
      → IsFaithful content put t tgt
      → (pages : List (List Row)) (ending : Option Error) (st st' : State L D) (count : ℕ)
      → All (λ r. sorted_cols r ≡ columns) (concat pages)
      → deliver (callback reg tgt t run_id tok) pages ending 0 (some st) ≡ ((count, none), some st')
      → (ending ≡ none) × IsWritten content put (concat pages) st.progress st'.progress
  unfolding page_done
  deliver-IsWritten reg tgt run_id tok columns faithful pages ending st st' count fit e =
      let Fits : Row → Type 0 = λ r. sorted_cols r ≡ columns in
      let (clean, written) =
        deliver-Seen reg tgt t run_id tok
          (λ rows now. All Fits rows → IsWritten content put rows st.progress now.progress)
          (λ rows cols r rest now w p c o made h fits.
            let page_fits = All-append_right Fits rows (r ∷ rest) fits in
            IsWritten-append content put rows (r ∷ rest) st.progress now.progress p
              (h (All-append_left Fits rows (r ∷ rest) fits))
              (put_page-IsWritten content put tgt t cols faithful (r ∷ rest) now.progress p
                (subst (λ k. All (λ q. sorted_cols q ≡ k) (r ∷ rest)) (sym (c ∙ page_fits.0))
                  page_fits)
                made))
          pages ending st st' count (λ fits. IsWritten-refl content put st.progress) e in
      (clean, written fit)

  module _ (e : Engine L K D) (trigger : Text) where
    -- From the world `w` a run came to `r`: all the rows of its query were read, and the target holds them in
    -- their order, put one after another, less those that the run counts as failed.
    pub record IsReplica (w : World L D) (r : RunResult × World L D) : Type 0 where
      pub src : SourceConn
      pub query : Text
      pub wm : Option Tracker
      pub kept : List Row
      pub source_made : e.source_of t.source.typ t.source.dsn ≡ ok src
      pub sent : (prepare_query e.floats t (start_run t.name trigger w.store).1).0 ≡ ok (query, wm)
      pub ended : (src query t.page_size).ending ≡ none
      pub part : IsPart kept (concat (src query t.page_size).pages)
      pub in_target : content r.1.target ≡ put_all content put kept (content w.target)
      pub ok_counted : r.0.ok_rows ≡ length kept
      pub fail_counted : r.0.fail_rows + length kept ≡ length (concat (src query t.page_size).pages)

    -- Where opening a target leaves its content, a write puts all its rows and returns their number or is refused
    -- and puts none, and the rows of a query have the same columns: a run that succeeded read all the rows of its query, and the target holds them in
    -- their order, put one after another upon what it held, less rows that are as many as the run counts as
    -- failed; the others are as many as it counts as written.
    pub run_task-IsReplica :
        (w : World L D) (r : RunResult × World L D)
        → ((typ dsn : Text) (d : D) → content (e.target_of typ dsn d).1 ≡ content d)
        → ((typ dsn : Text) (d : D) (tgt : TargetConn D)
            → (e.target_of typ dsn d).0 ≡ ok tgt
            → IsFaithful content put t tgt)
        → ((src : SourceConn) (query : Text)
            → e.source_of t.source.typ t.source.dsn ≡ ok src
            → (columns : List Text) × All
                (λ r. sorted_cols r ≡ columns)
                (concat (src query t.page_size).pages))
        → run_task e t trigger w ≡ some r
        → r.0.status ≡ succeeded
        → IsReplica w r
    unfolding finish
    run_task-IsReplica w r opens faithful even returns good =
        let success = run_task-IsSuccess e t trigger w r returns good in
        let body = success.body in
        let stream = body.stream in
        let run_id : ℕ = id_of (start_run t.name trigger w.store).0 in
        let typ : Text = t.target.endpoint.typ in
        let dsn : Text = t.target.endpoint.dsn in
        let (columns, fit) = even body.src body.query body.source_made in
        let (ended, written) =
          deliver-IsWritten e.reg body.tgt run_id success.tok columns
            (faithful typ dsn w.target body.tgt (ap (λ x. x.0) body.target_made))
            (body.src body.query t.page_size).pages (body.src body.query t.page_size).ending _
            stream.last stream.count fit stream.streamed in
        let (ok_kept, fail_kept) =
          settle-counts (record stream.last.progress.res { total_rows = stream.last.total_seen }) in
        let ok_end : r.0.ok_rows ≡ stream.last.progress.res.ok_rows =
          ap (λ (x : RunResult × World L D). x.0.ok_rows) (sym success.finish_made)
          ∙ ap (λ (x : RunResult). x.ok_rows) stream.settled
          ∙ ok_kept in
        let fail_end : r.0.fail_rows ≡ stream.last.progress.res.fail_rows =
          ap (λ (x : RunResult × World L D). x.0.fail_rows) (sym success.finish_made)
          ∙ ap (λ (x : RunResult). x.fail_rows) stream.settled
          ∙ fail_kept in
        let target_end : r.1.target ≡ stream.last.progress.target =
          ap (λ (x : RunResult × World L D). x.1.target) (sym success.finish_made)
          ∙ finish-target e t run_id success.tok (now w.store) success.end.0 success.end.1
          ∙ stream.left_target in
        record {
          src = body.src;
          query = body.query;
          wm = body.wm;
          kept = written.kept;
          source_made = body.source_made;
          sent = body.sent;
          ended = ended;
          part = written.part;
          in_target =
              ap content target_end
              ∙ written.put_kept
              ∙ ap (λ d. put_all content put written.kept (content d))
                  (sym (ap (λ x. x.1) body.target_made))
              ∙ ap (put_all content put written.kept) (opens typ dsn w.target);
          ok_counted = omega (arith, ok_end, written.ok_counted);
          fail_counted = omega (arith, fail_end, written.fail_counted);
        }
