-- ===== src/Engine/Batch/Faithful.antt =====
-- The loop over the batches puts the rows of a page in their order, less those that failed.
use replicron.Base.{
  All, All-append_left, All-append_right, ℕ, zero, suc, ◌≡◌, refl, sym, Text, List, [], ◌∷◌, length,
  take, drop, Option, none, some, true, arith, Bool-cases, inl, inr, take-append-drop, subst,
}
use replicron.Model.{Row, Result, ok, err}
use replicron.Config.{Task}
use replicron.Engine.Page.{sorted_cols}
use replicron.Engine.Batch.{
  TargetConn, Progress, add_failure, row_written, write_chunk, write_rows, chunk_written,
  write_or_degrade, bulk_written, with_loader, put_chunk, put_chunks, put_page,
}
use replicron.Engine.Batch.Written.{
  IsPart, put_all, IsFaithful, IsWritten, IsWritten-refl, IsWritten-append, all-IsWritten,
  from-IsWritten,
}

module _ {D S : Type 0} (content : D → S) (put : Row → S → S) (tgt : TargetConn D) (t : Task)
    (cols : List Text) (faithful : IsFaithful content put t tgt) where
  abbrev Fits : Row → Type 0
  Fits r = sorted_cols r ≡ cols

  abbrev Written : List Row → Progress D → Progress D → Type 0
  Written = IsWritten content put

  row-IsWritten :
      (r : Row) (n : Result ℕ) (p : Progress D)
      → sorted_cols r ≡ cols
      → (write_chunk tgt t cols (r ∷ []) p.target).0 ≡ n
      → Written (r ∷ []) p (record {
        res = row_written n p.res;
        target = (write_chunk tgt t cols (r ∷ []) p.target).1;
      })
  unfolding row_written add_failure
  row-IsWritten r (ok n) p f h =
      let (same, there) = (faithful.writes cols).done (r ∷ []) p.target n (f, tt) h in
      all-IsWritten content put (r ∷ []) 1 p _ refl there
  row-IsWritten r (err x) p f h = record {
    kept = [];
    part = IsPart.leave r IsPart.nothing;
    put_kept = unfold put_all in (faithful.writes cols).refused (r ∷ []) p.target x h;
    ok_counted = omega arith;
    fail_counted = omega arith;
  }

  write_rows-IsWritten :
      (rows : List Row) (p : Progress D)
      → All Fits rows
      → Written rows p (write_rows tgt t cols rows p)
  unfolding write_rows
  write_rows-IsWritten [] p f = IsWritten-refl content put p
  write_rows-IsWritten (r ∷ rows) p (f, fs) =
      IsWritten-append content put (r ∷ []) rows p _ _ (row-IsWritten r _ p f refl)
        (write_rows-IsWritten rows _ fs)

  chunk_written-IsWritten :
      (chunk : List Row) (n : Result ℕ) (p : Progress D)
      → All Fits chunk
      → (write_chunk tgt t cols chunk p.target).0 ≡ n
      → Written chunk p (
          chunk_written tgt t cols chunk n
            (record p { target = (write_chunk tgt t cols chunk p.target).1 }))
  unfolding chunk_written
  chunk_written-IsWritten chunk (ok n) p f h =
      let (same, there) = (faithful.writes cols).done chunk p.target n f h in
      all-IsWritten content put chunk n p _ same there
  chunk_written-IsWritten chunk (err x) p f h =
      from-IsWritten content put chunk p _ _ ((faithful.writes cols).refused chunk p.target x h)
        (write_rows-IsWritten chunk _ f)

  write_or_degrade-IsWritten :
      (chunk : List Row) (p : Progress D)
      → All Fits chunk
      → Written chunk p (write_or_degrade tgt t cols chunk p)
  unfolding write_or_degrade
  write_or_degrade-IsWritten chunk p f =
      chunk_written-IsWritten chunk (write_chunk tgt t cols chunk p.target).0 p f refl

  bulk_written-IsWritten :
      (load : Text → List Text → List Text → List Row → D → Result ℕ × D) (chunk : List Row)
      (n : Result ℕ) (p : Progress D)
      → All Fits chunk
      → t.target.bulk ≡ true
      → tgt.bulk_load ≡ some load
      → (load t.target.table t.target.keys cols chunk p.target).0 ≡ n
      → Written chunk p (
          bulk_written tgt t cols chunk n
            (record p { target = (load t.target.table t.target.keys cols chunk p.target).1 }))
  unfolding bulk_written
  bulk_written-IsWritten load chunk (ok n) p f on there h =
      let (same, made) = (faithful.bulks on load there cols).done chunk p.target n f h in
      all-IsWritten content put chunk n p _ same made
  bulk_written-IsWritten load chunk (err x) p f on there h =
      from-IsWritten content put chunk p _ _
        ((faithful.bulks on load there cols).refused chunk p.target x h)
        (write_or_degrade-IsWritten chunk _ f)

  with_loader-IsWritten :
      (loader : Option (Text → List Text → List Text → List Row → D → Result ℕ × D))
      (chunk : List Row) (p : Progress D)
      → All Fits chunk
      → t.target.bulk ≡ true
      → tgt.bulk_load ≡ loader
      → Written chunk p (with_loader tgt t cols loader chunk p)
  unfolding with_loader
  with_loader-IsWritten none chunk p f on h = write_or_degrade-IsWritten chunk p f
  with_loader-IsWritten (some load) chunk p f on h =
      bulk_written-IsWritten load chunk _ p f on h refl

  put_chunk-IsWritten :
      (chunk : List Row) (p : Progress D)
      → All Fits chunk
      → Written chunk p (put_chunk tgt t cols chunk p)
  unfolding put_chunk
  put_chunk-IsWritten chunk p f = elim (Bool-cases t.target.bulk) [
    | inl on ↦ simp on (with_loader-IsWritten tgt.bulk_load chunk p f on refl)
    | inr off ↦ simp off (write_or_degrade-IsWritten chunk p f)
  ]

  put_chunks-IsWritten :
      (fuel batch : ℕ) (page : List Row) (p p' : Progress D)
      → All Fits page
      → put_chunks tgt t cols fuel batch page p ≡ some p'
      → Written page p p'
  unfolding put_chunks
  put_chunks-IsWritten fuel batch [] p p' f h =
      subst (Written [] p) (cc h) (IsWritten-refl content put p)
  put_chunks-IsWritten zero batch (r ∷ rest) p p' f h = absurd (cc h)
  put_chunks-IsWritten (suc fuel) batch (r ∷ rest) p p' f h =
      let page : List Row = r ∷ rest in
      let parts = subst (All Fits) (sym (take-append-drop batch page)) f in
      let q : Progress D = put_chunk tgt t cols (take batch page) p in
      subst (λ rows. Written rows p p') (take-append-drop batch page)
        (IsWritten-append content put (take batch page) (drop batch page) p q p'
          (put_chunk-IsWritten (take batch page) p
            (All-append_left Fits (take batch page) (drop batch page) parts))
          (put_chunks-IsWritten fuel batch (drop batch page) q p'
            (All-append_right Fits (take batch page) (drop batch page) parts) h))

  -- A page of rows with these columns whose batches came to their end: its rows are in the target in their order, less those that failed;
  -- and the rows put and the rows left out are what the counts of written and failed rows gained.
  pub put_page-IsWritten :
      (page : List Row) (p p' : Progress D)
      → All (λ r. sorted_cols r ≡ cols) page
      → put_page tgt t cols page p ≡ some p'
      → IsWritten content put page p p'
  unfolding put_page
  put_page-IsWritten page p p' f h = put_chunks-IsWritten (length page) _ page p p' f h
