-- ===== src/Engine/Batch/Written.antt =====
-- Which rows of a page are in the target behind it, in which order.
use replicron.Base.{
  ℕ, ◌+◌, ◌≡◌, refl, sym, ap, ◌∙◌, Text, List, [], ◌∷◌, ◌++◌, length, some, true, All, arith,
  length-append,
}
use replicron.Model.{Row, Error, Result, ok, err}
use replicron.Config.{Task}
use replicron.Engine.Page.{sorted_cols}
use replicron.Engine.Batch.{TargetConn, Progress, add_ok, write_chunk}

-- The first list is the second less some of its rows.
pub data IsPart : List Row → List Row → Type 0 where
  nothing : IsPart [] []
  keep : {kept rows : List Row} (r : Row) → IsPart kept rows → IsPart (r ∷ kept) (r ∷ rows)
  leave : {kept rows : List Row} (r : Row) → IsPart kept rows → IsPart kept (r ∷ rows)

IsPart-refl : (rows : List Row) → IsPart rows rows
IsPart-refl [] = nothing
IsPart-refl (r ∷ rows) = keep r (IsPart-refl rows)

IsPart-append :
    (kept rows kept' rows' : List Row)
    → IsPart kept rows
    → IsPart kept' rows'
    → IsPart (kept ++ kept') (rows ++ rows')
IsPart-append _ _ kept' rows' nothing k = k
IsPart-append _ _ kept' rows' (keep {kept} {rows} r h) k =
    keep r (IsPart-append kept rows kept' rows' h k)
IsPart-append kept _ kept' rows' (leave {rows} r h) k =
    leave r (IsPart-append kept rows kept' rows' h k)

module _ {D S : Type 0} (content : D → S) (put : Row → S → S) where
  -- The rows, one after another.
  unfoldable pub put_all : List Row → S → S
  put_all [] s = s
  put_all (r ∷ rows) s = put_all rows (put r s)

  put_all-append :
      (rows rows' : List Row) (s : S) → put_all (rows ++ rows') s ≡ put_all rows' (put_all rows s)
  unfolding put_all
  put_all-append [] rows' s = refl
  put_all-append (r ∷ rows) rows' s = put_all-append rows rows' (put r s)

  -- A write at these columns puts all its rows, whose columns they are, and returns their number, or is refused
  -- and puts none.
  pub record IsAtomic (cols : List Text) (write : List Row → D → Result ℕ × D) : Type 0 where
    pub done :
        (rows : List Row) (d : D) (n : ℕ)
        → All (λ r. sorted_cols r ≡ cols) rows
        → (write rows d).0 ≡ ok n
        → (n ≡ length rows) × (content (write rows d).1 ≡ put_all rows (content d))
    pub refused :
        (rows : List Row) (d : D) (x : Error)
        → (write rows d).0 ≡ err x
        → content (write rows d).1 ≡ content d

  -- The contract of a target on the rows that it holds for a task.
  pub record IsFaithful (t : Task) (tgt : TargetConn D) : Type 0 where
    pub writes : (cols : List Text) → IsAtomic cols (write_chunk tgt t cols)
    pub bulks :
        t.target.bulk ≡ true
        → (load : Text → List Text → List Text → List Row → D → Result ℕ × D)
        → tgt.bulk_load ≡ some load
        → (cols : List Text) → IsAtomic cols (load t.target.table t.target.keys cols)

  -- From `p` to `p'` the rows `kept` of `rows` were put, and the others counted as failed.
  pub record IsWritten (rows : List Row) (p p' : Progress D) : Type 0 where
    pub kept : List Row
    pub part : IsPart kept rows
    pub put_kept : content p'.target ≡ put_all kept (content p.target)
    pub ok_counted : p'.res.ok_rows ≡ p.res.ok_rows + length kept
    pub fail_counted : p'.res.fail_rows + length kept ≡ p.res.fail_rows + length rows

  pub IsWritten-refl : (p : Progress D) → IsWritten [] p p
  unfolding put_all
  IsWritten-refl p = record {
    kept = [];
    part = nothing;
    put_kept = refl;
    ok_counted = omega arith;
    fail_counted = refl;
  }

  pub IsWritten-append :
      (rows rows' : List Row) (p q p' : Progress D)
      → IsWritten rows p q
      → IsWritten rows' q p'
      → IsWritten (rows ++ rows') p p'
  IsWritten-append rows rows' p q p' h k = record {
    kept = h.kept ++ k.kept;
    part = IsPart-append h.kept rows k.kept rows' h.part k.part;
    put_kept =
        k.put_kept
        ∙ ap (put_all k.kept) h.put_kept
        ∙ sym (put_all-append h.kept k.kept (content p.target));
    ok_counted = omega (arith, h.ok_counted, k.ok_counted, length-append h.kept k.kept);
    fail_counted = omega (
      arith,
      h.fail_counted,
      k.fail_counted,
      length-append h.kept k.kept,
      length-append rows rows',
    );
  }

  -- All the rows at once.
  pub all-IsWritten :
      (rows : List Row) (n : ℕ) (p : Progress D) (d : D)
      → n ≡ length rows
      → content d ≡ put_all rows (content p.target)
      → IsWritten rows p (record { res = add_ok n p.res; target = d })
  all-IsWritten rows n p d same h = record {
    kept = rows;
    part = IsPart-refl rows;
    put_kept = h;
    ok_counted = ap (λ k. p.res.ok_rows + k) same;
    fail_counted = refl;
  }

  -- A start from another progress with the same counts and content.
  pub from-IsWritten :
      (rows : List Row) (p : Progress D) (d : D) (p' : Progress D)
      → content d ≡ content p.target
      → IsWritten rows (record p { target = d }) p'
      → IsWritten rows p p'
  from-IsWritten rows p d p' same h = record {
    kept = h.kept;
    part = h.part;
    put_kept = h.put_kept ∙ ap (put_all h.kept) same;
    ok_counted = h.ok_counted;
    fail_counted = h.fail_counted;
  }
