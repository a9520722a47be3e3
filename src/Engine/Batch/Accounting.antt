-- ===== src/Engine/Batch/Accounting.antt =====
-- Every row of a page is counted once, as written or as failed, and every failure leaves a sample while
-- there is room.
use replicron.Base.{
  ℕ, zero, suc, ◌+◌, ◌≡◌, refl, sym, ap, ◌∙◌, Text, List, [], ◌∷◌, length, take, drop, Option, none,
  some, arith, text_eq, codes, length-append, take-append-drop, subst, Bool-cases, inl, inr,
}
use Prim.Native.Nat.{min}
use replicron.Model.{Row, RunResult, Result, ok, err}
use replicron.Config.{Task}
use replicron.Engine.Batch.{
  max_samples, TargetConn, Progress, add_ok, row_written, write_chunk, write_rows, chunk_written,
  write_or_degrade, bulk_written, with_loader, put_chunk, put_chunks, put_page,
}

-- A write that succeeds returns the number of the rows that it was given.
abbrev pub Counts : {D : Type 0} → (List Row → D → Result ℕ × D) → Type 0
Counts {D} write = (rows : List Row) (d : D) (n : ℕ) → (write rows d).0 ≡ ok n → n ≡ length rows

-- The contract of a target connection on the counts that it returns.
pub record IsExact {D : Type 0} (tgt : TargetConn D) : Type 0 where
  pub upserts :
      (table : Text) (keys cols : List Text) → Counts {D = D} (tgt.upsert_rows table keys cols)
  pub inserts : (table : Text) (cols : List Text) → Counts {D = D} (tgt.insert_rows table cols)
  pub bulks :
      (load : Text → List Text → List Text → List Row → D → Result ℕ × D)
      → tgt.bulk_load ≡ some load
      → (table : Text) (keys cols : List Text) → Counts {D = D} (load table keys cols)

abbrev pub tally : RunResult → ℕ
tally res = res.ok_rows + res.fail_rows

-- The samples are those of the first failures.
abbrev pub Sampled : RunResult → Type 0
Sampled res = length res.samples ≡ min res.fail_rows max_samples

-- From `res` to `res'` exactly `n` rows were counted, the samples stay in step, and the error stays.
pub record Accounts (n : ℕ) (res res' : RunResult) : Type 0 where
  pub counted : tally res' ≡ tally res + n
  pub sampled : Sampled res → Sampled res'
  pub same_err : res'.err ≡ res.err

Accounts-refl : (res : RunResult) → Accounts 0 res res
Accounts-refl res = record { counted = omega arith; sampled = λ h. h; same_err = refl }

Accounts-trans :
    (m n k : ℕ) (a b c : RunResult) → m + n ≡ k → Accounts m a b → Accounts n b c → Accounts k a c
Accounts-trans m n k a b c e h i = record {
  counted = omega (arith, h.counted, i.counted);
  sampled = λ s. i.sampled (h.sampled s);
  same_err = i.same_err ∙ h.same_err;
}

Accounts-add_ok : (n : ℕ) (res : RunResult) → Accounts n res (add_ok n res)
Accounts-add_ok n res = record { counted = omega arith; sampled = λ h. h; same_err = refl }

Accounts-row_written : (n : Result ℕ) (res : RunResult) → Accounts 1 res (row_written n res)
unfolding row_written
Accounts-row_written (ok n) res = Accounts-add_ok 1 res
Accounts-row_written (err e) res = record {
  counted = omega arith;
  sampled = λ h. ground (arith, length-append res.samples (e ∷ []));
  same_err = ground arith;
}

module _ {D : Type 0} (tgt : TargetConn D) (t : Task) (cols : List Text) where
  Accounts-write_rows :
      (rows : List Row) (p : Progress D)
      → Accounts (length rows) p.res (write_rows tgt t cols rows p).res
  unfolding write_rows
  Accounts-write_rows [] p = Accounts-refl p.res
  Accounts-write_rows (r ∷ rows) p =
      let (n, d) = write_chunk tgt t cols (r ∷ []) p.target in
      let p' : Progress D = record { res = row_written n p.res; target = d } in
      Accounts-trans 1 (length rows) (suc (length rows)) p.res p'.res
        (write_rows tgt t cols rows p').res (omega arith) (Accounts-row_written n p.res)
        (Accounts-write_rows rows p')

  module _ (exact : IsExact tgt) where
    write_chunk-Counts : Counts {D = D} (write_chunk tgt t cols)
    unfolding write_chunk
    write_chunk-Counts rows d n h = elim (Bool-cases (text_eq t.target.mode (codes "insert"))) [
      | inl ins ↦ exact.inserts t.target.table cols rows d n (rw ins at h)
      | inr ups ↦ exact.upserts t.target.table t.target.keys cols rows d n (rw ups at h)
    ]

    Accounts-chunk_written :
        (chunk : List Row) (r : Result ℕ) (p : Progress D)
        → ((n : ℕ) → r ≡ ok n → n ≡ length chunk)
        → Accounts (length chunk) p.res (chunk_written tgt t cols chunk r p).res
    unfolding chunk_written
    Accounts-chunk_written chunk (ok n) p h =
        subst (λ k. Accounts k p.res (add_ok n p.res)) (h n refl) (Accounts-add_ok n p.res)
    Accounts-chunk_written chunk (err e) p h = Accounts-write_rows chunk p

    Accounts-write_or_degrade :
        (chunk : List Row) (p : Progress D)
        → Accounts (length chunk) p.res (write_or_degrade tgt t cols chunk p).res
    unfolding write_or_degrade
    Accounts-write_or_degrade chunk p =
        let (n, d) = write_chunk tgt t cols chunk p.target in
        Accounts-chunk_written chunk n (record p { target = d }) (write_chunk-Counts chunk p.target)

    Accounts-bulk_written :
        (chunk : List Row) (r : Result ℕ) (p : Progress D)
        → ((n : ℕ) → r ≡ ok n → n ≡ length chunk)
        → Accounts (length chunk) p.res (bulk_written tgt t cols chunk r p).res
    unfolding bulk_written
    Accounts-bulk_written chunk (ok n) p h =
        subst (λ k. Accounts k p.res (add_ok n p.res)) (h n refl) (Accounts-add_ok n p.res)
    Accounts-bulk_written chunk (err e) p h = Accounts-write_or_degrade chunk p

    Accounts-with_loader :
        (loader : Option (Text → List Text → List Text → List Row → D → Result ℕ × D))
        (chunk : List Row) (p : Progress D)
        → tgt.bulk_load ≡ loader
        → Accounts (length chunk) p.res (with_loader tgt t cols loader chunk p).res
    unfolding with_loader
    Accounts-with_loader none chunk p h = Accounts-write_or_degrade chunk p
    Accounts-with_loader (some load) chunk p h =
        let (n, d) = load t.target.table t.target.keys cols chunk p.target in
        Accounts-bulk_written chunk n (record p { target = d })
          (exact.bulks load h t.target.table t.target.keys cols chunk p.target)

    Accounts-put_chunk :
        (chunk : List Row) (p : Progress D)
        → Accounts (length chunk) p.res (put_chunk tgt t cols chunk p).res
    unfolding put_chunk
    Accounts-put_chunk chunk p = elim (Bool-cases t.target.bulk) [
      | inl on ↦ simp on (Accounts-with_loader tgt.bulk_load chunk p refl)
      | inr off ↦ simp off (Accounts-write_or_degrade chunk p)
    ]

    Accounts-put_chunks :
        (fuel batch : ℕ) (page : List Row) (p p' : Progress D)
        → put_chunks tgt t cols fuel batch page p ≡ some p'
        → Accounts (length page) p.res p'.res
    unfolding put_chunks
    Accounts-put_chunks fuel batch [] p p' h =
        let same : p ≡ p' = ground arith in
        subst (λ (q : Progress D). Accounts 0 p.res q.res) same (Accounts-refl p.res)
    Accounts-put_chunks zero batch (r ∷ rest) p p' h = absurd (ground arith)
    Accounts-put_chunks (suc fuel) batch (r ∷ rest) p p' h =
        let page : List Row = r ∷ rest in
        let q : Progress D = put_chunk tgt t cols (take batch page) p in
        Accounts-trans (length (take batch page)) (length (drop batch page)) (length page) p.res
          q.res p'.res
          (sym (length-append (take batch page) (drop batch page))
            ∙ ap length (take-append-drop batch page))
          (Accounts-put_chunk (take batch page) p)
          (Accounts-put_chunks fuel batch (drop batch page) q p' h)

    -- Whatever mixture of bulk loads, batches and single rows a page is written by, each of its rows is
    -- counted once, as written or as failed; and the samples, if they were the first failures before
    -- the page, still are, up to 20.
    pub put_page-Accounts :
        (page : List Row) (p p' : Progress D)
        → put_page tgt t cols page p ≡ some p'
        → Accounts (length page) p.res p'.res
    unfolding put_page
    put_page-Accounts page p p' h = Accounts-put_chunks (length page) _ page p p' h
