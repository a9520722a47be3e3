-- ===== src/Engine/Batch.antt =====
-- internal/engine/engine.go: the batches of a page, and what becomes of a batch that fails.
pub mod Bounds
pub mod Accounting
pub mod Written
pub mod Faithful
use replicron.Base.{
  ℕ, zero, suc, ◌+◌, ◌/◌, ◌≤◌, Text, codes, List, [], ◌∷◌, ◌++◌, length, take, drop, Option, none,
  some, Bool, true, false, text_eq, ltb, if◌then◌else◌,
}
use replicron.Base.Ints.{ℤ, pos, negsuc, ltb_ℤ, pos_part}
use replicron.Model.{Row, RunResult, Error, Result, ok, err}
use replicron.Config.{Task}

abbrev pub max_samples : ℕ
max_samples = 20

abbrev pub param_limit : ℕ
param_limit = 2000

-- `clampBatch`; the number of columns is a length.
unfoldable pub clamp_batch : ℤ → ℕ → ℤ
clamp_batch batch zero = pos 1
clamp_batch batch (suc c) =
    let m = param_limit / suc c in
    if ltb_ℤ (pos m) batch then pos (if ltb m 1 then 1 else m) else batch

-- The write side of a connection over the state `D` of the database. `bulk_load` is there where the
-- connection implements `BulkLoader`.
pub record TargetConn (D : Type 0) : Type 0 where
  pub upsert_rows : Text → List Text → List Text → List Row → D → Result ℕ × D
  pub insert_rows : Text → List Text → List Row → D → Result ℕ × D
  pub bulk_load : Option (Text → List Text → List Text → List Row → D → Result ℕ × D)

-- What the callback changes in `res`, and the target.
pub record Progress (D : Type 0) : Type 0 where
  pub res : RunResult
  pub target : D

-- Rows that were written.
abbrev pub add_ok : ℕ → RunResult → RunResult
add_ok n res = record res { ok_rows = res.ok_rows + n }

-- A failed row: counted, and kept as a sample while there is room.
unfoldable pub add_failure : Error → RunResult → RunResult
add_failure e res = record res {
  fail_rows = res.fail_rows + 1;
  samples = if ltb (length res.samples) max_samples then res.samples ++ e ∷ [] else res.samples;
}

-- A row of a batch that failed: it counts as one, whatever the count that the write returned.
unfoldable pub row_written : Result ℕ → RunResult → RunResult
unfolding add_failure
row_written (ok n) res = add_ok 1 res
row_written (err e) res = add_failure e res

module _ {D : Type 0} (tgt : TargetConn D) (t : Task) (cols : List Text) where
  -- `writeChunk`
  unfoldable pub write_chunk : List Row → D → Result ℕ × D
  write_chunk chunk d =
      if text_eq t.target.mode (codes "insert")
      then tgt.insert_rows t.target.table cols chunk d
      else tgt.upsert_rows t.target.table t.target.keys cols chunk d

  -- The loop over the rows of a batch that failed.
  unfoldable pub write_rows : List Row → Progress D → Progress D
  write_rows [] p = p
  write_rows (r ∷ rows) p =
      let (n, d) = write_chunk (r ∷ []) p.target in
      write_rows rows (record { res = row_written n p.res; target = d })

  chunk_written : List Row → Result ℕ → Progress D → Progress D
  chunk_written chunk (ok n) p = record p { res = add_ok n p.res }
  chunk_written chunk (err e) p = write_rows chunk p

  -- The batch as a statement, else row by row.
  unfoldable pub write_or_degrade : List Row → Progress D → Progress D
  unfolding chunk_written
  write_or_degrade chunk p =
      let (n, d) = write_chunk chunk p.target in chunk_written chunk n (record p { target = d })

  bulk_written : List Row → Result ℕ → Progress D → Progress D
  bulk_written chunk (ok n) p = record p { res = add_ok n p.res }
  bulk_written chunk (err e) p = write_or_degrade chunk p

  with_loader :
      Option (Text → List Text → List Text → List Row → D → Result ℕ × D)
      → List Row
      → Progress D
      → Progress D
  unfolding bulk_written
  with_loader none chunk p = write_or_degrade chunk p
  with_loader (some load) chunk p =
      let (n, d) = load t.target.table t.target.keys cols chunk p.target in
      bulk_written chunk n (record p { target = d })

  -- One round of the loop over the batches.
  unfoldable pub put_chunk : List Row → Progress D → Progress D
  unfolding with_loader
  put_chunk chunk p =
      if t.target.bulk then with_loader tgt.bulk_load chunk p else write_or_degrade chunk p

  -- `for off := 0; off < len(page)`, on the rows from `off` on. `none`: the fuel ran out.
  unfoldable pub put_chunks : ℕ → ℕ → List Row → Progress D → Option (Progress D)
  put_chunks fuel batch [] p = some p
  put_chunks zero batch (r ∷ rest) p = none
  put_chunks (suc fuel) batch (r ∷ rest) p =
      put_chunks fuel batch (drop batch (r ∷ rest)) (put_chunk (take batch (r ∷ rest)) p)

  -- The batches of a page. With a batch size that is not positive the source's loop does not advance
  -- (or panics, below 0); here the fuel runs out.
  unfoldable pub put_page : List Row → Progress D → Option (Progress D)
  put_page page p =
      put_chunks (length page) (pos_part (clamp_batch t.target.batch_size (length cols))) page p
