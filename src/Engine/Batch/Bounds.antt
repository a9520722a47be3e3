-- ===== src/Engine/Batch/Bounds.antt =====
-- The size of a batch, and that its loop ends.
use replicron.Base.{
  ℕ, zero, suc, ◌*◌, ◌/◌, ◌≤◌, ◌<◌, ◌≡◌, refl, List, [], ◌∷◌, length, drop, take, Text, some, true,
  arith, length-drop,
}
use Prim.Native.Nat.{max}
use replicron.Base.Ints.{ℤ, pos, negsuc, ltb_ℤ, pos_part}
use replicron.Model.{Row}
use replicron.Config.{Task}
use replicron.Engine.Batch.{
  param_limit, clamp_batch, TargetConn, Progress, put_chunk, put_chunks, put_page,
}

-- How many rows fit under the limit.
abbrev room : ℕ → ℕ
room c = param_limit / suc c

room-mul : (c : ℕ) → room c * suc c ≤ param_limit
room-mul c = grind arith

room-pos : (c : ℕ) → suc c ≤ param_limit → 0 < room c
room-pos c h = grind arith

mul_mono : (a b c : ℕ) → a ≤ b → a * c ≤ b * c
mul_mono a b c h = grind arith

-- The clamped size of a positive configured one is positive, is not larger, and a batch of it binds at
-- most 2000 parameters, or as many as one row has where that is more.
pub clamp_batch_bounds :
    (batch cols : ℕ)
    → 0 < batch
    → let n = pos_part (clamp_batch (pos batch) cols) in
      (0 < n) × (n ≤ batch) × (n * cols ≤ max param_limit cols)
unfolding clamp_batch
clamp_batch_bounds batch zero h = ground arith
clamp_batch_bounds batch (suc c) h =
    ground (arith, room-mul c, room-pos c, mul_mono batch (room c) (suc c))

-- A page is written to its end: with a positive batch size the loop over its batches ends within as
-- many rounds as the page has rows.
pub put_chunks-total :
    {D : Type 0} (tgt : TargetConn D) (t : Task) (cols : List Text) (fuel batch : ℕ)
    (page : List Row) (p : Progress D)
    → 0 < batch
    → length page ≤ fuel
    → (p' : Progress D) × (put_chunks tgt t cols fuel batch page p ≡ some p')
unfolding put_chunks
put_chunks-total tgt t cols fuel batch [] p h k = (p, refl)
put_chunks-total tgt t cols zero batch (r ∷ rest) p h k = absurd (omega arith)
put_chunks-total tgt t cols (suc fuel) batch (r ∷ rest) p h k =
    put_chunks-total tgt t cols fuel batch (drop batch (r ∷ rest))
      (put_chunk tgt t cols (take batch (r ∷ rest)) p) h
      (omega (arith, length-drop batch (r ∷ rest)))

clamp_batch-pos :
    (batch : ℤ) (cols : ℕ) → ltb_ℤ (pos 0) batch ≡ true → 0 < pos_part (clamp_batch batch cols)
clamp_batch-pos (pos n) cols h = (clamp_batch_bounds n cols (ground arith)).0
clamp_batch-pos (negsuc n) cols h = absurd (ground arith)

-- With a positive batch size the batches of a page are all written: the loop does not run out of fuel.
pub put_page-total :
    {D : Type 0} (tgt : TargetConn D) (t : Task) (cols : List Text) (page : List Row)
    (p : Progress D)
    → ltb_ℤ (pos 0) t.target.batch_size ≡ true
    → (p' : Progress D) × (put_page tgt t cols page p ≡ some p')
unfolding put_page
put_page-total tgt t cols page p h =
    put_chunks-total tgt t cols (length page)
      (pos_part (clamp_batch t.target.batch_size (length cols))) page p
      (clamp_batch-pos t.target.batch_size (length cols) h) (omega arith)
