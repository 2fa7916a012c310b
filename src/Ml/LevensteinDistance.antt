-- ===== src/Ml/LevensteinDistance.antt =====
-- src/ml/LevensteinDistance.h, class `LevensteinDistance<T>`, at a `T` that holds the naturals up
-- to the sum of the two lengths. A string of `wchar_t` is the list of its codes, and its length is
-- passed beside it.
pub mod Script
pub mod Wld
pub mod Optimazed
mod Tests
use premir_cpp.Common.{
  ℕ, zero, suc, ◌+◌, ◌-◌, Bool, List, Option, none, some, ltb, ◌==◌, if◌then◌else◌, length,
  get_elem?, set, replicate,
}
use premir_cpp.Common.Run.{Run, ok, undefined, ◌>>=◌, defined, for}
use premir_cpp.Utils.Memory.{Block}
use premir_cpp.Utils.SMatrix
use premir_cpp.Utils.SMatrix.{SMatrix}

unfoldable pub min3 : ℕ → ℕ → ℕ → ℕ
min3 a b c = if ltb a b then (if ltb a c then a else c) else if ltb b c then b else c

-- `s[i]`.
unfoldable pub char_at : List ℕ → ℕ → Run ℕ
char_at s i = defined (get_elem? s i)

-- `matrix(i, 0) = matrix(i - 1, 0) + 1` and `matrix(0, j) = matrix(0, j - 1) + 1`.
fill_left : ℕ → SMatrix ℕ → Run (SMatrix ℕ)
fill_left i matrix = do x ← SMatrix.cell matrix (i - 1) 0; SMatrix.put matrix i 0 (x + 1)

fill_top : ℕ → SMatrix ℕ → Run (SMatrix ℕ)
fill_top j matrix = do x ← SMatrix.cell matrix 0 (j - 1); SMatrix.put matrix 0 j (x + 1)

module _ (s1 s2 : List ℕ) where
  -- The body of the inner loop of `wld`; both loops start at 1.
  fill_cell : ℕ → ℕ → SMatrix ℕ → Run (SMatrix ℕ)
  fill_cell i j matrix = do
    x ← char_at s1 (i - 1)
    y ← char_at s2 (j - 1)
    let ps1s2 : ℕ = if x == y then 0 else 1
    diagonal ← SMatrix.cell matrix (i - 1) (j - 1)
    left ← SMatrix.cell matrix i (j - 1)
    above ← SMatrix.cell matrix (i - 1) j
    SMatrix.put matrix i j (min3 (diagonal + ps1s2) (left + 1) (above + 1))

  -- The allocator, `sizeof(T)` and `sizeof(T*)` are given.
  unfoldable pub wld : (ℕ → Bool) → (t p : ℕ) → (s1len s2len : ℕ) → Run ℕ
  unfolding fill_cell fill_left fill_top char_at min3 SMatrix.new SMatrix.cell SMatrix.put for
  wld grants t p s1len s2len = do
    empty ← SMatrix.new grants t p (s1len + 1) (s2len + 1)
    corner ← SMatrix.put empty 0 0 0
    left ← for s1len 1 fill_left corner
    top ← for s2len 1 fill_top left
    matrix ← for s1len 1 (λ i. for s2len 1 (fill_cell i)) top
    SMatrix.cell matrix s1len s2len

  -- `column[i]`, read and written.
  column_at : Block ℕ → ℕ → Run ℕ
  column_at column i = do content ← defined (get_elem? column i); defined content

  column_put : Block ℕ → ℕ → ℕ → Run (Block ℕ)
  column_put column i v = if ltb i (length column) then ok (set column i (some v)) else undefined

  -- The body of the inner loop of `wldOptimazed`, over the column and `lastDist`.
  fill_column : ℕ → ℕ → Block ℕ × ℕ → Run (Block ℕ × ℕ)
  fill_column j i (column, last_dist) = do
    old_dist ← column_at column i
    previous ← column_at column (i - 1)
    x ← char_at s1 (i - 1)
    y ← char_at s2 (j - 1)
    let m3 = last_dist + (if x == y then 0 else 1)
    filled ← column_put column i (min3 (old_dist + 1) (previous + 1) m3)
    ok (filled, old_dist)

  -- One round of the outer loop.
  next_column : ℕ → ℕ → Block ℕ → Run (Block ℕ)
  next_column s1len j column = do
    started ← column_put column 0 j
    (filled, _) ← for s1len 1 (fill_column j) (started, j - 1)
    ok filled

  unfoldable pub wld_optimazed : (s1len s2len : ℕ) → Run ℕ
  unfolding column_at column_put fill_column next_column char_at min3 for
  wld_optimazed s1len s2len = do
    column ← for s1len 1 (λ i column. column_put column i i) (replicate (s1len + 1) none)
    last ← for s2len 1 (next_column s1len) column
    column_at last s1len
