-- ===== src/Kohonen/RectUMat/Smooth.antt =====
-- `averageUMatrix` and `medianUMatrix` of src/kohonen/umat/RectUMat.h. `uxdim` and `uydim` are odd,
-- so `uxdim - 1` does not wrap; `uxdim - 2` in the corners may, and there `size_sub` is written.
pub mod Average
pub mod Corners
pub mod Lost
use premir_cpp.Common.{
  ℕ, suc, length, ◌+◌, ◌-◌, Bool, ◌&&◌, List, [], ◌∷◌, Option, none, some, ltb, ◌==◌, if◌then◌else◌,
}
use premir_cpp.Common.Run.{Run, ok, ◌>>=◌, for}
use premir_cpp.Utils.RMatrix.{RMatrix, cell, put, new}
use premir_cpp.Utils.RMatrix.Grid.{for_each_cell}
use premir_cpp.Kohonen.UMat.{Arithmetic, UMat, size_sub, median3, median4, median5}

-- The cells that `averageUMatrix` adds up at `i` and `j`, in the order of the sum, by the branches of
-- the loop; `none` in the corners, which the loop leaves out.
unfoldable pub average_cells : (uxdim uydim i j : ℕ) → Option (List (ℕ × ℕ))
average_cells uxdim uydim i j =
    let last_i = uxdim - 1 in
    let last_j = uydim - 1 in
    if ltb 0 i && ltb 0 j && ltb j last_j && ltb i last_i
    then some ((i, j - 1) ∷ (i - 1, j) ∷ (i, j) ∷ (i + 1, j) ∷ (i, j + 1) ∷ [])
    else if ltb 0 i && ltb i last_i && (j == 0)
    then some ((i - 1, j) ∷ (i, j) ∷ (i + 1, j) ∷ (i, j + 1) ∷ [])
    else if (i == 0) && ltb 0 j && ltb j last_j
    then some ((i, j - 1) ∷ (i, j) ∷ (i + 1, j) ∷ (i, j + 1) ∷ [])
    else if ltb 0 i && ltb i last_i && (j == last_j)
    then some ((i, j - 1) ∷ (i - 1, j) ∷ (i, j) ∷ (i + 1, j) ∷ [])
    else if ltb 0 j && ltb j last_j && (i == last_i)
    then some ((i, j - 1) ∷ (i - 1, j) ∷ (i, j) ∷ (i, j + 1) ∷ [])
    else none

module _ {Info D : Type 0} (real : Arithmetic D) where
  -- A sum of cells, from the left.
  add_cells : RMatrix Info D → D → List (ℕ × ℕ) → Run D
  add_cells u sum [] = ok sum
  add_cells u sum ((i, j) ∷ cells) = do value ← cell u i j; add_cells u (real.add sum value) cells

  -- The mean of a cell and others; the literal that the source divides by is their number.
  pub mean : RMatrix Info D → ℕ × ℕ → List (ℕ × ℕ) → ℕ → Run D
  unfolding add_cells
  mean u (i, j) cells count = do
    first ← cell u i j
    sum ← add_cells u first cells
    ok (real.div sum (real.number count))

  pub average_cell :
      (uxdim uydim : ℕ) → RMatrix Info D → ℕ → ℕ → RMatrix Info D → Run (RMatrix Info D)
  unfolding average_cells mean
  average_cell uxdim uydim u i j umat2 = elim (average_cells uxdim uydim i j) [
    | none ↦ ok umat2
    | some [] ↦ ok umat2
    | some (◌∷◌ first cells) ↦ mean u first cells (suc (length cells)) >>= put umat2 i j
  ]

  -- `for (...) for (...) uvalue[i][j] = umat2[i][j];`
  pub copy_cell : RMatrix Info D → ℕ → ℕ → RMatrix Info D → Run (RMatrix Info D)
  copy_cell umat2 i j u = do value ← cell umat2 i j; put u i j value

  pub average_corners : (uxdim uydim : ℕ) → RMatrix Info D → RMatrix Info D → Run (RMatrix Info D)
  unfolding mean
  average_corners uxdim uydim u umat2 = do
    let last_i = uxdim - 1
    let last_j = uydim - 1
    let i2 = size_sub uxdim 2
    let j2 = size_sub uydim 2
    south_west ← mean u (1, last_j) ((0, last_j) ∷ (0, j2) ∷ []) 3
    a ← put umat2 0 last_j south_west
    south_east ← mean u (i2, last_j) ((last_i, last_j) ∷ (last_i, j2) ∷ []) 3
    b ← put a last_i last_j south_east
    north_east ← mean u (i2, 0) ((last_i, 0) ∷ (last_i, 1) ∷ []) 3
    c ← put b last_i 0 north_east
    north_west ← mean u (1, 0) ((0, 1) ∷ (0, 0) ∷ []) 3
    put c 0 0 north_west

  -- `averageUMatrix`, given `sizeof` of a point and of a row for its matrix `umat2`.
  unfoldable pub average_u_matrix : (ℕ → Bool) → (t u_row : ℕ) → UMat Info D → Run (UMat Info D)
  unfolding average_cell average_corners copy_cell cell put
  average_u_matrix grants t u_row m = do
    umat2 ← new grants t u_row m.uxdim m.uydim
    inner ← for_each_cell m.uxdim m.uydim (average_cell m.uxdim m.uydim m.u_matrix) umat2
    whole ← average_corners m.uxdim m.uydim m.u_matrix inner
    copied ← for_each_cell m.uxdim m.uydim (copy_cell whole) m.u_matrix
    ok (record m { u_matrix = copied })

  -- The medians of four and of five cells.
  median_of_four : RMatrix Info D → (a b c d : ℕ × ℕ) → Run D
  median_of_four u a b c d = do
    w ← cell u a.0 a.1
    x ← cell u b.0 b.1
    y ← cell u c.0 c.1
    z ← cell u d.0 d.1
    median4 real w x y z

  median_of_five : RMatrix Info D → (a b c d e : ℕ × ℕ) → Run D
  median_of_five u a b c d e = do
    v ← cell u a.0 a.1
    w ← cell u b.0 b.1
    x ← cell u c.0 c.1
    y ← cell u d.0 d.1
    z ← cell u e.0 e.1
    median5 real v w x y z

  median_of_three : RMatrix Info D → (a b c : ℕ × ℕ) → Run D
  median_of_three u a b c = do
    x ← cell u a.0 a.1
    y ← cell u b.0 b.1
    z ← cell u c.0 c.1
    median3 real x y z

  -- The loop of `medianUMatrix` writes to the U-matrix itself. In the east it takes one cell twice.
  median_cell : (uxdim uydim : ℕ) → ℕ → ℕ → RMatrix Info D → Run (RMatrix Info D)
  unfolding median_of_four median_of_five
  median_cell uxdim uydim i j u =
      let last_i = uxdim - 1 in
      let last_j = uydim - 1 in
      if ltb 0 i && ltb 0 j && ltb j last_j && ltb i last_i
      then median_of_five u (i, j - 1) (i - 1, j) (i, j) (i + 1, j) (i, j + 1) >>= put u i j
      else if ltb 0 i && ltb i last_i && (j == 0)
      then median_of_four u (i - 1, j) (i, j) (i + 1, j) (i, j + 1) >>= put u i j
      else if (i == 0) && ltb 0 j && ltb j last_j
      then median_of_four u (i, j - 1) (i, j) (i + 1, j) (i, j + 1) >>= put u i j
      else if ltb 0 i && ltb i last_i && (j == last_j)
      then median_of_four u (i, j - 1) (i - 1, j) (i, j) (i + 1, j) >>= put u i j
      else if ltb 0 j && ltb j last_j && (i == last_i)
      then median_of_five u (i, j - 1) (i - 1, j) (i - 1, j) (i, j) (i, j + 1) >>= put u i j
      else ok u

  median_corners : (uxdim uydim : ℕ) → RMatrix Info D → Run (RMatrix Info D)
  unfolding median_of_three
  median_corners uxdim uydim u = do
    let last_i = uxdim - 1
    let last_j = uydim - 1
    let i2 = size_sub uxdim 2
    let j2 = size_sub uydim 2
    south_west ← median_of_three u (1, last_j) (0, last_j) (0, j2)
    a ← put u 0 last_j south_west
    south_east ← median_of_three a (i2, last_j) (last_i, last_j) (last_i, j2)
    b ← put a last_i last_j south_east
    north_east ← median_of_three b (i2, 0) (last_i, 0) (last_i, 1)
    c ← put b last_i 0 north_east
    north_west ← median_of_three c (1, 0) (0, 1) (0, 0)
    put c 0 0 north_west

  -- `medianUMatrix`: the last loop copies `umat2`, which nothing has written.
  unfoldable pub median_u_matrix : (ℕ → Bool) → (t u_row : ℕ) → UMat Info D → Run (UMat Info D)
  unfolding median_cell median_corners copy_cell cell put
  median_u_matrix grants t u_row m = do
    umat2 ← new grants t u_row m.uxdim m.uydim
    inner ← for_each_cell m.uxdim m.uydim (median_cell m.uxdim m.uydim) m.u_matrix
    whole ← median_corners m.uxdim m.uydim inner
    copied ← for_each_cell m.uxdim m.uydim (copy_cell umat2) whole
    ok (record m { u_matrix = copied })
