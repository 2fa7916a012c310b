-- ===== src/Kohonen/HexaUMat/Smooth.antt =====
-- `averageUMatrix` and `medianUMatrix` of src/kohonen/umat/HexaUMat.h: both visit the same cells in
-- the same order, and differ in what they make of the values there. `uxdim` and `uydim` are odd, so
-- `uxdim - 1` does not wrap; `uxdim - 2` in the corners may, and there `size_sub` is written.
pub mod Cells
pub mod Paint
pub mod CornerCells
pub mod Smoothed
pub mod Hexagons
use premir_cpp.Common.{ℕ, suc, ◌+◌, ◌-◌, ◌%◌, Bool, List, [], ◌∷◌, ◌==◌, if◌then◌else◌, length}
use premir_cpp.Common.Run.{Run, ok, undefined, ◌>>=◌, for}
use premir_cpp.Utils.RMatrix.{RMatrix, cell, put, new}
use premir_cpp.Utils.RMatrix.Grid.{for_each_cell}
use premir_cpp.Kohonen.RectUMat.Smooth.{mean}
use premir_cpp.Kohonen.UMat.{
  Arithmetic, UMat, size_sub, median3, median4, median5, median6, median7,
}

-- The cells that are read for one within the borders.
pub inner_cells : ℕ → ℕ → List (ℕ × ℕ)
inner_cells i j =
    if j % 4 == 1
    then (i, j - 1)
      ∷ (i + 1, j - 1)
      ∷ (i - 1, j)
      ∷ (i, j)
      ∷ (i + 1, j)
      ∷ (i - 1, j + 1)
      ∷ (i, j + 1)
      ∷ []
    else if j % 4 == 2
    then (i, j - 1)
      ∷ (i + 1, j - 1)
      ∷ (i - 1, j)
      ∷ (i, j)
      ∷ (i + 1, j)
      ∷ (i, j + 1)
      ∷ (i + 1, j + 1)
      ∷ []
    else if j % 4 == 3
    then (i - 1, j - 1)
      ∷ (i, j - 1)
      ∷ (i - 1, j)
      ∷ (i, j)
      ∷ (i + 1, j)
      ∷ (i, j + 1)
      ∷ (i + 1, j + 1)
      ∷ []
    else (i - 1, j - 1)
      ∷ (i, j - 1)
      ∷ (i - 1, j)
      ∷ (i, j)
      ∷ (i + 1, j)
      ∷ (i - 1, j + 1)
      ∷ (i, j + 1)
      ∷ []

pub north_cells : ℕ → ℕ → List (ℕ × ℕ)
north_cells i j = (i - 1, j) ∷ (i, j) ∷ (i + 1, j) ∷ (i - 1, j + 1) ∷ (i, j + 1) ∷ []

pub south_cells : ℕ → ℕ → List (ℕ × ℕ)
south_cells i j =
    if j % 4 == 1
    then (i, j - 1) ∷ (i + 1, j - 1) ∷ (i - 1, j) ∷ (i, j) ∷ (i + 1, j) ∷ []
    else if j % 4 == 2
    then (i, j - 1) ∷ (i + 1, j - 1) ∷ (i - 1, j) ∷ (i, j) ∷ (i + 1, j) ∷ []
    else if j % 4 == 3
    then (i - 1, j - 1) ∷ (i, j - 1) ∷ (i - 1, j) ∷ (i, j) ∷ (i + 1, j) ∷ []
    else (i - 1, j - 1) ∷ (i, j - 1) ∷ (i - 1, j) ∷ (i, j) ∷ (i + 1, j) ∷ []

pub east_cells : ℕ → ℕ → List (ℕ × ℕ)
east_cells i j =
    if j % 4 == 1
    then (i, j - 1) ∷ (i - 1, j) ∷ (i, j) ∷ (i - 1, j + 1) ∷ (i, j + 1) ∷ []
    else if j % 4 == 2
    then (i, j - 1) ∷ (i - 1, j) ∷ (i, j) ∷ (i, j + 1) ∷ []
    else if j % 4 == 3
    then (i - 1, j - 1) ∷ (i, j - 1) ∷ (i - 1, j) ∷ (i, j) ∷ (i, j + 1) ∷ []
    else (i - 1, j - 1) ∷ (i, j - 1) ∷ (i - 1, j) ∷ (i, j) ∷ (i - 1, j + 1) ∷ (i, j + 1) ∷ []

pub west_cells : ℕ → ℕ → List (ℕ × ℕ)
west_cells i j =
    if j % 4 == 1
    then (i, j - 1) ∷ (i + 1, j - 1) ∷ (i, j) ∷ (i + 1, j) ∷ (i, j + 1) ∷ []
    else if j % 4 == 2
    then (i, j - 1) ∷ (i + 1, j - 1) ∷ (i, j) ∷ (i + 1, j) ∷ (i, j + 1) ∷ (i + 1, j + 1) ∷ []
    else if j % 4 == 3
    then (i, j - 1) ∷ (i, j) ∷ (i + 1, j) ∷ (i, j + 1) ∷ (i + 1, j + 1) ∷ []
    else (i, j - 1) ∷ (i, j) ∷ (i + 1, j) ∷ (i, j + 1) ∷ []

module _ {Info D : Type 0} (combine : List (ℕ × ℕ) → Run D) where
  -- `umat2[i][j] = ...`, of the values at `cells`.
  pub write : ℕ → ℕ → List (ℕ × ℕ) → RMatrix Info D → Run (RMatrix Info D)
  write i j cells umat2 = combine cells >>= put umat2 i j

  pub write_inner : (uxdim uydim : ℕ) → RMatrix Info D → Run (RMatrix Info D)
  write_inner uxdim uydim umat2 =
      for (uydim - 1 - 1) 1
        (λ j row. for (uxdim - 1 - 1) 1 (λ i now. write i j (inner_cells i j) now) row) umat2

  pub write_north : (uxdim uydim : ℕ) → RMatrix Info D → Run (RMatrix Info D)
  write_north uxdim uydim umat2 =
      for (uxdim - 1 - 1) 1 (λ i now. write i 0 (north_cells i 0) now) umat2

  pub write_south : (uxdim uydim : ℕ) → RMatrix Info D → Run (RMatrix Info D)
  write_south uxdim uydim umat2 =
      let j = uydim - 1 in for (uxdim - 1 - 1) 1 (λ i now. write i j (south_cells i j) now) umat2

  pub write_east : (uxdim uydim : ℕ) → RMatrix Info D → Run (RMatrix Info D)
  write_east uxdim uydim umat2 =
      let i = uxdim - 1 in for (uydim - 1 - 1) 1 (λ j now. write i j (east_cells i j) now) umat2

  pub write_west : (uxdim uydim : ℕ) → RMatrix Info D → Run (RMatrix Info D)
  write_west uxdim uydim umat2 =
      for (uydim - 1 - 1) 1 (λ j now. write 0 j (west_cells 0 j) now) umat2

  pub write_corners : (uxdim uydim : ℕ) → RMatrix Info D → Run (RMatrix Info D)
  write_corners uxdim uydim umat2 = do
    let last_i = uxdim - 1
    let last_j = uydim - 1
    let i2 = size_sub uxdim 2
    let j2 = size_sub uydim 2
    a ← write 0 0 ((1, 0) ∷ (0, 0) ∷ (0, 1) ∷ []) umat2
    b ← write last_i 0 ((last_i, 0) ∷ (last_i, 1) ∷ (i2, 0) ∷ (i2, 1) ∷ []) a
    c ← write last_i last_j ((last_i, last_j) ∷ (last_i, j2) ∷ (i2, last_j) ∷ []) b
    write 0 last_j ((0, last_j) ∷ (1, last_j) ∷ (0, j2) ∷ []) c

  -- `for (...) for (...) uvalue[i][j] = umat2[i][j];`
  pub copy_cell : RMatrix Info D → ℕ → ℕ → RMatrix Info D → Run (RMatrix Info D)
  copy_cell umat2 i j u = do value ← cell umat2 i j; put u i j value

  -- The whole of both methods, given `sizeof` of a point and of a row for the matrix `umat2`.
  pub smooth : (ℕ → Bool) → (t u_row : ℕ) → UMat Info D → Run (UMat Info D)
  unfolding write inner_cells north_cells south_cells east_cells west_cells write_inner write_north
      write_south write_east write_west write_corners copy_cell
  smooth grants t u_row m = do
    umat2 ← new grants t u_row m.uxdim m.uydim
    inner ← write_inner m.uxdim m.uydim umat2
    north ← write_north m.uxdim m.uydim inner
    south ← write_south m.uxdim m.uydim north
    east ← write_east m.uxdim m.uydim south
    west ← write_west m.uxdim m.uydim east
    whole ← write_corners m.uxdim m.uydim west
    copied ← for_each_cell m.uxdim m.uydim (copy_cell whole) m.u_matrix
    ok (record m { u_matrix = copied })

module _ {Info D : Type 0} (real : Arithmetic D) where
  -- The mean of cells; the literal that the source divides by is their number.
  pub mean_of_cells : RMatrix Info D → List (ℕ × ℕ) → Run D
  mean_of_cells u [] = undefined
  mean_of_cells u (first ∷ cells) = mean real u first cells (suc (length cells))

  unfoldable pub average_u_matrix : (ℕ → Bool) → (t u_row : ℕ) → UMat Info D → Run (UMat Info D)
  unfolding smooth mean_of_cells
  average_u_matrix grants t u_row m = smooth (mean_of_cells m.u_matrix) grants t u_row m

module _ {Info D : Type 0} where
  -- The values of cells, and the median for so many.
  unfoldable pub read_cells : RMatrix Info D → List (ℕ × ℕ) → Run (List D)
  read_cells u [] = ok []
  read_cells u ((i, j) ∷ cells) = do
    value ← cell u i j
    values ← read_cells u cells
    ok (value ∷ values)

module _ {D : Type 0} (real : Arithmetic D) where
  pub median_of : List D → Run D
  median_of (a ∷ b ∷ c ∷ []) = median3 real a b c
  median_of (a ∷ b ∷ c ∷ d ∷ []) = median4 real a b c d
  median_of (a ∷ b ∷ c ∷ d ∷ e ∷ []) = median5 real a b c d e
  median_of (a ∷ b ∷ c ∷ d ∷ e ∷ f ∷ []) = median6 real a b c d e f
  median_of (a ∷ b ∷ c ∷ d ∷ e ∷ f ∷ g ∷ []) = median7 real a b c d e f g
  median_of values = undefined

module _ {Info D : Type 0} (real : Arithmetic D) where
  pub median : RMatrix Info D → List (ℕ × ℕ) → Run D
  unfolding read_cells median_of
  median u cells = do values ← read_cells u cells; median_of real values

  unfoldable pub median_u_matrix : (ℕ → Bool) → (t u_row : ℕ) → UMat Info D → Run (UMat Info D)
  unfolding smooth median
  median_u_matrix grants t u_row m = smooth (median m.u_matrix) grants t u_row m
