-- ===== src/Utils/R3dMatrix.antt =====
-- src/utils/R3DMatrix.h, class `R3DMatrix<R, C, T>`: rows of cells of points, each block as long as
-- its count says. A null pointer is the block of nothing. What was never written is `none`.
pub mod Cells
pub mod WriteCell
pub mod WritePoints
pub mod Remove
pub mod RemoveAll
mod Tests
use premir_cpp.Common.{
  ℕ, zero, suc, ◌+◌, ◌-◌, ◌*◌, Bool, true, false, ◌||◌, not, List, [], ◌∷◌, ◌++◌, map, Option, none,
  some, ltb, ◌==◌, if◌then◌else◌, get_elem?, set, replicate, take,
}
use premir_cpp.Common.Run.{Run, ok, throws, out_of_memory, undefined, ◌>>=◌, defined, for}
use premir_cpp.Utils.Memory.{Block, memcpy}
use premir_cpp.Utils.RdMatrix.{reallocate}

module _ (R C T : Type 0) where
  pub record Cell : Type 0 where
    pub point_size : ℕ
    pub content : Option C
    pub points : Block T

  pub record Row : Type 0 where
    pub cell_size : ℕ
    pub content : Option R
    pub cells : List Cell

  pub record R3dMatrix : Type 0 where
    pub matrix : List Row
    pub row_size : ℕ
    pub t_type_sizeof : ℕ
    pub row_type_sizeof : ℕ
    pub cell_type_sizeof : ℕ

module _ {R C T : Type 0} where
  -- What the loops of `initializeRowMemory` and `initializeCellsMemory` make of a new row or cell.
  abbrev pub clean_cell : Cell R C T
  clean_cell = record { point_size = 0; content = none; points = [] }

  abbrev pub clean_row : Row R C T
  clean_row = record { cell_size = 0; content = none; cells = [] }

  -- The default constructor, given `sizeof(T)`, `sizeof(Row)` and `sizeof(Cell)`.
  unfoldable pub new : ℕ → ℕ → ℕ → R3dMatrix R C T
  new t row cell = record {
    matrix = [];
    row_size = 0;
    t_type_sizeof = t;
    row_type_sizeof = row;
    cell_type_sizeof = cell;
  }

  -- `matrix[r]` and `matrix[r].cells[c]`, to read and to assign.
  unfoldable pub get_row : R3dMatrix R C T → ℕ → Run (Row R C T)
  get_row m r = defined (get_elem? m.matrix r)

  unfoldable pub put_row : R3dMatrix R C T → ℕ → Row R C T → R3dMatrix R C T
  put_row m r row = record m { matrix = set m.matrix r row }

  unfoldable pub get_cell : Row R C T → ℕ → Run (Cell R C T)
  get_cell row c = defined (get_elem? row.cells c)

  unfoldable pub put_cell : Row R C T → ℕ → Cell R C T → Row R C T
  put_cell row c cell = record row { cells = set row.cells c cell }

  -- `matrix[r].cells[c].points[p]`.
  unfoldable pub at : R3dMatrix R C T → ℕ → ℕ → ℕ → Run T
  unfolding get_row get_cell
  at m r c p = do
    row ← get_row m r
    cell ← get_cell row c
    content ← defined (get_elem? cell.points p)
    defined content

  -- `removeRowPoints` on the row itself: a cell whose `points` is null stays as it is.
  unfoldable pub remove_points : Cell R C T → Cell R C T
  remove_points cell = elim cell.points [
    | [] ↦ cell
    | ◌∷◌ x points ↦ record cell { point_size = 0; points = [] }
  ]

  unfoldable pub remove_row_points : R3dMatrix R C T → ℕ → Run (R3dMatrix R C T)
  unfolding get_row put_row get_cell put_cell remove_points
  remove_row_points m r = do
    row ← get_row m r
    emptied ←
        for row.cell_size 0
          (λ c now. do cell ← get_cell now c; ok (put_cell now c (remove_points cell))) row
    ok (put_row m r emptied)

  -- The part of `removeAllRowCells` that frees the cells.
  unfoldable pub remove_cells : Row R C T → Row R C T
  remove_cells row = elim row.cells [
    | [] ↦ row
    | ◌∷◌ x cells ↦ record row { cell_size = 0; cells = [] }
  ]

  unfoldable pub remove_all_row_cells : R3dMatrix R C T → Run (R3dMatrix R C T)
  unfolding get_row put_row
  remove_all_row_cells m =
      for m.row_size 0
        (λ r now. do
          emptied ← remove_row_points now r
          row ← get_row emptied r
          ok (put_row emptied r (remove_cells row)))
        m

  unfoldable pub remove_all : R3dMatrix R C T → Run (R3dMatrix R C T)
  unfolding remove_all_row_cells
  remove_all m = elim m.matrix [
    | [] ↦ ok m
    | ◌∷◌ x rows ↦ (do
      emptied ← remove_all_row_cells m
      ok (record emptied { matrix = []; row_size = 0 }))
  ]

  -- `memcpy(cell.points + at, points, pointSize * sizeof(T))`.
  unfoldable pub copy_points : Cell R C T → ℕ → List T → ℕ → Run (Cell R C T)
  copy_points cell at points point_size = do
    copied ← memcpy cell.points at (map some points) point_size
    ok (record cell { points = copied })

module _ {R C T : Type 0} (grants : ℕ → Bool) where
  -- `initializeRowMemory`.
  unfoldable pub initialize_row_memory : R3dMatrix R C T → ℕ → Run (R3dMatrix R C T)
  initialize_row_memory m new_row_size =
      if grants (m.row_type_sizeof * new_row_size)
      then ok (record m {
        matrix = take new_row_size m.matrix ++ replicate (new_row_size - m.row_size) clean_row;
        row_size = new_row_size;
      })
      else throws out_of_memory

  -- `initializeCellsMemory(row, cellSize)`.
  unfoldable pub initialize_cells_memory : R3dMatrix R C T → Row R C T → ℕ → Run (Row R C T)
  initialize_cells_memory m row cell_size =
      if grants (m.cell_type_sizeof * cell_size)
      then ok (record row {
        cells = take cell_size row.cells ++ replicate (cell_size - row.cell_size) clean_cell;
        cell_size = cell_size;
      })
      else throws out_of_memory

  -- `initializePointsMemory(cell, pointsSize)`.
  unfoldable pub initialize_points_memory : R3dMatrix R C T → Cell R C T → ℕ → Run (Cell R C T)
  initialize_points_memory m cell points_size = do
    points ← reallocate grants m.t_type_sizeof cell.points points_size
    ok (record cell { points = points; point_size = points_size })

  -- The constructor with sizes, on a matrix without rows.
  unfoldable pub sized : R3dMatrix R C T → ℕ → ℕ → Run (R3dMatrix R C T)
  unfolding initialize_row_memory initialize_cells_memory get_row put_row
  sized m row_size col_size = do
    rows ← initialize_row_memory m row_size
    if ltb 0 col_size
        then for row_size 0
            (λ r now. do
              row ← get_row now r
              wide ← initialize_cells_memory now row col_size
              ok (put_row now r wide))
            rows
        else ok rows

  -- What `writePoints` does to a cell that is there.
  unfoldable pub write_to_cell : R3dMatrix R C T → Cell R C T → List T → ℕ → Bool → Run (Cell R C T)
  write_to_cell m cell points point_size true = do
    wider ← initialize_points_memory m cell (cell.point_size + point_size)
    copy_points wider cell.point_size points point_size
  write_to_cell m cell points point_size false =
      if ltb cell.point_size point_size
      then (do
        wider ← initialize_points_memory m cell point_size
        copy_points wider 0 points point_size)
      else copy_points cell 0 points point_size

  -- And to a row that has no such cell yet: room for it, and the points.
  unfoldable pub write_new_cell : R3dMatrix R C T → Row R C T → ℕ → List T → ℕ → Run (Row R C T)
  unfolding get_cell put_cell
  write_new_cell m row col_index points point_size = do
    wider ← initialize_cells_memory m row (col_index + 1)
    cell ← get_cell wider col_index
    room ← initialize_points_memory m cell point_size
    copied ← copy_points room 0 points point_size
    ok (put_cell wider col_index copied)

  -- What `writePoints` does to a row that is there.
  unfoldable pub write_to_row :
      R3dMatrix R C T → Row R C T → ℕ → List T → ℕ → Bool → Run (Row R C T)
  unfolding get_cell put_cell
  write_to_row m row col_index points point_size to_end =
      if ltb col_index row.cell_size
      then (do
        cell ← get_cell row col_index
        written ← write_to_cell m cell points point_size to_end
        ok (put_cell row col_index written))
      else write_new_cell m row col_index points point_size

  -- `writePoints(rowIndex, colIndex, points, pointSize, toEnd)`.
  unfoldable pub write_points : R3dMatrix R C T → ℕ → ℕ → List T → ℕ → Bool → Run (R3dMatrix R C T)
  unfolding get_row put_row
  write_points m row_index col_index points point_size to_end =
      if ltb row_index m.row_size
      then (do
        row ← get_row m row_index
        written ← write_to_row m row col_index points point_size to_end
        ok (put_row m row_index written))
      else (do
        higher ← initialize_row_memory m (row_index + 1)
        row ← get_row higher row_index
        written ← write_new_cell higher row col_index points point_size
        ok (put_row higher row_index written))
