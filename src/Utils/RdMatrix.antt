-- ===== src/Utils/RdMatrix.antt =====
-- src/utils/RDMatrix.h, class `RdMatrix<R, T>`: a matrix of rows of different lengths, each with
-- room to grow and with a datum of type `R`. `matrix` holds `rowCapacity` rows, `points` of a row
-- its `pointCapacity` cells; a null pointer is the block of no cells. What was never written is
-- `none`. Copying, assigning and moving a value into a cell are one thing here.
pub mod Rows
pub mod Prepare
pub mod Store
mod Tests
use premir_cpp.Common.{
  ℕ, zero, suc, ◌+◌, ◌-◌, ◌*◌, ◌≡◌, Bool, true, false, ◌&&◌, not, List, [], ◌∷◌, ◌++◌, map, Option,
  none, some, ltb, ◌==◌, if◌then◌else◌, length, get_elem?, set, replicate,
}
use premir_cpp.Common.Run.{Run, ok, throws, out_of_memory, undefined, ◌>>=◌, defined, for}
use premir_cpp.Utils.Memory.{Block, malloc, realloc, memcpy}

-- The capacity after growth: what is asked for, or the old one and the increase, if that is more.
unfoldable pub next_capacity : ℕ → ℕ → ℕ → ℕ
next_capacity capacity increase n = if ltb (capacity + increase) n then n else capacity + increase

module _ {ℓ} {T : Type ℓ} where
  -- `points ? realloc(points, ...) : malloc(...)`.
  unfoldable pub reallocate : (ℕ → Bool) → ℕ → Block T → ℕ → Run (Block T)
  reallocate grants t [] n = malloc T grants t n
  reallocate grants t (x ∷ points) n = realloc grants t (x ∷ points) n

module _ {ℓ} (R T : Type ℓ) where
  pub record Row : Type ℓ where
    pub point_size : ℕ
    pub point_capacity : ℕ
    pub content : Option R
    pub points : Block T

  pub record RdMatrix : Type ℓ where
    pub matrix : List Row
    pub row_size : ℕ
    pub row_capacity : ℕ
    pub row_capacity_increase : ℕ
    pub point_capacity_increase : ℕ
    pub t_type_sizeof : ℕ
    pub row_type_sizeof : ℕ

module _ {ℓ} {R T : Type ℓ} where
  abbrev pub clean_row : Row R T
  clean_row = record { point_size = 0; point_capacity = 0; content = none; points = [] }

  -- The default constructor, given `sizeof(T)` and `sizeof(Row)`.
  unfoldable pub new : ℕ → ℕ → RdMatrix R T
  new t row = record {
    matrix = [];
    row_size = 0;
    row_capacity = 0;
    row_capacity_increase = 1;
    point_capacity_increase = 1;
    t_type_sizeof = t;
    row_type_sizeof = row;
  }

  unfoldable pub set_row_capacity_increase : RdMatrix R T → ℕ → RdMatrix R T
  set_row_capacity_increase m n = record m { row_capacity_increase = n }

  unfoldable pub set_point_capacity_increase : RdMatrix R T → ℕ → RdMatrix R T
  set_point_capacity_increase m n = record m { point_capacity_increase = n }

module _ {ℓ} {R T : Type ℓ} (grants : ℕ → Bool) where
  -- `initializeRowMemory`: the new rows are cleaned, but their datum is not.
  unfoldable pub initialize_row_memory : RdMatrix R T → ℕ → Run (RdMatrix R T)
  initialize_row_memory m new_row_size =
      let capacity = next_capacity m.row_capacity m.row_capacity_increase new_row_size in
      if grants (m.row_type_sizeof * capacity)
      then ok (record m {
        matrix = m.matrix ++ replicate (capacity - m.row_capacity) clean_row;
        row_size = new_row_size;
        row_capacity = capacity;
      })
      else throws out_of_memory

  -- `initializePointsMemory(row, newPointsSize)`.
  unfoldable pub initialize_points_memory : RdMatrix R T → Row R T → ℕ → Run (Row R T)
  initialize_points_memory m row new_points_size = do
    let capacity = next_capacity row.point_capacity m.point_capacity_increase new_points_size
    points ← reallocate grants m.t_type_sizeof row.points capacity
    ok (record row { point_size = new_points_size; point_capacity = capacity; points = points })

  -- `prepareWriteRow(rowIndex, pointSize)`: the matrix has the row, and the row has the room.
  pub fit_row : RdMatrix R T → Row R T → ℕ → Run (Row R T)
  fit_row m row point_size =
      if ltb row.point_capacity point_size
      then initialize_points_memory m row point_size
      else ok (record row { point_size = point_size })

  unfoldable pub prepare_write_row : RdMatrix R T → ℕ → ℕ → Run (RdMatrix R T)
  unfolding fit_row
  prepare_write_row m row_index point_size =
      if ltb row_index m.row_capacity
      then (do
        row ← defined (get_elem? m.matrix row_index)
        fitted ← fit_row m row point_size
        ok (record m {
          matrix = set m.matrix row_index fitted;
          row_size = if ltb row_index m.row_size then m.row_size else row_index + 1;
        }))
      else (do
        grown ← initialize_row_memory m (row_index + 1)
        row ← defined (get_elem? grown.matrix row_index)
        fitted ← initialize_points_memory grown row point_size
        ok (record grown { matrix = set grown.matrix row_index fitted }))

  -- `memcpy(matrix[rowIndex].points + at, values, n * sizeof(T))`.
  pub copy_points : RdMatrix R T → ℕ → ℕ → List T → ℕ → Run (RdMatrix R T)
  copy_points m row_index at values n = do
    row ← defined (get_elem? m.matrix row_index)
    copied ← memcpy row.points at (map some values) n
    ok (record m { matrix = set m.matrix row_index (record row { points = copied }) })

  -- `writeRow(rowIndex, points, pointSize)`, and for one value `writeRow(rowIndex, value)` and
  -- `writeCopyRow`.
  unfoldable pub write_row : RdMatrix R T → ℕ → List T → ℕ → Run (RdMatrix R T)
  unfolding copy_points
  write_row m row_index points point_size = do
    prepared ← prepare_write_row m row_index point_size
    copy_points prepared row_index 0 points point_size

  unfoldable pub push_row : RdMatrix R T → List T → ℕ → Run (RdMatrix R T)
  push_row m points point_size = write_row m m.row_size points point_size

  -- `increaseRowPoints(row, incrSize)`.
  unfoldable pub increase_row_points : RdMatrix R T → Row R T → ℕ → Run (Row R T)
  increase_row_points m row incr_size =
      if ltb row.point_capacity (row.point_size + incr_size)
      then initialize_points_memory m row (row.point_size + incr_size)
      else ok (record row { point_size = row.point_size + incr_size })

  -- `writeToEndRow(rowIndex, arr, arrSize)`, and for one value `writeCopyToEndRow`.
  unfoldable pub write_to_end_row : RdMatrix R T → ℕ → List T → ℕ → Run (RdMatrix R T)
  unfolding copy_points
  write_to_end_row m row_index arr arr_size =
      if ltb row_index m.row_size
      then (do
        row ← defined (get_elem? m.matrix row_index)
        wider ← increase_row_points m row arr_size
        copy_points (record m { matrix = set m.matrix row_index wider }) row_index row.point_size
            arr arr_size)
      else write_row m row_index arr arr_size
