-- ===== src/Utils/SMatrix.antt =====
-- src/utils/SMatrix.h, class `SMatrix<T>`: a matrix kept as an array of row blocks. A cell that was
-- never written holds `none`; reading it, or reading or writing out of range, is `undefined`.
pub mod Cells
mod Tests
use premir_cpp.Common.{
  ℕ, zero, suc, ◌+◌, ◌-◌, ◌*◌, Bool, true, false, List, [], ◌∷◌, ◌++◌, Option, none, some, ltb,
  if◌then◌else◌, length, get_elem?, set, replicate, drop, ◌==◌, ◌&&◌, not,
}
use premir_cpp.Common.Run.{Run, ok, throws, out_of_memory, undefined, ◌>>=◌, defined, for}
use premir_cpp.Utils.Memory.{Block, malloc, memcpy}

pub record SMatrix {ℓ} (T : Type ℓ) : Type ℓ where
  pub matrix : List (Block T)
  pub row_size : ℕ
  pub col_size : ℕ
  pub type_sizeof : ℕ
  pub ptype_sizeof : ℕ

module _ {ℓ} {T : Type ℓ} where
  -- `initializeRowMemory`: room for the row pointers. The pointers themselves come with the rows.
  initialize_row_memory : (ℕ → Bool) → SMatrix T → ℕ → Run (SMatrix T)
  initialize_row_memory grants m n =
      if grants (m.ptype_sizeof * n) then ok m else throws out_of_memory

  -- `for (...) { T *rowArray = malloc(cAmount); ...; *(matrix + r) = rowArray; }`
  allocate_rows : (ℕ → Bool) → ℕ → SMatrix T → Run (SMatrix T)
  allocate_rows grants n m =
      for n 0
        (λ _ (m : SMatrix T). do
          row ← malloc T grants m.type_sizeof m.col_size
          ok (record m { matrix = m.matrix ++ row ∷ [] }))
        m

  -- The constructor, given `sizeof(T)` and `sizeof(T*)`.
  unfoldable pub new : (ℕ → Bool) → (t p rows cols : ℕ) → Run (SMatrix T)
  unfolding initialize_row_memory allocate_rows malloc for
  new grants t p rows cols =
      let m : SMatrix T = record {
        matrix = [];
        row_size = rows;
        col_size = cols;
        type_sizeof = t;
        ptype_sizeof = p;
      } in
      if ltb 0 rows then initialize_row_memory grants m rows >>= allocate_rows grants rows else ok m

  -- `matrix(r, c)` as a value.
  unfoldable pub cell : SMatrix T → ℕ → ℕ → Run T
  cell m r c = do
    row ← defined (get_elem? m.matrix r)
    content ← defined (get_elem? row c)
    defined content

  -- `matrix(r, c) = v`.
  unfoldable pub put : SMatrix T → ℕ → ℕ → T → Run (SMatrix T)
  put m r c v = do
    row ← defined (get_elem? m.matrix r)
    if ltb c (length row)
        then ok (record m { matrix = set m.matrix r (set row c (some v)) })
        else undefined

  -- `writeRow(rowIndex, values)`: a row past the end grows the matrix up to it.
  grow_to : (ℕ → Bool) → SMatrix T → ℕ → Run (SMatrix T)
  grow_to grants m row_index = if ltb row_index m.row_size then ok m else do
    let new_row_size = row_index + 1
    wide ← initialize_row_memory grants m new_row_size
    long ← allocate_rows grants (new_row_size - m.row_size) wide
    ok (record long { row_size = new_row_size })

  unfoldable pub write_row : (ℕ → Bool) → SMatrix T → ℕ → Block T → Run (SMatrix T)
  unfolding grow_to initialize_row_memory allocate_rows malloc memcpy for
  write_row grants m row_index values = do
    grown ← grow_to grants m row_index
    row ← defined (get_elem? grown.matrix row_index)
    copied ← memcpy row 0 values grown.col_size
    ok (record grown { matrix = set grown.matrix row_index copied })

  unfoldable pub push_row : (ℕ → Bool) → SMatrix T → Block T → Run (SMatrix T)
  push_row grants m values = write_row grants m m.row_size values

  unfoldable pub swap_rows : SMatrix T → ℕ → ℕ → Run (SMatrix T)
  swap_rows m r1 r2 = do
    temp ← defined (get_elem? m.matrix r1)
    other ← defined (get_elem? m.matrix r2)
    ok (record m { matrix = set (set m.matrix r1 other) r2 temp })

  -- `createClone(startRow, startCol, sizeRow, sizeCol)`.
  unfoldable pub create_clone :
      (ℕ → Bool) → SMatrix T → (start_row start_col size_row size_col : ℕ) → Run (SMatrix T)
  create_clone grants m start_row start_col size_row size_col = do
    clone ← new grants m.type_sizeof m.ptype_sizeof size_row size_col
    for size_row 0
        (λ r clone. do
          row ← defined (get_elem? m.matrix (r + start_row))
          write_row grants clone r (drop start_col row))
        clone

  -- `copyTo(destination)`.
  unfoldable pub copy_to : (ℕ → Bool) → SMatrix T → SMatrix T → Run (SMatrix T)
  copy_to grants m destination =
      for m.row_size 0
        (λ r destination. do
          row ← defined (get_elem? m.matrix r)
          write_row grants destination r row)
        destination
