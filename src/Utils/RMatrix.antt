-- ===== src/Utils/RMatrix.antt =====
-- src/utils/RMatrix.h, class `RMatrix<S, T>`: a matrix kept as an array of rows, each with data of its
-- own and a block of points. What was never written holds `none`. `equalsWithError` and `print`,
-- over streams and doubles, are left out.
pub mod Cells
pub mod Grid
use premir_cpp.Common.{
  ℕ, zero, suc, ◌+◌, ◌-◌, ◌*◌, Bool, true, false, List, [], ◌∷◌, ◌++◌, Option, none, some, ltb,
  if◌then◌else◌, length, get_elem?, set, replicate, ◌==◌, not,
}
use premir_cpp.Common.Run.{Run, ok, throws, out_of_memory, undefined, ◌>>=◌, defined, for}
use premir_cpp.Utils.Memory.{Block, malloc, memcpy}

pub record Row {ℓ} (S T : Type ℓ) : Type ℓ where
  pub content : Option S
  pub points : Block T

pub record RMatrix {ℓ} (S T : Type ℓ) : Type ℓ where
  pub matrix : List (Row S T)
  pub row_size : ℕ
  pub col_size : ℕ
  pub t_type_sizeof : ℕ
  pub r_type_sizeof : ℕ

module _ {ℓ} {T : Type ℓ} where
  -- The loop over one row in `operator==`.
  equal_points : (T → T → Bool) → ℕ → ℕ → Block T → Block T → Run Bool
  equal_points same zero c xs ys = ok true
  equal_points same (suc rounds) c xs ys = do
    let rest = equal_points same rounds (suc c) xs ys
    written ← defined (get_elem? xs c)
    x ← defined written
    other ← defined (get_elem? ys c)
    y ← defined other
    if same x y then rest else ok false

module _ {ℓ} {S T : Type ℓ} where
  -- `initializeRowMemory`: room for the rows. The rows themselves come with their points.
  initialize_row_memory : (ℕ → Bool) → RMatrix S T → ℕ → Run (RMatrix S T)
  initialize_row_memory grants m n =
      if grants (m.r_type_sizeof * n) then ok m else throws out_of_memory

  -- `for (...) { T *pointsArray = malloc(cAmount); ...; matrix[r].points = pointsArray; }`
  allocate_rows : (ℕ → Bool) → ℕ → RMatrix S T → Run (RMatrix S T)
  allocate_rows grants n m =
      for n 0
        (λ _ (m : RMatrix S T). do
          points ← malloc T grants m.t_type_sizeof m.col_size
          ok (record m { matrix = m.matrix ++ record { content = none; points = points } ∷ [] }))
        m

  -- The constructor, given `sizeof(T)` and `sizeof(Row)`.
  unfoldable pub new : (ℕ → Bool) → (t r rows cols : ℕ) → Run (RMatrix S T)
  unfolding initialize_row_memory allocate_rows malloc for
  new grants t r rows cols =
      let m : RMatrix S T = record {
        matrix = [];
        row_size = rows;
        col_size = cols;
        t_type_sizeof = t;
        r_type_sizeof = r;
      } in
      if ltb 0 rows then initialize_row_memory grants m rows >>= allocate_rows grants rows else ok m

  -- `matrix[r][c]` as a value.
  unfoldable pub cell : RMatrix S T → ℕ → ℕ → Run T
  cell m r c = do
    row ← defined (get_elem? m.matrix r)
    content ← defined (get_elem? row.points c)
    defined content

  -- `matrix[r][c] = v`.
  unfoldable pub put : RMatrix S T → ℕ → ℕ → T → Run (RMatrix S T)
  put m r c v = do
    row ← defined (get_elem? m.matrix r)
    if ltb c (length row.points)
        then ok (record m {
          matrix = set m.matrix r (record row { points = set row.points c (some v) });
        })
        else undefined

  -- `copyRow(dest, src)`, for rows of `col_size` points.
  copy_row : ℕ → Row S T → Row S T → Run (Row S T)
  copy_row col_size dest src = do
    copied ← memcpy dest.points 0 src.points col_size
    ok (record { content = src.content; points = copied })

  -- `writeRow(rowIndex, value)`: a row past the end grows the matrix up to it.
  grow_to : (ℕ → Bool) → RMatrix S T → ℕ → Run (RMatrix S T)
  grow_to grants m row_index = if ltb row_index m.row_size then ok m else do
    let new_row_size = row_index + 1
    wide ← initialize_row_memory grants m new_row_size
    long ← allocate_rows grants (new_row_size - m.row_size) wide
    ok (record long { row_size = new_row_size })

  unfoldable pub write_row : (ℕ → Bool) → RMatrix S T → ℕ → Row S T → Run (RMatrix S T)
  unfolding grow_to initialize_row_memory allocate_rows copy_row malloc memcpy for
  write_row grants m row_index value = do
    grown ← grow_to grants m row_index
    dest ← defined (get_elem? grown.matrix row_index)
    copied ← copy_row grown.col_size dest value
    ok (record grown { matrix = set grown.matrix row_index copied })

  -- `writeRow(rowIndex, points)`.
  unfoldable pub write_points : (ℕ → Bool) → RMatrix S T → ℕ → Block T → Run (RMatrix S T)
  unfolding write_row
  write_points grants m row_index points =
      if ltb row_index m.row_size
      then (do
        row ← defined (get_elem? m.matrix row_index)
        copied ← memcpy row.points 0 points m.col_size
        ok (record m { matrix = set m.matrix row_index (record row { points = copied }) }))
      else write_row grants m row_index (record { content = none; points = points })

  -- `pushRow(value)` and `pushRow(points)`.
  unfoldable pub push_row : (ℕ → Bool) → RMatrix S T → Row S T → Run (RMatrix S T)
  push_row grants m value = write_row grants m m.row_size value

  unfoldable pub push_points : (ℕ → Bool) → RMatrix S T → Block T → Run (RMatrix S T)
  push_points grants m points = write_points grants m m.row_size points

  -- `swapRows(r1, r2)`, over a temporary row.
  unfoldable pub swap_rows : RMatrix S T → ℕ → ℕ → Run (RMatrix S T)
  unfolding copy_row
  swap_rows m r1 r2 = do
    first ← defined (get_elem? m.matrix r1)
    temp ← copy_row m.col_size (record { content = none; points = replicate m.col_size none }) first
    second ← defined (get_elem? m.matrix r2)
    moved ← copy_row m.col_size first second
    let half = set m.matrix r1 moved
    target ← defined (get_elem? half r2)
    back ← copy_row m.col_size target temp
    ok (record m { matrix = set half r2 back })

  -- `createClone()` and `copyTo(destination)`.
  unfoldable pub copy_to : (ℕ → Bool) → RMatrix S T → RMatrix S T → Run (RMatrix S T)
  copy_to grants m destination =
      for m.row_size 0
        (λ r destination. do
          row ← defined (get_elem? m.matrix r)
          write_row grants destination r row)
        destination

  unfoldable pub create_clone : (ℕ → Bool) → RMatrix S T → Run (RMatrix S T)
  create_clone grants m = do
    clone ← new grants m.t_type_sizeof m.r_type_sizeof m.row_size m.col_size
    copy_to grants m clone

  -- `operator==`, given the comparisons of data and of points.
  equal_rows : (S → S → Bool) → (T → T → Bool) → ℕ → ℕ → RMatrix S T → RMatrix S T → Run Bool
  equal_rows same_data same zero r m other = ok true
  equal_rows same_data same (suc rounds) r m other = do
    let rest = equal_rows same_data same rounds (suc r) m other
    row ← defined (get_elem? m.matrix r)
    row' ← defined (get_elem? other.matrix r)
    a ← defined row.content
    b ← defined row'.content
    if same_data a b
        then (do
          equal ← equal_points same m.col_size 0 row.points row'.points
          if equal then rest else ok false)
        else ok false

  unfoldable pub equal : (S → S → Bool) → (T → T → Bool) → RMatrix S T → RMatrix S T → Run Bool
  unfolding equal_points equal_rows
  equal same_data same m other =
      if not (other.row_size == m.row_size)
      then ok false
      else if not (other.col_size == m.col_size)
      then ok false
      else equal_rows same_data same m.row_size 0 m other
