-- ===== src/Kohonen/HexaUMat/Build.antt =====
-- `buildUMatrix` of src/kohonen/umat/HexaUMat.h: the distances between neighbours, the medians at
-- the neurons, and the scaling. `uxdim` and `uydim` are odd, so `uxdim - 1` does not wrap.
pub mod Around
pub mod Middle
pub mod Neurons
use premir_cpp.Common.{
  ℕ, ◌+◌, ◌-◌, ◌*◌, ◌/◌, ◌%◌, Bool, true, false, ◌&&◌, List, [], ◌∷◌, length, ltb, ◌==◌,
  if◌then◌else◌,
}
use premir_cpp.Common.Run.{Run, ok, ◌>>=◌, for}
use premir_cpp.Sort.HeapSort.{load, sort}
use premir_cpp.Utils.RMatrix.{RMatrix, put}
use premir_cpp.Utils.RMatrix.Grid.{for_each_cell}
use premir_cpp.Kohonen.UMat.{Arithmetic, UMat, scale_u_matrix}
use premir_cpp.Kohonen.RectUMat.Build.{add_square, sorted_entry}
use premir_cpp.Kohonen.HexaUMat.Smooth.{read_cells}

-- The cells that go into the table for the neuron at `i` and `j` of the U-matrix, in the order of the
-- assignments, by the branches of the loop. Even indices fall under one of them.
unfoldable pub neuron_cells : (uxdim uydim i j : ℕ) → List (ℕ × ℕ)
neuron_cells uxdim uydim i j =
    let last_i = uxdim - 1 in
    let last_j = uydim - 1 in
    let shifted_left = j % 4 == 0 in
    if ltb 0 i && ltb 0 j && ltb i last_i && ltb j last_j
    then (if shifted_left
        then (i - 1, j)
          ∷ (i + 1, j)
          ∷ (i - 1, j - 1)
          ∷ (i, j - 1)
          ∷ (i - 1, j + 1)
          ∷ (i, j + 1)
          ∷ []
        else (i - 1, j)
          ∷ (i + 1, j)
          ∷ (i, j - 1)
          ∷ (i + 1, j - 1)
          ∷ (i, j + 1)
          ∷ (i + 1, j + 1)
          ∷ [])
    else if (j == 0) && ltb 0 i && ltb i last_i
    then (i - 1, j) ∷ (i + 1, j) ∷ (i, j + 1) ∷ (i - 1, j + 1) ∷ []
    else if (j == last_j) && ltb 0 i && ltb i last_i
    then (if shifted_left
        then (i - 1, j) ∷ (i + 1, j) ∷ (i - 1, j - 1) ∷ (i, j - 1) ∷ []
        else (i - 1, j) ∷ (i + 1, j) ∷ (i, j - 1) ∷ (i + 1, j - 1) ∷ [])
    else if (i == 0) && ltb 0 j && ltb j last_j
    then (if shifted_left
        then (i + 1, j) ∷ (i, j - 1) ∷ (i, j + 1) ∷ []
        else (i + 1, j) ∷ (i, j - 1) ∷ (i + 1, j - 1) ∷ (i, j + 1) ∷ (i + 1, j + 1) ∷ [])
    else if (i == last_i) && ltb 0 j && ltb j last_j
    then (if shifted_left
        then (i - 1, j) ∷ (i, j - 1) ∷ (i - 1, j - 1) ∷ (i, j + 1) ∷ (i - 1, j + 1) ∷ []
        else (i - 1, j) ∷ (i, j - 1) ∷ (i, j + 1) ∷ [])
    else if (i == 0) && (j == 0)
    then (i + 1, j) ∷ (i, j + 1) ∷ []
    else if (i == last_i) && (j == 0)
    then (i - 1, j) ∷ (i - 1, j + 1) ∷ (i, j + 1) ∷ []
    else if (i == 0) && (j == last_j)
    then (if shifted_left
        then (i + 1, j) ∷ (i, j - 1) ∷ []
        else (i + 1, j) ∷ (i, j - 1) ∷ (i + 1, j - 1) ∷ [])
    else if shifted_left
    then (i - 1, j) ∷ (i, j - 1) ∷ (i - 1, j - 1) ∷ []
    else (i - 1, j) ∷ (i, j - 1) ∷ []

module _ {D : Type 0} (real : Arithmetic D) where
  -- The mean of two entries of the table.
  pub mean_entries : List D → ℕ → ℕ → Run D
  mean_entries medtable k l = do
    a ← load medtable k
    b ← load medtable l
    ok (real.div (real.add a b) (real.number 2))

  -- What becomes of a table of `n` values: two are not sorted.
  pub table_value : List D → ℕ → Run D
  unfolding sorted_entry mean_entries
  table_value medtable n =
      if n == 6
      then (do ordered ← sort real.order medtable 6; mean_entries ordered 2 3)
      else if n == 4
      then (do ordered ← sort real.order medtable 4; mean_entries ordered 1 2)
      else if n == 5
      then sorted_entry real medtable 5 2
      else if n == 3
      then sorted_entry real medtable 3 1
      else mean_entries medtable 0 1

module _ {Info D : Type 0} (real : Arithmetic D) where
  -- The loop over `k` between two neurons: the sum, and whether it had a round.
  squares : UMat Info D → (i j i' j' : ℕ) → Run (D × Bool)
  unfolding add_square
  squares m i j i' j' =
      for m.dim 0
        (λ k sum. do next ← add_square real m.som_matrix k i j i' j' sum.0; ok (next, true))
        (real.number 0, false)

  -- The distances from one neuron to the next ones, written between them.
  distances : UMat Info D → ℕ → ℕ → RMatrix Info D → Run (RMatrix Info D)
  unfolding squares
  distances m i j u = do
    let none_found : D × Bool = (real.number 0, false)
    let east = ltb i (m.xdim - 1)
    let south = ltb j (m.ydim - 1)
    let even = j % 2 == 0
    x ← if east then squares m i j (i + 1) j else ok none_found
    y ←
        if south
        then (if even
            then (if ltb 0 i then squares m i j (i - 1) (j + 1) else ok none_found)
            else squares m i j i (j + 1))
        else ok none_found
    z ←
        if south
        then (if even
            then (do sum ← squares m i j i (j + 1); ok (sum.0, true))
            else if east
            then (do sum ← squares m i j (i + 1) (j + 1); ok (sum.0, true))
            else ok none_found)
        else ok none_found
    u_x ← if x.1 then put u (2 * i + 1) (2 * j) (real.sqrt x.0) else ok u
    u_y ←
        if y.1
        then (if even
            then put u_x (2 * i - 1) (2 * j + 1) (real.sqrt y.0)
            else put u_x (2 * i) (2 * j + 1) (real.sqrt y.0))
        else ok u_x
    if z.1
        then (if even
            then put u_y (2 * i) (2 * j + 1) (real.sqrt z.0)
            else put u_y (2 * i + 1) (2 * j + 1) (real.sqrt z.0))
        else ok u_y

  -- The value for the neuron at `i` and `j` of the U-matrix.
  pub neuron_value : UMat Info D → ℕ → ℕ → RMatrix Info D → Run D
  unfolding table_value
  neuron_value m i j u = do
    let cells = neuron_cells m.uxdim m.uydim i j
    medtable ← read_cells u cells
    table_value real medtable (length cells)

  unfoldable pub medians : UMat Info D → RMatrix Info D → Run (RMatrix Info D)
  unfolding neuron_value
  medians m u =
      for ((m.uydim + 1) / 2) 0
        (λ y row.
          for ((m.uxdim + 1) / 2) 0
            (λ x now. do value ← neuron_value m (2 * x) (2 * y) now; put now (2 * x) (2 * y) value)
            row)
        u

  unfoldable pub build_u_matrix : UMat Info D → Run (UMat Info D)
  unfolding distances medians neuron_cells squares
  build_u_matrix m = do
    between ← for_each_cell m.xdim m.ydim (distances m) m.u_matrix
    whole ← medians m between
    scale_u_matrix real 0 (record m { u_matrix = whole })
