-- ===== src/Kohonen/RectUMat/Build.antt =====
-- `buildUMatrix` of src/kohonen/umat/RectUMat.h: the distances between neighbours, the medians at
-- the neurons, and the scaling. `uxdim` and `uydim` are odd, so `uxdim - 1` does not wrap.
pub mod Overrun
use premir_cpp.Common.{
  ℕ, ◌+◌, ◌-◌, ◌*◌, ◌/◌, Bool, true, false, ◌&&◌, List, [], ◌∷◌, ltb, ◌==◌, if◌then◌else◌,
}
use premir_cpp.Common.Run.{Run, ok, ◌>>=◌, for}
use premir_cpp.Sort.HeapSort.{load, sort}
use premir_cpp.Utils.R3dMatrix.{R3dMatrix, at}
use premir_cpp.Utils.RMatrix.{RMatrix, cell, put}
use premir_cpp.Utils.RMatrix.Grid.{for_each_cell}
use premir_cpp.Kohonen.UMat.{Arithmetic, UMat, scale_u_matrix}

-- The sums that the loop over the coordinates of two neurons keeps, and what it has found.
pub record Sums (D : Type 0) : Type 0 where
  pub dx : D
  pub dy : D
  pub dz1 : D
  pub dz2 : D
  pub bx : Bool
  pub by : Bool
  pub bz : Bool

module _ {D : Type 0} (real : Arithmetic D) where
  -- `medtable[2]` and its like after `sort(medtable, n)`, for the values that were put there.
  unfoldable pub sorted_entry : List D → ℕ → ℕ → Run D
  sorted_entry medtable n k = do ordered ← sort real.order medtable n; load ordered k

module _ {Info D : Type 0} (real : Arithmetic D) where
  -- `double temp = a - b; sum += temp * temp;`
  unfoldable pub add_square : R3dMatrix Bool Info D → ℕ → (i j i' j' : ℕ) → D → Run D
  add_square som k i j i' j' sum = do
    a ← at som i j k
    b ← at som i' j' k
    let temp = real.sub a b
    ok (real.add sum (real.mul temp temp))

  -- One round of the loop over `k`, at the neuron in `i` and `j`.
  sum_step : UMat Info D → (i j k : ℕ) → Sums D → Run (Sums D)
  unfolding add_square
  sum_step m i j k s = do
    let east = ltb i (m.xdim - 1)
    let south = ltb j (m.ydim - 1)
    across ←
        if east
        then (do
          dx ← add_square m.som_matrix k i j (i + 1) j s.dx
          ok (record s { dx = dx; bx = true }))
        else ok s
    down ←
        if south
        then (do
          dy ← add_square m.som_matrix k i j i (j + 1) across.dy
          ok (record across { dy = dy; by = true }))
        else ok across
    if south && east
        then (do
          dz1 ← add_square m.som_matrix k i j (i + 1) (j + 1) down.dz1
          dz2 ← add_square m.som_matrix k i (j + 1) (i + 1) j down.dz2
          ok (record down { dz1 = dz1; dz2 = dz2; bz = true }))
        else ok down

  -- The distances from one neuron to the next ones, written between them.
  pub distances : UMat Info D → ℕ → ℕ → RMatrix Info D → Run (RMatrix Info D)
  unfolding sum_step
  distances m i j u = do
    let zero_sum = real.number 0
    let none_found : Sums D = record {
      dx = zero_sum;
      dy = zero_sum;
      dz1 = zero_sum;
      dz2 = zero_sum;
      bx = false;
      by = false;
      bz = false;
    }
    s ← for m.dim 0 (sum_step m i j) none_found
    let root = real.sqrt (real.number 2)
    let dz =
        real.div (real.add (real.div (real.sqrt s.dz1) root) (real.div (real.sqrt s.dz2) root))
          (real.number 2)
    x ← if s.bx then put u (2 * i + 1) (2 * j) (real.sqrt s.dx) else ok u
    y ← if s.by then put x (2 * i) (2 * j + 1) (real.sqrt s.dy) else ok x
    if s.bz then put y (2 * i + 1) (2 * j + 1) dz else ok y

  mean_of_two : RMatrix Info D → (i j i' j' : ℕ) → Run D
  mean_of_two u i j i' j' = do
    a ← cell u i j
    b ← cell u i' j'
    ok (real.div (real.add a b) (real.number 2))

  -- The middle of the three values in the table.
  middle_of_three : RMatrix Info D → (i j i' j' i'' j'' : ℕ) → Run D
  unfolding sorted_entry
  middle_of_three u i j i' j' i'' j'' = do
    a ← cell u i j
    b ← cell u i' j'
    c ← cell u i'' j''
    sorted_entry real (a ∷ b ∷ c ∷ []) 3 1

  -- In the middle of the map the table of four values is sorted as if it had six.
  middle_value : RMatrix Info D → ℕ → ℕ → Run D
  middle_value u i j = do
    a ← cell u (i - 1) j
    b ← cell u (i + 1) j
    c ← cell u i (j - 1)
    d ← cell u i (j + 1)
    medtable ← sort real.order (a ∷ b ∷ c ∷ d ∷ []) 6
    second ← load medtable 1
    third ← load medtable 2
    ok (real.div (real.add second third) (real.number 2))

  -- The value for the neuron at `i` and `j` of the U-matrix, by the branches of the loop. Even
  -- indices fall under one of them.
  neuron_value : UMat Info D → ℕ → ℕ → RMatrix Info D → Run D
  unfolding mean_of_two middle_of_three middle_value
  neuron_value m i j u =
      let last_i = m.uxdim - 1 in
      let last_j = m.uydim - 1 in
      if ltb 0 i && ltb 0 j && ltb i last_i && ltb j last_j
      then middle_value u i j
      else if (j == 0) && ltb 0 i && ltb i last_i
      then middle_of_three u (i - 1) j (i + 1) j i (j + 1)
      else if (j == last_j) && ltb 0 i && ltb i last_i
      then middle_of_three u (i - 1) j (i + 1) j i (j - 1)
      else if (i == 0) && ltb 0 j && ltb j last_j
      then middle_of_three u (i + 1) j i (j - 1) i (j + 1)
      else if (i == last_i) && ltb 0 j && ltb j last_j
      then middle_of_three u (i - 1) j i (j - 1) i (j + 1)
      else if (i == 0) && (j == 0)
      then mean_of_two u (i + 1) j i (j + 1)
      else if (i == last_i) && (j == 0)
      then mean_of_two u (i - 1) j i (j + 1)
      else if (i == 0) && (j == last_j)
      then mean_of_two u (i + 1) j i (j - 1)
      else mean_of_two u (i - 1) j i (j - 1)

  medians : UMat Info D → RMatrix Info D → Run (RMatrix Info D)
  unfolding neuron_value
  medians m u =
      for ((m.uydim + 1) / 2) 0
        (λ y row.
          for ((m.uxdim + 1) / 2) 0
            (λ x now. do value ← neuron_value m (2 * x) (2 * y) now; put now (2 * x) (2 * y) value)
            row)
        u

  unfoldable pub build_u_matrix : UMat Info D → Run (UMat Info D)
  unfolding distances medians
  build_u_matrix m = do
    between ← for_each_cell m.xdim m.ydim (distances m) m.u_matrix
    whole ← medians m between
    scale_u_matrix real 0 (record m { u_matrix = whole })
