-- ===== src/Kohonen/HexaUMat/Smooth/Hexagons.antt =====
-- What `averageUMatrix` and `medianUMatrix` of src/kohonen/umat/HexaUMat.h leave in a U-matrix.
use premir_cpp.Common.{ℕ, ◌/◌, ◌≤◌, ◌≡◌, refl, sym, subst, Bool, true, List, [], ◌∷◌, arith, length}
use premir_cpp.Common.All.{All}
use premir_cpp.Common.Run.{Returns, returns}
use premir_cpp.Utils.RMatrix.Grid.{Filled}
use premir_cpp.Kohonen.UMat.{Arithmetic, UMat}
use premir_cpp.Kohonen.UMat.Medians.{Entry}
use premir_cpp.Kohonen.RectUMat.Smooth.Average.{mean_of, mean-mean_of}
use premir_cpp.Kohonen.RectUMat.Smooth.Corners.{Shows}
use premir_cpp.Kohonen.HexaUMat.Smooth.{mean_of_cells, average_u_matrix}
use premir_cpp.Kohonen.HexaUMat.Smooth.Cells.{Inside}
use premir_cpp.Kohonen.HexaUMat.Smooth.Paint.{Smoothed}
use premir_cpp.Kohonen.HexaUMat.Smooth.Smoothed.{smooth-Filled}

module _ {Info D : Type 0} (real : Arithmetic D) (m : UMat Info D) (f : ℕ → ℕ → D)
    (s : Shows m f) where
  -- The values of `f` at cells.
  abbrev pub values : List (ℕ × ℕ) → List D
  values [] = []
  values ((i, j) ∷ cells) = f i j ∷ values cells

  abbrev pub IsMean : List (ℕ × ℕ) → D → Type 0
  IsMean cells v = v ≡ mean_of real m.uxdim m.uydim f cells

  abbrev pub IsMedian : List (ℕ × ℕ) → D → Type 0
  IsMedian cells v = Entry real (values cells) (length cells / 2) v

  mean_of_cells-IsMean :
      (cells : List (ℕ × ℕ))
      → All (Inside m.uxdim m.uydim) cells
      → 3 ≤ length cells
      → Returns (IsMean cells) (mean_of_cells real m.u_matrix cells)
  unfolding mean_of_cells
  mean_of_cells-IsMean [] inside least = absurd (omega (arith, least))
  mean_of_cells-IsMean (c ∷ cells) inside least =
      subst (Returns (IsMean (c ∷ cells)))
        (sym (mean-mean_of real m.uxdim m.uydim f m.u_matrix s.cells c cells inside)) (returns refl)

module _ {Info D : Type 0} (real : Arithmetic D) where
  -- If the allocator grants what it asks for, `averageUMatrix` of a hexagonal map returns, on a
  -- U-matrix that holds `f` and has at least two cells each way. Every cell then is the mean of `f`
  -- over the cell and those that touch it, added up in some order; in the two lower corners the
  -- diagonal neighbour is left out.
  pub average_u_matrix-hexagons :
      (grants : ℕ → Bool) (granted : (n : ℕ) → grants n ≡ true) (t u_row : ℕ) (m : UMat Info D)
      (f : ℕ → ℕ → D) (s : Shows m f)
      → Returns
          (λ (smoothed : UMat Info D).
            Filled (Smoothed (IsMean real m f s) m.uxdim m.uydim) m.uxdim m.uydim smoothed.u_matrix)
          (average_u_matrix real grants t u_row m)
  unfolding average_u_matrix
  average_u_matrix-hexagons grants granted t u_row m f s =
      smooth-Filled (mean_of_cells real m.u_matrix) (IsMean real m f s) m f s
        (λ i j cells fits. mean_of_cells-IsMean real m f s cells fits.inside fits.some_cells) grants
        granted t u_row
