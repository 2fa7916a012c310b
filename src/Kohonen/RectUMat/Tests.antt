-- ===== src/Kohonen/RectUMat/Tests.antt =====
-- The U-matrices of maps of 2 by 2 and of 3 by 3 neurons; the numbers stand for doubles.
use premir_cpp.Common.{
  ℕ, zero, suc, ◌<◌, ◌≡◌, refl, Bool, true, List, [], ◌∷◌, Option, none, some, arith, map, length,
  replicate, get_elem?,
}
use premir_cpp.Common.Run.{Run, ok, undefined, ◌>>=◌, Returns, for}
use premir_cpp.Sort.HeapSort.{sort}
use premir_cpp.Utils.R3dMatrix.{
  R3dMatrix, sized, write_points, write_to_row, write_to_cell, initialize_points_memory,
  copy_points, at, new as new_r3d_matrix,
}
use premir_cpp.Utils.RdMatrix.{reallocate}
use premir_cpp.Utils.Memory.{memcpy}
use premir_cpp.Utils.RMatrix.{Row, cell, put, new as new_r_matrix}
use premir_cpp.Utils.RMatrix.Grid.{Filled}
use premir_cpp.Kohonen.UMat.{UMat, new, initialize_mat, scale_u_matrix}
use premir_cpp.Kohonen.UMat.Tests.{counting}
use premir_cpp.Kohonen.RectUMat.Build.{build_u_matrix}
use premir_cpp.Kohonen.RectUMat.Build.Overrun.{Fails, build_u_matrix-Fails}
use premir_cpp.Kohonen.RectUMat.Smooth.{average_u_matrix, median_u_matrix, average_cells}
use premir_cpp.Kohonen.RectUMat.Smooth.Average.{Averaged}
use premir_cpp.Kohonen.RectUMat.Smooth.Corners.{Shows, average_u_matrix-Averaged}
use premir_cpp.Kohonen.RectUMat.Smooth.Lost.{median_u_matrix-undefined}

abbrev pub points : List ℕ → Row Bool ℕ
points values = record { content = none; points = map some values }

abbrev pub no_neurons : R3dMatrix Bool Bool ℕ
no_neurons = record {
  matrix = [];
  row_size = 0;
  t_type_sizeof = 8;
  row_type_sizeof = 24;
  cell_type_sizeof = 24;
}

abbrev pub small : UMat Bool ℕ
small = record {
  som_matrix = no_neurons;
  u_matrix = record {
    matrix = points (3 ∷ 6 ∷ 9 ∷ []) ∷ points (0 ∷ 3 ∷ 6 ∷ []) ∷ points (6 ∷ 0 ∷ 3 ∷ []) ∷ [];
    row_size = 3;
    col_size = 3;
    t_type_sizeof = 8;
    r_type_sizeof = 16;
  };
  xdim = 2;
  ydim = 2;
  dim = 1;
  uxdim = 3;
  uydim = 3;
}

abbrev pub value : ℕ → ℕ → ℕ
value zero zero = 3
value zero (suc zero) = 6
value zero (suc (suc j)) = 9
value (suc zero) zero = 0
value (suc zero) (suc zero) = 3
value (suc zero) (suc (suc j)) = 6
value (suc (suc i)) zero = 6
value (suc (suc i)) (suc zero) = 0
value (suc (suc i)) (suc (suc j)) = 3

pub small-Shows : Shows small value
unfolding cell
small-Shows = record {
  shape = record { height = refl; width = width };
  cells = cells;
  wide = omega arith;
  high = omega arith;
  wide_fits = omega arith;
  high_fits = omega arith;
}
  where
    width :
        (r : ℕ) (row : Row Bool ℕ)
        → get_elem? small.u_matrix.matrix r ≡ some row
        → length row.points ≡ 3
    width zero row e = ground (arith, e)
    width (suc zero) row e = ground (arith, e)
    width (suc (suc zero)) row e = ground (arith, e)
    width (suc (suc (suc r))) row e = cc

    cells : (i j : ℕ) → i < 3 → j < 3 → cell small.u_matrix i j ≡ ok (value i j)
    cells zero zero hi hj = refl
    cells zero (suc zero) hi hj = refl
    cells zero (suc (suc zero)) hi hj = refl
    cells (suc zero) zero hi hj = refl
    cells (suc zero) (suc zero) hi hj = refl
    cells (suc zero) (suc (suc zero)) hi hj = refl
    cells (suc (suc zero)) zero hi hj = refl
    cells (suc (suc zero)) (suc zero) hi hj = refl
    cells (suc (suc zero)) (suc (suc zero)) hi hj = refl
    cells (suc (suc (suc i))) j hi hj = absurd (omega arith)
    cells zero (suc (suc (suc j))) hi hj = absurd (omega arith)
    cells (suc zero) (suc (suc (suc j))) hi hj = absurd (omega arith)
    cells (suc (suc zero)) (suc (suc (suc j))) hi hj = absurd (omega arith)

average_result :
    (average_u_matrix counting (λ n. true) 8 16 small >>= λ m.
    ok (map (λ (row : Row Bool ℕ). row.points) m.u_matrix.matrix))
    ≡ ok (map some (3 ∷ 5 ∷ 7 ∷ []) ∷ map some (3 ∷ 3 ∷ 5 ∷ []) ∷ map some (2 ∷ 3 ∷ 3 ∷ []) ∷ [])
unfolding average_u_matrix average_cells new_r_matrix for
average_result = refl

average_u_matrix-Averaged_example :
    Returns
      (λ (averaged : UMat Bool ℕ). Filled (Averaged counting 3 3 value) 3 3 averaged.u_matrix)
      (average_u_matrix counting (λ n. true) 8 16 small)
average_u_matrix-Averaged_example =
    average_u_matrix-Averaged counting (λ n. true) (λ n. refl) 8 16 small value small-Shows

median_u_matrix-undefined_example : median_u_matrix counting (λ n. true) 8 16 small ≡ undefined
median_u_matrix-undefined_example =
    median_u_matrix-undefined counting (λ n. true) (λ n. refl) 8 16 small value small-Shows

-- From a trained map to its U-matrix.
abbrev pub trained : ℕ → List (List ℕ) → Run (UMat Bool ℕ)
trained side codes = do
  m ← new (λ n. true) 8 24 24 16 side side 1
  initialize_mat (λ n. true) m codes

abbrev pub u_values : UMat Bool ℕ → List (List (Option ℕ))
u_values m = map (λ (row : Row Bool ℕ). row.points) m.u_matrix.matrix

abbrev built : ℕ → List (List ℕ) → Run (List (List (Option ℕ)))
built side codes = do m ← trained side codes; whole ← build_u_matrix counting m; ok (u_values whole)

two_by_two :
    built 2 ((1 ∷ []) ∷ (4 ∷ []) ∷ (2 ∷ []) ∷ (9 ∷ []) ∷ [])
    ≡ ok (map some (1 ∷ 1 ∷ 1 ∷ []) ∷ map some (1 ∷ 1 ∷ 0 ∷ []) ∷ map some (1 ∷ 1 ∷ 1 ∷ []) ∷ [])
unfolding new initialize_mat build_u_matrix scale_u_matrix new_r_matrix sized new_r3d_matrix
    write_points sort cell put for at write_to_row write_to_cell initialize_points_memory reallocate
    copy_points memcpy
two_by_two = refl

three_by_three : built 3 (replicate 9 (1 ∷ [])) ≡ undefined
unfolding new initialize_mat build_u_matrix new_r_matrix sized new_r3d_matrix write_points sort cell
    put for at write_to_row write_to_cell initialize_points_memory reallocate copy_points memcpy
three_by_three = refl

abbrev large : UMat Bool ℕ
large = record small { xdim = 3; ydim = 3; uxdim = 5; uydim = 5 }

build_u_matrix-Fails_example : Fails (build_u_matrix counting large)
build_u_matrix-Fails_example = build_u_matrix-Fails counting large (omega arith) (omega arith)
