-- ===== src/Kohonen/HexaUMat/Tests.antt =====
-- The same small maps as rectangular ones, as hexagonal ones.
use premir_cpp.Common.{ℕ, ◌≡◌, refl, arith, true, List, [], ◌∷◌, Option, some, map, replicate}
use premir_cpp.Common.Run.{Run, ok, ◌>>=◌, Returns, for}
use premir_cpp.Sort.HeapSort.{sort}
use premir_cpp.Utils.R3dMatrix.{
  sized, write_points, write_to_row, write_to_cell, initialize_points_memory, copy_points, at,
  new as new_r3d_matrix,
}
use premir_cpp.Utils.RdMatrix.{reallocate}
use premir_cpp.Utils.Memory.{memcpy}
use premir_cpp.Utils.RMatrix.{Row, cell, put, new as new_r_matrix}
use premir_cpp.Utils.RMatrix.Grid.{Filled}
use premir_cpp.Kohonen.UMat.{
  UMat, new, initialize_mat, scale_u_matrix, median3, median4, median5, median7,
}
use premir_cpp.Kohonen.UMat.Tests.{counting}
use premir_cpp.Kohonen.RectUMat.Tests.{small, value, small-Shows, trained, u_values}
use premir_cpp.Kohonen.HexaUMat.Build.{neuron_cells, medians, build_u_matrix}
use premir_cpp.Kohonen.HexaUMat.Build.Neurons.{Neurons, medians-Neurons}
use premir_cpp.Kohonen.HexaUMat.Smooth.{read_cells, average_u_matrix, median_u_matrix}
use premir_cpp.Kohonen.HexaUMat.Smooth.Paint.{Smoothed}
use premir_cpp.Kohonen.HexaUMat.Smooth.Hexagons.{IsMean, average_u_matrix-hexagons}

median_result :
    (median_u_matrix counting (λ n. true) 8 16 small >>= λ m. ok (u_values m))
    ≡ ok (map some (3 ∷ 3 ∷ 6 ∷ []) ∷ map some (3 ∷ 6 ∷ 3 ∷ []) ∷ map some (3 ∷ 3 ∷ 3 ∷ []) ∷ [])
unfolding median_u_matrix new_r_matrix for cell median7 put median5 median3 median4
median_result = refl

average_u_matrix-hexagons_example :
    Returns
      (λ (smoothed : UMat _ ℕ).
        Filled (Smoothed (IsMean counting small value small-Shows) 3 3) 3 3 smoothed.u_matrix)
      (average_u_matrix counting (λ n. true) 8 16 small)
average_u_matrix-hexagons_example =
    average_u_matrix-hexagons counting (λ n. true) (λ n. refl) 8 16 small value small-Shows

medians_result :
    (medians counting small small.u_matrix >>= λ u.
    ok (map (λ (row : Row _ ℕ). row.points) u.matrix))
    ≡ ok (map some (3 ∷ 6 ∷ 6 ∷ []) ∷ map some (0 ∷ 3 ∷ 6 ∷ []) ∷ map some (0 ∷ 0 ∷ 3 ∷ []) ∷ [])
unfolding medians sort for cell put read_cells neuron_cells
medians_result = refl

abbrev built : List (List ℕ) → Run (List (List (Option ℕ)))
built codes = do m ← trained 3 codes; whole ← build_u_matrix counting m; ok (u_values whole)

three_by_three :
    built (map (λ n. n ∷ []) (1 ∷ 4 ∷ 2 ∷ 9 ∷ 5 ∷ 7 ∷ 3 ∷ 8 ∷ 6 ∷ []))
    ≡ ok (map (map some) ((1 ∷ 0 ∷ 1 ∷ 1 ∷ 1 ∷ []) ∷ replicate 4 (1 ∷ 1 ∷ 1 ∷ 1 ∷ 1 ∷ [])))
unfolding new initialize_mat build_u_matrix medians scale_u_matrix new_r_matrix sized new_r3d_matrix
    write_points sort cell put for at write_to_row write_to_cell initialize_points_memory reallocate
    copy_points memcpy read_cells neuron_cells
three_by_three = refl

medians-Neurons_example :
    Returns (Neurons counting 3 3 value (λ a b. true)) (medians counting small small.u_matrix)
medians-Neurons_example =
    medians-Neurons counting small value (omega arith) (omega arith) small.u_matrix (record {
      shape = small-Shows.shape;
      between = λ a b ha hb odd. small-Shows.cells a b ha hb;
      middles = λ a b ha hb own e. absurd (ground (arith, e));
    })
