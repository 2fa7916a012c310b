-- ===== src/Utils/R3dMatrix/Tests.antt =====
-- A matrix of two rows, and what the operations make of it.
use premir_cpp.Common.{
  ℕ, zero, suc, ◌≡◌, refl, Bool, true, false, List, [], ◌∷◌, some, none, get_elem?,
}
use premir_cpp.Common.Run.{Returns}
use premir_cpp.Utils.R3dMatrix.{R3dMatrix, Cell, write_points, remove_all_row_cells}
use premir_cpp.Utils.R3dMatrix.Cells.{IsCell, IsRow, IsTable, update}
use premir_cpp.Utils.R3dMatrix.WriteCell.{written}
use premir_cpp.Utils.R3dMatrix.WritePoints.{write_points-IsTable}
use premir_cpp.Utils.R3dMatrix.RemoveAll.{Bare, remove_all_row_cells-Bare}

abbrev granting : ℕ → Bool
granting bytes = true

abbrev first_cell : Cell Bool Bool ℕ
first_cell = record { point_size = 2; content = none; points = some 5 ∷ some 6 ∷ [] }

-- Row 0 has the points 5, 6 in its one cell; row 1 has no cell.
abbrev two_rows : R3dMatrix Bool Bool ℕ
two_rows = record {
  matrix =
      record { cell_size = 1; content = none; cells = first_cell ∷ [] }
      ∷ record { cell_size = 0; content = none; cells = [] }
      ∷ [];
  row_size = 2;
  t_type_sizeof = 8;
  row_type_sizeof = 24;
  cell_type_sizeof = 24;
}

abbrev table : ℕ → ℕ → List ℕ
table zero zero = 5 ∷ 6 ∷ []
table zero (suc c) = []
table (suc r) c = []

first_row-cells : (c : ℕ) → IsCell (table 0 c) (get_elem? (first_cell ∷ []) c)
first_row-cells zero = (refl, refl)
first_row-cells (suc c) = refl

two_rows-rows : (r : ℕ) → IsRow (table r) (get_elem? two_rows.matrix r)
two_rows-rows zero = (refl, first_row-cells)
two_rows-rows (suc zero) = (refl, λ c. refl)
two_rows-rows (suc (suc r)) = λ c. refl

two_rows-IsTable : IsTable table two_rows
two_rows-IsTable = record { height = refl; rows = two_rows-rows }

write_points-IsTable_example :
    Returns
      (λ m'. IsTable (update table 0 0 (written (5 ∷ 6 ∷ []) (7 ∷ []) false)) m')
      (write_points granting two_rows 0 0 (7 ∷ []) 1 false)
write_points-IsTable_example =
    write_points-IsTable granting (λ bytes. refl) table two_rows 0 0 (7 ∷ []) false two_rows-IsTable

written_result : written {T = ℕ} (5 ∷ 6 ∷ []) (7 ∷ []) false ≡ 7 ∷ 6 ∷ []
unfolding written
written_result = refl

remove_all_row_cells-Bare_example : Returns (Bare 2) (remove_all_row_cells two_rows)
remove_all_row_cells-Bare_example = remove_all_row_cells-Bare table two_rows two_rows-IsTable
