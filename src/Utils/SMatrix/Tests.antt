-- ===== src/Utils/SMatrix/Tests.antt =====
-- A write to a small `SMatrix`.
use premir_cpp.Common.{ℕ, Bool, true, [], ◌∷◌, none, some, arith}
use premir_cpp.Utils.SMatrix.{SMatrix}
use premir_cpp.Utils.SMatrix.Cells.{HasShape}

abbrev all_granted : ℕ → Bool
all_granted bytes = true

abbrev small : SMatrix ℕ
small = record {
  matrix = (some 1 ∷ none ∷ []) ∷ (none ∷ some 4 ∷ []) ∷ [];
  row_size = 2;
  col_size = 2;
  type_sizeof = 8;
  ptype_sizeof = 8;
}

small-HasShape : HasShape 2 2 small
small-HasShape = grind arith
