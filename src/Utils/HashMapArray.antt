-- ===== src/Utils/HashMapArray.antt =====
-- src/utils/HashMapArray.h, class `HashMapArray<K, V>`: one hash map to a row of an `R3DMatrix`, one
-- cell to a bucket. The pointer that `getValue` returns is given as the value that it points to.
pub mod GetValue
pub mod PushValue
mod Tests
use premir_cpp.Common.{
  ℕ, Bool, true, false, List, [], ◌∷◌, Option, none, some, ltb, if◌then◌else◌, set,
}
use premir_cpp.Common.Run.{Run, ok, ◌>>=◌}
use premir_cpp.Utils.HashEngine.{HashEngine, hash_index}
use premir_cpp.Utils.R3dMatrix
use premir_cpp.Utils.R3dMatrix.{
  Cell, R3dMatrix, get_row, put_row, get_cell, put_cell, sized, write_points,
}
use premir_cpp.Utils.Bucket.{find_entry}
use premir_cpp.Utils.HashMap.{MapEntry, value_pointer, updated}

pub record HashMapArray (K V : Type 0) : Type 0 where
  pub matrix : R3dMatrix Bool Bool (MapEntry K V)
  pub engine : HashEngine K

module _ {K V : Type 0} where
  -- The constructor, given `sizeof(MapEntry)`, `sizeof(Row)` and `sizeof(Cell)`.
  unfoldable pub new : (ℕ → Bool) → ℕ → HashEngine K → ℕ → ℕ → ℕ → Run (HashMapArray K V)
  new grants row_size engine t row cell = do
    matrix ← sized grants (R3dMatrix.new t row cell) row_size 0
    ok (record { matrix = matrix; engine = engine })

module _ {K V : Type 0} (same : K → K → Bool) where
  -- The end of `pushValue`, once the cell has been searched: the entry at `i` gets another value, or
  -- a new entry goes behind the others.
  unfoldable pub store_found :
      (ℕ → Bool)
      → HashMapArray K V
      → ℕ
      → ℕ
      → MapEntry K V
      → Option (V → V → V)
      → Option (ℕ × MapEntry K V)
      → Run (HashMapArray K V × Bool)
  unfolding get_row put_row get_cell put_cell
  store_found grants m row_index col_index entry updater none = do
    longer ← write_points grants m.matrix row_index col_index (entry ∷ []) 1 true
    ok (record m { matrix = longer }, true)
  store_found grants m row_index col_index entry updater (some (i, old)) = do
    row ← get_row m.matrix row_index
    cell ← get_cell row col_index
    let renewed = record old { value = updated updater old.value entry.value }
    let changed = record cell { points = set cell.points i (some renewed) }
    ok (record m { matrix = put_row m.matrix row_index (put_cell row col_index changed) }, false)

  -- `pushValue`.
  unfoldable pub push_value :
      (ℕ → Bool) → HashMapArray K V → ℕ → K → V → Option (V → V → V) → Run (HashMapArray K V × Bool)
  unfolding get_row get_cell
  push_value grants m row_index key value updater = do
    col_index ← hash_index m.engine key
    let entry : MapEntry K V = record { key = key; value = value }
    let first : Run (HashMapArray K V × Bool) = do
      longer ← write_points grants m.matrix row_index col_index (entry ∷ []) 1 false
      ok (record m { matrix = longer }, true)
    if ltb row_index m.matrix.row_size
        then (do
          row ← get_row m.matrix row_index
          let searched : Run (HashMapArray K V × Bool) = do
            cell ← get_cell row col_index
            found ← find_entry (λ old. same old.key key) cell.point_size 0 cell.points
            store_found grants m row_index col_index entry updater found
          if ltb col_index row.cell_size then searched else first)
        else first

  -- `getValue`.
  unfoldable pub get_value : HashMapArray K V → ℕ → K → Run (Option V)
  unfolding get_row get_cell
  get_value m row_index key =
      if ltb row_index m.matrix.row_size
      then (do
        col_index ← hash_index m.engine key
        row ← get_row m.matrix row_index
        let searched : Run (Option V) = do
          cell ← get_cell row col_index
          found ← find_entry (λ entry. same entry.key key) cell.point_size 0 cell.points
          elim found [ none ↦ ok none | some (i, entry) ↦ ok (some entry.value) ]
        if ltb col_index row.cell_size then searched else ok none)
      else ok none
