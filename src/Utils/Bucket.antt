-- ===== src/Utils/Bucket.antt =====
-- What `pushValue` and `getValue` of src/utils/HashMap.h and `push`, `contains` and `getValue` of
-- src/utils/HashSet.h do alike with one row of their `RDMatrix`: they walk the entries of the row
-- (the collisions) to the first that has the key.
pub mod Search
pub mod Laws
use premir_cpp.Common.{
  ℕ, zero, suc, ◌+◌, Bool, true, false, List, [], ◌∷◌, Option, none, some, ltb, if◌then◌else◌,
  get_elem?, set,
}
use premir_cpp.Common.Run.{Run, ok, ◌>>=◌, defined}
use premir_cpp.Utils.Memory.{Block}
use premir_cpp.Utils.RdMatrix
use premir_cpp.Utils.RdMatrix.{Row, RdMatrix, write_row, write_to_end_row}

module _ {E : Type 0} (hit : E → Bool) where
  -- `for (i = 0; i < row.pointSize; ++i)` up to the first entry that is hit.
  unfoldable pub find_entry : ℕ → ℕ → Block E → Run (Option (ℕ × E))
  find_entry zero i points = ok none
  find_entry (suc rounds) i points =
      let rest = find_entry rounds (suc i) points in
      do
        content ← defined (get_elem? points i)
        entry ← defined content
        if hit entry then ok (some (i, entry)) else rest

  -- The lookup in row `row_index`.
  unfoldable pub look_up : RdMatrix Bool E → ℕ → Run (Option E)
  unfolding find_entry
  look_up matrix row_index =
      if ltb row_index matrix.row_size
      then (do
        row ← defined (get_elem? matrix.matrix row_index)
        found ← find_entry row.point_size 0 row.points
        elim found [ none ↦ ok none | some (i, entry) ↦ ok (some entry) ])
      else ok none

  -- The insertion once the search is done: the entry that is hit is changed by `renew`, and where
  -- there is none `fresh` is written behind the others. The flag says that it was.
  store_found :
      (ℕ → Bool)
      → (E → E)
      → E
      → RdMatrix Bool E
      → ℕ
      → Row Bool E
      → Option (ℕ × E)
      → Run (RdMatrix Bool E × Bool)
  store_found grants renew fresh matrix row_index row none = do
    longer ← write_to_end_row grants matrix row_index (fresh ∷ []) 1
    ok (longer, true)
  store_found grants renew fresh matrix row_index row (some (i, entry)) = ok (
    record matrix {
      matrix =
          set matrix.matrix row_index
            (record row { points = set row.points i (some (renew entry)) });
    },
    false,
  )

  -- The insertion into row `row_index`.
  unfoldable pub push_entry :
      (ℕ → Bool) → (E → E) → E → RdMatrix Bool E → ℕ → Run (RdMatrix Bool E × Bool)
  unfolding find_entry store_found
  push_entry grants renew fresh matrix row_index =
      if ltb row_index matrix.row_size
      then (do
        row ← defined (get_elem? matrix.matrix row_index)
        found ← find_entry row.point_size 0 row.points
        store_found grants renew fresh matrix row_index row found)
      else (do longer ← write_row grants matrix row_index (fresh ∷ []) 1; ok (longer, true))
