-- ===== src/Utils/HashMapArray/Tests.antt =====
-- An array of two maps; keys 3 and 13 share a bucket.
use premir_cpp.Common.{
  ℕ, ◌+◌, ◌≡◌, refl, Bool, true, false, ◌&&◌, not, [], Option, none, some, arith, ◌==◌, ==_iff,
  if◌then◌else◌, is_some,
}
use premir_cpp.Common.Run.{Run, ok, ◌>>=◌, Returns, for}
use premir_cpp.Utils.HashEngine.Equality.{IsEquality-of_iff}
use premir_cpp.Utils.Memory.{malloc, realloc, memcpy}
use premir_cpp.Utils.HashEngine.{HashEngine, hash_index}
use premir_cpp.Utils.RdMatrix
use premir_cpp.Utils.R3dMatrix
use premir_cpp.Utils.R3dMatrix.Cells.{new-IsTable}
use premir_cpp.Utils.HashMap.{updated}
use premir_cpp.Utils.HashMap.Laws.{merged}
use premir_cpp.Utils.Bucket.{find_entry}
use premir_cpp.Utils.HashMapArray.{store_found, HashMapArray, new, push_value, get_value}
use premir_cpp.Utils.HashMapArray.GetValue.{IsMaps}
use premir_cpp.Utils.HashMapArray.PushValue.{array_push_value-get_value}

abbrev always : ℕ → Bool
always bytes = true

abbrev modulo_ten : HashEngine ℕ
modulo_ten = record { hash_code = λ k. k; index_size = 10 }

abbrev equal_keys : ℕ → ℕ → Bool
equal_keys a b = a == b

-- Row 1 gets three values, two of them for one key; row 4 makes the matrix higher.
abbrev run : Run (Option ℕ × Option ℕ × Option ℕ × Option ℕ × Bool)
run = do
  a ← new always 2 modulo_ten 16 32 24
  (b, _) ← push_value equal_keys always a 1 3 30 none
  (c, _) ← push_value equal_keys always b 1 13 130 none
  (d, added) ← push_value equal_keys always c 1 3 5 (some (λ old new. old + new))
  (e, _) ← push_value equal_keys always d 4 3 9 none
  w ← get_value equal_keys e 1 3
  x ← get_value equal_keys e 1 13
  y ← get_value equal_keys e 4 3
  z ← get_value equal_keys e 0 3
  ok (w, x, y, z, added)

run_result : run ≡ ok (some 35, some 130, some 9, none, false)
unfolding push_value get_value new for R3dMatrix.sized R3dMatrix.new R3dMatrix.write_points
    R3dMatrix.write_to_row R3dMatrix.write_to_cell R3dMatrix.write_new_cell R3dMatrix.copy_points
    R3dMatrix.initialize_points_memory R3dMatrix.initialize_cells_memory
    R3dMatrix.initialize_row_memory RdMatrix.reallocate malloc realloc memcpy hash_index updated
    find_entry store_found
run_result = refl

abbrev no_maps : HashMapArray ℕ ℕ
no_maps = record { matrix = R3dMatrix.new 16 32 24; engine = modulo_ten }

no_maps-IsMaps : IsMaps no_maps
no_maps-IsMaps = record { lists = λ r c. []; table = new-IsTable 16 32 24; buckets = omega arith }

array_push_value-get_value_example :
    Returns
      (λ (m', added).
        IsMaps m'
        × (ok added ≡ (do old ← get_value equal_keys no_maps 1 3; ok (not (is_some old))))
        × ((r' : ℕ) (other : ℕ)
            → get_value equal_keys m' r' other ≡ (
                if (1 == r') && equal_keys 3 other
                then (do old ← get_value equal_keys no_maps 1 3; ok (some (merged none 30 old)))
                else get_value equal_keys no_maps r' other)))
      (push_value equal_keys always no_maps 1 3 30 none)
array_push_value-get_value_example =
    array_push_value-get_value equal_keys 3 30 none always (λ bytes. refl) no_maps 1 no_maps-IsMaps
      (IsEquality-of_iff equal_keys modulo_ten ==_iff)
