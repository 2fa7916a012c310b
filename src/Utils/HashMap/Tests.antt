-- ===== src/Utils/HashMap/Tests.antt =====
-- A hash map of three keys, two of which share a bucket.
use premir_cpp.Common.{
  ℕ, ◌+◌, ◌≡◌, refl, Bool, true, false, not, Option, none, some, arith, ◌==◌, ==_iff, if◌then◌else◌,
  is_some,
}
use premir_cpp.Common.Run.{Run, ok, ◌>>=◌, Returns}
use premir_cpp.Utils.HashEngine.Equality.{IsEquality-of_iff}
use premir_cpp.Utils.Memory.{malloc, realloc, memcpy}
use premir_cpp.Utils.HashEngine.{HashEngine, hash_index}
use premir_cpp.Utils.RdMatrix
use premir_cpp.Utils.HashMap.{HashMap, new, push_value, get_value, updated}
use premir_cpp.Utils.HashMap.Laws.{IsMap, new-IsMap, merged, push_value-get_value}

abbrev all_granted : ℕ → Bool
all_granted bytes = true

abbrev by_ten : HashEngine ℕ
by_ten = record { hash_code = λ k. k; index_size = 10 }

abbrev equal : ℕ → ℕ → Bool
equal a b = a == b

abbrev empty : HashMap ℕ ℕ
empty = new by_ten 16 32

abbrev adding : Option (ℕ → ℕ → ℕ)
adding = some (λ old new. old + new)

-- Keys 3 and 13 collide; key 3 is pushed twice, the second time with an updater.
abbrev session : Run (Option ℕ × Option ℕ × Option ℕ × Bool)
session = do
  (a, _) ← push_value equal all_granted empty 3 30 none
  (b, _) ← push_value equal all_granted a 13 130 none
  (c, added) ← push_value equal all_granted b 3 5 adding
  x ← get_value equal c 3
  y ← get_value equal c 13
  z ← get_value equal c 23
  ok (x, y, z, added)

session_result : session ≡ ok (some 35, some 130, none, false)
unfolding push_value get_value new RdMatrix.new RdMatrix.write_row RdMatrix.write_to_end_row
    RdMatrix.prepare_write_row RdMatrix.initialize_row_memory RdMatrix.initialize_points_memory
    RdMatrix.increase_row_points RdMatrix.next_capacity RdMatrix.reallocate malloc realloc memcpy
    hash_index updated
session_result = refl

push_value-get_value_example :
    Returns
      (λ (m', added).
        IsMap m'
        × (ok added ≡ (do old ← get_value equal empty 3; ok (not (is_some old))))
        × ((other : ℕ)
            → get_value equal m' other ≡ (
                if equal 3 other
                then (do old ← get_value equal empty 3; ok (some (merged none 30 old)))
                else get_value equal empty other)))
      (push_value equal all_granted empty 3 30 none)
push_value-get_value_example =
    push_value-get_value equal 3 30 none all_granted (λ bytes. refl) empty
      (new-IsMap by_ten 16 32 (omega arith)) (IsEquality-of_iff equal empty.engine ==_iff)
