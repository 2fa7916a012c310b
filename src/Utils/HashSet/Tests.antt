-- ===== src/Utils/HashSet/Tests.antt =====
-- Small hash sets: values that share a bucket, and values with a part that is updated.
use mathlib.Core.Option.{some-injective}
use premir_cpp.Common.{
  ℕ, zero, suc, ◌+◌, ◌≤◌, ◌≡◌, refl, subst, Bool, true, false, not, List, [], ◌∷◌, Option, none,
  some, arith, ◌==◌, if◌then◌else◌, get_elem?,
}
use premir_cpp.Common.Run.{Run, ok, ◌>>=◌, Returns}
use premir_cpp.Utils.Memory.{malloc, realloc, memcpy}
use premir_cpp.Utils.HashEngine.{HashEngine, hash_index}
use premir_cpp.Utils.HashEngine.Equality.{IsEquality}
use premir_cpp.Utils.RdMatrix
use premir_cpp.Utils.RdMatrix.{Row}
use premir_cpp.Utils.RdMatrix.Rows.{IsRow}
use premir_cpp.Utils.RdMatrix.Prepare.{IsStore}
use premir_cpp.Utils.HashSet.{HashSet, new, push, get_value, contains, renewed}
use premir_cpp.Utils.HashSet.Laws.{IsHashSet, stored, push-get_value}

abbrev all_granted : ℕ → Bool
all_granted bytes = true

abbrev by_ten : HashEngine ℕ
by_ten = record { hash_code = λ k. k; index_size = 10 }

abbrev equal : ℕ → ℕ → Bool
equal a b = a == b

abbrev empty : HashSet ℕ
empty = new by_ten 8 32

abbrev session : Run (Bool × Bool × Bool × Bool)
session = do
  (a, _) ← push equal all_granted empty 3 none
  (b, _) ← push equal all_granted a 13 none
  (c, added) ← push equal all_granted b 3 none
  x ← contains equal c 3
  y ← contains equal c 13
  z ← contains equal c 23
  ok (x, y, z, added)

session_result : session ≡ ok (true, true, false, false)
unfolding push contains new RdMatrix.new RdMatrix.write_row RdMatrix.write_to_end_row
    RdMatrix.prepare_write_row RdMatrix.initialize_row_memory RdMatrix.initialize_points_memory
    RdMatrix.increase_row_points RdMatrix.next_capacity RdMatrix.reallocate malloc realloc memcpy
    hash_index renewed
session_result = refl

-- A label with a count, of which `operator==` and the hash code read the label, and an updater that
-- raises the count.
abbrev Counted : Type 0
Counted = ℕ × ℕ

abbrev by_label : HashEngine Counted
by_label = record { hash_code = λ k. k.0; index_size = 10 }

abbrev same_label : Counted → Counted → Bool
same_label a b = a.0 == b.0

abbrev count_up : Option (Counted → Counted → Counted)
count_up = some (λ old value. (old.0, old.1 + 1))

abbrev counted : Run (Option Counted × Bool × Option Counted)
counted = do
  (a, _) ← push same_label all_granted (new by_label 8 32) (3, 1) count_up
  (b, _) ← push same_label all_granted a (3, 1) count_up
  (c, added) ← push same_label all_granted b (3, 1) count_up
  x ← get_value same_label c (3, 0)
  y ← get_value same_label c (13, 0)
  ok (x, added, y)

counted_result : counted ≡ ok (some (3, 3), false, none)
unfolding push get_value new RdMatrix.new RdMatrix.write_row RdMatrix.write_to_end_row
    RdMatrix.prepare_write_row RdMatrix.initialize_row_memory RdMatrix.initialize_points_memory
    RdMatrix.increase_row_points RdMatrix.next_capacity RdMatrix.reallocate malloc realloc memcpy
    hash_index renewed
counted_result = refl

-- The set of one value, with the label 0.
abbrev one_value : HashSet Counted
one_value = record {
  matrix = record (RdMatrix.new 8 32) {
    matrix =
        record { point_size = 1; point_capacity = 1; content = none; points = some (0, 5) ∷ [] }
        ∷ [];
    row_size = 1;
    row_capacity = 1;
  };
  engine = by_label;
}

one_value-IsHashSet : IsHashSet one_value
unfolding RdMatrix.new
one_value-IsHashSet = record { lists = lists; store = store; buckets = omega arith }
  where
    lists : ℕ → List Counted
    lists zero = (0, 5) ∷ []
    lists (suc r) = []

    store : IsStore lists one_value.matrix
    store = record { height = refl; within = omega arith; rows = rows; beyond = beyond }
      where
        rows :
            (r : ℕ) (row : Row Bool Counted)
            → get_elem? one_value.matrix.matrix r ≡ some row
            → IsRow (lists r) row
        rows zero row e =
            subst (IsRow ((0, 5) ∷ [])) (some-injective _ _ e)
              (record { count = refl; cells = refl; begins = record { spare = []; split = refl } })
        rows (suc r) row e = cc

        beyond : (r : ℕ) → 1 ≤ r → lists r ≡ []
        beyond zero h = absurd (omega arith)
        beyond (suc r) h = refl

same_label-IsEquality : IsEquality same_label by_label
same_label-IsEquality = record {
  reflexive = λ a. ground arith;
  symmetric = λ a b e. ground (arith, e);
  transitive = λ a b c e f. ground (arith, e, f);
  hashed = λ a b e. ground (arith, e);
}

push-get_value_example :
    Returns
      (λ (s', added).
        IsHashSet s'
        × (ok added ≡ (do old ← contains same_label one_value (0, 1); ok (not old)))
        × ((other : Counted)
            → get_value same_label s' other ≡ (
                if same_label (0, 1) other
                then (do
                  old ← get_value same_label one_value (0, 1)
                  ok (some (stored same_label count_up (0, 1) old)))
                else get_value same_label one_value other)))
      (push same_label all_granted one_value (0, 1) count_up)
unfolding renewed
push-get_value_example =
    push-get_value same_label all_granted (λ bytes. refl) one_value (0, 1) count_up
      one_value-IsHashSet same_label-IsEquality (λ old e. e)
