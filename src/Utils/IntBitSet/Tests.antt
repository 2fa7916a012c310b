-- ===== src/Utils/IntBitSet/Tests.antt =====
-- A set of one byte, with the numbers 1 and 6 in it.
use premir_cpp.Common.{
  ℕ, zero, suc, ◌+◌, ◌*◌, ◌≡◌, ◌<◌, refl, Bool, true, false, ◌||◌, [], ◌∷◌, none, some, ◌==◌, arith,
  get_elem?,
}
use premir_cpp.Common.Run.{Run, ok, ◌>>=◌, undefined, out_of_memory, Returns}
use premir_cpp.Utils.IntBitSet.{IntBitSet, sized, add, remove, contains, increase, set_bit, has_bit}
use premir_cpp.Utils.IntBitSet.Sets.{IsByte, Holds, with_value, without_value}
use premir_cpp.Utils.IntBitSet.Adds.{add-contains, remove-contains, add-refused}

abbrev gives : ℕ → Bool
gives bytes = true

abbrev refuses : ℕ → Bool
refuses bytes = false

-- A session: 20 needs more bytes, and is taken out again.
abbrev adding_and_removing : Run (Bool × Bool × Bool × Bool)
adding_and_removing = do
  a ← sized gives 3
  (b, _) ← add gives a 2
  (c, _) ← add gives b 20
  (d, _) ← add gives c 7
  e ← remove d 20
  w ← contains d 20
  x ← contains e 20
  y ← contains e 7
  z ← contains e 100
  ok (w, x, y, z)

adding_and_removing_result : adding_and_removing ≡ ok (true, false, true, false)
unfolding sized add remove contains increase set_bit
adding_and_removing_result = refl

abbrev two_numbers : IntBitSet
two_numbers = record { bits = 66 ∷ []; char_count = 1 }

abbrev member : ℕ → Bool
member w = (w == 1) || (w == 6)

first_byte : (k : ℕ) → k < 8 → has_bit 66 k ≡ member (8 * 0 + k)
first_byte zero h = refl
first_byte (suc zero) h = refl
first_byte (suc (suc zero)) h = refl
first_byte (suc (suc (suc zero))) h = refl
first_byte (suc (suc (suc (suc zero)))) h = refl
first_byte (suc (suc (suc (suc (suc zero))))) h = refl
first_byte (suc (suc (suc (suc (suc (suc zero)))))) h = refl
first_byte (suc (suc (suc (suc (suc (suc (suc zero))))))) h = refl
first_byte (suc (suc (suc (suc (suc (suc (suc (suc k)))))))) h = absurd (omega (arith, h))

two_numbers-bytes : (i : ℕ) → IsByte member i (get_elem? two_numbers.bits i)
two_numbers-bytes zero = (omega arith, first_byte)
two_numbers-bytes (suc i) = λ k h. ground arith

two_numbers-Holds : Holds member two_numbers
two_numbers-Holds = record { count = refl; bytes = two_numbers-bytes }

add-contains_example :
    Returns
      (λ (s', thrown).
        Holds (with_value member 20) s'
        × (thrown ≡ none)
        × ((w : ℕ) → contains s' w ≡ ok (with_value member 20 w)))
      (add gives two_numbers 20)
add-contains_example = add-contains gives (λ bytes. refl) member two_numbers 20 two_numbers-Holds

remove-contains_example :
    Returns
      (λ s'.
        Holds (without_value member 6) s'
        × ((w : ℕ) → contains s' w ≡ ok (without_value member 6 w)))
      (remove two_numbers 6)
remove-contains_example = remove-contains member two_numbers 6 two_numbers-Holds

add-refused_example :
    Returns
      (λ (s', thrown). (thrown ≡ some out_of_memory) × (contains s' 20 ≡ undefined))
      (add refuses two_numbers 20)
add-refused_example = add-refused refuses member two_numbers 20 two_numbers-Holds (omega arith) refl
