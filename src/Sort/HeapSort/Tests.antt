-- ===== src/Sort/HeapSort/Tests.antt =====
-- HeapSort at concrete arrays.
use premir_cpp.Common.{ℕ, ◌≡◌, refl, List, [], ◌∷◌, arith, ltb}
use premir_cpp.Common.Run.{ok, undefined, Returns}
use premir_cpp.Sort.HeapSort.{Ordered, sort, sift_down}
use premir_cpp.Sort.HeapSort.Order.{DownInv, key}
use premir_cpp.Sort.HeapSort.SiftDown.{Sifted, sift_down-Sifted}
use premir_cpp.Sort.HeapSort.Sorted.{Sorts, sort-Sorts}

abbrev by_value : Ordered ℕ
by_value = record { gt = λ a b. ltb b a; rank = λ a. a; gt_lem = λ a b. refl }

abbrev numbers : List ℕ
numbers = 5 ∷ 1 ∷ 9 ∷ 3 ∷ 9 ∷ 0 ∷ []

sort-numbers : sort by_value numbers 6 ≡ ok (0 ∷ 1 ∷ 3 ∷ 5 ∷ 9 ∷ 9 ∷ [])
unfolding sort
sort-numbers = refl

-- Only the first four entries are sorted.
sort_prefix : sort by_value numbers 4 ≡ ok (1 ∷ 3 ∷ 5 ∷ 9 ∷ 9 ∷ 0 ∷ [])
unfolding sort
sort_prefix = refl

sort_too_far : sort by_value numbers 8 ≡ undefined
unfolding sort
sort_too_far = refl

sort-Sorts_example : Returns (Sorts by_value 4 numbers) (sort by_value numbers 4)
sort-Sorts_example = sort-Sorts by_value numbers 4 (omega arith)

abbrev bent : List ℕ
bent = 1 ∷ 7 ∷ 5 ∷ 2 ∷ []

bent-DownInv : DownInv by_value 0 4 bent 0
unfolding key
bent-DownInv = record { edges = grind arith; bridged = grind arith }

sift_down-Sifted_example : Returns (Sifted by_value 0 4 bent) (sift_down by_value bent 0 4)
sift_down-Sifted_example =
    sift_down-Sifted by_value bent 0 0 4 (omega arith) (omega arith) (omega arith) bent-DownInv
