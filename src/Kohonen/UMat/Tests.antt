-- ===== src/Kohonen/UMat/Tests.antt =====
-- The medians of small tables; the numbers stand for doubles.
use premir_cpp.Common.{ℕ, ◌+◌, ◌-◌, ◌*◌, ◌/◌, ◌≡◌, refl, [], ◌∷◌}
use premir_cpp.Common.Run.{ok, Returns, for}
use premir_cpp.Kohonen.EuclideanWinnerSearch.Tests.{by_value}
use premir_cpp.Kohonen.UMat.{Arithmetic, median3, median4, median5, median6, median7, bubble_sort}
use premir_cpp.Kohonen.UMat.Medians.{Entry, medians-Entry}

abbrev pub counting : Arithmetic ℕ
counting = record {
  order = by_value;
  add = λ a b. a + b;
  sub = λ a b. (a - b) + (b - a);
  mul = λ a b. a * b;
  div = λ a b. a / b;
  neg = λ a. 0;
  sqrt = λ a. a;
  number = λ n. n;
  max_value = 10000;
}

median7_result : median7 counting 9 1 8 2 7 3 6 ≡ ok 6
unfolding median7 bubble_sort for
median7_result = refl

-- Of four values the upper of the two in the middle.
median4_result : median4 counting 9 1 8 2 ≡ ok 8
unfolding median4 bubble_sort for
median4_result = refl

medians-Entry_example :
    Returns (Entry counting (9 ∷ 1 ∷ 8 ∷ 2 ∷ 7 ∷ 3 ∷ 6 ∷ []) 3) (median7 counting 9 1 8 2 7 3 6)
    × Returns (Entry counting (9 ∷ 1 ∷ 8 ∷ 2 ∷ 7 ∷ 3 ∷ []) 3) (median6 counting 9 1 8 2 7 3)
    × Returns (Entry counting (9 ∷ 1 ∷ 8 ∷ 2 ∷ 7 ∷ []) 2) (median5 counting 9 1 8 2 7)
    × Returns (Entry counting (9 ∷ 1 ∷ 8 ∷ 2 ∷ []) 2) (median4 counting 9 1 8 2)
    × Returns (Entry counting (9 ∷ 1 ∷ 8 ∷ []) 1) (median3 counting 9 1 8)
medians-Entry_example = medians-Entry counting 9 1 8 2 7 3 6
