-- ===== src/Kohonen/EuclideanWinnerSearch/Tests.antt =====
-- Three neurons and samples of which the middle one is skipped; the numbers stand for doubles.
use premir_cpp.Common.{
  ℕ, ◌+◌, ◌-◌, ◌*◌, ◌≡◌, refl, true, false, List, [], ◌∷◌, none, some, map, arith, ltb,
}
use premir_cpp.Common.Run.{ok, Returns}
use premir_cpp.Sort.HeapSort.{Ordered}
use premir_cpp.Kohonen.EuclideanWinnerSearch.{
  Double, DataSample, search, search_from, distance, distance_loop,
}
use premir_cpp.Kohonen.EuclideanWinnerSearch.Nearest.{Winner, search-Winner}

abbrev pub by_value : Ordered ℕ
by_value = record { gt = λ a b. ltb b a; rank = λ a. a; gt_lem = λ a b. refl }

abbrev pub whole_numbers : Double ℕ
whole_numbers = record {
  order = by_value;
  add = λ a b. a + b;
  sub = λ a b. (a - b) + (b - a);
  mul = λ a b. a * b;
  nought = 0;
  minus_one = 0;
  max_value = 10000;
  add_square_le = λ a x. omega arith;
}

abbrev pub sample_row : List (DataSample ℕ)
sample_row =
    record { value = 5; skipped = false }
    ∷ record { value = 0; skipped = true }
    ∷ record { value = 1; skipped = false }
    ∷ []

abbrev neurons : List (List ℕ)
neurons = (9 ∷ 0 ∷ 1 ∷ []) ∷ (4 ∷ 77 ∷ 2 ∷ []) ∷ (6 ∷ 3 ∷ 0 ∷ []) ∷ []

abbrev skipped_row : List (DataSample ℕ)
skipped_row =
    record { value = 5; skipped = true }
    ∷ record { value = 0; skipped = true }
    ∷ record { value = 1; skipped = true }
    ∷ []

-- The last two neurons are equally near, and the first of them wins.
search_result :
    search whole_numbers (map (map some) neurons) sample_row 3
    ≡ ok (true, record { diff = 2; index = some 1 })
unfolding search search_from distance distance_loop
search_result = refl

search-Winner_example :
    Returns
      (λ (fine, found).
        (fine ≡ true)
        × Winner whole_numbers sample_row neurons 0 10000 (record { diff = 0; index = none }) found)
      (search whole_numbers (map (map some) neurons) sample_row 3)
search-Winner_example =
    search-Winner whole_numbers sample_row neurons (refl, (refl, (refl, tt))) (omega arith)

-- With every sample skipped there is no winner.
skipped_result :
    search whole_numbers (map (map some) neurons) skipped_row 3
    ≡ ok (false, record { diff = 0; index = none })
unfolding search search_from distance distance_loop
skipped_result = refl
