-- ===== src/Kohonen/KnnWinnerSearch/Tests.antt =====
-- The two nearest of four neurons, in an array with room for three winners.
use premir_cpp.Common.{
  ℕ, ◌≡◌, refl, true, List, [], ◌∷◌, ◌++◌, none, some, map, arith, replicate, drop,
}
use premir_cpp.Common.Run.{ok, Returns, for}
use premir_cpp.Utils.Memory.{Block}
use premir_cpp.Kohonen.EuclideanWinnerSearch.{WinnerInfo, distance, distance_loop}
use premir_cpp.Kohonen.EuclideanWinnerSearch.Tests.{whole_numbers, sample_row}
use premir_cpp.Kohonen.KnnWinnerSearch.{search}
use premir_cpp.Kohonen.KnnWinnerSearch.Clear.{no_winner}
use premir_cpp.Kohonen.KnnWinnerSearch.Nearest.{Found, entries, search-Found}

abbrev neurons : List (List ℕ)
neurons = (9 ∷ 0 ∷ 1 ∷ []) ∷ (4 ∷ 77 ∷ 2 ∷ []) ∷ (5 ∷ 3 ∷ 3 ∷ []) ∷ (6 ∷ 3 ∷ 0 ∷ []) ∷ []

abbrev room : Block (WinnerInfo ℕ)
room = none ∷ some (record { diff = 7; index = some 9 }) ∷ none ∷ []

-- Of the neurons that are equally far, the last comes first.
search_result :
    search whole_numbers (map (map some) neurons) sample_row 3 2 room
    ≡ ok (
      true,
      some (record { diff = 2; index = some 3 })
          ∷ some (record { diff = 2; index = some 1 })
          ∷ none
          ∷ [],
    )
unfolding search distance distance_loop for
search_result = refl

search-Found_example :
    Returns
      (λ (fine, block).
        (fine ≡ true)
        × Found whole_numbers sample_row 2
            (entries whole_numbers sample_row 0 neurons ++ replicate 2 (no_winner whole_numbers))
            (drop 2 room)
            block)
      (search whole_numbers (map (map some) neurons) sample_row 3 2 room)
search-Found_example =
    search-Found whole_numbers sample_row neurons 2 room (refl, (refl, (refl, (refl, tt))))
      (omega arith) (omega arith) (omega arith)
