-- ===== src/Comb/Tests.antt =====
-- Searches for the subsets of two elements, and for the arrangements of three.
use premir_cpp.Common.{
  List, ℕ, ◌+◌, ◌≡◌, refl, Bool, true, [], ◌∷◌, none, some, ◌≤◌, length, replicate, arith,
}
use premir_cpp.Common.Run.{Returns}
use premir_cpp.Utils.Memory.{Block}
use premir_cpp.Utils.RdMatrix.{RdMatrix}
use premir_cpp.Utils.RdMatrix
use premir_cpp.Utils.RdMatrix.Prepare.{new-IsStore}
use premir_cpp.Comb.BacktrackSearch.{Results, backtrack}
use premir_cpp.Comb.BacktrackSearch.Visits.{Pushed, Found, visits, backtrack-Found}
use premir_cpp.Comb.SubsetBacktrackSearch.{new}
use premir_cpp.Comb.SubsetBacktrackSearch.Subsets.{subsets, tree, Explores-tree, backtrack-subsets}
use premir_cpp.Comb.PermutationBacktrackSearch
use premir_cpp.Comb.PermutationBacktrackSearch.Arrangements
use premir_cpp.Comb.PermutationBacktrackSearch.Candidates.{has, unmarked}
use premir_cpp.Comb.PermutationBacktrackSearch.Distinct.{
  Every, IsArrangement, backtrack-IsArrangement,
}

abbrev all_granted : ℕ → Bool
all_granted bytes = true

abbrev vector : Block Bool
vector = replicate 2 none

abbrev empty : Results
empty = RdMatrix.new 8 40

of_two : subsets 0 2 ≡ (0 ∷ 1 ∷ []) ∷ (0 ∷ []) ∷ (1 ∷ []) ∷ [] ∷ []
unfolding subsets
of_two = refl

backtrack-subsets_example :
    Returns
      (λ (_, found). Pushed (λ r. []) 0 (subsets 0 2) found)
      (backtrack (new all_granted 2) 3 vector 0 2 empty)
unfolding RdMatrix.new
backtrack-subsets_example =
    backtrack-subsets all_granted (λ bytes. refl) 2 2 vector (λ r. []) empty (omega arith)
      (omega arith) (new-IsStore 8 40)

-- The search below the partial solution that takes the first of two elements.
backtrack-Found_example :
    Returns
      (Found
        (new all_granted 2)
        (tree 2)
        2
        2
        (λ p. length p ≤ 2)
        (Explores-tree all_granted (λ bytes. refl) 2 2 2 (omega arith) (omega arith))
        (true ∷ [])
        (λ r. [])
        empty.row_size
        (visits (tree 2) 2 (true ∷ [])))
      (backtrack (new all_granted 2) 2 (some true ∷ none ∷ []) 1 2 empty)
backtrack-Found_example =
    backtrack-Found (new all_granted 2) (tree 2) 2 2 (λ p. length p ≤ 2)
      (Explores-tree all_granted (λ bytes. refl) 2 2 2 (omega arith) (omega arith)) 2 (true ∷ [])
      (some true ∷ none ∷ []) (λ r. []) empty (omega arith) (omega arith)
      (record { begins = record { spare = none ∷ []; split = refl }; cells = refl })
      (new-IsStore 8 40)

abbrev places : Block ℕ
places = replicate 3 none

-- The arrangements of two of three numbers.
of_three :
    visits (Arrangements.tree 3) 4 []
    ≡ (0 ∷ 1 ∷ []) ∷ (0 ∷ 2 ∷ []) ∷ (1 ∷ 0 ∷ []) ∷ (1 ∷ 2 ∷ []) ∷ (2 ∷ 0 ∷ []) ∷ (2 ∷ 1 ∷ []) ∷ []
unfolding visits unmarked has
of_three = refl

backtrack-arrangements_example :
    Returns
      (λ (_, found).
        Pushed (λ r. []) empty.row_size (visits (Arrangements.tree 3) (3 + 1) []) found)
      (backtrack (PermutationBacktrackSearch.new all_granted 3) (3 + 1) places 0 3 empty)
backtrack-arrangements_example =
    Arrangements.backtrack-arrangements all_granted (λ bytes. refl) 3 3 places (λ r. []) empty
      (omega arith) (omega arith) (omega arith) (omega arith) (new-IsStore 8 40)

backtrack-IsArrangement_example :
    Returns
      (λ (_, found).
        (rows : List (List ℕ)) × Pushed (λ r. []) empty.row_size rows found
        × Every (IsArrangement 3) rows)
      (backtrack (PermutationBacktrackSearch.new all_granted 3) (3 + 1) places 0 3 empty)
backtrack-IsArrangement_example =
    backtrack-IsArrangement all_granted (λ bytes. refl) 3 3 places (λ r. []) empty (omega arith)
      (omega arith) (omega arith) (omega arith) (new-IsStore 8 40)
