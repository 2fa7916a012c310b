-- ===== src/Kohonen/EuclideanWinnerSearch.antt =====
-- src/kohonen/winner: EuclideanWinnerSearch.h with DefaultWinnerDistance.h, over `WinnerInfo` of
-- WinnerSearch.h and `DataSample` of src/models/models.h. A neuron's codes are a block of memory, and
-- the codes of the map the list of the blocks. The messages to the log are left out.
pub mod Distance
pub mod Nearest
pub mod Tests
use premir_cpp.Common.{
  ℕ, zero, suc, ◌+◌, ◌≤◌, Bool, true, false, List, [], ◌∷◌, Option, none, some, ◌==◌, if◌then◌else◌,
  not, get_elem?,
}
use premir_cpp.Common.Run.{Run, ok, ◌>>=◌, defined}
use premir_cpp.Utils.Memory.{Block}
use premir_cpp.Sort.HeapSort.{Ordered}

-- What the code takes from `double`, without NaN: the comparison, the operations, and that adding a
-- square makes no number less, which rounding respects.
pub record Double (D : Type 0) : Type 0 where
  pub order : Ordered D
  pub add : D → D → D
  pub sub : D → D → D
  pub mul : D → D → D
  pub nought : D
  pub minus_one : D
  pub max_value : D
  pub add_square_le : (a x : D) → order.rank a ≤ order.rank (add a (mul x x))

pub record DataSample (D : Type 0) : Type 0 where
  pub value : D
  pub skipped : Bool

-- The index -1, for no winner, is `none`.
pub record WinnerInfo (D : Type 0) : Type 0 where
  pub diff : D
  pub index : Option ℕ

module _ {D : Type 0} (double : Double D) where
  -- The loop of `DefaultWinnerDistance::distance`: the number of skipped samples and the difference.
  unfoldable pub distance_loop : ℕ → ℕ → Block D → List (DataSample D) → D → ℕ → D → Run (ℕ × D)
  distance_loop zero i codes samples max_difference masked difference = ok (masked, difference)
  distance_loop (suc rounds) i codes samples max_difference masked difference = do
    let rest = distance_loop rounds (suc i) codes samples max_difference
    sample ← defined (get_elem? samples i)
    let read : Run D = do content ← defined (get_elem? codes i); defined content
    if sample.skipped then rest (masked + 1) difference else (do
      code ← read
      let diff = double.sub code sample.value
      let now = double.add difference (double.mul diff diff)
      if double.order.gt now max_difference then ok (masked, now) else rest masked now)

  -- `distance`: what it returns, and the difference that it sets.
  unfoldable pub distance : Block D → List (DataSample D) → ℕ → D → Run (Bool × D)
  unfolding distance_loop
  distance codes samples dim max_difference = do
    (masked, difference) ← distance_loop dim 0 codes samples max_difference 0 double.nought
    ok (not (masked == dim), difference)

  -- The loop of `search`, from the neuron `r` on: what `search` returns, and the winner.
  unfoldable pub search_from :
      List (Block D) → ℕ → List (DataSample D) → ℕ → D → WinnerInfo D → Run (Bool × WinnerInfo D)
  search_from [] r samples dim max_difference winner = ok (true, winner)
  search_from (codes ∷ som_codes) r samples dim max_difference winner = do
    let rest = search_from som_codes (suc r) samples dim
    (fine, difference) ← distance codes samples dim max_difference
    if fine
        then (if double.order.gt max_difference difference
            then rest difference (record { diff = difference; index = some r })
            else rest max_difference winner)
        else ok (false, winner)

  unfoldable pub search : List (Block D) → List (DataSample D) → ℕ → Run (Bool × WinnerInfo D)
  unfolding search_from
  search som_codes samples dim =
      search_from som_codes 0 samples dim double.max_value
        (record { diff = double.minus_one; index = none })
