-- ===== src/Kohonen/KnnWinnerSearch.antt =====
-- src/kohonen/winner/KnnWinnerSearch.h: the search for the `winners_size` nearest neurons, with the
-- distance of DefaultWinnerDistance.h. The caller's array of winners is a block of memory. The
-- messages to the log are left out.
pub mod Place
pub mod Clear
mod Tests
pub mod Nearest
pub mod Insert
use premir_cpp.Common.{
  ℕ, zero, suc, ◌+◌, ◌-◌, Bool, true, false, List, [], ◌∷◌, none, some, ltb, if◌then◌else◌,
  get_elem?, length, set,
}
use premir_cpp.Common.Run.{Run, ok, undefined, ◌>>=◌, defined, for}
use premir_cpp.Utils.Memory.{Block}
use premir_cpp.Kohonen.EuclideanWinnerSearch.{Double, DataSample, WinnerInfo, distance}

module _ {D : Type 0} where
  -- `winners[i]` as a value, and as the target of an assignment.
  winner_at : Block (WinnerInfo D) → ℕ → Run (WinnerInfo D)
  winner_at winners i = do content ← defined (get_elem? winners i); defined content

  write_winner : Block (WinnerInfo D) → ℕ → WinnerInfo D → Run (Block (WinnerInfo D))
  write_winner winners i winner =
      if ltb i (length winners) then ok (set winners i (some winner)) else undefined

module _ {D : Type 0} (double : Double D) where
  -- `winners[i].index = -1; winners[i].diff = maxDifference;`
  pub clear_winners : ℕ → Block (WinnerInfo D) → Run (Block (WinnerInfo D))
  unfolding write_winner for
  clear_winners winners_size winners =
      for winners_size 0
        (λ i cleared. write_winner cleared i (record { diff = double.max_value; index = none }))
        winners

  -- `for (i = 0; (i < knn) && (difference > winners[i].diff); ++i) lastWinnerNumber++;`
  last_winner_number : ℕ → ℕ → D → Block (WinnerInfo D) → ℕ → Run ℕ
  unfolding winner_at
  last_winner_number zero i difference winners last = ok last
  last_winner_number (suc rounds) i difference winners last = do
    let rest = last_winner_number rounds (suc i) difference winners
    winner ← winner_at winners i
    if double.order.gt difference winner.diff then rest (last + 1) else ok last

  -- `for (j = knn - 1; j > lastWinnerNumber; j--) winners[j] = winners[j - 1];`, where `rounds` is
  -- how far `j` is above `lastWinnerNumber`.
  shift_winners : ℕ → ℕ → Block (WinnerInfo D) → Run (Block (WinnerInfo D))
  unfolding winner_at write_winner
  shift_winners zero last winners = ok winners
  shift_winners (suc rounds) last winners = do
    let rest = shift_winners rounds last
    winner ← winner_at winners (last + rounds)
    moved ← write_winner winners (last + suc rounds) winner
    rest moved

  -- The neuron `r` among the winners.
  unfoldable pub insert_winner : ℕ → D → ℕ → Block (WinnerInfo D) → Run (Block (WinnerInfo D))
  unfolding last_winner_number shift_winners write_winner winner_at
  insert_winner knn difference r winners = do
    last ← last_winner_number knn 0 difference winners 0
    if ltb last knn
        then (do
          shifted ← shift_winners (knn - 1 - last) last winners
          write_winner shifted last (record { diff = difference; index = some r }))
        else ok winners

  -- The loop of `search`, from the neuron `r` on: what `search` returns there, and the winners.
  unfoldable pub search_from :
      List (Block D)
      → ℕ
      → List (DataSample D)
      → ℕ
      → ℕ
      → Block (WinnerInfo D)
      → Run (Bool × Block (WinnerInfo D))
  unfolding insert_winner
  search_from [] r samples dim knn winners = ok (true, winners)
  search_from (codes ∷ som_codes) r samples dim knn winners = do
    let rest = search_from som_codes (suc r) samples dim knn
    (fine, difference) ← distance double codes samples dim double.max_value
    if fine then (insert_winner knn difference r winners >>= rest) else ok (false, winners)

  -- `search`. The test `winners[0].index < 0` after the loop only decides on a message.
  unfoldable pub search :
      List (Block D)
      → List (DataSample D)
      → ℕ
      → ℕ
      → Block (WinnerInfo D)
      → Run (Bool × Block (WinnerInfo D))
  unfolding search_from clear_winners winner_at
  search som_codes samples dim winners_size winners = do
    cleared ← clear_winners winners_size winners
    (fine, found) ← search_from som_codes 0 samples dim winners_size cleared
    if fine then (do first ← winner_at found 0; ok (true, found)) else ok (false, found)
