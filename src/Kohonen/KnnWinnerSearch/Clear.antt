-- ===== src/Kohonen/KnnWinnerSearch/Clear.antt =====
-- The first loop of the search, which empties all places.
use premir_cpp.Common.{
  ℕ, ◌-◌, ◌≤◌, ◌<◌, ◌≡◌, refl, ap, ◌∙◌, ◌++◌, none, some, map, arith, ltb, if◌then◌else◌, get_elem?,
  length, drop, replicate, lt→ltb, get_elem?-set, length-set, length-replicate,
}
use premir_cpp.Common.All.{get_elem?-drop, eq_of_get_elem?}
use premir_cpp.Common.Growth.{get_elem?-replicate}
use premir_cpp.Common.Run.{ok, Returns, returns, Returns-result, for-Returns}
use premir_cpp.Utils.Memory.{Block}
use premir_cpp.Kohonen.EuclideanWinnerSearch.{Double, WinnerInfo}
use premir_cpp.Kohonen.KnnWinnerSearch.{clear_winners, write_winner}
use premir_cpp.Kohonen.KnnWinnerSearch.Insert.{get_elem?-begun}

module _ {D : Type 0} (double : Double D) where
  abbrev pub no_winner : WinnerInfo D
  no_winner = record { diff = double.max_value; index = none }

  -- After `n` rounds of the first loop.
  record Cleared (winners : Block (WinnerInfo D)) (n : ℕ) (cleared : Block (WinnerInfo D))
      : Type 0 where
    same_length : length cleared ≡ length winners
    cells :
        (i : ℕ)
        → get_elem? cleared i ≡ (if ltb i n then some (some no_winner) else get_elem? winners i)

  clear_winners-Cleared :
      (k : ℕ) (winners : Block (WinnerInfo D))
      → k ≤ length winners
      → Returns (Cleared winners k) (clear_winners double k winners)
  unfolding clear_winners write_winner
  clear_winners-Cleared k winners room =
      for-Returns (Cleared winners) _ 0 k k 0 winners (omega arith) (omega arith)
        (record { same_length = refl; cells = λ i. ground arith })
        (λ n cleared from below c.
          let inside : n < length cleared = omega (arith, c.same_length, room, below) in
          rw (lt→ltb n (length cleared) inside) (
            returns (record {
              same_length = length-set cleared n (some no_winner) ∙ c.same_length;
              cells =
                  λ i. ground (arith, c.cells i, get_elem?-set cleared n i (some no_winner) inside);
            })))

  pub clear_winners-eq :
      (k : ℕ) (winners : Block (WinnerInfo D))
      → k ≤ length winners
      → clear_winners double k winners ≡ ok (map some (replicate k no_winner) ++ drop k winners)
  clear_winners-eq k winners room =
      let (cleared, run, c) = Returns-result (clear_winners-Cleared k winners room) in
      run
      ∙ ap ok (
          eq_of_get_elem? _ _ (λ i. ground (
            arith,
            c.cells i,
            get_elem?-begun (replicate k no_winner) (drop k winners) i,
            length-replicate k no_winner,
            get_elem?-replicate k no_winner i,
            get_elem?-drop k winners (i - k),
            room,
          )))
