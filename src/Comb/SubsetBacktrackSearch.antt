-- ===== src/Comb/SubsetBacktrackSearch.antt =====
-- src/comb/SubsetBacktrackSearch.h, class `SubsetBacktrackSearch`.
pub mod Subsets
use premir_cpp.Common.{
  ℕ, zero, suc, ◌+◌, Bool, true, false, List, [], ◌∷◌, ◌++◌, ltb, ◌==◌, if◌then◌else◌, length,
}
use premir_cpp.Common.Run.{Run, ok, undefined, ◌>>=◌}
use premir_cpp.Utils.Memory.{Block}
use premir_cpp.Utils.RdMatrix.{push_row}
use premir_cpp.Comb.BacktrackSearch.{BacktrackSearch, Results, read_cell, write_cell}

-- The loop of `processSolution`. `result` is the part of `resultVec` that is written, so its length
-- is `resultLen`; the array has `tree_depth` cells.
unfoldable pub collect : Block Bool → (tree_depth rounds i : ℕ) → List ℕ → Run (List ℕ)
unfolding read_cell
collect vector tree_depth zero i result = ok result
collect vector tree_depth (suc rounds) i result = do
  chosen ← read_cell vector i
  let taken : Run (List ℕ) =
      if ltb (length result) tree_depth
      then collect vector tree_depth rounds (suc i) (result ++ i ∷ [])
      else undefined
  let skipped = collect vector tree_depth rounds (suc i) result
  if chosen then taken else skipped

unfoldable pub process_solution : (ℕ → Bool) → Block Bool → ℕ → ℕ → Results → Run Results
unfolding collect push_row
process_solution grants vector tree_depth size results = do
  result ← collect vector tree_depth tree_depth 0 []
  push_row grants results result (length result)

unfoldable pub constract_candidates : Block Bool → ℕ → Block Bool → ℕ → Run (Block Bool × ℕ)
unfolding write_cell
constract_candidates vector tree_depth candidates size = do
  one ← write_cell candidates 0 true
  both ← write_cell one 1 false
  ok (both, 2)

-- The constructor.
unfoldable pub new : (ℕ → Bool) → (max_candidates : ℕ) → BacktrackSearch Bool
unfolding process_solution constract_candidates
new grants max_candidates = record {
  finished = false;
  max_candidates = max_candidates;
  is_solution = λ vector tree_depth size. tree_depth == size;
  process_solution = process_solution grants;
  constract_candidates = constract_candidates;
  make_move = λ vector tree_depth size. ok vector;
  unmake_move = λ vector tree_depth size. ok vector;
}
