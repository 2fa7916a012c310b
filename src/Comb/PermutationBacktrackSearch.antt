-- ===== src/Comb/PermutationBacktrackSearch.antt =====
-- src/comb/PermutationBacktrackSearch.h, class `PermutationBacktrackSearch`. The trace that
-- `processSolution` prints is left out.
pub mod Candidates
pub mod Arrangements
pub mod Distinct
use premir_cpp.Common.{
  ℕ, zero, suc, ◌+◌, ◌-◌, ◌%◌, ◌^◌, Bool, true, false, List, [], ◌∷◌, ◌++◌, some, ltb, ◌==◌,
  if◌then◌else◌, length, replicate,
}
use premir_cpp.Common.Run.{Run, ok, undefined, ◌>>=◌}
use premir_cpp.Utils.Memory.{Block}
use premir_cpp.Utils.RdMatrix.{push_row}
use premir_cpp.Comb.BacktrackSearch.{BacktrackSearch, Results, read_cell, write_cell}

-- `treeDepth == (solutionSize - 1)`, where a size of 0 wraps.
unfoldable pub is_solution : Block ℕ → ℕ → ℕ → Bool
is_solution vector tree_depth size = tree_depth == (size + (2 ^ 64 - 1)) % 2 ^ 64

-- The loop of `processSolution`; `result` is the part of `resultVec` that is written.
unfoldable pub copy_solution : Block ℕ → (tree_depth rounds i : ℕ) → List ℕ → Run (List ℕ)
unfolding read_cell
copy_solution vector tree_depth zero i result = ok result
copy_solution vector tree_depth (suc rounds) i result = do
  x ← read_cell vector i
  let rest = copy_solution vector tree_depth rounds (suc i) (result ++ x ∷ [])
  if ltb (length result) tree_depth then rest else undefined

unfoldable pub process_solution : (ℕ → Bool) → Block ℕ → ℕ → ℕ → Results → Run Results
unfolding copy_solution push_row
process_solution grants vector tree_depth size results = do
  result ← copy_solution vector tree_depth tree_depth 0 []
  push_row grants results result (length result)

-- `inPerm[solutionsVector[i]] = true`, from index `i` on.
unfoldable pub mark : Block ℕ → (rounds i : ℕ) → Block Bool → Run (Block Bool)
unfolding read_cell write_cell
mark vector zero i in_perm = ok in_perm
mark vector (suc rounds) i in_perm = do
  x ← read_cell vector i
  marked ← write_cell in_perm x true
  mark vector rounds (suc i) marked

-- The elements from `i` on that are not marked become candidates.
unfoldable pub list_candidates : Block Bool → (rounds i : ℕ) → Block ℕ → ℕ → Run (Block ℕ × ℕ)
unfolding read_cell write_cell
list_candidates in_perm zero i candidates count = ok (candidates, count)
list_candidates in_perm (suc rounds) i candidates count = do
  marked ← read_cell in_perm i
  let next : Run (Block ℕ × ℕ) = do
    written ← write_cell candidates count i
    list_candidates in_perm rounds (suc i) written (suc count)
  let rest = list_candidates in_perm rounds (suc i) candidates count
  if marked then rest else next

unfoldable pub constract_candidates :
    (max_candidates : ℕ) → Block ℕ → ℕ → Block ℕ → ℕ → Run (Block ℕ × ℕ)
unfolding mark list_candidates
constract_candidates max_candidates vector tree_depth candidates size = do
  in_perm ← mark vector tree_depth 0 (replicate max_candidates (some false))
  list_candidates in_perm size 0 candidates 0

-- The constructor.
unfoldable pub new : (ℕ → Bool) → (max_candidates : ℕ) → BacktrackSearch ℕ
unfolding is_solution process_solution constract_candidates
new grants max_candidates = record {
  finished = false;
  max_candidates = max_candidates;
  is_solution = is_solution;
  process_solution = process_solution grants;
  constract_candidates = constract_candidates max_candidates;
  make_move = λ vector tree_depth size. ok vector;
  unmake_move = λ vector tree_depth size. ok vector;
}
