-- ===== src/Comb/BacktrackSearch.antt =====
-- src/comb/BacktrackSearch.h, class `BacktrackSearch<T>`. Its virtual methods are the fields of a
-- record, which a subclass fills. No method changes `finished`, which the base class clears.
pub mod Visits
use premir_cpp.Common.{
  ℕ, zero, suc, ◌+◌, Bool, List, none, some, ltb, if◌then◌else◌, length, get_elem?, set, replicate,
}
use premir_cpp.Common.Run.{Run, ok, undefined, out_of_fuel, ◌>>=◌, defined}
use premir_cpp.Utils.Memory.{Block}
use premir_cpp.Utils.RdMatrix.{RdMatrix}

-- `utils::RDMatrix<bool, size_t>`, where the solutions are collected.
abbrev pub Results : Type 0
Results = RdMatrix Bool ℕ

-- Each method gets the solutions vector, the tree depth and the size of a solution;
-- `constract_candidates` also the array for the candidates, which it returns with their number.
pub record BacktrackSearch (T : Type 0) : Type 0 where
  pub finished : Bool
  pub max_candidates : ℕ
  pub is_solution : Block T → ℕ → ℕ → Bool
  pub process_solution : Block T → ℕ → ℕ → Results → Run Results
  pub constract_candidates : Block T → ℕ → Block T → ℕ → Run (Block T × ℕ)
  pub make_move : Block T → ℕ → ℕ → Run (Block T)
  pub unmake_move : Block T → ℕ → ℕ → Run (Block T)

module _ {T : Type 0} where
  unfoldable pub read_cell : Block T → ℕ → Run T
  read_cell block i = do content ← defined (get_elem? block i); defined content

  unfoldable pub write_cell : Block T → ℕ → T → Run (Block T)
  write_cell block i x = if ltb i (length block) then ok (set block i (some x)) else undefined

module _ {T : Type 0} (search : BacktrackSearch T) where
  -- The loop over the candidates from index `i` on; `descend` is the recursive call.
  unfoldable pub try_candidates :
      (Block T → Results → Run (Block T × Results))
      → (candidates : Block T) (depth size rounds i : ℕ) → Block T
      → Results
      → Run (Block T × Results)
  unfolding read_cell write_cell
  try_candidates descend candidates depth size zero i vector results = ok (vector, results)
  try_candidates descend candidates depth size (suc rounds) i vector results = do
    candidate ← read_cell candidates i
    placed ← write_cell vector depth candidate
    moved ← search.make_move placed depth size
    (returned, found) ← descend moved results
    back ← search.unmake_move returned depth size
    let rest = try_candidates descend candidates depth size rounds (suc i) back found
    if search.finished then ok (back, found) else rest

  -- `backtrack`, on fuel for the levels of the tree.
  unfoldable pub backtrack : ℕ → Block T → (depth size : ℕ) → Results → Run (Block T × Results)
  unfolding try_candidates
  backtrack zero vector depth size results = out_of_fuel
  backtrack (suc k) vector depth size results =
      let descend : Run (Block T × Results) = do
        (candidates, count) ←
            search.constract_candidates vector depth (replicate search.max_candidates none) size
        try_candidates (λ v r. backtrack k v (depth + 1) size r) candidates depth size count 0
            vector results
      in if search.is_solution vector depth size
        then (do found ← search.process_solution vector depth size results; ok (vector, found))
        else descend
