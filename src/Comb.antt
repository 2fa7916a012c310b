-- ===== src/Comb.antt =====
-- src/comb: search with backtracking.
pub mod BacktrackSearch
pub mod PermutationBacktrackSearch
pub mod SubsetBacktrackSearch
mod Tests
