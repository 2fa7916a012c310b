-- ===== src/Ml.antt =====
-- src/ml: the edit distance.
pub mod LevensteinDistance
