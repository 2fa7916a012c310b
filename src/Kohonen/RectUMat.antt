-- ===== src/Kohonen/RectUMat.antt =====
-- src/kohonen/umat/RectUMat.h: the U-matrix of a rectangular map.
pub mod Build
pub mod Smooth
pub mod Tests
