-- ===== src/Kohonen/HexaUMat.antt =====
-- src/kohonen/umat/HexaUMat.h: the U-matrix of a hexagonal map.
pub mod Smooth
pub mod Build
mod Tests
