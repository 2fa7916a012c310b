-- ===== src/Kohonen.antt =====
-- src/kohonen: self-organising maps.
pub mod SomLabeling
pub mod EuclideanWinnerSearch
pub mod KnnWinnerSearch
pub mod UMat
pub mod RectUMat
pub mod HexaUMat
