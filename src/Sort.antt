-- ===== src/Sort.antt =====
-- src/sort: the sorting algorithms.
pub mod HeapSort
