-- ===== src/Lib.antt =====
-- premir_cpp: a verification library for the header-only C++ library under src/ of the repository,
-- a toolkit for cluster analysis: sorting, containers, hashing, edit distance, backtracking and file
-- reading.
--
-- The parts, the files that model them, and how they correspond:
--   Common      shared helpers: tests on numbers, arrays as lists, and `Run`, how a call ends: it
--               returns, throws, or has undefined behaviour (or the model's fuel is out).
--   Sort        src/sort. `Sort.HeapSort` is HeapSort.h: `sift_down` is siftDown, `sort` is sort.
--   Utils       src/utils. `Memory` is malloc, realloc and memcpy as the containers call them.
--               `SMatrix` is SMatrix.h and `RDMatrix` is RDMatrix.h, each a record with the source's
--               fields and one function per method; so is `CArrayList`, CArrayList.h. `LinkedList` is
--               LinkedList.h, its entries on a heap that maps addresses to entries. `R3dMatrix` is
--               R3DMatrix.h, rows of cells of points, and `HashMapArray`, of HashMapArray.h, keeps
--               its entries there, one row to a map and one cell to a hash index. `IntBitSet` is
--               IntBitSet.h, a list of bytes. `RMatrix` is RMatrix.h. `HashEngine` is
--               hash/, `Bucket` is the walk along one row that HashMap.h and HashSet.h share, `HashMap`
--               and `HashSet` are those two: they keep their entries in an `RDMatrix`, one row to a
--               hash index.
--   Comb        src/comb. `BacktrackSearch` is BacktrackSearch.h, its virtual methods a record that
--               `SubsetBacktrackSearch` and `PermutationBacktrackSearch`, of the headers with those
--               names, fill; solutions go to an `RDMatrix`. `Visits` is the search against a tree of
--               partial solutions.
--   File        src/file. `CsvFileReader` is CsvFileReader.h over the bytes of a file; `next_value` is
--               nextValue, and `Scan` says what a field is. Of the logging only what it reads of the
--               buffer is kept.
--   Kohonen     src/kohonen. `SomLabeling` is labeling/SomLabeling.h: two `HashMapArray`s, one that
--               counts the labels of each neuron and one with the least and greatest counts.
--               `EuclideanWinnerSearch` and `KnnWinnerSearch` are the headers of winner/ with those
--               names, with DefaultWinnerDistance.h, over doubles without NaN. `UMat` is umat/UMat.h, and
--               `RectUMat` is umat/RectUMat.h, `Build` its buildUMatrix and `Smooth` its
--               averageUMatrix and medianUMatrix. `HexaUMat` is umat/HexaUMat.h in the same parts;
--               in its `Smooth` one function, `smooth`, stands for both: they visit the same cells and
--               differ in what they make of the values.
--   Ml          src/ml. `LevensteinDistance` is LevensteinDistance.h; `wld` fills an `SMatrix`.
-- Child modules hold the proofs, and each Tests module runs the code at concrete inputs.
--
-- Arrays are lists. A cell that malloc handed out and nothing wrote is `none`, and reading it, an
-- index out of range and a remainder by 0 give `undefined`. Sizes and indices are natural numbers:
-- they stay below the number of cells in memory, so a `size_t` does not wrap; where the code counts on
-- wrapping, as in the hash codes, `% 2 ^ 64` is written out.
-- The allocator is a parameter `grants`, which says what request for bytes is granted; the code throws
-- when one is not. An element type comes with the operator that the code takes from it.
-- The loop of siftDown runs on fuel, `arrSize + 1` rounds, which are enough because the index grows in
-- each round that does not end the loop. The walks along a linked list have one round more than the
-- list has entries. backtrack has fuel for the levels of its tree, one more than
-- the elements of a solution. The loop of nextValue has one round more than there are unread bytes,
-- and each round but the last takes one. All other loops are recursions on the rounds or the bytes
-- that are left.
--
-- Not modelled: destructors (they only free memory) and copying against moving of a value; printing,
-- where it reads nothing that may be missing; graphics, the other parts over floating-point numbers,
-- and the copies of other projects beside src/.
pub mod Comb
pub mod Common
pub mod File
pub mod Kohonen
pub mod Ml
pub mod Sort
pub mod Utils
