-- ===== src/Kohonen/UMat/Medians.antt =====
-- What the five medians of src/kohonen/umat/UMat.h return.
use premir_cpp.Common.{ℕ, ◌<◌, ◌≡◌, List, [], ◌∷◌, some, arith, get_elem?, length, get_elem?_of_lt}
use premir_cpp.Common.Run.{◌>>=◌, Returns, returns, Returns-bind}
use premir_cpp.Sort.HeapSort.{load}
use premir_cpp.Sort.HeapSort.SiftDown.{load-ok}
use premir_cpp.Sort.HeapSort.Sorted.{Sorts}
use premir_cpp.Kohonen.UMat.{Arithmetic, bubble_sort, median3, median4, median5, median6, median7}
use premir_cpp.Kohonen.UMat.BubbleSort.{bubble_sort-Sorts}

module _ {D : Type 0} (real : Arithmetic D) where
  -- In ascending order the values have `v` at index `k`.
  pub record Entry (values : List D) (k : ℕ) (v : D) : Type 0 where
    pub ascending : List D
    pub sorts : Sorts real.order (length values) values ascending
    pub entry : get_elem? ascending k ≡ some v

  sorted-Entry :
      (values : List D) (k : ℕ)
      → k < length values
      → Returns
          (Entry values k)
          (bubble_sort real (length values) values >>= λ ascending. load ascending k)
  sorted-Entry values k inside =
      Returns-bind (bubble_sort-Sorts real (length values) values (omega arith)) (λ ys s.
        let (v, e) = get_elem?_of_lt ys k (omega (arith, inside, s.1.size)) in
        rw (load-ok ys k e) (returns (record { ascending = ys; sorts = s; entry = e })))

  -- Each of the five medians returns, of its values in ascending order, the one in the middle; of an
  -- even number of values, the upper of the two in the middle.
  pub medians-Entry :
      (yy kaa koo nee vii kuu see : D)
      → Returns
          (Entry (yy ∷ kaa ∷ koo ∷ nee ∷ vii ∷ kuu ∷ see ∷ []) 3)
          (median7 real yy kaa koo nee vii kuu see)
        × Returns
            (Entry (yy ∷ kaa ∷ koo ∷ nee ∷ vii ∷ kuu ∷ []) 3)
            (median6 real yy kaa koo nee vii kuu)
        × Returns (Entry (yy ∷ kaa ∷ koo ∷ nee ∷ vii ∷ []) 2) (median5 real yy kaa koo nee vii)
        × Returns (Entry (yy ∷ kaa ∷ koo ∷ nee ∷ []) 2) (median4 real yy kaa koo nee)
        × Returns (Entry (yy ∷ kaa ∷ koo ∷ []) 1) (median3 real yy kaa koo)
  unfolding median7 median6 median5 median4 median3
  medians-Entry yy kaa koo nee vii kuu see = (
    sorted-Entry (yy ∷ kaa ∷ koo ∷ nee ∷ vii ∷ kuu ∷ see ∷ []) 3 (omega arith),
    sorted-Entry (yy ∷ kaa ∷ koo ∷ nee ∷ vii ∷ kuu ∷ []) 3 (omega arith),
    sorted-Entry (yy ∷ kaa ∷ koo ∷ nee ∷ vii ∷ []) 2 (omega arith),
    sorted-Entry (yy ∷ kaa ∷ koo ∷ nee ∷ []) 2 (omega arith),
    sorted-Entry (yy ∷ kaa ∷ koo ∷ []) 1 (omega arith),
  )
