-- ===== src/Sort/HeapSort.antt =====
-- src/sort/HeapSort.h, class `HeapSort<T>`. An array is a list; a read or a write past its end is
-- `undefined`. Indices stay below twice the array's length plus two, so `size_t` does not wrap.
pub mod Order
pub mod SiftDown
pub mod Sorted
mod Tests
use premir_cpp.Common.{
  ℕ, zero, suc, ◌+◌, ◌*◌, ◌/◌, ◌≡◌, Bool, false, List, ltb, ◌==◌, if◌then◌else◌, length, get_elem?,
  set,
}
use premir_cpp.Common.Run.{Run, ok, undefined, out_of_fuel, ◌>>=◌, defined}

-- What the code takes from `T`: its `operator>`, which compares the values by a rank. So do the
-- built-in numbers (without NaN).
pub record Ordered {ℓ} (A : Type ℓ) : Type ℓ where
  pub gt : A → A → Bool
  pub rank : A → ℕ
  pub gt_lem : (a b : A) → gt a b ≡ ltb (rank b) (rank a)

module _ {ℓ} {A : Type ℓ} where
  unfoldable pub load : List A → ℕ → Run A
  load arr i = defined (get_elem? arr i)

  unfoldable pub store : List A → ℕ → A → Run (List A)
  store arr i x = if ltb i (length arr) then ok (set arr i x) else undefined

module _ {ℓ} {A : Type ℓ} (o : Ordered A) where
  -- `(child < arrSize) && (arr[child] > value)`: is the left child the larger?
  left_child_greater : List A → ℕ → A → ℕ → Run Bool
  left_child_greater arr child value arr_size =
      if ltb child arr_size then (do x ← load arr child; ok (o.gt x value)) else ok false

  -- `(child < arrSize) && (arr[child] > arr[nMax])`
  right_child_greater : List A → ℕ → ℕ → ℕ → Run Bool
  right_child_greater arr child n_max arr_size =
      if ltb child arr_size
      then (do x ← load arr child; y ← load arr n_max; ok (o.gt x y))
      else ok false

  -- One round of the loop finds the place of the largest of the three values.
  find_max : List A → A → ℕ → ℕ → Run ℕ
  find_max arr value index arr_size = do
    let child_n = index * 2 + 1
    left ← left_child_greater arr child_n value arr_size
    let n_max = if left then child_n else index
    right ← right_child_greater arr (child_n + 1) n_max arr_size
    ok (if right then child_n + 1 else n_max)

  -- `while (true)` of siftDown, on fuel.
  sift_down_loop : ℕ → List A → A → ℕ → ℕ → Run (List A)
  sift_down_loop zero arr value index arr_size = out_of_fuel
  sift_down_loop (suc k) arr value index arr_size = do
    n_max ← find_max arr value index arr_size
    let sink : Run (List A) = do
      largest ← load arr n_max
      moved ← store arr index largest
      swapped ← store moved n_max value
      sift_down_loop k swapped value n_max arr_size
    if n_max == index then ok arr else sink

  unfoldable pub sift_down : List A → ℕ → ℕ → Run (List A)
  unfolding sift_down_loop find_max left_child_greater right_child_greater load store
  sift_down arr index arr_size = do
    value ← load arr index
    sift_down_loop (arr_size + 1) arr value index arr_size

  -- Stage 1: `for (i = arrSize / 2; i > 0; --i) siftDown(arr, i - 1, arrSize)`.
  unfoldable pub build_heap : ℕ → List A → ℕ → Run (List A)
  build_heap zero arr arr_size = ok arr
  build_heap (suc i) arr arr_size = sift_down arr i arr_size >>= λ b. build_heap i b arr_size

  -- Stage 2: `while (arrSize > 1)`, a recursion on the size of the heap that is left.
  unfoldable pub extract_loop : List A → ℕ → Run (List A)
  extract_loop arr zero = ok arr
  extract_loop arr (suc zero) = ok arr
  extract_loop arr (suc (suc n)) = do
    first_elem ← load arr 0
    last_elem ← load arr (suc n)
    a ← store arr 0 last_elem
    b ← store a (suc n) first_elem
    c ← sift_down b 0 (suc n)
    extract_loop c (suc n)

  unfoldable pub sort : List A → ℕ → Run (List A)
  unfolding sift_down build_heap extract_loop load store
  sort arr arr_size = do heap ← build_heap (arr_size / 2) arr arr_size; extract_loop heap arr_size
