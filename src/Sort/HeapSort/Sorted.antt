-- ===== src/Sort/HeapSort/Sorted.antt =====
-- sort of src/sort/HeapSort.h: the two stages and the whole routine.
use native.Mathlib.Nat.{le_refl}
use premir_cpp.Common.{
  ℕ, zero, suc, ◌/◌, ◌≤◌, ◌<◌, List, some, arith, length, get_elem?, get_elem?_of_lt, set,
  length-set, ◌≡◌, ◌==◌, if◌then◌else◌,
}
use premir_cpp.Common.Run.{Returns, returns, Returns-bind, Returns-weaken}
use premir_cpp.Sort.HeapSort.{Ordered, build_heap, extract_loop, sort}
use premir_cpp.Sort.HeapSort.Order.{
  parent, key, key-congr, IsHeapFrom, DownInv, Rearranged, Rearranged-refl, Rearranged-trans,
  Rearranged-widen, Rearranged-swap, key-swap, root_greatest,
}
use premir_cpp.Sort.HeapSort.SiftDown.{load-ok, store-ok, Sifted, sift_down-Sifted}

module _ {ℓ} {A : Type ℓ} (o : Ordered A) where
  -- The first `n` entries stand in ascending order.
  abbrev pub IsSorted : ℕ → List A → Type 0
  IsSorted n xs = (i j : ℕ) → i ≤ j → j < n → key o xs i ≤ key o xs j

  build_heap-Sifted :
      (lo : ℕ) (xs : List A) (n : ℕ)
      → n ≤ length xs
      → lo ≤ n
      → IsHeapFrom o lo n xs
      → Returns (Sifted o 0 n xs) (build_heap o lo xs n)
  unfolding build_heap
  build_heap-Sifted zero xs n fits le heap = returns (heap, Rearranged-refl o n xs)
  build_heap-Sifted (suc lo) xs n fits le heap =
      Returns-bind
        (sift_down-Sifted o xs lo lo n fits (le_refl lo) (omega arith) (record {
          edges = λ c p q r s. heap c p q (omega arith);
          bridged = λ c p q r s t. omega arith;
        }))
        λ ys (below, same).
          Returns-weaken (build_heap-Sifted lo ys n (omega (arith, same.size)) (omega arith) below)
            λ zs (whole, same'). (whole, Rearranged-trans o same same')

  -- Before a round of stage 2 the first `n` entries are a heap, and the others, up to `size`, are
  -- sorted and not smaller than any of the heap.
  record Extracting (size n : ℕ) (xs : List A) : Type 0 where
    heap : IsHeapFrom o 0 n xs
    tail : (i j : ℕ) → n ≤ i → i ≤ j → j < size → key o xs i ≤ key o xs j
    split : (i j : ℕ) → i < n → n ≤ j → j < size → key o xs i ≤ key o xs j

  abbrev pub Sorts : ℕ → List A → List A → Type ℓ
  Sorts n xs ys = IsSorted n ys × Rearranged o n xs ys

  module _ (size n : ℕ) (xs : List A) {first last : A} (fits : size ≤ length xs)
      (below : suc (suc n) ≤ size) (ef : get_elem? xs 0 ≡ some first)
      (el : get_elem? xs (suc n) ≡ some last) (inv : Extracting size (suc (suc n)) xs) where
    abbrev swapped : List A
    swapped = set (set xs 0 last) (suc n) first

    at :
        (c : ℕ)
        → key o swapped c
          ≡ (if suc n == c then key o xs 0 else if 0 == c then key o xs (suc n) else key o xs c)
    at = key-swap o xs 0 (suc n) ef el

    moved : Rearranged o (suc (suc n)) xs swapped
    moved = Rearranged-swap o xs 0 (suc n) ef el (omega arith) (omega arith) (omega arith)

    swapped-DownInv : DownInv o 0 (suc n) swapped 0
    swapped-DownInv = record {
      edges = λ c p q r s. ground (arith, at c, at (parent c), inv.heap c);
      bridged = λ c p q r s t. omega arith;
    }

    Sifted-Extracting : (ys : List A) → Sifted o 0 (suc n) swapped ys → Extracting size (suc n) ys
    Sifted-Extracting ys (heap, same) =
        let kept = λ (j : ℕ) (h : suc n ≤ j). key-congr o ys swapped j (same.rest j h) in
        let top = root_greatest o xs (suc (suc n)) in
        let bound =
          same.within (key o xs 0)
            (λ i h. ground (arith, at i, top i inv.heap, top (suc n) inv.heap)) in
        record {
          heap = heap;
          tail = λ i j p q r.
              ground
                (arith, at i, at j, kept i p, kept j (omega arith), inv.tail i j, inv.split 0 j);
          split = λ i j p q r. ground (arith, at j, kept j q, bound i p, inv.split 0 j);
        }

  extract_loop-Sorts :
      (size n : ℕ) (xs : List A)
      → size ≤ length xs
      → n ≤ size
      → Extracting size n xs
      → Returns (Sorts size xs) (extract_loop o xs n)
  unfolding extract_loop
  extract_loop-Sorts size zero xs fits le inv =
      returns (λ i j p q. inv.tail i j (omega arith) p q, Rearranged-refl o size xs)
  extract_loop-Sorts size (suc zero) xs fits le inv =
      returns (λ i j p q. ground (arith, inv.tail i j, inv.split i j), Rearranged-refl o size xs)
  extract_loop-Sorts size (suc (suc n)) xs fits le inv =
      let (first, ef) = get_elem?_of_lt xs 0 (omega arith) in
      let (last, el) = get_elem?_of_lt xs (suc n) (omega arith) in
      let same = moved size n xs fits le ef el inv in
      rw
        (
          load-ok xs 0 ef,
          load-ok xs (suc n) el,
          store-ok xs 0 last (omega arith),
          store-ok (set xs 0 last) (suc n) first (omega (arith, length-set xs 0 last)),
        )
        (Returns-bind
          (sift_down-Sifted o (set (set xs 0 last) (suc n) first) 0 0 (suc n)
            (omega (arith, same.size)) (omega arith) (omega (arith, same.size))
            (swapped-DownInv size n xs fits le ef el inv))
          λ ys sifted.
            Returns-weaken
              (extract_loop-Sorts size (suc n) ys (omega (arith, same.size, sifted.1.size))
                (omega arith) (Sifted-Extracting size n xs fits le ef el inv ys sifted))
              λ zs (sorted, rest). (
                sorted,
                Rearranged-trans o
                    (Rearranged-trans o (Rearranged-widen o le same)
                      (Rearranged-widen o (omega arith) sifted.1))
                    rest,
              ))

  -- For an array of at least `n` entries, `sort(arr, n)` returns: the first `n` entries end up in
  -- ascending order, the array is a permutation of what it was, and no entry from `n` on changes.
  pub sort-Sorts : (xs : List A) (n : ℕ) → n ≤ length xs → Returns (Sorts n xs) (sort o xs n)
  unfolding sort
  sort-Sorts xs n fits =
      Returns-bind
        (build_heap-Sifted (n / 2) xs n fits (omega arith) (λ c p q r. absurd (omega arith)))
        λ ys (heap, same).
          Returns-weaken
            (extract_loop-Sorts n n ys (omega (arith, same.size)) (le_refl n) (record {
              heap = heap;
              tail = λ i j p q r. absurd (omega arith);
              split = λ i j p q r. absurd (omega arith);
            }))
            λ zs (sorted, same'). (sorted, Rearranged-trans o same same')
