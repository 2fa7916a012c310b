-- ===== src/Kohonen/UMat/BubbleSort.antt =====
-- The double loop of the medians of src/kohonen/umat/UMat.h sorts its array.
use premir_cpp.Common.{
  subst, ℕ, suc, ◌+◌, ◌-◌, ◌≤◌, ◌<◌, ◌≡◌, inl, inr, true, false, List, some, arith, get_elem?, ltb,
  length, get_elem?_of_lt, set, length-set, Bool-cases,
}
use premir_cpp.Common.Run.{Returns, returns, Returns-weaken, for, for-Returns}
use premir_cpp.Sort.HeapSort.Order.{
  key, key-get_elem?, Rearranged, Rearranged-refl, Rearranged-trans, Rearranged-swap, key-swap,
}
use premir_cpp.Sort.HeapSort.SiftDown.{load-ok, store-ok}
use premir_cpp.Sort.HeapSort.Sorted.{IsSorted, Sorts}
use premir_cpp.Kohonen.UMat.{Arithmetic, bubble_step, bubble_sort}

module _ {D : Type 0} (real : Arithmetic D) where
  abbrev rank_at : List D → ℕ → ℕ
  rank_at = key real.order

  -- From index `k` on every entry is in its place.
  record Settled (n k : ℕ) (start xs : List D) : Type 0 where
    same : Rearranged real.order n start xs
    above : (a b : ℕ) → a ≤ b → k ≤ b → b < n → rank_at xs a ≤ rank_at xs b

  -- Before round `i` of the inner loop the greatest of the first entries stands at `i`.
  record Rising (n k i : ℕ) (start xs : List D) : Type 0 where
    settled : Settled n k start xs
    greatest : (a : ℕ) → a ≤ i → rank_at xs a ≤ rank_at xs i

  module _ (n k i : ℕ) (start xs : List D) {left right : D} (fits : n ≤ length start)
      (below : suc i < k) (le : k ≤ n) (el : get_elem? xs i ≡ some left)
      (er : get_elem? xs (i + 1) ≡ some right) (r : Rising n k i start xs) where
    ranks : (real.order.gt left right ≡ ltb (rank_at xs (i + 1)) (rank_at xs i))
    ranks = ground (
      arith,
      real.order.gt_lem left right,
      key-get_elem? real.order xs i el,
      key-get_elem? real.order xs (i + 1) er,
    )

    swapped :
        real.order.gt left right ≡ true
        → Rising n k (suc i) start (set (set xs i right) (i + 1) left)
    swapped greater =
        let at = key-swap real.order xs i (i + 1) el er in
        let more : rank_at xs (i + 1) < rank_at xs i = ground (arith, ranks, greater) in
        record {
          settled = record {
            same = Rearranged-trans real.order r.settled.same (
                Rearranged-swap real.order xs i (i + 1) el er (omega arith)
                  (omega (arith, below, le)) (omega (arith, below, le)));
            above = λ a b h in_place inside. ground (
              arith,
              at a,
              at b,
              below,
              r.settled.above a b,
              r.settled.above i b,
              r.settled.above (i + 1) b,
            );
          };
          greatest = λ a h. ground (arith, at a, at (suc i), more, r.greatest a);
        }

    kept : real.order.gt left right ≡ false → Rising n k (suc i) start xs
    kept fine =
        let no_more : rank_at xs i ≤ rank_at xs (i + 1) = ground (arith, ranks, fine) in
        record { settled = r.settled; greatest = λ a h. ground (arith, r.greatest a, no_more) }

    bubble_step-Rising : Returns (Rising n k (suc i) start) (bubble_step real i xs)
    unfolding bubble_step
    bubble_step-Rising =
        let long : n ≤ length xs = omega (arith, fits, r.settled.same.size) in
        rw (load-ok xs i el, load-ok xs (i + 1) er)
          (elim (Bool-cases (real.order.gt left right)) [
            | inl greater ↦
                rw
                  (
                    greater,
                    store-ok xs i right (omega (arith, long, below, le)),
                    store-ok (set xs i right) (i + 1) left
                        (omega (arith, long, below, le, length-set xs i right)),
                  )
                  (returns (swapped greater))
            | inr fine ↦ rw fine (returns (kept fine))
          ])

  inner-Settled :
      (n k : ℕ) (start xs : List D)
      → n ≤ length start
      → suc k ≤ n
      → Settled n (suc k) start xs
      → Returns (Settled n k start) (for k 0 (bubble_step real) xs)
  inner-Settled n k start xs fits le s =
      Returns-weaken
        (for-Returns (λ i now. Rising n (suc k) i start now) _ 0 k k 0 xs (omega arith)
          (omega arith) (record { settled = s; greatest = λ a h. ground (arith, h) })
          (λ i now lo below r.
            let long : n ≤ length now = omega (arith, fits, r.settled.same.size) in
            let (left, el) = get_elem?_of_lt now i (omega (arith, long, below, le)) in
            let (right, er) = get_elem?_of_lt now (i + 1) (omega (arith, long, below, le)) in
            bubble_step-Rising n (suc k) i start now fits (omega (arith, below)) le el er r))
        (λ now r. record {
          same = r.settled.same;
          above = λ a b h from inside.
              ground (arith, r.settled.above a b, r.greatest a, h, from, inside);
        })

  -- The loops of the medians sort the first `n` entries of an array that has so many.
  pub bubble_sort-Sorts :
      (n : ℕ) (xs : List D)
      → n ≤ length xs
      → Returns (Sorts real.order n xs) (bubble_sort real n xs)
  unfolding bubble_sort
  bubble_sort-Sorts n xs fits =
      Returns-weaken
        (for-Returns (λ j now. Settled n (n - j) xs now) _ 0 (n - 1) (n - 1) 0 xs (omega arith)
          (omega arith)
          (record {
            same = Rearranged-refl real.order n xs;
            above = λ a b h from inside. absurd (omega (arith, from, inside));
          })
          (λ j now lo below s.
            let last : n - j ≡ suc (n - 1 - j) = omega (arith, below) in
            let next : n - 1 - j ≡ n - suc j = omega arith in
            subst (λ k. Returns (Settled n k xs) (for (n - 1 - j) 0 (bubble_step real) now)) next
              (inner-Settled n (n - 1 - j) xs now fits (omega (arith, below))
                (subst (λ k. Settled n k xs now) last s))))
        (λ ys s. (sorted ys s, s.same))
    where
      sorted : (ys : List D) → Settled n (n - (n - 1)) xs ys → IsSorted real.order n ys
      sorted ys s a b h inside = ground (arith, s.above a b, h, inside)
