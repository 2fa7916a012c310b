-- ===== src/Ml/LevensteinDistance/Wld.antt =====
-- `wld` of src/ml/LevensteinDistance.h fills its matrix by the recurrence of the edit distance.
use premir_cpp.Common.{
  ℕ, zero, suc, ◌+◌, ◌≤◌, ◌<◌, ◌≡◌, refl, ◌⊎◌, inl, inr, Bool, true, List, some, arith, min, length,
  get_elem?_of_lt, suc-sub-one,
}
use premir_cpp.Common.Run.{
  ok, for, Returns, returns, Returns-bind, Returns-weaken, Returns-eq, for_one-Returns,
}
use premir_cpp.Utils.SMatrix
use premir_cpp.Utils.SMatrix.{SMatrix}
use premir_cpp.Utils.SMatrix.Cells.{peek, HasShape, cell-peek, put-Put, new-HasShape}
use premir_cpp.Ml.LevensteinDistance.{min3, char_at, fill_cell, fill_left, fill_top, wld}
use premir_cpp.Ml.LevensteinDistance.Script.{at, at-get_elem?, Script, dist, Script-dist, dist-le}

pub min3-min : (a b c : ℕ) → min3 a b c ≡ min a (min b c)
unfolding min3
min3-min a b c = ground arith

pub char_at-ok : (s : List ℕ) (i : ℕ) → i < length s → char_at s i ≡ ok (at s i)
unfolding char_at
char_at-ok s i h = let (x, e) = get_elem?_of_lt s i h in rw e (ground (arith, at-get_elem? s i e))

module _ (s t : List ℕ) (n m : ℕ) where
  -- The matrix holds the distance of the prefixes at the places that `Known` marks.
  record Holds (Known : ℕ → ℕ → Type 0) (matrix : SMatrix ℕ) : Type 0 where
    shape : HasShape (n + 1) (m + 1) matrix
    cells : (i j : ℕ) → i ≤ n → j ≤ m → Known i j → peek matrix i j ≡ some (dist s t i j)

  Holds-cell :
      {Known : ℕ → ℕ → Type 0} {matrix : SMatrix ℕ} (i j : ℕ)
      → Holds Known matrix
      → i ≤ n
      → j ≤ m
      → Known i j
      → SMatrix.cell matrix i j ≡ ok (dist s t i j)
  Holds-cell {matrix} i j h hi hj known = cell-peek matrix i j (h.cells i j hi hj known)

  -- Writing the distance into one more place.
  put-Holds :
      (Known Known' : ℕ → ℕ → Type 0) (matrix : SMatrix ℕ) (i j : ℕ) {v : ℕ}
      → HasShape (n + 1) (m + 1) matrix
      → ((i' j' : ℕ) → i' ≤ n → j' ≤ m → Known i' j' → peek matrix i' j' ≡ some (dist s t i' j'))
      → i ≤ n
      → j ≤ m
      → v ≡ dist s t i j
      → ((i' j' : ℕ) → Known' i' j' → ((i' ≡ i) × (j' ≡ j)) ⊎ Known i' j')
      → Returns (Holds Known') (SMatrix.put matrix i j v)
  put-Holds Known Known' matrix i j {v} shape old hi hj e more =
      Returns-weaken (put-Put matrix i j v shape (omega arith) (omega arith)) λ matrix' p. record {
        shape = p.shape;
        cells = λ i' j' p' q known. elim (more i' j' known) [
          | inl here ↦ ground (arith, p.cells i' j')
          | inr there ↦ ground (arith, p.cells i' j', old i' j' p' q there)
        ];
      }

  abbrev Left : ℕ → ℕ → ℕ → Type 0
  Left k i j = (i < k) × (j ≡ 0)

  abbrev Top : ℕ → ℕ → ℕ → Type 0
  Top k i j = (j ≡ 0) ⊎ ((i ≡ 0) × (j < k))

  abbrev Rows : ℕ → ℕ → ℕ → Type 0
  Rows k i j = (j ≡ 0) ⊎ (i < k)

  abbrev Cells : ℕ → ℕ → ℕ → ℕ → Type 0
  Cells k l i j = (j ≡ 0) ⊎ ((i < k) ⊎ ((i ≡ k) × (j < l)))

  pub dist-zero : (i : ℕ) → dist s t i 0 ≡ i
  unfolding dist
  dist-zero zero = refl
  dist-zero (suc i) = refl

  fill_left-Holds :
      (k : ℕ) (matrix : SMatrix ℕ)
      → k < n
      → Holds (Left (suc k)) matrix
      → Returns (Holds (Left (suc (suc k)))) (fill_left (suc k) matrix)
  unfolding fill_left
  fill_left-Holds k matrix hk h =
      rw (suc-sub-one k, Holds-cell k 0 h (omega arith) (omega arith) (omega arith, refl))
        (put-Holds (Left (suc k)) _ matrix (suc k) 0 h.shape h.cells (omega arith) (omega arith)
          (omega (arith, dist-zero k, dist-zero (suc k))) (λ i j r. grind arith))

  fill_top-Holds :
      (k : ℕ) (matrix : SMatrix ℕ)
      → k < m
      → Holds (Top (suc k)) matrix
      → Returns (Holds (Top (suc (suc k)))) (fill_top (suc k) matrix)
  unfolding fill_top dist
  fill_top-Holds k matrix hk h =
      rw (suc-sub-one k, Holds-cell 0 k h (omega arith) (omega arith) (inr (refl, omega arith)))
        (put-Holds (Top (suc k)) _ matrix 0 (suc k) h.shape h.cells (omega arith) (omega arith)
          (omega arith) (λ i j r. grind arith))

  fill_cell-Holds :
      (k l : ℕ) (matrix : SMatrix ℕ)
      → n ≤ length s
      → m ≤ length t
      → k < n
      → l < m
      → Holds (Cells (suc k) (suc l)) matrix
      → Returns (Holds (Cells (suc k) (suc (suc l)))) (fill_cell s t (suc k) (suc l) matrix)
  unfolding fill_cell dist
  fill_cell-Holds k l matrix hs ht hk hl h =
      rw
        (
          suc-sub-one k,
          suc-sub-one l,
          char_at-ok s k (omega arith),
          char_at-ok t l (omega arith),
          Holds-cell k l h (omega arith) (omega arith) (inr (inl (omega arith))),
          Holds-cell (suc k) l h (omega arith) (omega arith) (inr (inr (refl, omega arith))),
          Holds-cell k (suc l) h (omega arith) (omega arith) (inr (inl (omega arith))),
        )
        (put-Holds (Cells (suc k) (suc l)) _ matrix (suc k) (suc l) h.shape h.cells (omega arith)
          (omega arith) (min3-min _ _ _) (λ i j r. grind arith))

  module _ (hs : n ≤ length s) (ht : m ≤ length t) where
    fill_row-Holds :
        (k : ℕ) (matrix : SMatrix ℕ)
        → k < n
        → Holds (Rows (suc k)) matrix
        → Returns (Holds (Rows (suc (suc k)))) (for m 1 (fill_cell s t (suc k)) matrix)
    fill_row-Holds k matrix hk h =
        Returns-weaken
          (for_one-Returns (λ l. Holds (Cells (suc k) l)) (fill_cell s t (suc k)) m matrix
            (record { shape = h.shape; cells = λ i j p q r. h.cells i j p q (grind arith) })
            (λ l u hl now. fill_cell-Holds k l u hs ht hk hl now))
          λ u done. record {
            shape = done.shape;
            cells = λ i j p q r. done.cells i j p q (grind arith);
          }

    -- `wld` returns the value of the recurrence.
    pub wld-dist :
        (grants : ℕ → Bool)
        → ((bytes : ℕ) → grants bytes ≡ true)
        → (sizeof_t sizeof_p : ℕ) → wld s t grants sizeof_t sizeof_p n m ≡ ok (dist s t n m)
    unfolding wld dist
    wld-dist grants granted sizeof_t sizeof_p = Returns-eq (
        Returns-bind (new-HasShape grants granted sizeof_t sizeof_p (n + 1) (m + 1)) λ empty shape.
          Returns-bind
            (put-Holds (λ i j. ⊥) (Left 1) empty 0 0 shape (λ i j p q r. absurd r) (omega arith)
              (omega arith) refl (λ i j r. inl (omega arith)))
            λ corner start.
              Returns-bind
                (for_one-Returns (λ k. Holds (Left k)) fill_left n corner start
                  λ k u hk now. fill_left-Holds k u hk now)
                λ left lefts.
                  Returns-bind
                    (for_one-Returns (λ k. Holds (Top k)) fill_top m left
                      (record {
                        shape = lefts.shape;
                        cells = λ i j p q r. lefts.cells i j p q (grind arith);
                      })
                      λ k u hk now. fill_top-Holds k u hk now)
                    λ top tops.
                      Returns-bind
                        (for_one-Returns (λ k. Holds (Rows k)) (λ i. for m 1 (fill_cell s t i)) n
                          top
                          (record {
                            shape = tops.shape;
                            cells = λ i j p q r. tops.cells i j p q (grind arith);
                          })
                          λ k u hk now. fill_row-Holds k u hk now)
                        λ matrix rows.
                          rw (Holds-cell n m rows (omega arith) (omega arith) (inr (omega arith)))
                            (returns refl))

-- If the allocator grants what it asks for, `wld` returns, on prefixes of `n` and `m` characters
-- within the two strings,
-- the cost of some script of edits that turns one into the other, and no script costs less.
pub wld-least :
    (grants : ℕ → Bool)
    → ((bytes : ℕ) → grants bytes ≡ true)
    → (sizeof_t sizeof_p : ℕ) (s t : List ℕ) (n m : ℕ) → n ≤ length s
    → m ≤ length t
    → Returns
        (λ d. Script s t n m d × ((k : ℕ) → Script s t n m k → d ≤ k))
        (wld s t grants sizeof_t sizeof_p n m)
wld-least grants granted sizeof_t sizeof_p s t n m hs ht =
    rw (wld-dist s t n m hs ht grants granted sizeof_t sizeof_p)
      (returns (Script-dist s t n m, λ k p. dist-le s t p))
