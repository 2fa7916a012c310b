-- ===== src/Kohonen/HexaUMat/Smooth/Paint.antt =====
-- The loops of src/kohonen/umat/HexaUMat.h write one part of the matrix after the other.
use premir_cpp.Common.{
  ℕ, ◌+◌, ◌-◌, ◌<◌, ◌≤◌, ◌≡◌, sym, subst, Bool, true, ◌&&◌, ◌||◌, List, arith, ltb, leb, ◌==◌,
  same_or_apart,
}
use premir_cpp.Common.Run.{Run, ok, Returns, Returns-bind, Returns-weaken, for, for-Returns}
use premir_cpp.Utils.RMatrix.{RMatrix, cell}
use premir_cpp.Utils.RMatrix.Cells.{HasShape, put-Put}
use premir_cpp.Kohonen.HexaUMat.Smooth.{inner_cells, write, write_inner}
use premir_cpp.Kohonen.HexaUMat.Smooth.Cells.{Fits, inner_cells-Fits}

-- Row `j` and column `i`, from the second cell up to `stop`.
abbrev pub in_row : ℕ → ℕ → ℕ → ℕ → Bool
in_row j stop a b = (j == b) && leb 1 a && ltb a stop

abbrev pub in_column : ℕ → ℕ → ℕ → ℕ → Bool
in_column i stop a b = (i == a) && leb 1 b && ltb b stop

-- The rows up to `stop`, without the borders.
abbrev pub within : (uxdim stop a b : ℕ) → Bool
within uxdim stop a b = leb 1 a && ltb a (uxdim - 1) && leb 1 b && ltb b stop

module _ {D : Type 0} (Good : List (ℕ × ℕ) → D → Type 0) (uxdim uydim : ℕ) where
  -- The cell holds what is made of a cell and its neighbours.
  pub record Smoothed (i j : ℕ) (content : Run D) : Type 0 where
    pub cells : List (ℕ × ℕ)
    pub fits : Fits uxdim uydim i j cells
    pub value : D
    pub good : Good cells value
    pub holds : content ≡ ok value

module _ {Info D : Type 0} (combine : List (ℕ × ℕ) → Run D) (Good : List (ℕ × ℕ) → D → Type 0)
    (uxdim uydim : ℕ)
    (combined : (i j : ℕ) (cells : List (ℕ × ℕ))
      → Fits uxdim uydim i j cells
      → Returns (Good cells) (combine cells)) where
  -- The cells of a part of the matrix do.
  pub record Painted (part : ℕ → ℕ → Bool) (m : RMatrix Info D) : Type 0 where
    pub shape : HasShape uxdim uydim m
    pub painted :
        (a b : ℕ)
        → a < uxdim
        → b < uydim
        → part a b ≡ true
        → Smoothed Good uxdim uydim a b (cell m a b)

  pub Painted-weaken :
      {part part' : ℕ → ℕ → Bool} (m : RMatrix Info D)
      → ((a b : ℕ) → a < uxdim → b < uydim → part' a b ≡ true → part a b ≡ true)
      → Painted part m
      → Painted part' m
  Painted-weaken m smaller p = record {
    shape = p.shape;
    painted = λ a b ha hb e. p.painted a b ha hb (smaller a b ha hb e);
  }

  -- One write adds its cell to the part.
  pub write-Painted :
      (part : ℕ → ℕ → Bool) (i j : ℕ) (cells : List (ℕ × ℕ)) (m : RMatrix Info D)
      → i < uxdim
      → j < uydim
      → Fits uxdim uydim i j cells
      → Painted part m
      → Returns (Painted (λ a b. part a b || ((i == a) && (j == b)))) (write combine i j cells m)
  unfolding write
  write-Painted part i j cells m hi hj fits p = Returns-bind (combined i j cells fits) (λ v good.
      Returns-weaken (put-Put m i j v p.shape hi hj) (λ m' q. record {
        shape = q.shape;
        painted = λ a b ha hb e.
            same_or_apart (λ a b. Smoothed Good uxdim uydim a b (cell m' a b)) i j a b
              (record { cells = cells; fits = fits; value = v; good = good; holds = q.here })
              (λ apart.
                subst (Smoothed Good uxdim uydim a b) (sym (q.elsewhere a b apart))
                  (p.painted a b ha hb (ground (arith, e, apart))));
      }))

  pub row-Painted :
      (part : ℕ → ℕ → Bool) (cells_of : ℕ → ℕ → List (ℕ × ℕ)) (j : ℕ) (m : RMatrix Info D)
      → 1 < uxdim
      → j < uydim
      → ((i : ℕ) → 1 ≤ i → i + 1 < uxdim → Fits uxdim uydim i j (cells_of i j))
      → Painted part m
      → Returns
          (Painted (λ a b. part a b || in_row j (uxdim - 1) a b))
          (for (uxdim - 1 - 1) 1 (λ i now. write combine i j (cells_of i j) now) m)
  row-Painted part cells_of j m wide hj fit p =
      for-Returns (λ i now. Painted (λ a b. part a b || in_row j i a b) now) _ 1 (uxdim - 1)
        (uxdim - 1 - 1) 1 m (omega arith) (omega (arith, wide))
        (Painted-weaken m (λ a b ha hb e. ground (arith, e)) p)
        (λ i now lo below q.
          Returns-weaken
            (write-Painted (λ a b. part a b || in_row j i a b) i j (cells_of i j) now
              (omega (arith, below)) hj (fit i lo (omega (arith, below))) q)
            (λ m' r. Painted-weaken m' (λ a b ha hb e. ground (arith, e, lo)) r))

  pub column-Painted :
      (part : ℕ → ℕ → Bool) (cells_of : ℕ → ℕ → List (ℕ × ℕ)) (i : ℕ) (m : RMatrix Info D)
      → 1 < uydim
      → i < uxdim
      → ((j : ℕ) → 1 ≤ j → j + 1 < uydim → Fits uxdim uydim i j (cells_of i j))
      → Painted part m
      → Returns
          (Painted (λ a b. part a b || in_column i (uydim - 1) a b))
          (for (uydim - 1 - 1) 1 (λ j now. write combine i j (cells_of i j) now) m)
  column-Painted part cells_of i m high hi fit p =
      for-Returns (λ j now. Painted (λ a b. part a b || in_column i j a b) now) _ 1 (uydim - 1)
        (uydim - 1 - 1) 1 m (omega arith) (omega (arith, high))
        (Painted-weaken m (λ a b ha hb e. ground (arith, e)) p)
        (λ j now lo below q.
          Returns-weaken
            (write-Painted (λ a b. part a b || in_column i j a b) i j (cells_of i j) now hi
              (omega (arith, below)) (fit j lo (omega (arith, below))) q)
            (λ m' r. Painted-weaken m' (λ a b ha hb e. ground (arith, e, lo)) r))

  pub inner-Painted :
      (m : RMatrix Info D)
      → 1 < uxdim
      → 1 < uydim
      → HasShape uxdim uydim m
      → Returns (Painted (within uxdim (uydim - 1))) (write_inner combine uxdim uydim m)
  unfolding write_inner
  inner-Painted m wide high shape =
      for-Returns (λ j now. Painted (within uxdim j) now) _ 1 (uydim - 1) (uydim - 1 - 1) 1 m
        (omega arith) (omega (arith, high))
        (record { shape = shape; painted = λ a b ha hb e. absurd (ground (arith, e)) })
        (λ j now lo below q.
          Returns-weaken
            (row-Painted (within uxdim j) inner_cells j now wide (omega (arith, below))
              (λ i li hi. inner_cells-Fits uxdim uydim i j li hi lo (omega (arith, below))) q)
            (λ m' r. Painted-weaken m' (λ a b ha hb e. ground (arith, e, lo)) r))
