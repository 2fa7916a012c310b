-- ===== src/Utils/R3dMatrix/Cells.antt =====
-- An `R3DMatrix` as a table of lists, one to a cell.
use premir_cpp.Common.{
  ℕ, ◌≤◌, ◌<◌, ◌≡◌, refl, sym, ap, ◌∙◌, subst, false, ◌&&◌, List, [], map, Option, none, some,
  arith, ◌==◌, ==-refl, if◌then◌else◌, length, get_elem?, set, length-set,
}
use premir_cpp.Common.Growth.{grow, length-grow, grow-all, set-all}
use premir_cpp.Utils.R3dMatrix.{Cell, Row, R3dMatrix, clean_cell, clean_row, new}

module _ {T : Type 0} where
  -- The table with another list in one cell.
  abbrev pub update : (ℕ → ℕ → List T) → ℕ → ℕ → List T → ℕ → ℕ → List T
  update f r c xs r' c' = if (r == r') && (c == c') then xs else f r' c'

  pub update_other :
      (f : ℕ → ℕ → List T) (r c : ℕ) (xs : List T) (j : ℕ)
      → (r == j) ≡ false
      → update f r c xs j ≡ f j
  update_other f r c xs j apart = ap (λ b. λ c'. if b && (c == c') then xs else f j c') apart

module _ {R C T : Type 0} where
  -- The cell, if there is one, holds the list.
  abbrev pub IsCell : List T → Option (Cell R C T) → Type 0
  IsCell xs none = xs ≡ []
  IsCell xs (some cell) = (cell.points ≡ map some xs) × (cell.point_size ≡ length xs)

  -- The row, if there is one, holds the lists of a table's row, and is as long as it says.
  abbrev pub IsRow : (ℕ → List T) → Option (Row R C T) → Type 0
  IsRow g none = (c : ℕ) → g c ≡ []
  IsRow g (some row) =
      (row.cell_size ≡ length row.cells) × ((c : ℕ) → IsCell (g c) (get_elem? row.cells c))

  -- The matrix holds the table, and is as high as it says.
  pub record IsTable (f : ℕ → ℕ → List T) (m : R3dMatrix R C T) : Type 0 where
    pub height : m.row_size ≡ length m.matrix
    pub rows : (r : ℕ) → IsRow (f r) (get_elem? m.matrix r)

  pub new-IsTable : (t row cell : ℕ) → IsTable (λ r c. []) (new t row cell)
  unfolding new
  new-IsTable t row cell = record { height = refl; rows = λ r c. refl }

  -- A row or a matrix made longer holds the same lists.
  pub grow-IsRow :
      (g : ℕ → List T) (row : Row R C T) (n : ℕ)
      → IsRow g (some row)
      → length row.cells ≤ n
      → IsRow g (some (record row { cells = grow row.cells clean_cell n; cell_size = n }))
  grow-IsRow g row n (size, is) h = (
    sym (length-grow row.cells clean_cell n h),
    λ c.
        grow-all (IsCell (g c)) row.cells clean_cell n h
          (λ e. (ap (map some) (sym e), ap length (sym e))) c (is c),
  )

  pub grow-IsTable :
      (f : ℕ → ℕ → List T) (m : R3dMatrix R C T) (n : ℕ)
      → IsTable f m
      → length m.matrix ≤ n
      → IsTable f (record m { matrix = grow m.matrix clean_row n; row_size = n })
  grow-IsTable f m n is h = record {
    height = sym (length-grow m.matrix clean_row n h);
    rows = λ r. grow-all (IsRow (f r)) m.matrix clean_row n h (λ e. (refl, λ c. e c)) r (is.rows r);
  }

  -- A row with another cell, and a matrix with another row.
  pub set-IsRow :
      (g : ℕ → List T) (row : Row R C T) (c : ℕ) (xs : List T) (cell : Cell R C T)
      → IsRow g (some row)
      → c < row.cell_size
      → IsCell xs (some cell)
      → IsRow
          (λ c'. if c == c' then xs else g c')
          (some (record row { cells = set row.cells c cell }))
  set-IsRow g row c xs cell (size, is) h now = (
    size ∙ sym (length-set row.cells c cell),
    λ j.
        set-all (λ c'. IsCell (if c == c' then xs else g c')) row.cells c cell
          (omega (arith, size, h)) (rw (==-refl c) now) j
          (λ ne. let apart : (c == j) ≡ false = ground arith in rw apart (is j)),
  )

  pub set-IsTable :
      (f : ℕ → ℕ → List T) (m : R3dMatrix R C T) (r c : ℕ) (xs : List T) (row : Row R C T)
      → IsTable f m
      → r < m.row_size
      → IsRow (λ c'. if c == c' then xs else f r c') (some row)
      → IsTable (update f r c xs) (record m { matrix = set m.matrix r row })
  set-IsTable f m r c xs row is h now = record {
    height = is.height ∙ sym (length-set m.matrix r row);
    rows = λ j.
        set-all (λ r'. IsRow (update f r c xs r')) m.matrix r row (omega (arith, is.height, h))
          (rw (==-refl r) now) j
          (λ ne.
            subst (λ g. IsRow g (get_elem? m.matrix j))
              (sym (update_other f r c xs j (ground arith))) (is.rows j));
  }
