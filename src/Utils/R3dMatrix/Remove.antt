-- ===== src/Utils/R3dMatrix/Remove.antt =====
-- `removeRowPoints`.
use premir_cpp.Common.{
  ℕ, suc, ◌≤◌, ◌<◌, ◌≡◌, ◌≢◌, refl, sym, ◌∙◌, subst, true, false, inl, inr, List, [], ◌∷◌, map,
  Option, none, some, arith, ltb, ◌==◌, ==-refl, if◌then◌else◌, length, get_elem?, set, length-set,
  get_elem?_of_lt, get_elem?_of_le, Bool-cases, get_elem?-set,
}
use premir_cpp.Common.Run.{
  ok, ◌>>=◌, for, for-Returns, Returns, returns, Returns-bind, Returns-weaken,
}
use premir_cpp.Utils.Memory.{Block}
use premir_cpp.Utils.R3dMatrix.{
  Cell, Row, R3dMatrix, get_cell, put_cell, remove_points, remove_row_points,
}
use premir_cpp.Common.Growth.{set-all}
use premir_cpp.Utils.R3dMatrix.Cells.{IsCell, IsRow, IsTable, set-IsRow}

module _ {T : Type 0} where
  -- The lists of a row of which the first `n` are emptied.
  abbrev emptied : (ℕ → List T) → ℕ → ℕ → List T
  emptied g n c = if ltb c n then [] else g c

  removed-IsCell :
      (R C : Type 0) (xs : List T) (size : ℕ) (content : Option C) (points : Block T)
      → points ≡ map some xs
      → size ≡ length xs
      → IsCell {R = R} []
          (some (remove_points (record { point_size = size; content = content; points = points })))
  unfolding remove_points
  removed-IsCell R C [] size content [] e count = (refl, count)
  removed-IsCell R C (x ∷ xs) size content [] e count = cc
  removed-IsCell R C xs size content (p ∷ points) e count = (refl, refl)

module _ {R C T : Type 0} where
  remove_points-IsCell :
      (xs : List T) (cell : Cell R C T)
      → IsCell xs (some cell)
      → IsCell [] (some (remove_points cell))
  remove_points-IsCell xs cell is =
      removed-IsCell R C xs cell.point_size cell.content cell.points is.0 is.1

  record Emptying (g : ℕ → List T) (size n : ℕ) (row : Row R C T) : Type 0 where
    is_row : IsRow (emptied g n) (some row)
    size_eq : row.cell_size ≡ size

  pub IsRow-same :
      (g h : ℕ → List T) (found : Option (Row R C T))
      → ((c : ℕ) → g c ≡ h c)
      → IsRow g found
      → IsRow h found
  IsRow-same g h none same is = λ c. sym (same c) ∙ is c
  IsRow-same g h (some row) same is =
      (is.0, λ c. subst (λ xs. IsCell xs (get_elem? row.cells c)) (same c) (is.1 c))

  empty_points :
      (g : ℕ → List T) (row : Row R C T)
      → IsRow g (some row)
      → Returns
          (λ row'. IsRow (λ c. []) (some row') × (row'.cell_size ≡ row.cell_size))
          (for row.cell_size 0
            (λ c now. do cell ← get_cell now c; ok (put_cell now c (remove_points cell)))
            row)
  unfolding get_cell put_cell
  empty_points g row is =
      Returns-weaken
        (for-Returns (Emptying g row.cell_size)
          (λ c now. do cell ← get_cell now c; ok (put_cell now c (remove_points cell))) 0
          row.cell_size row.cell_size 0 row (omega arith) (omega arith)
          (record {
            is_row = IsRow-same g (emptied g 0) (some row) (λ c. from_zero c) is;
            size_eq = refl;
          })
          step)
        (λ row' e. (
          IsRow-same (emptied g row.cell_size) (λ c. []) (some row') (past row' e) e.is_row,
          e.size_eq,
        ))
    where
      from_zero : (c : ℕ) → g c ≡ emptied g 0 c
      from_zero c = let no : ltb c 0 ≡ false = ground arith in rw no refl

      further : (c c' : ℕ) → (if c == c' then [] else emptied g c c') ≡ emptied g (suc c) c'
      further c c' = elim (Bool-cases (c == c')) [
        | inl here ↦
            let below : ltb c' (suc c) ≡ true = ground (arith, here) in rw (here, below) refl
        | inr apart ↦
            let same : ltb c' (suc c) ≡ ltb c' c = ground (arith, apart) in rw (apart, same) refl
      ]

      past :
          (row' : Row R C T)
          → Emptying g row.cell_size row.cell_size row'
          → (c : ℕ) → emptied g row.cell_size c ≡ []
      past row' e c = elim (Bool-cases (ltb c row.cell_size)) [
        | inl inside ↦ rw inside refl
        | inr outside ↦ rw outside (
            subst (IsCell (g c)) (get_elem?_of_le row.cells c (ground (arith, is.0, outside)))
              (is.1 c))
      ]

      step :
          (c : ℕ) (now : Row R C T)
          → 0 ≤ c
          → c < row.cell_size
          → Emptying g row.cell_size c now
          → Returns
              (Emptying g row.cell_size (suc c))
              (get_cell now c >>= λ cell. ok (put_cell now c (remove_points cell)))
      step c now low high e =
          let (cell, here) =
            get_elem?_of_lt now.cells c (omega (arith, e.is_row.0, e.size_eq, high)) in
          let holds : IsCell (emptied g c c) (some cell) =
            subst (IsCell (emptied g c c)) here (e.is_row.1 c) in
          rw here (
            returns (record {
              is_row =
                  IsRow-same (λ c'. if c == c' then [] else emptied g c c') (emptied g (suc c))
                    (some (record now { cells = set now.cells c (remove_points cell) }))
                    (λ c'. further c c')
                    (set-IsRow (emptied g c) now c [] (remove_points cell) e.is_row
                      (omega (arith, e.size_eq, high))
                      (remove_points-IsCell (emptied g c c) cell holds));
              size_eq = e.size_eq;
            }))

  -- A table with another row.
  pub set_row-IsTable :
      (f : ℕ → ℕ → List T) (m : R3dMatrix R C T) (r : ℕ) (g : ℕ → List T) (row : Row R C T)
      → IsTable f m
      → r < m.row_size
      → IsRow g (some row)
      → IsTable (λ r'. if r == r' then g else f r') (record m { matrix = set m.matrix r row })
  set_row-IsTable f m r g row is h now = record {
    height = is.height ∙ sym (length-set m.matrix r row);
    rows = λ j.
        set-all (λ r'. IsRow (if r == r' then g else f r')) m.matrix r row
          (omega (arith, is.height, h)) (rw (==-refl r) now) j
          (λ ne. let apart : (r == j) ≡ false = ground arith in rw apart (is.rows j));
  }

  -- What `removeRowPoints` leaves of a matrix.
  pub record Emptied (f : ℕ → ℕ → List T) (m : R3dMatrix R C T) (r : ℕ) (m' : R3dMatrix R C T)
      : Type 0 where
    pub table : IsTable (λ r'. if r == r' then (λ c. []) else f r') m'
    pub size_eq : m'.row_size ≡ m.row_size
    pub others : (q : ℕ) → q ≢ r → get_elem? m'.matrix q ≡ get_elem? m.matrix q

  pub set-others :
      (rows : List (Row R C T)) (r : ℕ) (row : Row R C T) (q : ℕ)
      → r < length rows
      → q ≢ r
      → get_elem? (set rows r row) q ≡ get_elem? rows q
  set-others rows r row q h ne = ground (arith, get_elem?-set rows r q row h, ne)

  -- `removeRowPoints` on a row that is there empties the cells of that row, and changes no other
  -- row.
  pub remove_row_points-Emptied :
      (f : ℕ → ℕ → List T) (m : R3dMatrix R C T) (r : ℕ)
      → IsTable f m
      → r < m.row_size
      → Returns (Emptied f m r) (remove_row_points m r)
  unfolding remove_row_points
  remove_row_points-Emptied f m r is h =
      let (row, there) = get_elem?_of_lt m.matrix r (omega (arith, is.height, h)) in
      let holds : IsRow (f r) (some row) = subst (IsRow (f r)) there (is.rows r) in
      rw there (
        Returns-bind (empty_points (f r) row holds) (λ row' (bare, size). returns (record {
          table = set_row-IsTable f m r (λ c. []) row' is h bare;
          size_eq = refl;
          others = λ q ne. set-others m.matrix r row' q (omega (arith, is.height, h)) ne;
        })))
