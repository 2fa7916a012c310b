-- ===== src/Utils/R3dMatrix/WritePoints.antt =====
-- What `writePoints` does to the table that an `R3DMatrix` holds.
use premir_cpp.Common.{
  ℕ, ◌+◌, ◌*◌, ◌≤◌, ◌<◌, ◌≡◌, refl, ◌∙◌, subst, Bool, true, false, List, [], some, arith, ltb, ◌==◌,
  if◌then◌else◌, length, get_elem?, get_elem?_of_lt, get_elem?_of_le,
}
use premir_cpp.Common.Run.{Returns, returns, Returns-bind, Returns-cond}
use premir_cpp.Utils.R3dMatrix.{
  Row, R3dMatrix, clean_row, write_points, write_to_row, write_new_cell, initialize_row_memory,
}
use premir_cpp.Common.Growth.{get_elem?-grow}
use premir_cpp.Utils.R3dMatrix.Cells.{
  IsCell, IsRow, IsTable, update, grow-IsTable, set-IsRow, set-IsTable,
}
use premir_cpp.Utils.R3dMatrix.WriteCell.{
  written, written_nil, write_to_cell-IsCell, write_new_cell-IsRow,
}

module _ {R C T : Type 0} (grants : ℕ → Bool) (granted : (n : ℕ) → grants n ≡ true) where
  initialize_row_memory-IsTable :
      (f : ℕ → ℕ → List T) (m : R3dMatrix R C T) (r : ℕ)
      → IsTable f m
      → m.row_size ≤ r
      → Returns
          (λ m'. IsTable f m' × (m'.row_size ≡ r + 1) × (get_elem? m'.matrix r ≡ some clean_row))
          (initialize_row_memory grants m (r + 1))
  unfolding initialize_row_memory
  initialize_row_memory-IsTable f m r is past =
      let fits : length m.matrix ≤ r + 1 = omega (arith, is.height, past) in
      let outside : ltb r (length m.matrix) ≡ false = ground (arith, is.height, past) in
      let inside : ltb r (r + 1) ≡ true = ground arith in
      rw (granted (m.row_type_sizeof * (r + 1)), is.height)
        (returns (
          grow-IsTable f m (r + 1) is fits,
          refl,
          get_elem?-grow m.matrix clean_row (r + 1) r fits ∙ rw (outside, inside) refl,
        ))

  -- What the write makes of a row that holds the lists `g`.
  abbrev IsWritten : (ℕ → List T) → ℕ → List T → Bool → Row R C T → Type 0
  IsWritten g c ys to_end row =
      IsRow (λ c'. if c == c' then written (g c) ys to_end else g c') (some row)

  write_new_cell-IsWritten :
      (m : R3dMatrix R C T) (g : ℕ → List T) (row : Row R C T) (c : ℕ) (ys : List T) (to_end : Bool)
      → IsRow g (some row)
      → row.cell_size ≤ c
      → Returns (IsWritten g c ys to_end) (write_new_cell grants m row c ys (length ys))
  write_new_cell-IsWritten m g row c ys to_end is past =
      let empty : g c ≡ [] =
        subst (IsCell (g c)) (get_elem?_of_le row.cells c (omega (arith, past, is.0))) (is.1 c) in
      subst
        (λ xs.
          Returns (λ row'. IsRow (λ c'. if c == c' then xs else g c') (some row'))
            (write_new_cell grants m row c ys (length ys)))
        (written_nil (g c) ys to_end empty)
        (write_new_cell-IsRow grants granted m g row c ys is past)

  write_to_row-IsWritten :
      (m : R3dMatrix R C T) (g : ℕ → List T) (row : Row R C T) (c : ℕ) (ys : List T) (to_end : Bool)
      → IsRow g (some row)
      → Returns (IsWritten g c ys to_end) (write_to_row grants m row c ys (length ys) to_end)
  unfolding write_to_row
  write_to_row-IsWritten m g row c ys to_end is =
      Returns-cond (ltb c row.cell_size)
        (λ inside.
          let within : c < row.cell_size = ground (arith, inside) in
          let (cell, there) = get_elem?_of_lt row.cells c (omega (arith, is.0, within)) in
          let holds : IsCell (g c) (some cell) = subst (IsCell (g c)) there (is.1 c) in
          rw there (
            Returns-bind (write_to_cell-IsCell grants granted m cell (g c) ys to_end holds)
              (λ cell' done.
                returns (set-IsRow g row c (written (g c) ys to_end) cell' is within done))))
        (λ past. write_new_cell-IsWritten m g row c ys to_end is (ground (arith, past)))

  -- `writePoints` puts the points of one cell behind those that it has, or over the first of them,
  -- and leaves the points of every other cell; a row or a cell that is not there yet is made. This
  -- holds if every request for memory is granted and the array of points is as long as it says.
  pub write_points-IsTable :
      (f : ℕ → ℕ → List T) (m : R3dMatrix R C T) (r c : ℕ) (ys : List T) (to_end : Bool)
      → IsTable f m
      → Returns
          (λ m'. IsTable (update f r c (written (f r c) ys to_end)) m')
          (write_points grants m r c ys (length ys) to_end)
  unfolding write_points
  write_points-IsTable f m r c ys to_end is =
      let now : List T = written (f r c) ys to_end in
      Returns-cond (ltb r m.row_size)
        (λ inside.
          let within : r < m.row_size = ground (arith, inside) in
          let (row, there) = get_elem?_of_lt m.matrix r (omega (arith, is.height, within)) in
          let holds : IsRow (f r) (some row) = subst (IsRow (f r)) there (is.rows r) in
          rw there (
            Returns-bind (write_to_row-IsWritten m (f r) row c ys to_end holds)
              (λ row' done. returns (set-IsTable f m r c now row' is within done))))
        (λ past.
          Returns-bind (initialize_row_memory-IsTable f m r is (ground (arith, past)))
            (λ higher (high, size, there).
              let holds : IsRow {R = R} {C = C} (f r) (some clean_row) =
                subst (IsRow (f r)) there (high.rows r) in
              rw there (
                Returns-bind
                  (write_new_cell-IsWritten higher (f r) clean_row c ys to_end holds (omega arith))
                  (λ row' done.
                    returns (set-IsTable f higher r c now row' high (omega (arith, size)) done)))))
