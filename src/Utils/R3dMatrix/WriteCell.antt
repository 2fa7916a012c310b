-- ===== src/Utils/R3dMatrix/WriteCell.antt =====
-- What `writePoints` does to one cell, and to a row that gets a cell.
use mathlib.Core.List.{append-nil, map-append}
use native.Mathlib.Nat.{le_refl, zero-add}
use premir_cpp.Common.{
  ℕ, zero, suc, ◌+◌, ◌*◌, ◌≤◌, ◌≡◌, refl, sym, ap, ◌∙◌, subst, Bool, true, false, List, [], ◌∷◌,
  ◌++◌, map, some, arith, ltb, ◌==◌, if◌then◌else◌, length, drop, length-append, length-map,
  le→not-ltb, take_all, drop_all, get_elem?_of_lt, get_elem?_of_le,
}
use premir_cpp.Common.Run.{ok, Returns, returns, Returns-bind, Returns-cond}
use premir_cpp.Utils.Memory.{Block, Begins, length-Begins, memcpy}
use premir_cpp.Utils.RdMatrix.Rows.{memcpy-Begins, reallocate-Begins, length-drop}
use premir_cpp.Utils.R3dMatrix.{
  Cell, Row, R3dMatrix, write_to_cell, write_new_cell, initialize_cells_memory,
  initialize_points_memory, copy_points,
}
use premir_cpp.Utils.R3dMatrix.Cells.{IsCell, IsRow, grow-IsRow, set-IsRow}

module _ {T : Type 0} where
  -- A block that begins with the values and is not longer.
  exact :
      (xs : List T) (block : Block T)
      → Begins xs block
      → length block ≡ length xs
      → block ≡ map some xs
  exact xs block b same = elim_spare b.spare b.split (omega (arith, same, length-Begins b))
    where
      elim_spare :
          (spare : Block T) → block ≡ map some xs ++ spare → length spare ≡ 0 → block ≡ map some xs
      elim_spare [] e none_left = e ∙ append-nil (map some xs)
      elim_spare (x ∷ spare) e none_left = absurd (omega (arith, none_left))

  map-drop : (n : ℕ) (xs : List T) → drop n (map some xs) ≡ map some (drop n xs)
  map-drop zero xs = refl
  map-drop (suc n) [] = refl
  map-drop (suc n) (x ∷ xs) = map-drop n xs

  -- A copy over the first cells.
  memcpy-start :
      (xs ys : List T)
      → length ys ≤ length xs
      → memcpy (map some xs) 0 (map some ys) (length ys) ≡ ok (map some (ys ++ drop (length ys) xs))
  unfolding memcpy
  memcpy-start xs ys fits =
      rw
        (
          length-map ys some,
          length-map xs some,
          zero-add (length ys),
          le→not-ltb (length ys) (length ys) (le_refl _),
          le→not-ltb (length xs) (length ys) fits,
          take_all (length ys) (map some ys) (omega (arith, length-map ys (λ y. some y))),
          length-map ys some,
          zero-add (length ys),
        )
        (ap ok (
          ap (◌++◌ (map some ys)) (map-drop (length ys) xs)
          ∙ sym (map-append some ys (drop (length ys) xs))))

  -- The list that a cell holds after the write.
  unfoldable pub written : List T → List T → Bool → List T
  written xs ys true = xs ++ ys
  written xs ys false = ys ++ drop (length ys) xs

  pub written_nil : (xs ys : List T) (to_end : Bool) → xs ≡ [] → ys ≡ written xs ys to_end
  unfolding written
  written_nil xs ys true e = rw e refl
  written_nil xs ys false e =
      sym (ap (◌++◌ ys) (drop_all (length ys) xs (omega (arith, ap length e))) ∙ append-nil ys)

module _ {R C T : Type 0} (grants : ℕ → Bool) (granted : (n : ℕ) → grants n ≡ true) where
  -- Room for `n` points behind the values `xs`.
  record HasRoom (xs : List T) (n : ℕ) (cell : Cell R C T) : Type 0 where
    begins : Begins xs cell.points
    now : length cell.points ≡ n
    count : cell.point_size ≡ n

  initialize_points_memory-HasRoom :
      (m : R3dMatrix R C T) (cell : Cell R C T) (xs : List T) (n : ℕ)
      → cell.points ≡ map some xs
      → length xs ≤ n
      → Returns (HasRoom xs n) (initialize_points_memory grants m cell n)
  unfolding initialize_points_memory
  initialize_points_memory-HasRoom m cell xs n held fits =
      Returns-bind
        (reallocate-Begins grants granted m.t_type_sizeof n xs cell.points
          (record { spare = []; split = held ∙ sym (append-nil (map some xs)) })
          (omega (arith, ap length held, length-map xs (λ x. some x), fits)))
        (λ points (begins, now). returns (record { begins = begins; now = now; count = refl }))

  copy_points-IsCell :
      (us ys : List T) (n : ℕ) (cell : Cell R C T)
      → HasRoom us n cell
      → n ≡ length us + length ys
      → Returns
          (λ cell'. IsCell (us ++ ys) (some cell'))
          (copy_points cell (length us) ys (length ys))
  unfolding copy_points
  copy_points-IsCell us ys n cell room size =
      let end : length (us ++ ys) ≡ n = length-append us ys ∙ sym size in
      Returns-bind (memcpy-Begins us ys cell.points room.begins (omega (arith, room.now, size)))
        (λ points (all, same).
          returns (exact (us ++ ys) points all (same ∙ room.now ∙ sym end), room.count ∙ sym end))

  -- A cell with room for what is written at its start.
  fresh-HasRoom : (xs : List T) (n : ℕ) (cell : Cell R C T) → HasRoom xs n cell → HasRoom [] n cell
  fresh-HasRoom xs n cell room = record {
    begins = record { spare = cell.points; split = refl };
    now = room.now;
    count = room.count;
  }

  write_over-IsCell :
      (cell : Cell R C T) (xs ys : List T)
      → cell.points ≡ map some xs
      → cell.point_size ≡ length xs
      → length ys ≤ length xs
      → Returns
          (λ cell'. IsCell (ys ++ drop (length ys) xs) (some cell'))
          (copy_points cell 0 ys (length ys))
  unfolding copy_points
  write_over-IsCell cell xs ys held size fits =
      rw (held, memcpy-start xs ys fits)
        (returns (
          refl,
          omega (
            arith,
            size,
            length-append ys (drop (length ys) xs),
            length-drop (length ys) xs,
            fits,
          ),
        ))

  initialize_cells_memory-IsRow :
      (m : R3dMatrix R C T) (g : ℕ → List T) (row : Row R C T) (n : ℕ)
      → IsRow g (some row)
      → row.cell_size ≤ n
      → Returns
          (λ row'. IsRow g (some row') × (row'.cell_size ≡ n))
          (initialize_cells_memory grants m row n)
  unfolding initialize_cells_memory
  initialize_cells_memory-IsRow m g row n is fits =
      rw (granted (m.cell_type_sizeof * n), is.0)
        (returns (grow-IsRow g row n is (omega (arith, is.0, fits)), refl))

  pub write_to_cell-IsCell :
      (m : R3dMatrix R C T) (cell : Cell R C T) (xs ys : List T) (to_end : Bool)
      → IsCell xs (some cell)
      → Returns
          (λ cell'. IsCell (written xs ys to_end) (some cell'))
          (write_to_cell grants m cell ys (length ys) to_end)
  unfolding write_to_cell written initialize_points_memory
  write_to_cell-IsCell m cell xs ys true (held, size) = rw size (
      Returns-bind
        (initialize_points_memory-HasRoom m cell xs (length xs + length ys) held (omega arith))
        (λ wider room. copy_points-IsCell xs ys (length xs + length ys) wider room refl))
  write_to_cell-IsCell m cell xs ys false (held, size) =
      Returns-cond (ltb cell.point_size (length ys))
        (λ more.
          rw (drop_all (length ys) xs (ground (arith, more, size)), append-nil ys)
            (Returns-bind
              (initialize_points_memory-HasRoom m cell xs (length ys) held
                (ground (arith, more, size)))
              (λ wider room.
                copy_points-IsCell [] ys (length ys) wider (fresh-HasRoom xs (length ys) wider room)
                  (omega arith))))
        (λ enough. write_over-IsCell cell xs ys held size (ground (arith, enough, size)))

  pub write_new_cell-IsRow :
      (m : R3dMatrix R C T) (g : ℕ → List T) (row : Row R C T) (c : ℕ) (ys : List T)
      → IsRow g (some row)
      → row.cell_size ≤ c
      → Returns
          (λ row'. IsRow (λ c'. if c == c' then ys else g c') (some row'))
          (write_new_cell grants m row c ys (length ys))
  unfolding write_new_cell
  write_new_cell-IsRow m g row c ys is past =
      Returns-bind (initialize_cells_memory-IsRow m g row (c + 1) is (omega (arith, past)))
        (λ wider (wide, size).
          let (cell, there) = get_elem?_of_lt wider.cells c (omega (arith, size, wide.0)) in
          let empty : g c ≡ [] =
            subst (IsCell (g c)) (get_elem?_of_le row.cells c (omega (arith, past, is.0)))
              (is.1 c) in
          let holds : IsCell (g c) (some cell) = subst (IsCell (g c)) there (wide.1 c) in
          rw there (
            Returns-bind
              (initialize_points_memory-HasRoom m cell [] (length ys)
                (holds.0 ∙ ap (map some) empty) (omega arith))
              (λ room has_room.
                Returns-bind (copy_points-IsCell [] ys (length ys) room has_room (omega arith))
                  (λ copied done.
                    returns (set-IsRow g wider c ys copied wide (omega (arith, size)) done)))))
