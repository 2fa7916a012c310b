-- ===== src/Kohonen/HexaUMat/Smooth/Cells.antt =====
-- The cells of src/kohonen/umat/HexaUMat.h against the neighbourhood on a hexagonal grid.
use mathlib.Core.List.Perm
use premir_cpp.Common.{
  ℕ, ◌+◌, ◌-◌, ◌%◌, ◌<◌, ◌≤◌, ◌≡◌, sym, subst, Bool, ◌&&◌, ◌||◌, List, [], ◌∷◌, ◌++◌, Perm, arith,
  ltb, ◌==◌, if◌then◌else◌, length,
}
use premir_cpp.Common.All.{All}
use premir_cpp.Kohonen.HexaUMat.Smooth.{
  inner_cells, north_cells, south_cells, east_cells, west_cells,
}

-- Does the row above, or below, reach to the left of a cell in row `j`? Else it reaches to the right.
abbrev pub left_above : ℕ → Bool
left_above j = (j % 4 == 0) || (j % 4 == 3)

abbrev pub left_below : ℕ → Bool
left_below j = (j % 4 == 0) || (j % 4 == 1)

-- The two cells of the row `j'` that touch column `i`, as far as they are in the matrix.
abbrev pub touching : (uxdim : ℕ) → Bool → (i j' : ℕ) → List (ℕ × ℕ)
touching uxdim left i j' =
    if left
    then (if ltb 0 i then (i - 1, j') ∷ (i, j') ∷ [] else (i, j') ∷ [])
    else if ltb (i + 1) uxdim
    then (i, j') ∷ (i + 1, j') ∷ []
    else (i, j') ∷ []

-- A cell and the cells that touch it. In the two lower corners the diagonal neighbour is left out.
abbrev pub hexagon : (uxdim uydim i j : ℕ) → List (ℕ × ℕ)
hexagon uxdim uydim i j =
    (if ltb 0 j
      then (if (j == uydim - 1) && ((i == 0) || (i == uxdim - 1))
          then (i, j - 1) ∷ []
          else touching uxdim (left_above j) i (j - 1))
      else [])
    ++ ((if ltb 0 i then (i - 1, j) ∷ [] else [])
        ++ ((i, j)
            ∷ ((if ltb (i + 1) uxdim then (i + 1, j) ∷ [] else [])
                ++ (if ltb (j + 1) uydim then touching uxdim (left_below j) i (j + 1) else []))))

module _ (uxdim uydim : ℕ) where
  abbrev pub Inside : ℕ × ℕ → Type 0
  Inside c = (c.0 < uxdim) × (c.1 < uydim)

  -- What the code reads for the cell at `i` and `j`.
  pub record Fits (i j : ℕ) (cells : List (ℕ × ℕ)) : Type 0 where
    pub touch : Perm cells (hexagon uxdim uydim i j)
    pub inside : All Inside cells
    pub some_cells : 3 ≤ length cells
    pub few_cells : length cells ≤ 7

  pub Fits-of_eq :
      (i j : ℕ) (cells : List (ℕ × ℕ))
      → hexagon uxdim uydim i j ≡ cells
      → All Inside cells
      → 3 ≤ length cells
      → length cells ≤ 7
      → Fits i j cells
  Fits-of_eq i j cells e inside least most = record {
    touch = subst (Perm cells) (sym e) (Perm.refl cells);
    inside = inside;
    some_cells = least;
    few_cells = most;
  }

  pub inner_cells-Fits :
      (i j : ℕ) → 1 ≤ i → i + 1 < uxdim → 1 ≤ j → j + 1 < uydim → Fits i j (inner_cells i j)
  unfolding inner_cells
  inner_cells-Fits i j li hi lj hj =
      Fits-of_eq i j (inner_cells i j) (ground (arith, li, hi, lj, hj))
        (ground (arith, li, hi, lj, hj)) (ground arith) (ground arith)

  pub north_cells-Fits : (i : ℕ) → 1 ≤ i → i + 1 < uxdim → 1 < uydim → Fits i 0 (north_cells i 0)
  unfolding north_cells
  north_cells-Fits i li hi high =
      Fits-of_eq i 0 (north_cells i 0) (ground (arith, li, hi, high)) (ground (arith, li, hi, high))
        (ground arith) (ground arith)

  pub south_cells-Fits :
      (i j : ℕ) → 1 ≤ i → i + 1 < uxdim → 1 ≤ j → j + 1 ≡ uydim → Fits i j (south_cells i j)
  unfolding south_cells
  south_cells-Fits i j li hi lj last =
      Fits-of_eq i j (south_cells i j) (ground (arith, li, hi, lj, last))
        (ground (arith, li, hi, lj, last)) (ground arith) (ground arith)

  pub east_cells-Fits :
      (i j : ℕ) → 1 ≤ i → i + 1 ≡ uxdim → 1 ≤ j → j + 1 < uydim → Fits i j (east_cells i j)
  unfolding east_cells
  east_cells-Fits i j li last lj hj =
      Fits-of_eq i j (east_cells i j) (ground (arith, li, last, lj, hj))
        (ground (arith, li, last, lj, hj)) (ground arith) (ground arith)

  pub west_cells-Fits : (j : ℕ) → 1 < uxdim → 1 ≤ j → j + 1 < uydim → Fits 0 j (west_cells 0 j)
  unfolding west_cells
  west_cells-Fits j wide lj hj =
      Fits-of_eq 0 j (west_cells 0 j) (ground (arith, wide, lj, hj)) (ground (arith, wide, lj, hj))
        (ground arith) (ground arith)
