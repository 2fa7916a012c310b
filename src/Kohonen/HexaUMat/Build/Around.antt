-- ===== src/Kohonen/HexaUMat/Build/Around.antt =====
-- The tables of `buildUMatrix` of src/kohonen/umat/HexaUMat.h against the hexagonal grid.
use mathlib.Core.List.Perm
use premir_cpp.Common.{
  ℕ, dec_lt, ℕ_discrete, ◌+◌, ◌-◌, ◌%◌, ◌<◌, ◌≡◌, subst, List, [], ◌∷◌, ◌++◌, Perm, arith, ltb,
  if◌then◌else◌,
}
use premir_cpp.Kohonen.HexaUMat.Build.{neuron_cells}
use premir_cpp.Kohonen.HexaUMat.Smooth.Cells.{left_above, left_below, touching}

-- The cells of the U-matrix that touch the one at `i` and `j`.
abbrev pub around : (uxdim uydim i j : ℕ) → List (ℕ × ℕ)
around uxdim uydim i j =
    (if ltb 0 i then (i - 1, j) ∷ [] else [])
    ++ ((if ltb (i + 1) uxdim then (i + 1, j) ∷ [] else [])
        ++ ((if ltb 0 j then touching uxdim (left_above j) i (j - 1) else [])
            ++ (if ltb (j + 1) uydim then touching uxdim (left_below j) i (j + 1) else [])))

module _ (uxdim uydim i j : ℕ) (wide : 1 < uxdim) (high : 1 < uydim) where
  Agrees : Type 0
  Agrees = Perm (neuron_cells uxdim uydim i j) (around uxdim uydim i j)

  Agrees-of_eq : neuron_cells uxdim uydim i j ≡ around uxdim uydim i j → Agrees
  unfolding Agrees
  Agrees-of_eq e = subst (Perm _) e (Perm.refl _)

  Agrees-of_perm :
      (code grid : List (ℕ × ℕ))
      → neuron_cells uxdim uydim i j ≡ code
      → around uxdim uydim i j ≡ grid
      → Perm code grid
      → Agrees
  unfolding Agrees
  Agrees-of_perm code grid e e' same = rw (e, e') same

  -- The upper edge, where the two cells below come the other way round.
  upper-Agrees : 0 < i → i + 1 < uxdim → j ≡ 0 → Agrees
  unfolding neuron_cells
  upper-Agrees li hi top =
      Agrees-of_perm ((i - 1, j) ∷ (i + 1, j) ∷ (i, j + 1) ∷ (i - 1, j + 1) ∷ [])
        ((i - 1, j) ∷ (i + 1, j) ∷ (i - 1, j + 1) ∷ (i, j + 1) ∷ [])
        (ground (arith, li, hi, top, wide, high)) (ground (arith, li, hi, top, wide, high))
        (Perm.cons _ (Perm.cons _ (Perm.swap _ _ _)))

  -- The right edge in a row that reaches to the left.
  right-Agrees : i + 1 ≡ uxdim → 0 < j → j + 1 < uydim → j % 4 ≡ 0 → Agrees
  unfolding neuron_cells
  right-Agrees last lj hj left =
      Agrees-of_perm ((i - 1, j) ∷ (i, j - 1) ∷ (i - 1, j - 1) ∷ (i, j + 1) ∷ (i - 1, j + 1) ∷ [])
        ((i - 1, j) ∷ (i - 1, j - 1) ∷ (i, j - 1) ∷ (i - 1, j + 1) ∷ (i, j + 1) ∷ [])
        (ground (arith, last, lj, hj, left, wide)) (ground (arith, last, lj, hj, left, wide))
        (Perm.cons _ (Perm.trans (Perm.swap _ _ _) (Perm.cons _ (Perm.cons _ (Perm.swap _ _ _)))))

  -- The lower right corner, if its row reaches to the left.
  corner-Agrees : i + 1 ≡ uxdim → j + 1 ≡ uydim → j % 4 ≡ 0 → Agrees
  unfolding neuron_cells
  corner-Agrees last bottom left =
      Agrees-of_perm ((i - 1, j) ∷ (i, j - 1) ∷ (i - 1, j - 1) ∷ [])
        ((i - 1, j) ∷ (i - 1, j - 1) ∷ (i, j - 1) ∷ [])
        (ground (arith, last, bottom, left, wide, high))
        (ground (arith, last, bottom, left, wide, high)) (Perm.cons _ (Perm.swap _ _ _))

  module _ (hi : i < uxdim) (hj : j < uydim) (even : j % 2 ≡ 0) where
    first_row-Agrees : j ≡ 0 → Agrees
    unfolding neuron_cells
    first_row-Agrees top = elim (dec_lt 0 i) [
      | no west ↦ Agrees-of_eq (ground (arith, west, top, wide, high))
      | yes past ↦ elim (dec_lt (i + 1) uxdim) [
        | yes inside ↦ upper-Agrees past inside top
        | no east ↦ Agrees-of_eq (ground (arith, past, east, hi, top, wide, high))
      ]
    ]

    last_column-Agrees : i + 1 ≡ uxdim → 0 < j → Agrees
    unfolding neuron_cells
    last_column-Agrees east below = elim (ℕ_discrete (j % 4) 0) [
      | no right ↦ Agrees-of_eq (ground (arith, east, below, right, hj, even, wide))
      | yes left ↦ elim (dec_lt (j + 1) uydim) [
        | yes inside ↦ right-Agrees east below inside left
        | no bottom ↦ corner-Agrees east (omega (arith, bottom, hj)) left
      ]
    ]

    any-Agrees : Agrees
    unfolding neuron_cells
    any-Agrees = elim (dec_lt 0 j) [
      | no top ↦ first_row-Agrees (omega (arith, top))
      | yes below ↦ elim (dec_lt (i + 1) uxdim) [
        | yes inside ↦ Agrees-of_eq (ground (arith, below, inside, hj, even))
        | no east ↦ last_column-Agrees (omega (arith, east, hi)) below
      ]
    ]

-- For a neuron of a U-matrix with more than one cell each way, `buildUMatrix` puts into its table the
-- cells that touch the neuron's on the hexagonal grid, and each of them once.
pub neuron_cells-around :
    (uxdim uydim i j : ℕ)
    → 1 < uxdim
    → 1 < uydim
    → i < uxdim
    → j < uydim
    → j % 2 ≡ 0
    → Perm (neuron_cells uxdim uydim i j) (around uxdim uydim i j)
unfolding Agrees
neuron_cells-around uxdim uydim i j wide high hi hj even =
    any-Agrees uxdim uydim i j wide high hi hj even
