-- ===== src/Kohonen/RectUMat/Smooth/Average.antt =====
-- `averageUMatrix` of src/kohonen/umat/RectUMat.h gives each cell the mean of its neighbourhood.
use mathlib.Core.List.Perm
use premir_cpp.Common.{
  ℕ, suc, ◌+◌, ◌-◌, ◌<◌, ◌≡◌, refl, sym, ap, ◌∙◌, subst, Bool, true, false, ◌&&◌, ◌||◌, inl, inr,
  List, [], ◌∷◌, ◌++◌, none, some, Perm, arith, ltb, ◌==◌, if◌then◌else◌, length, Bool-cases,
}
use premir_cpp.Common.All.{All, All-append}
use premir_cpp.Common.Run.{Run, ok, Returns, returns, Returns-weaken}
use premir_cpp.Utils.RMatrix.{RMatrix, cell, put}
use premir_cpp.Utils.RMatrix.Cells.{HasShape, put-Put}
use premir_cpp.Utils.RMatrix.Grid.{Round}
use premir_cpp.Kohonen.UMat.{Arithmetic}
use premir_cpp.Kohonen.RectUMat.Smooth.{average_cells, add_cells, mean, average_cell}

-- A cell, and those beside, above and below it that are in the matrix.
abbrev pub neighbourhood : (uxdim uydim i j : ℕ) → List (ℕ × ℕ)
neighbourhood uxdim uydim i j =
    (if ltb 0 j then (i, j - 1) ∷ [] else [])
    ++ ((if ltb 0 i then (i - 1, j) ∷ [] else [])
        ++ ((i, j)
            ∷ ((if ltb (i + 1) uxdim then (i + 1, j) ∷ [] else [])
                ++ (if ltb (j + 1) uydim then (i, j + 1) ∷ [] else []))))

abbrev pub corner : (uxdim uydim i j : ℕ) → Bool
corner uxdim uydim i j = ((i == 0) || (i == uxdim - 1)) && ((j == 0) || (j == uydim - 1))

-- Outside the corners the loop adds up the neighbourhood, from the top.
average_cells-neighbourhood :
    (uxdim uydim i j : ℕ)
    → 1 < uxdim
    → 1 < uydim
    → i < uxdim
    → j < uydim
    → corner uxdim uydim i j ≡ false
    → average_cells uxdim uydim i j ≡ some (neighbourhood uxdim uydim i j)
unfolding average_cells
average_cells-neighbourhood uxdim uydim i j wide high hi hj inner = ground arith

average_cells-corner :
    (uxdim uydim i j : ℕ)
    → 1 < uxdim
    → 1 < uydim
    → corner uxdim uydim i j ≡ true
    → average_cells uxdim uydim i j ≡ none
unfolding average_cells
average_cells-corner uxdim uydim i j wide high outer = ground arith

module _ (uxdim uydim : ℕ) where
  abbrev pub Inside : ℕ × ℕ → Type 0
  Inside c = (c.0 < uxdim) × (c.1 < uydim)

  Inside-if : (b : Bool) (c : ℕ × ℕ) → (b ≡ true → Inside c) → All Inside (if b then c ∷ [] else [])
  Inside-if true c h = (h refl, tt)
  Inside-if false c h = tt

  neighbourhood-Inside :
      (i j : ℕ) → i < uxdim → j < uydim → All Inside (neighbourhood uxdim uydim i j)
  neighbourhood-Inside i j hi hj =
      All-append Inside _ _ (Inside-if (ltb 0 j) (i, j - 1) (λ e. (hi, omega (arith, hj)))) (
        All-append Inside _ _ (Inside-if (ltb 0 i) (i - 1, j) (λ e. (omega (arith, hi), hj))) (
          (hi, hj),
          All-append Inside _ _
              (Inside-if (ltb (i + 1) uxdim) (i + 1, j) (λ e. (ground (arith, e), hj)))
              (Inside-if (ltb (j + 1) uydim) (i, j + 1) (λ e. (hi, ground (arith, e)))),
        ))

  -- It has a first cell.
  neighbourhood-cons :
      (i j : ℕ)
      → (first : ℕ × ℕ) × (rest : List (ℕ × ℕ)) × (neighbourhood uxdim uydim i j ≡ first ∷ rest)
  neighbourhood-cons i j =
      append-cons (if ltb 0 j then (i, j - 1) ∷ [] else []) _
        (append-cons (if ltb 0 i then (i - 1, j) ∷ [] else []) _ ((i, j), _, refl))
    where
      append-cons :
          (xs ys : List (ℕ × ℕ))
          → (first : ℕ × ℕ) × (rest : List (ℕ × ℕ)) × (ys ≡ first ∷ rest)
          → (first : ℕ × ℕ) × (rest : List (ℕ × ℕ)) × (xs ++ ys ≡ first ∷ rest)
      append-cons [] ys h = h
      append-cons (x ∷ xs) ys h = (x, xs ++ ys, refl)

module _ {D : Type 0} (real : Arithmetic D) (uxdim uydim : ℕ) (f : ℕ → ℕ → D) where
  -- The sum of `f` at cells, from the left, and the mean.
  abbrev pub sum_of : D → List (ℕ × ℕ) → D
  sum_of sum [] = sum
  sum_of sum ((i, j) ∷ cells) = sum_of (real.add sum (f i j)) cells

  abbrev pub mean_of : List (ℕ × ℕ) → D
  mean_of [] = real.number 0
  mean_of ((i, j) ∷ cells) = real.div (sum_of (f i j) cells) (real.number (suc (length cells)))

  -- The cell is the mean of `f` over its neighbourhood, added up in some order.
  pub record Averaged (i j : ℕ) (content : Run D) : Type 0 where
    pub order : List (ℕ × ℕ)
    pub all : Perm order (neighbourhood uxdim uydim i j)
    pub is_mean : content ≡ ok (mean_of order)

module _ {Info D : Type 0} (real : Arithmetic D) (uxdim uydim : ℕ) (f : ℕ → ℕ → D)
    (u : RMatrix Info D) (shown : (i j : ℕ) → i < uxdim → j < uydim → cell u i j ≡ ok (f i j)) where
  add_cells-sum_of :
      (sum : D) (cells : List (ℕ × ℕ))
      → All (Inside uxdim uydim) cells
      → add_cells real u sum cells ≡ ok (sum_of real uxdim uydim f sum cells)
  unfolding add_cells
  add_cells-sum_of sum [] inside = refl
  add_cells-sum_of sum ((i, j) ∷ cells) ((hi, hj), inside) =
      rw (shown i j hi hj) (add_cells-sum_of (real.add sum (f i j)) cells inside)

  pub mean-mean_of :
      (first : ℕ × ℕ) (cells : List (ℕ × ℕ))
      → All (Inside uxdim uydim) (first ∷ cells)
      → mean real u first cells (suc (length cells))
        ≡ ok (mean_of real uxdim uydim f (first ∷ cells))
  unfolding mean
  mean-mean_of (i, j) cells ((hi, hj), inside) =
      rw (shown i j hi hj, add_cells-sum_of (f i j) cells inside) refl

  abbrev pub Done : ℕ → ℕ → Run D → Type 0
  Done = Averaged real uxdim uydim f

  -- The loop leaves the corners out.
  abbrev pub Inner : ℕ → ℕ → Run D → Type 0
  Inner i j content = corner uxdim uydim i j ≡ false → Done i j content

  pub put-Round :
      (i j : ℕ) (order : List (ℕ × ℕ)) (m : RMatrix Info D)
      → HasShape uxdim uydim m
      → i < uxdim
      → j < uydim
      → Perm order (neighbourhood uxdim uydim i j)
      → Returns (Round Done uxdim uydim i j m) (put m i j (mean_of real uxdim uydim f order))
  put-Round i j order m shape hi hj all =
      Returns-weaken (put-Put m i j (mean_of real uxdim uydim f order) shape hi hj) (λ m' p.
        record {
          shape = p.shape;
          here = record { order = order; all = all; is_mean = p.here };
          elsewhere = p.elsewhere;
        })

  pub average_cell-Round :
      1 < uxdim
      → 1 < uydim
      → (i j : ℕ) (m : RMatrix Info D) → i < uxdim
      → j < uydim
      → HasShape uxdim uydim m
      → Returns (Round Inner uxdim uydim i j m) (average_cell real uxdim uydim u i j m)
  unfolding average_cell
  average_cell-Round wide high i j m hi hj shape = elim (Bool-cases (corner uxdim uydim i j)) [
    | inl outer ↦
        rw (average_cells-corner uxdim uydim i j wide high outer, average_cell)
          (returns (record { shape = shape; here = λ inner. cc; elsewhere = λ a b apart. refl }))
    | inr inner ↦
        let (first, rest, e) = neighbourhood-cons uxdim uydim i j in
        let inside : All (Inside uxdim uydim) (first ∷ rest) =
          subst (All (Inside uxdim uydim)) e (neighbourhood-Inside uxdim uydim i j hi hj) in
        let order : Perm (first ∷ rest) (neighbourhood uxdim uydim i j) =
          subst (Perm (first ∷ rest)) (sym e) (Perm.refl (first ∷ rest)) in
        rw
          (
            average_cells-neighbourhood uxdim uydim i j wide high hi hj inner ∙ ap some e,
            average_cell,
            mean-mean_of first rest inside,
          )
          (Returns-weaken (put-Round i j (first ∷ rest) m shape hi hj order)
            (λ m' r. record { shape = r.shape; here = λ inner. r.here; elsewhere = r.elsewhere }))
  ]
