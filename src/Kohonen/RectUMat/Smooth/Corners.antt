-- ===== src/Kohonen/RectUMat/Smooth/Corners.antt =====
-- The corners, and the whole of `averageUMatrix` of src/kohonen/umat/RectUMat.h.
use mathlib.Core.List.Perm
use premir_cpp.Common.{
  ℕ, ◌-◌, ◌^◌, ◌<◌, ◌≡◌, sym, subst, Bool, true, false, ◌&&◌, not, List, [], ◌∷◌, Perm, arith, ◌==◌,
  same_or_apart,
}
use premir_cpp.Common.Run.{ok, Returns, returns, Returns-bind, Returns-weaken}
use premir_cpp.Utils.RMatrix.{RMatrix, cell, put}
use premir_cpp.Utils.RMatrix.Cells.{HasShape, put-Put, new-Blank}
use premir_cpp.Utils.RMatrix.Grid.{Round, Filled, for_each_cell-Filled}
use premir_cpp.Kohonen.UMat.{Arithmetic, UMat, size_sub}
use premir_cpp.Kohonen.RectUMat.Smooth.{copy_cell, average_corners, average_u_matrix}
use premir_cpp.Kohonen.RectUMat.Smooth.Average.{
  neighbourhood, corner, Averaged, mean_of, mean-mean_of, put-Round, average_cell-Round, Inner,
}

pub size_sub-two : (n : ℕ) → 1 < n → n < 2 ^ 64 → size_sub n 2 ≡ n - 2
size_sub-two n lo hi = omega (arith, lo, hi)

module _ {A : Type 0} (a b c : A) where
  pub rotated : Perm (a ∷ b ∷ c ∷ []) (c ∷ a ∷ b ∷ [])
  rotated = Perm.trans (Perm.cons a (Perm.swap c b [])) (Perm.swap c a (b ∷ []))

  reversed : Perm (a ∷ b ∷ c ∷ []) (c ∷ b ∷ a ∷ [])
  reversed = Perm.trans rotated (Perm.cons c (Perm.swap b a []))

module _ (uxdim uydim : ℕ) (wide : 1 < uxdim) (high : 1 < uydim) where
  south_west :
      neighbourhood uxdim uydim 0 (uydim - 1)
      ≡ (0, uydim - 2) ∷ (0, uydim - 1) ∷ (1, uydim - 1) ∷ []
  south_west = ground (arith, wide, high)

  south_east :
      neighbourhood uxdim uydim (uxdim - 1) (uydim - 1)
      ≡ (uxdim - 1, uydim - 2) ∷ (uxdim - 2, uydim - 1) ∷ (uxdim - 1, uydim - 1) ∷ []
  south_east = ground (arith, wide, high)

  north_east :
      neighbourhood uxdim uydim (uxdim - 1) 0
      ≡ (uxdim - 2, 0) ∷ (uxdim - 1, 0) ∷ (uxdim - 1, 1) ∷ []
  north_east = ground (arith, wide, high)

  north_west : neighbourhood uxdim uydim 0 0 ≡ (0, 0) ∷ (1, 0) ∷ (0, 1) ∷ []
  north_west = ground (arith, wide, high)

module _ {Info D : Type 0} (real : Arithmetic D) (uxdim uydim : ℕ) (f : ℕ → ℕ → D)
    (u : RMatrix Info D) (shown : (i j : ℕ) → i < uxdim → j < uydim → cell u i j ≡ ok (f i j)) where
  -- All cells but those that are skipped are means.
  record Except (skip : ℕ → ℕ → Bool) (m : RMatrix Info D) : Type 0 where
    shape : HasShape uxdim uydim m
    cells :
        (a b : ℕ)
        → a < uxdim
        → b < uydim
        → skip a b ≡ false
        → Averaged real uxdim uydim f a b (cell m a b)

  abbrev but : (ℕ → ℕ → Bool) → ℕ → ℕ → ℕ → ℕ → Bool
  but skip i j a b = skip a b && not ((i == a) && (j == b))

  corner-Except :
      (skip : ℕ → ℕ → Bool) (i j : ℕ) (order : List (ℕ × ℕ)) (m : RMatrix Info D)
      → Except skip m
      → i < uxdim
      → j < uydim
      → Perm order (neighbourhood uxdim uydim i j)
      → Returns (Except (but skip i j)) (put m i j (mean_of real uxdim uydim f order))
  corner-Except skip i j order m e hi hj all =
      (Returns-weaken (put-Round real uxdim uydim f u shown i j order m e.shape hi hj all) (λ m' r.
        record {
          shape = r.shape;
          cells = λ a b ha hb left.
              same_or_apart (λ a b. Averaged real uxdim uydim f a b (cell m' a b)) i j a b r.here
                (λ apart.
                  subst (Averaged real uxdim uydim f a b) (sym (r.elsewhere a b apart))
                    (e.cells a b ha hb (ground (arith, left, apart))));
        }))

  average_corners-Filled :
      (m : RMatrix Info D)
      → 1 < uxdim
      → 1 < uydim
      → uxdim < 2 ^ 64
      → uydim < 2 ^ 64
      → Except (corner uxdim uydim) m
      → Returns
          (Filled (Averaged real uxdim uydim f) uxdim uydim)
          (average_corners real uxdim uydim u m)
  unfolding average_corners
  average_corners-Filled m wide high hx hy e =
      let reads = λ (first second third : ℕ × ℕ).
        mean-mean_of real uxdim uydim f u shown first (second ∷ third ∷ []) in
      rw
        (
          size_sub-two uxdim wide hx,
          size_sub-two uydim high hy,
          reads (1, uydim - 1) (0, uydim - 1) (0, uydim - 2) (omega (arith, wide, high)),
          reads (uxdim - 2, uydim - 1) (uxdim - 1, uydim - 1) (uxdim - 1, uydim - 2)
              (omega (arith, wide, high)),
          reads (uxdim - 2, 0) (uxdim - 1, 0) (uxdim - 1, 1) (omega (arith, wide, high)),
          reads (1, 0) (0, 1) (0, 0) (omega (arith, wide, high)),
        )
        (Returns-bind
          (corner-Except (corner uxdim uydim) 0 (uydim - 1) _ m e (omega (arith, wide))
            (omega (arith, high))
            (subst (Perm _) (sym (south_west uxdim uydim wide high)) (reversed _ _ _)))
          (λ a ea.
            Returns-bind
              (corner-Except _ (uxdim - 1) (uydim - 1) _ a ea (omega (arith, wide))
                (omega (arith, high))
                (subst (Perm _) (sym (south_east uxdim uydim wide high)) (rotated _ _ _)))
              (λ b eb.
                Returns-bind
                  (corner-Except _ (uxdim - 1) 0 _ b eb (omega (arith, wide)) (omega (arith, high))
                    (subst (Perm _) (sym (north_east uxdim uydim wide high)) (Perm.refl _)))
                  (λ c ec.
                    Returns-weaken
                      (corner-Except _ 0 0 _ c ec (omega (arith, wide)) (omega (arith, high))
                        (subst (Perm _) (sym (north_west uxdim uydim wide high)) (rotated _ _ _)))
                      (λ d ed. record {
                        shape = ed.shape;
                        cells = λ i j hi hj. ed.cells i j hi hj (no_corner i j);
                      })))))
    where
      no_corner :
          (i j : ℕ)
          → but
              (but
                (but (but (corner uxdim uydim) 0 (uydim - 1)) (uxdim - 1) (uydim - 1))
                (uxdim - 1)
                0)
              0
              0
              i
              j
            ≡ false
      no_corner i j = ground arith

-- The U-matrix holds `f`, and has at least two cells each way; `uxdim` and `uydim` are of `size_t`.
pub record Shows {Info D : Type 0} (m : UMat Info D) (f : ℕ → ℕ → D) : Type 0 where
  pub shape : HasShape m.uxdim m.uydim m.u_matrix
  pub cells : (i j : ℕ) → i < m.uxdim → j < m.uydim → cell m.u_matrix i j ≡ ok (f i j)
  pub wide : 1 < m.uxdim
  pub high : 1 < m.uydim
  pub wide_fits : m.uxdim < 2 ^ 64
  pub high_fits : m.uydim < 2 ^ 64

module _ {Info D : Type 0} (real : Arithmetic D) where
  copy_cell-Round :
      (uxdim uydim : ℕ) (f : ℕ → ℕ → D) (whole : RMatrix Info D) (i j : ℕ) (u : RMatrix Info D)
      → Filled (Averaged real uxdim uydim f) uxdim uydim whole
      → i < uxdim
      → j < uydim
      → HasShape uxdim uydim u
      → Returns (Round (Averaged real uxdim uydim f) uxdim uydim i j u) (copy_cell real whole i j u)
  unfolding copy_cell
  copy_cell-Round uxdim uydim f whole i j u filled hi hj shape =
      let a = filled.cells i j hi hj in
      rw a.is_mean (
        Returns-weaken (put-Put u i j (mean_of real uxdim uydim f a.order) shape hi hj) (λ u' p.
          record {
            shape = p.shape;
            here = record { order = a.order; all = a.all; is_mean = p.here };
            elsewhere = p.elsewhere;
          }))

  -- If the allocator grants what it asks for, `averageUMatrix` returns, on a U-matrix that holds `f`
  -- and has at least two cells each way. Every cell then is the mean of `f` over the cell itself
  -- and those beside, above and below it that are in the matrix, added up in some order.
  pub average_u_matrix-Averaged :
      (grants : ℕ → Bool) (granted : (n : ℕ) → grants n ≡ true) (t u_row : ℕ) (m : UMat Info D)
      (f : ℕ → ℕ → D)
      → Shows m f
      → Returns
          (λ (averaged : UMat Info D).
            Filled (Averaged real m.uxdim m.uydim f) m.uxdim m.uydim averaged.u_matrix)
          (average_u_matrix real grants t u_row m)
  unfolding average_u_matrix
  average_u_matrix-Averaged grants granted t u_row m f s =
      Returns-bind (new-Blank grants granted t u_row m.uxdim m.uydim) (λ umat2 blank.
        Returns-bind
          (for_each_cell-Filled (Inner real m.uxdim m.uydim f m.u_matrix s.cells) m.uxdim m.uydim
            umat2 _ blank.shape
            (λ i j now hi hj shape e.
              average_cell-Round real m.uxdim m.uydim f m.u_matrix s.cells s.wide s.high i j now hi
                hj shape))
          (λ inner filled.
            Returns-bind
              (average_corners-Filled real m.uxdim m.uydim f m.u_matrix s.cells inner s.wide s.high
                s.wide_fits s.high_fits (record { shape = filled.shape; cells = filled.cells }))
              (λ whole done.
                Returns-bind
                  (for_each_cell-Filled (Averaged real m.uxdim m.uydim f) m.uxdim m.uydim m.u_matrix
                    _ s.shape
                    (λ i j now hi hj shape e.
                      copy_cell-Round m.uxdim m.uydim f whole i j now done hi hj shape))
                  (λ copied final. returns final))))
