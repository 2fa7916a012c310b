-- ===== src/Kohonen/HexaUMat/Smooth/CornerCells.antt =====
-- The cells that src/kohonen/umat/HexaUMat.h reads in the corners.
use mathlib.Core.List.Perm
use premir_cpp.Common.{ℕ, ◌-◌, ◌<◌, ◌≡◌, sym, subst, [], ◌∷◌, Perm, arith}
use premir_cpp.Kohonen.RectUMat.Smooth.Corners.{rotated}
use premir_cpp.Kohonen.HexaUMat.Smooth.Cells.{hexagon, Fits}

module _ (uxdim uydim : ℕ) (wide : 1 < uxdim) (high : 1 < uydim) where
  pub north_west-Fits : Fits uxdim uydim 0 0 ((1, 0) ∷ (0, 0) ∷ (0, 1) ∷ [])
  north_west-Fits =
      let e : hexagon uxdim uydim 0 0 ≡ (0, 0) ∷ (1, 0) ∷ (0, 1) ∷ [] =
        ground (arith, wide, high) in
      record {
        touch = subst (Perm _) (sym e) (Perm.swap _ _ _);
        inside = omega (arith, wide, high);
        some_cells = omega arith;
        few_cells = omega arith;
      }

  pub south_east-Fits :
      Fits uxdim uydim
        (uxdim - 1)
        (uydim - 1)
        ((uxdim - 1, uydim - 1) ∷ (uxdim - 1, uydim - 2) ∷ (uxdim - 2, uydim - 1) ∷ [])
  south_east-Fits =
      let e : hexagon uxdim uydim (uxdim - 1) (uydim - 1)
          ≡ (uxdim - 1, uydim - 2) ∷ (uxdim - 2, uydim - 1) ∷ (uxdim - 1, uydim - 1) ∷ [] =
        ground (arith, wide, high) in
      record {
        touch = subst (Perm _) (sym e) (Perm.symm (rotated _ _ _));
        inside = omega (arith, wide, high);
        some_cells = omega arith;
        few_cells = omega arith;
      }

  pub south_west-Fits :
      Fits uxdim uydim 0 (uydim - 1) ((0, uydim - 1) ∷ (1, uydim - 1) ∷ (0, uydim - 2) ∷ [])
  south_west-Fits =
      let e : hexagon uxdim uydim 0 (uydim - 1)
          ≡ (0, uydim - 2) ∷ (0, uydim - 1) ∷ (1, uydim - 1) ∷ [] =
        ground (arith, wide, high) in
      record {
        touch = subst (Perm _) (sym e) (rotated _ _ _);
        inside = omega (arith, wide, high);
        some_cells = omega arith;
        few_cells = omega arith;
      }

  pub north_east-Fits :
      Fits uxdim uydim
        (uxdim - 1)
        0
        ((uxdim - 1, 0) ∷ (uxdim - 1, 1) ∷ (uxdim - 2, 0) ∷ (uxdim - 2, 1) ∷ [])
  north_east-Fits =
      let e : hexagon uxdim uydim (uxdim - 1) 0
          ≡ (uxdim - 2, 0) ∷ (uxdim - 1, 0) ∷ (uxdim - 2, 1) ∷ (uxdim - 1, 1) ∷ [] =
        ground (arith, wide, high) in
      record {
        touch = subst (Perm _) (sym e) (interleaved _ _ _ _);
        inside = omega (arith, wide, high);
        some_cells = omega arith;
        few_cells = omega arith;
      }
    where
      interleaved : (p q r s : ℕ × ℕ) → Perm (q ∷ s ∷ p ∷ r ∷ []) (p ∷ q ∷ r ∷ s ∷ [])
      interleaved p q r s =
          Perm.trans (Perm.cons q (Perm.swap p s (r ∷ [])))
            (Perm.trans (Perm.swap p q (s ∷ r ∷ [])) (Perm.cons p (Perm.cons q (Perm.swap r s []))))
