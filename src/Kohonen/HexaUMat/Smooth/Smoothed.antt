-- ===== src/Kohonen/HexaUMat/Smooth/Smoothed.antt =====
-- Every cell of a U-matrix that is smoothed by src/kohonen/umat/HexaUMat.h.
use premir_cpp.Common.{ℕ, ◌-◌, ◌<◌, ◌≡◌, Bool, true, ◌||◌, List, arith}
use premir_cpp.Common.Run.{Run, Returns, returns, Returns-bind, Returns-weaken}
use premir_cpp.Utils.RMatrix.{RMatrix}
use premir_cpp.Utils.RMatrix.Cells.{HasShape, put-Put, new-Blank}
use premir_cpp.Utils.RMatrix.Grid.{Round, Filled, for_each_cell-Filled}
use premir_cpp.Kohonen.UMat.{UMat}
use premir_cpp.Kohonen.RectUMat.Smooth.Corners.{Shows, size_sub-two}
use premir_cpp.Kohonen.HexaUMat.Smooth.{
  north_cells, south_cells, east_cells, west_cells, write_north, write_south, write_east,
  write_west, write_corners, copy_cell, smooth,
}
use premir_cpp.Kohonen.HexaUMat.Smooth.Cells.{
  Fits, north_cells-Fits, south_cells-Fits, east_cells-Fits, west_cells-Fits,
}
use premir_cpp.Kohonen.HexaUMat.Smooth.CornerCells.{
  north_west-Fits, south_east-Fits, south_west-Fits, north_east-Fits,
}
use premir_cpp.Kohonen.HexaUMat.Smooth.Paint.{
  Smoothed, Painted, write-Painted, row-Painted, column-Painted, inner-Painted, within, in_row,
  in_column,
}

module _ {Info D : Type 0} (combine : List (ℕ × ℕ) → Run D) (Good : List (ℕ × ℕ) → D → Type 0)
    (m : UMat Info D) (f : ℕ → ℕ → D) (s : Shows m f)
    (combined : (i j : ℕ) (cells : List (ℕ × ℕ))
      → Fits m.uxdim m.uydim i j cells
      → Returns (Good cells) (combine cells)) where
  abbrev Part : (ℕ → ℕ → Bool) → RMatrix Info D → Type 0
  Part = Painted combine Good m.uxdim m.uydim combined

  -- What is painted after the borders.
  abbrev borders : ℕ → ℕ → Bool
  borders a b =
      (((within m.uxdim (m.uydim - 1) a b || in_row 0 (m.uxdim - 1) a b)
          || in_row (m.uydim - 1) (m.uxdim - 1) a b)
        || in_column (m.uxdim - 1) (m.uydim - 1) a b)
      || in_column 0 (m.uydim - 1) a b

  corners-Filled :
      (u : RMatrix Info D)
      → Part borders u
      → Returns
          (Filled (Smoothed Good m.uxdim m.uydim) m.uxdim m.uydim)
          (write_corners combine m.uxdim m.uydim u)
  unfolding write_corners
  corners-Filled u p =
      let ux = m.uxdim in
      let uy = m.uydim in
      let first : 0 < ux = omega (arith, s.wide) in
      let top : 0 < uy = omega (arith, s.high) in
      let last : ux - 1 < ux = omega (arith, s.wide) in
      let bottom : uy - 1 < uy = omega (arith, s.high) in
      rw (size_sub-two m.uxdim s.wide s.wide_fits, size_sub-two m.uydim s.high s.high_fits)
        (Returns-bind
          (write-Painted combine Good ux uy combined borders 0 0 _ u first top
            (north_west-Fits ux uy s.wide s.high) p)
          (λ a pa.
            Returns-bind
              (write-Painted combine Good ux uy combined _ (ux - 1) 0 _ a last top
                (north_east-Fits ux uy s.wide s.high) pa)
              (λ b pb.
                Returns-bind
                  (write-Painted combine Good ux uy combined _ (ux - 1) (uy - 1) _ b last bottom
                    (south_east-Fits ux uy s.wide s.high) pb)
                  (λ c pc.
                    Returns-weaken
                      (write-Painted combine Good ux uy combined _ 0 (uy - 1) _ c first bottom
                        (south_west-Fits ux uy s.wide s.high) pc)
                      (λ d pd. record {
                        shape = pd.shape;
                        cells = λ i j hi hj. pd.painted i j hi hj (ground (arith, hi, hj));
                      })))))

  copy_cell-Round :
      (whole : RMatrix Info D) (i j : ℕ) (u : RMatrix Info D)
      → Filled (Smoothed Good m.uxdim m.uydim) m.uxdim m.uydim whole
      → i < m.uxdim
      → j < m.uydim
      → HasShape m.uxdim m.uydim u
      → Returns
          (Round (Smoothed Good m.uxdim m.uydim) m.uxdim m.uydim i j u)
          (copy_cell combine whole i j u)
  unfolding copy_cell
  copy_cell-Round whole i j u filled hi hj shape =
      let a = filled.cells i j hi hj in
      rw a.holds (
        Returns-weaken (put-Put u i j a.value shape hi hj) (λ u' p. record {
          shape = p.shape;
          here = record {
            cells = a.cells;
            fits = a.fits;
            value = a.value;
            good = a.good;
            holds = p.here;
          };
          elsewhere = p.elsewhere;
        }))

  pub smooth-Filled :
      (grants : ℕ → Bool) (granted : (n : ℕ) → grants n ≡ true) (t u_row : ℕ)
      → Returns
          (λ (smoothed : UMat Info D).
            Filled (Smoothed Good m.uxdim m.uydim) m.uxdim m.uydim smoothed.u_matrix)
          (smooth combine grants t u_row m)
  unfolding smooth write_north write_south write_east write_west copy_cell
  smooth-Filled grants granted t u_row =
      let ux = m.uxdim in
      let uy = m.uydim in
      Returns-bind (new-Blank grants granted t u_row ux uy) (λ umat2 blank.
        Returns-bind (inner-Painted combine Good ux uy combined umat2 s.wide s.high blank.shape)
          (λ inner pi.
            Returns-bind
              (row-Painted combine Good ux uy combined _ north_cells 0 inner s.wide
                (omega (arith, s.high)) (λ i li hi. north_cells-Fits ux uy i li hi s.high) pi)
              (λ north pn.
                Returns-bind
                  (row-Painted combine Good ux uy combined _ south_cells (uy - 1) north s.wide
                    (omega (arith, s.high))
                    (λ i li hi.
                      south_cells-Fits ux uy i (uy - 1) li hi (omega (arith, s.high))
                        (omega (arith, s.high)))
                    pn)
                  (λ south ps.
                    Returns-bind
                      (column-Painted combine Good ux uy combined _ east_cells (ux - 1) south s.high
                        (omega (arith, s.wide))
                        (λ j lj hj.
                          east_cells-Fits ux uy (ux - 1) j (omega (arith, s.wide))
                            (omega (arith, s.wide)) lj hj)
                        ps)
                      (λ east pe.
                        Returns-bind
                          (column-Painted combine Good ux uy combined _ west_cells 0 east s.high
                            (omega (arith, s.wide))
                            (λ j lj hj. west_cells-Fits ux uy j s.wide lj hj) pe)
                          (λ west pw. Returns-bind (corners-Filled west pw) (λ whole done.
                            Returns-bind
                              (for_each_cell-Filled (Smoothed Good ux uy) ux uy m.u_matrix _ s.shape
                                (λ i j now hi hj shape e.
                                  copy_cell-Round whole i j now done hi hj shape))
                              (λ copied final. returns final))))))))
