-- ===== src/Kohonen/RectUMat/Smooth/Lost.antt =====
-- `medianUMatrix` of src/kohonen/umat/RectUMat.h loses the medians that it computes.
use premir_cpp.Common.{
  ℕ, ◌+◌, ◌-◌, ◌^◌, ◌<◌, ◌≡◌, ap, subst, Bool, true, ◌&&◌, sym, arith, ltb, ◌==◌, same_or_apart,
}
use premir_cpp.Common.Run.{
  Run, ok, undefined, ◌>>=◌, Returns, returns, Returns-bind, Returns-weaken, Returns-cond,
  for-Returns, undefined-after, for-undefined,
}
use premir_cpp.Utils.RMatrix.{RMatrix, cell, put}
use premir_cpp.Utils.RMatrix.Cells.{HasShape, put-Put, Blank, new-Blank}
use premir_cpp.Utils.RMatrix.Grid.{for_each_cell}
use premir_cpp.Kohonen.UMat.{Arithmetic, UMat}
use premir_cpp.Kohonen.UMat.Medians.{medians-Entry}
use premir_cpp.Kohonen.RectUMat.Smooth.{
  median_of_three, median_of_four, median_of_five, median_cell, median_corners, copy_cell,
  median_u_matrix,
}
use premir_cpp.Kohonen.RectUMat.Smooth.Average.{Inside}
use premir_cpp.Kohonen.RectUMat.Smooth.Corners.{Shows, size_sub-two}

module _ {Info D : Type 0} (real : Arithmetic D) (uxdim uydim : ℕ) where
  -- Every cell is written.
  record Written (m : RMatrix Info D) : Type 0 where
    shape : HasShape uxdim uydim m
    cells : (i j : ℕ) → i < uxdim → j < uydim → Returns (λ v. Unit {0}) (cell m i j)

  put-Written :
      (m : RMatrix Info D) (i j : ℕ) (v : D)
      → Written m
      → Inside uxdim uydim (i, j)
      → Returns Written (put m i j v)
  put-Written m i j v w (hi, hj) = Returns-weaken (put-Put m i j v w.shape hi hj) (λ m' p. record {
    shape = p.shape;
    cells = λ a b ha hb.
        same_or_apart (λ a b. Returns (λ v. Unit {0}) (cell m' a b)) i j a b
          (subst (Returns (λ v. Unit {0})) (sym p.here) (returns tt))
          (λ apart.
            subst (Returns (λ v. Unit {0})) (sym (p.elsewhere a b apart)) (w.cells a b ha hb));
  })

  write_known :
      {call : Run D} (m : RMatrix Info D) (i j : ℕ)
      → Returns (λ v. Unit {0}) call
      → Written m
      → Inside uxdim uydim (i, j)
      → Returns Written (call >>= put m i j)
  write_known m i j known w here = Returns-bind known (λ v done. put-Written m i j v w here)

  module _ (m : RMatrix Info D) (w : Written m) where
    median_of_three-known :
        (a b c : ℕ × ℕ)
        → Inside uxdim uydim a × Inside uxdim uydim b × Inside uxdim uydim c
        → Returns (λ v. Unit {0}) (median_of_three real m a b c)
    unfolding median_of_three
    median_of_three-known a b c (ha, hb, hc) = Returns-bind (w.cells a.0 a.1 ha.0 ha.1) (λ x hx.
        Returns-bind (w.cells b.0 b.1 hb.0 hb.1) (λ y hy.
          Returns-bind (w.cells c.0 c.1 hc.0 hc.1)
            (λ z hz. Returns-weaken ((medians-Entry real x y z x x x x).4) (λ v e. tt))))

    median_of_four-known :
        (a b c d : ℕ × ℕ)
        → Inside uxdim uydim a × Inside uxdim uydim b × Inside uxdim uydim c × Inside uxdim uydim d
        → Returns (λ v. Unit {0}) (median_of_four real m a b c d)
    unfolding median_of_four
    median_of_four-known a b c d (ha, hb, hc, hd) =
        Returns-bind (w.cells a.0 a.1 ha.0 ha.1) (λ x hx.
          Returns-bind (w.cells b.0 b.1 hb.0 hb.1) (λ y hy.
            Returns-bind (w.cells c.0 c.1 hc.0 hc.1) (λ z hz.
              Returns-bind (w.cells d.0 d.1 hd.0 hd.1)
                (λ t ht. Returns-weaken ((medians-Entry real x y z t x x x).3) (λ v e. tt)))))

    median_of_five-known :
        (a b c d e : ℕ × ℕ)
        → Inside uxdim uydim a
          × Inside uxdim uydim b
          × Inside uxdim uydim c
          × Inside uxdim uydim d
          × Inside uxdim uydim e
        → Returns (λ v. Unit {0}) (median_of_five real m a b c d e)
    unfolding median_of_five
    median_of_five-known a b c d e (ha, hb, hc, hd, he) =
        Returns-bind (w.cells a.0 a.1 ha.0 ha.1) (λ x hx.
          Returns-bind (w.cells b.0 b.1 hb.0 hb.1) (λ y hy.
            Returns-bind (w.cells c.0 c.1 hc.0 hc.1) (λ z hz.
              Returns-bind (w.cells d.0 d.1 hd.0 hd.1) (λ t ht.
                Returns-bind (w.cells e.0 e.1 he.0 he.1)
                  (λ s hs. Returns-weaken ((medians-Entry real x y z t s x x).2) (λ v e. tt))))))

    -- On every branch the median reads cells in range.
    median_cell-Written :
        (i j : ℕ)
        → 1 < uxdim
        → 1 < uydim
        → i < uxdim
        → j < uydim
        → Returns Written (median_cell real uxdim uydim i j m)
    unfolding median_cell
    median_cell-Written i j wide high hi hj =
        Returns-cond (ltb 0 i && ltb 0 j && ltb j (uydim - 1) && ltb i (uxdim - 1))
          (λ middle.
            write_known m i j
              (median_of_five-known (i, j - 1) (i - 1, j) (i, j) (i + 1, j) (i, j + 1)
                (ground (arith, middle)))
              w (hi, hj))
          (λ _.
            Returns-cond (ltb 0 i && ltb i (uxdim - 1) && (j == 0))
              (λ top.
                write_known m i j
                  (median_of_four-known (i - 1, j) (i, j) (i + 1, j) (i, j + 1)
                    (ground (arith, top)))
                  w (hi, hj))
              (λ _.
                Returns-cond ((i == 0) && ltb 0 j && ltb j (uydim - 1))
                  (λ left.
                    write_known m i j
                      (median_of_four-known (i, j - 1) (i, j) (i + 1, j) (i, j + 1)
                        (ground (arith, left)))
                      w (hi, hj))
                  (λ _.
                    Returns-cond (ltb 0 i && ltb i (uxdim - 1) && (j == uydim - 1))
                      (λ bottom.
                        write_known m i j
                          (median_of_four-known (i, j - 1) (i - 1, j) (i, j) (i + 1, j)
                            (ground (arith, bottom)))
                          w (hi, hj))
                      (λ _.
                        Returns-cond (ltb 0 j && ltb j (uydim - 1) && (i == uxdim - 1))
                          (λ right.
                            write_known m i j
                              (median_of_five-known (i, j - 1) (i - 1, j) (i - 1, j) (i, j)
                                (i, j + 1) (ground (arith, right)))
                              w (hi, hj))
                          (λ _. returns w)))))

  median_corners-Written :
      (m : RMatrix Info D)
      → 1 < uxdim
      → 1 < uydim
      → uxdim < 2 ^ 64
      → uydim < 2 ^ 64
      → Written m
      → Returns Written (median_corners real uxdim uydim m)
  unfolding median_corners
  median_corners-Written m wide high hx hy w =
      rw (size_sub-two uxdim wide hx, size_sub-two uydim high hy)
        (write m w 0 (uydim - 1) (1, uydim - 1) (0, uydim - 1) (0, uydim - 2)
          (omega (arith, wide, high)) _
          (λ a wa.
            write a wa (uxdim - 1) (uydim - 1) (uxdim - 2, uydim - 1) (uxdim - 1, uydim - 1)
              (uxdim - 1, uydim - 2) (omega (arith, wide, high)) _
              (λ b wb.
                write b wb (uxdim - 1) 0 (uxdim - 2, 0) (uxdim - 1, 0) (uxdim - 1, 1)
                  (omega (arith, wide, high)) _
                  (λ c wc.
                    Returns-bind
                      (median_of_three-known c wc (1, 0) (0, 1) (0, 0) (omega (arith, wide, high)))
                      (λ v k. put-Written c 0 0 v wc (omega (arith, wide, high)))))))
    where
      write :
          (m : RMatrix Info D)
          → Written m
          → (i j : ℕ) (a b c : ℕ × ℕ)
          → Inside uxdim uydim (i, j)
            × Inside uxdim uydim a
            × Inside uxdim uydim b
            × Inside uxdim uydim c
          → (rest : RMatrix Info D → Run (RMatrix Info D))
          → ((m' : RMatrix Info D) → Written m' → Returns Written (rest m'))
          → Returns Written (median_of_three real m a b c >>= λ v. put m i j v >>= rest)
      write m w i j a b c (here, ha, hb, hc) rest next =
          Returns-bind (median_of_three-known m w a b c (ha, hb, hc))
            (λ v k. Returns-bind (put-Written m i j v w here) next)

module _ {Info D : Type 0} (real : Arithmetic D) where
  copied-undefined :
      (uxdim uydim : ℕ) (umat2 whole : RMatrix Info D)
      → Blank uxdim uydim umat2
      → 0 < uxdim
      → 0 < uydim
      → for_each_cell uxdim uydim (copy_cell real umat2) whole ≡ undefined
  unfolding copy_cell
  copied-undefined uxdim uydim umat2 whole blank wide high =
      for-undefined _ uydim 0 whole high
        (for-undefined _ uxdim 0 whole wide (ap (λ r. r >>= put whole 0 0) (blank.unwritten 0 0)))

  -- `medianUMatrix` computes the medians, and then replaces every cell by one of its matrix `umat2`,
  -- which nothing has written: if the allocator grants what it asks for, it has undefined behaviour
  -- on every U-matrix that is written and has at least two cells each way.
  pub median_u_matrix-undefined :
      (grants : ℕ → Bool) (granted : (n : ℕ) → grants n ≡ true) (t u_row : ℕ) (m : UMat Info D)
      (f : ℕ → ℕ → D)
      → Shows m f
      → median_u_matrix real grants t u_row m ≡ undefined
  unfolding median_u_matrix
  median_u_matrix-undefined grants granted t u_row m f s =
      undefined-after (new-Blank grants granted t u_row m.uxdim m.uydim) (λ umat2 blank.
        undefined-after
          (for-Returns (λ _ now. Written real m.uxdim m.uydim now) _ 0 m.uydim m.uydim 0 m.u_matrix
            (omega arith) (omega arith)
            (record {
              shape = s.shape;
              cells = λ i j hi hj.
                  subst (Returns (λ v. Unit {0})) (sym (s.cells i j hi hj)) (returns tt);
            })
            (λ j row lo hj w.
              for-Returns (λ _ now. Written real m.uxdim m.uydim now) _ 0 m.uxdim m.uxdim 0 row
                (omega arith) (omega arith) w
                (λ i now lo' hi w'.
                  median_cell-Written real m.uxdim m.uydim now w' i j s.wide s.high hi hj)))
          (λ inner w.
            undefined-after
              (median_corners-Written real m.uxdim m.uydim inner s.wide s.high s.wide_fits
                s.high_fits w)
              (λ whole w'.
                ap (λ r. r >>= λ copied. ok (record m { u_matrix = copied }))
                  (copied-undefined m.uxdim m.uydim umat2 whole blank (omega (arith, s.wide))
                    (omega (arith, s.high))))))
