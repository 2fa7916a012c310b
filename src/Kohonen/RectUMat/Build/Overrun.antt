-- ===== src/Kohonen/RectUMat/Build/Overrun.antt =====
-- The table of `buildUMatrix` of src/kohonen/umat/RectUMat.h is sorted beyond its end.
use premir_cpp.Common.{
  dec_lt, ℕ, zero, suc, ◌+◌, ◌-◌, ◌/◌, ◌≤◌, ◌<◌, ◌≡◌, refl, subst, true, ◌&&◌, [], ◌∷◌, arith, ltb,
}
use premir_cpp.Common.Run.{Run, ok, throws, undefined, out_of_fuel, ◌>>=◌, Returns, returns, for}
use premir_cpp.Sort.HeapSort.{Ordered, sort}
use premir_cpp.Utils.RMatrix.{RMatrix, cell}
use premir_cpp.Utils.RMatrix.Grid.{for_each_cell}
use premir_cpp.Kohonen.UMat.{Arithmetic, UMat}
use premir_cpp.Kohonen.RectUMat.Build.{
  distances, middle_value, neuron_value, medians, build_u_matrix,
}

-- The call does not return, however the rest of it goes.
abbrev pub Fails : {S : Type 0} → Run S → Type 0
Fails call = ¬ Returns (λ result. Unit {0}) call

undefined-Fails : {S : Type 0} → Fails {S = S} undefined
undefined-Fails = λ h. elim h [ ]

Fails-bind_rest :
    {S T : Type 0} (call : Run S) (rest : S → Run T)
    → ((result : S) → Fails (rest result))
    → Fails (call >>= rest)
Fails-bind_rest (ok result) rest fails h = fails result h
Fails-bind_rest (throws error) rest fails h = elim h [ ]
Fails-bind_rest undefined rest fails h = elim h [ ]
Fails-bind_rest out_of_fuel rest fails h = elim h [ ]

Fails-bind_first :
    {S T : Type 0} (call : Run S) (rest : S → Run T) → Fails call → Fails (call >>= rest)
Fails-bind_first (ok result) rest fails h = fails (returns tt)
Fails-bind_first (throws error) rest fails h = elim h [ ]
Fails-bind_first undefined rest fails h = elim h [ ]
Fails-bind_first out_of_fuel rest fails h = elim h [ ]

-- A loop does not return if one of its rounds does not.
Fails-for :
    {S : Type 0} (body : ℕ → S → Run S) (k n i : ℕ) (s : S)
    → i ≤ k
    → k < i + n
    → ((t : S) → Fails (body k t))
    → Fails (for n i body s)
unfolding for
Fails-for body k zero i s from to fails h = absurd (omega (arith, from, to))
Fails-for body k (suc n) i s from to fails h = elim (dec_lt i k) [
  | yes later ↦
      Fails-bind_rest (body i s) _
        (λ t. Fails-for body k n (suc i) t (omega (arith, later)) (omega (arith, to)) fails) h
  | no now ↦
      Fails-bind_first (body i s) _ (subst (λ j. Fails (body j s)) (k_is_i i k from now) (fails s))
        h
]
  where
    k_is_i : (i k : ℕ) → i ≤ k → ¬ (i < k) → k ≡ i
    k_is_i i k from now = omega (arith, from, now)

-- `hsort.sort(medtable, 6)` on a table of four reads past the end, whatever the values are.
sort_six : {D : Type 0} (o : Ordered D) (a b c d : D) → sort o (a ∷ b ∷ c ∷ d ∷ []) 6 ≡ undefined
unfolding sort
sort_six o a b c d = refl

module _ {Info D : Type 0} (real : Arithmetic D) where
  middle_value-Fails : (u : RMatrix Info D) (i j : ℕ) → Fails (middle_value real u i j)
  unfolding middle_value
  middle_value-Fails u i j = Fails-bind_rest (cell u (i - 1) j) _ (λ a.
      Fails-bind_rest (cell u (i + 1) j) _ (λ b. Fails-bind_rest (cell u i (j - 1)) _ (λ c.
        Fails-bind_rest (cell u i (j + 1)) _
          (λ d. rw (sort_six real.order a b c d) undefined-Fails))))

  neuron_value-Fails :
      (m : UMat Info D) (u : RMatrix Info D)
      → 4 < m.uxdim
      → 4 < m.uydim
      → Fails (neuron_value real m 2 2 u)
  unfolding neuron_value
  neuron_value-Fails m u wide high =
      let inside : (ltb 2 (m.uxdim - 1) && ltb 2 (m.uydim - 1)) ≡ true =
        ground (arith, wide, high) in
      let east : ltb 2 (m.uxdim - 1) ≡ true = ground (arith, wide) in
      let south : ltb 2 (m.uydim - 1) ≡ true = ground (arith, high) in
      rw (east, south) (middle_value-Fails u 2 2)

  -- On a map of at least three neurons each way `buildUMatrix` does not return: in the middle of the
  -- map it sorts a table of four values as one of six.
  pub build_u_matrix-Fails :
      (m : UMat Info D) → 4 < m.uxdim → 4 < m.uydim → Fails (build_u_matrix real m)
  unfolding build_u_matrix medians
  build_u_matrix-Fails m wide high =
      Fails-bind_rest (for_each_cell m.xdim m.ydim (distances real m) m.u_matrix) _ (λ between.
        Fails-bind_first (medians real m between) _ (
          Fails-for _ 1 ((m.uydim + 1) / 2) 0 between (omega arith) (omega (arith, high)) (λ row.
            Fails-for _ 1 ((m.uxdim + 1) / 2) 0 row (omega arith) (omega (arith, wide)) (λ now.
              Fails-bind_first (neuron_value real m 2 2 now) _
                (neuron_value-Fails m now wide high)))))
