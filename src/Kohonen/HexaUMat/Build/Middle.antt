-- ===== src/Kohonen/HexaUMat/Build/Middle.antt =====
-- What `buildUMatrix` of src/kohonen/umat/HexaUMat.h makes of a table of values.
use premir_cpp.Common.{
  ℕ, ◌+◌, ◌*◌, ◌≤◌, ◌≡◌, refl, List, [], ◌∷◌, some, arith, length, get_elem?, get_elem?_of_lt,
}
use premir_cpp.Common.Run.{◌>>=◌, Returns, returns, Returns-bind}
use premir_cpp.Sort.HeapSort.{load, sort}
use premir_cpp.Sort.HeapSort.SiftDown.{load-ok}
use premir_cpp.Sort.HeapSort.Sorted.{Sorts, sort-Sorts}
use premir_cpp.Kohonen.UMat.{Arithmetic}
use premir_cpp.Kohonen.UMat.Medians.{Entry}
use premir_cpp.Kohonen.RectUMat.Build.{sorted_entry}
use premir_cpp.Kohonen.HexaUMat.Build.{mean_entries, table_value}

module _ {D : Type 0} (real : Arithmetic D) where
  abbrev pub mean_of_two : D → D → D
  mean_of_two a b = real.div (real.add a b) (real.number 2)

  -- The middle of some values: of two their mean; else, in ascending order, the one in the middle or
  -- the mean of the two there.
  pub data Middle (vs : List D) (v : D) : Type 0 where
    of_two : (a b : D) → vs ≡ a ∷ b ∷ [] → v ≡ mean_of_two a b → Middle vs v
    of_odd : (k : ℕ) → length vs ≡ 2 * k + 1 → Entry real vs k v → Middle vs v
    of_even :
        (k : ℕ)
        → length vs ≡ 2 * k + 2
        → (ascending : List D) → Sorts real.order (length vs) vs ascending
        → (a b : D) → get_elem? ascending k ≡ some a
        → get_elem? ascending (k + 1) ≡ some b
        → v ≡ mean_of_two a b
        → Middle vs v

  odd-Middle :
      (vs : List D) (k : ℕ)
      → length vs ≡ 2 * k + 1
      → Returns (Middle vs) (sorted_entry real vs (length vs) k)
  unfolding sorted_entry
  odd-Middle vs k odd = Returns-bind (sort-Sorts real.order vs (length vs) (omega arith)) (λ ys s.
      let (v, e) = get_elem?_of_lt ys k (omega (arith, odd, s.1.size)) in
      rw (load-ok ys k e)
        (returns (of_odd k odd (record { ascending = ys; sorts = s; entry = e }))))

  even-Middle :
      (vs : List D) (k : ℕ)
      → length vs ≡ 2 * k + 2
      → Returns
          (Middle vs)
          (sort real.order vs (length vs) >>= λ ys. mean_entries real ys k (k + 1))
  unfolding mean_entries
  even-Middle vs k even = Returns-bind (sort-Sorts real.order vs (length vs) (omega arith)) (λ ys s.
      let (a, e) = get_elem?_of_lt ys k (omega (arith, even, s.1.size)) in
      let (b, e') = get_elem?_of_lt ys (k + 1) (omega (arith, even, s.1.size)) in
      rw (load-ok ys k e, load-ok ys (k + 1) e') (returns (of_even k even ys s a b e e' refl)))

  pub table_value-Middle :
      (vs : List D)
      → 2 ≤ length vs
      → length vs ≤ 6
      → Returns (Middle vs) (table_value real vs (length vs))
  unfolding table_value mean_entries load
  table_value-Middle [] least most = absurd (omega (arith, least))
  table_value-Middle (a ∷ []) least most = absurd (omega (arith, least))
  table_value-Middle (a ∷ b ∷ []) least most = returns (of_two a b refl refl)
  table_value-Middle (a ∷ b ∷ c ∷ []) least most = odd-Middle (a ∷ b ∷ c ∷ []) 1 refl
  table_value-Middle (a ∷ b ∷ c ∷ d ∷ []) least most = even-Middle (a ∷ b ∷ c ∷ d ∷ []) 1 refl
  table_value-Middle (a ∷ b ∷ c ∷ d ∷ e ∷ []) least most =
      odd-Middle (a ∷ b ∷ c ∷ d ∷ e ∷ []) 2 refl
  table_value-Middle (a ∷ b ∷ c ∷ d ∷ e ∷ f ∷ []) least most =
      even-Middle (a ∷ b ∷ c ∷ d ∷ e ∷ f ∷ []) 2 refl
  table_value-Middle (a ∷ b ∷ c ∷ d ∷ e ∷ f ∷ g ∷ vs) least most = absurd (omega (arith, most))
