-- ===== src/Kohonen/HexaUMat/Build/Neurons.antt =====
-- The values that `buildUMatrix` of src/kohonen/umat/HexaUMat.h gives to the neurons.
use premir_cpp.Common.{
  ℕ, suc, ◌+◌, ◌*◌, ◌/◌, ◌%◌, ◌<◌, ◌≤◌, ◌≡◌, refl, sym, ap, subst, ◌∙◌, Bool, true, false, ◌&&◌,
  ◌||◌, List, [], ◌∷◌, map, Perm, arith, ltb, ◌==◌, length, same_or_apart,
}
use premir_cpp.Common.All.{All}
use premir_cpp.Common.Run.{Run, ok, ◌>>=◌, Returns, Returns-bind, Returns-weaken, for, for-Returns}
use premir_cpp.Utils.RMatrix.{RMatrix, cell, put}
use premir_cpp.Utils.RMatrix.Cells.{HasShape, put-Put}
use premir_cpp.Kohonen.UMat.{Arithmetic, UMat}
use premir_cpp.Kohonen.HexaUMat.Build.{neuron_cells, neuron_value, medians}
use premir_cpp.Kohonen.HexaUMat.Build.Around.{around, neuron_cells-around}
use premir_cpp.Kohonen.HexaUMat.Build.Middle.{Middle, table_value-Middle}
use premir_cpp.Kohonen.HexaUMat.Smooth.{read_cells}
use premir_cpp.Kohonen.HexaUMat.Smooth.Cells.{Inside}

-- Does the cell lie between neurons? Else it is one's own.
abbrev pub is_between : ℕ → ℕ → Bool
is_between a b = (a % 2 == 1) || (b % 2 == 1)

abbrev pub Between : ℕ × ℕ → Type 0
Between c = is_between c.0 c.1 ≡ true

module _ (uxdim uydim i j : ℕ) where
  few_neuron_cells :
      (2 ≤ length (neuron_cells uxdim uydim i j)) × (length (neuron_cells uxdim uydim i j) ≤ 6)
  unfolding neuron_cells
  few_neuron_cells = ground arith

  neuron_cells-Inside :
      1 < uxdim
      → 1 < uydim
      → i < uxdim
      → j < uydim
      → All (Inside uxdim uydim) (neuron_cells uxdim uydim i j)
  unfolding neuron_cells
  neuron_cells-Inside wide high hi hj = ground (arith, wide, high, hi, hj)

  neuron_cells-Between :
      1 < uxdim
      → 1 < uydim
      → i < uxdim
      → j < uydim
      → is_between i j ≡ false
      → All Between (neuron_cells uxdim uydim i j)
  unfolding neuron_cells
  neuron_cells-Between wide high hi hj own = ground (arith, wide, high, hi, hj, own)

module _ {D : Type 0} (real : Arithmetic D) (uxdim uydim : ℕ) (f : ℕ → ℕ → D) where
  abbrev pub values : List (ℕ × ℕ) → List D
  values = map (λ c. f c.0 c.1)

  length-values : (cells : List (ℕ × ℕ)) → length (values cells) ≡ length cells
  length-values [] = refl
  length-values (c ∷ cells) = ap suc (length-values cells)

  -- The cells that touch one, in some order, have `v` as the middle of their values.
  pub record MiddleAround (i j : ℕ) (v : D) : Type 0 where
    pub cells : List (ℕ × ℕ)
    pub touch : Perm cells (around uxdim uydim i j)
    pub middle : Middle real (values cells) v

  pub record Holds (i j : ℕ) (content : Run D) : Type 0 where
    pub value : D
    pub good : MiddleAround i j value
    pub holds : content ≡ ok value

module _ {Info D : Type 0} (real : Arithmetic D) (uxdim uydim : ℕ) (f : ℕ → ℕ → D) where
  -- The cells between the neurons hold `f`, and the neurons of a part have their values.
  pub record Neurons (part : ℕ → ℕ → Bool) (u : RMatrix Info D) : Type 0 where
    pub shape : HasShape uxdim uydim u
    pub between :
        (a b : ℕ) → a < uxdim → b < uydim → is_between a b ≡ true → cell u a b ≡ ok (f a b)
    pub middles :
        (a b : ℕ)
        → a < uxdim
        → b < uydim
        → is_between a b ≡ false
        → part a b ≡ true
        → Holds real uxdim uydim f a b (cell u a b)

  Neurons-weaken :
      (part part' : ℕ → ℕ → Bool) (u : RMatrix Info D)
      → ((a b : ℕ)
          → a < uxdim
          → b < uydim
          → is_between a b ≡ false
          → part' a b ≡ true
          → part a b ≡ true)
      → Neurons part u
      → Neurons part' u
  Neurons-weaken part part' u smaller n = record {
    shape = n.shape;
    between = n.between;
    middles = λ a b ha hb own e. n.middles a b ha hb own (smaller a b ha hb own e);
  }

  read_cells-values :
      {part : ℕ → ℕ → Bool} (u : RMatrix Info D)
      → Neurons part u
      → (cells : List (ℕ × ℕ)) → All (Inside uxdim uydim) cells
      → All Between cells
      → read_cells u cells ≡ ok (values real uxdim uydim f cells)
  unfolding read_cells
  read_cells-values u n [] inside odd = refl
  read_cells-values u n ((i, j) ∷ cells) ((hi, hj), inside) (odd, all_odd) =
      rw (n.between i j hi hj odd, read_cells-values u n cells inside all_odd) refl

module _ {Info D : Type 0} (real : Arithmetic D) (m : UMat Info D) (f : ℕ → ℕ → D)
    (wide : 1 < m.uxdim) (high : 1 < m.uydim) where
  neuron_value-MiddleAround :
      {part : ℕ → ℕ → Bool} (i j : ℕ) (u : RMatrix Info D)
      → Neurons real m.uxdim m.uydim f part u
      → i < m.uxdim
      → j < m.uydim
      → is_between i j ≡ false
      → Returns (MiddleAround real m.uxdim m.uydim f i j) (neuron_value real m i j u)
  unfolding neuron_value
  neuron_value-MiddleAround i j u n hi hj own =
      let cells : List (ℕ × ℕ) = neuron_cells m.uxdim m.uydim i j in
      let vs : List D = values real m.uxdim m.uydim f cells in
      let (least, most) = few_neuron_cells m.uxdim m.uydim i j in
      let few = length-values real m.uxdim m.uydim f cells in
      let middle_value =
        table_value-Middle real vs (omega (arith, few, least)) (omega (arith, few, most)) in
      rw
        (
          read_cells-values real m.uxdim m.uydim f u n cells
              (neuron_cells-Inside m.uxdim m.uydim i j wide high hi hj)
              (neuron_cells-Between m.uxdim m.uydim i j wide high hi hj own),
          sym few,
        )
        (Returns-weaken middle_value (λ v middle. record {
          cells = cells;
          touch = neuron_cells-around m.uxdim m.uydim i j wide high hi hj (ground (arith, own));
          middle = middle;
        }))

  put-Neurons :
      (part : ℕ → ℕ → Bool) (i j : ℕ) (v : D) (u : RMatrix Info D)
      → i < m.uxdim
      → j < m.uydim
      → is_between i j ≡ false
      → MiddleAround real m.uxdim m.uydim f i j v
      → Neurons real m.uxdim m.uydim f part u
      → Returns
          (Neurons real m.uxdim m.uydim f (λ a b. part a b || ((i == a) && (j == b))))
          (put u i j v)
  put-Neurons part i j v u hi hj own good n =
      Returns-weaken (put-Put u i j v n.shape hi hj) (λ u' q. record {
        shape = q.shape;
        between =
            λ a b ha hb odd. q.elsewhere a b (ground (arith, own, odd)) ∙ n.between a b ha hb odd;
        middles = λ a b ha hb mine e.
            same_or_apart (λ a b. Holds real m.uxdim m.uydim f a b (cell u' a b)) i j a b
              (record { value = v; good = good; holds = q.here })
              (λ apart.
                subst (Holds real m.uxdim m.uydim f a b) (sym (q.elsewhere a b apart))
                  (n.middles a b ha hb mine (ground (arith, e, apart))));
      })

  -- The neurons of the rows before `2 * y`, and in that row those before `2 * x`.
  abbrev visited : ℕ → ℕ → ℕ → ℕ → Bool
  visited y x a b = ltb b (2 * y) || ((b == 2 * y) && ltb a (2 * x))

  -- If the cells between the neurons hold `f`, and the U-matrix has more than one cell each way, the
  -- double loop of `buildUMatrix` of a hexagonal map returns and leaves these cells as they are. Every
  -- neuron then has the middle of the values of `f` at the cells that touch its own on the hexagonal
  -- grid, each taken once: the mean if they are two; else, in ascending order, the one in the middle
  -- or the mean of the two there.
  pub medians-Neurons :
      (u : RMatrix Info D)
      → Neurons real m.uxdim m.uydim f (λ a b. false) u
      → Returns (Neurons real m.uxdim m.uydim f (λ a b. true)) (medians real m u)
  unfolding medians
  medians-Neurons u start =
      Returns-weaken
        (for-Returns (λ y now. Neurons real m.uxdim m.uydim f (visited y 0) now) _ 0
          ((m.uydim + 1) / 2) ((m.uydim + 1) / 2) 0 u (omega arith) (omega arith)
          (Neurons-weaken real m.uxdim m.uydim f (λ a b. false) (visited 0 0) u
            (λ a b ha hb own e. ground (arith, e)) start)
          (λ y row lo below n. row-Neurons y row below n))
        (λ u' n.
          Neurons-weaken real m.uxdim m.uydim f (visited ((m.uydim + 1) / 2) 0) (λ a b. true) u'
            (λ a b ha hb own e. ground (arith, hb)) n)
    where
      row-Neurons :
          (y : ℕ) (row : RMatrix Info D)
          → y < (m.uydim + 1) / 2
          → Neurons real m.uxdim m.uydim f (visited y 0) row
          → Returns (Neurons real m.uxdim m.uydim f (visited (suc y) 0)) (
              for
                ((m.uxdim + 1) / 2)
                0
                (λ x now. neuron_value real m (2 * x) (2 * y) now >>= put now (2 * x) (2 * y))
                row)
      row-Neurons y row below n =
          Returns-weaken
            (for-Returns (λ x now. Neurons real m.uxdim m.uydim f (visited y x) now) _ 0
              ((m.uxdim + 1) / 2) ((m.uxdim + 1) / 2) 0 row (omega arith) (omega arith) n
              (λ x now lo inside k.
                let hi : 2 * x < m.uxdim = omega (arith, inside) in
                let hj : 2 * y < m.uydim = omega (arith, below) in
                let own : is_between (2 * x) (2 * y) ≡ false = ground arith in
                Returns-bind (neuron_value-MiddleAround (2 * x) (2 * y) now k hi hj own) (λ v good.
                  Returns-weaken (put-Neurons (visited y x) (2 * x) (2 * y) v now hi hj own good k)
                    (λ u' r.
                      Neurons-weaken real m.uxdim m.uydim f
                        (λ a b. visited y x a b || ((2 * x == a) && (2 * y == b)))
                        (visited y (suc x)) u' (λ a b ha hb mine e. ground (arith, mine, e)) r))))
            (λ u' r.
              Neurons-weaken real m.uxdim m.uydim f (visited y ((m.uxdim + 1) / 2))
                (visited (suc y) 0) u' (λ a b ha hb mine e. ground (arith, ha, mine, e)) r)
